-- ===== src/Dataplane/Ext.antt =====
-- crates/nexus-dataplane/src/ext.rs: the iterator over a packet's header extension elements.
pub mod Encode
pub mod Total
use nexus_sfu.Base.{
  ℕ, zero, suc, ◌+◌, ◌-◌, ◌*◌, ◌/◌, ◌%◌, Bool, true, false, ◌||◌, Option, none, some, List, [], ◌∷◌,
  ltb, leb, ◌==◌, if◌then◌else◌, length, get_elem?, take, drop,
}
use nexus_sfu.Base.Bytes.{be_u16}
use nexus_sfu.Media.RtpHeader.{RtpHeader}

abbrev pub max_elements : ℕ
max_elements = 16

abbrev pub max_one_byte_len : ℕ
max_one_byte_len = 16

-- `Element`
pub record Element : Type 0 where
  pub id : ℕ
  pub bytes : List ℕ

-- `Elements`: the iterator's state.
pub record Elements : Type 0 where
  pub block : List ℕ
  pub at : ℕ
  pub two_byte : Bool
  pub seen : ℕ

abbrev pub start : List ℕ → Bool → Elements
start block two_byte = record { block = block; at = 0; two_byte = two_byte; seen = 0 }

-- `elements`; `p & 0xFFF0 == 0x1000` is the test of the upper 12 bits.
unfoldable pub elements : List ℕ → RtpHeader → Elements
elements packet header =
    let first = 12 + 4 * header.csrc_count in
    let end = header.header_len_bytes in
    let block = take (end - (first + 4)) (drop (first + 4) packet) in
    let profile = be_u16 packet first in
    if header.extension
    then (if ltb end (first + 4) || ltb (length packet) end
        then start [] false
        else (if profile == 0xBEDE
            then start block false
            else (if profile / 16 * 16 == 0x1000 then start block true else start [] false)))
    else start [] false

-- Padding between elements: any byte with ID 0 in the one-byte form, a zero in the two-byte form.
abbrev pub is_padding : Bool → ℕ → Bool
is_padding true byte = byte == 0
is_padding false byte = byte / 16 == 0

-- The loop over padding, on the bytes from `at` on.
unfoldable pub skip_padding : Bool → List ℕ → ℕ → ℕ
skip_padding two_byte [] at = at
skip_padding two_byte (byte ∷ rest) at =
    let next = skip_padding two_byte rest (at + 1) in if is_padding two_byte byte then next else at

-- `block.get(at..at + len)`
abbrev pub slice? : List ℕ → ℕ → ℕ → Option (List ℕ)
slice? block at len =
    if leb (at + len) (length block) then some (take len (drop at block)) else none

-- The id, length and data offset of the element whose first byte is read at `at`.
unfoldable pub element_head : List ℕ → Bool → ℕ → ℕ → Option (ℕ × ℕ × ℕ)
element_head block true at first = elim (get_elem? block (at + 1)) [
  | none ↦ none
  | some len ↦ some (first, len, at + 2)
]
element_head block false at first =
    if first / 16 == 15 then none else some (first / 16, first % 16 + 1, at + 1)

-- The last step of `next`: the data, and the state after the element.
unfoldable pub take_slice : Elements → ℕ → ℕ → Option (List ℕ) → Option Element × Elements
take_slice it id end none = (none, it)
take_slice it id end (some bytes) =
    (some (record { id = id; bytes = bytes }), record it { at = end; seen = it.seen + 1 })

unfoldable pub take_element : Elements → Option (ℕ × ℕ × ℕ) → Option Element × Elements
unfolding take_slice
take_element it none = (none, it)
take_element it (some (id, len, data_at)) =
    take_slice it id (data_at + len) (slice? it.block data_at len)

unfoldable pub next_at : Elements → Option ℕ → Option Element × Elements
unfolding take_element element_head
next_at it none = (none, it)
next_at it (some first) = take_element it (element_head it.block it.two_byte it.at first)

-- `Iterator::next`
unfoldable pub next : Elements → Option Element × Elements
unfolding next_at skip_padding
next it =
    if it.seen == max_elements
    then (none, it)
    else (let it' : Elements = record it {
      at = skip_padding it.two_byte (drop it.at it.block) it.at;
    } in
        next_at it' (get_elem? it'.block it'.at))

-- A `for` loop over the iterator, on fuel; `Total.collect-enough` shows that 16 rounds suffice.
unfoldable pub collect_next : (Elements → List Element) → Option Element × Elements → List Element
collect_next rest (none, it) = []
collect_next rest (some e, it) = e ∷ rest it

unfoldable pub collect : ℕ → Elements → List Element
unfolding collect_next
collect zero it = []
collect (suc fuel) it = collect_next (collect fuel) (next it)

-- The elements of a packet, as `for element in ext::elements(src, hdr)` runs through them.
unfoldable pub all_elements : List ℕ → RtpHeader → List Element
all_elements packet header = collect max_elements (elements packet header)

-- `find`
unfoldable pub find_in : ℕ → List Element → Option (List ℕ)
find_in id [] = none
find_in id (e ∷ es) = if e.id == id then some e.bytes else find_in id es

unfoldable pub find : List ℕ → RtpHeader → ℕ → Option (List ℕ)
unfolding find_in all_elements
find packet header id = if id == 0 then none else find_in id (all_elements packet header)
