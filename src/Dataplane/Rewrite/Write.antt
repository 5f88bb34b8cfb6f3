-- ===== src/Dataplane/Rewrite/Write.antt =====
-- The byte part of rewrite.rs: `write_element`, `write_extensions` and `rewrite`.
use nexus_sfu.Base.{
  ℕ, ◌+◌, ◌-◌, ◌*◌, ◌/◌, ◌%◌, ◌^◌, bit_and, bit_or, Bool, ◌||◌, Option, none, some, List, [], ◌∷◌,
  ◌++◌, ltb, leb, ◌==◌, if◌then◌else◌, length, get_or, take, drop, replicate, Result, ok, err,
}
use nexus_sfu.Base.Bytes.{u16_bytes, u32_bytes, write_at}
use nexus_sfu.Media.RtpHeader.{RtpHeader}
use nexus_sfu.Dataplane.Ext.{Element, all_elements, max_one_byte_len}
use nexus_sfu.Dataplane.Subscription.{Subscription, map_pt}
use nexus_sfu.Dataplane.Rewrite.{
  RewriteError, unmapped_pt, too_large, Advance, add_16, add_32, offsets,
}

-- A cursor: the end of what was written, and the buffer.
abbrev pub Cursor : Type 0
Cursor = ℕ × List ℕ

-- `write_element`; its debug assertion (an id of 1 to 14, a length of 1 to 16) is what its callers
-- keep.
unfoldable pub write_element : Cursor → ℕ → List ℕ → Result RewriteError Cursor
write_element (at, dst) id bytes =
    let end = at + 1 + length bytes in
    if ltb (length dst) end
    then err too_large
    else ok (end, write_at dst at (bit_or (id * 2 ^ 4 % 256) (length bytes - 1) ∷ bytes))

-- The subscriber's id for an element, if it is kept: the tests of the loop in `write_extensions`.
unfoldable pub target_id : Subscription → Element → Option ℕ
target_id sub e =
    let to = get_or sub.ext_map.map e.id 0 in
    if e.id == sub.pub_mid
      || leb (length sub.ext_map.map) e.id
      || ltb max_one_byte_len (length e.bytes)
    then none
    else (if to == 0 || length e.bytes == 0 then none else some to)

-- The loop over the elements.
unfoldable pub write_kept :
    (Cursor → Result RewriteError Cursor) → Cursor → List ℕ → Option ℕ → Result RewriteError Cursor
unfolding write_element
write_kept rest cursor bytes none = rest cursor
write_kept rest cursor bytes (some to) = elim (write_element cursor to bytes) [
  | ok cursor' ↦ rest cursor'
  | err e ↦ err e
]

unfoldable pub write_elements : Subscription → List Element → Cursor → Result RewriteError Cursor
unfolding write_kept target_id
write_elements sub [] cursor = ok cursor
write_elements sub (e ∷ es) cursor =
    write_kept (write_elements sub es) cursor e.bytes (target_id sub e)

-- The subscriber's mid, unless its answer declined it.
unfoldable pub write_mid : Subscription → Result RewriteError Cursor → Result RewriteError Cursor
unfolding write_element
write_mid sub (err e) = err e
write_mid sub (ok cursor) =
    if sub.ext_map.mid == 0 then ok cursor else write_element cursor sub.ext_map.mid sub.mid

-- The padding and the block's header.
unfoldable pub close_block : ℕ → Result RewriteError Cursor → Result RewriteError Cursor
close_block at (err e) = err e
close_block at (ok (end, dst)) =
    let block = at + 4 in
    let padded = block + (end - block + 3) / 4 * 4 in
    if end == block
    then ok (at, dst)
    else (if ltb (length dst) padded
        then err too_large
        else ok (
          padded,
          write_at (write_at (write_at dst end (replicate (padded - end) 0)) at (u16_bytes 0xBEDE))
              (at + 2) (u16_bytes ((padded - block) / 4)),
        ))

-- `write_extensions` on the elements of the packet
unfoldable pub write_extensions :
    Subscription → List Element → List ℕ → ℕ → Result RewriteError Cursor
unfolding write_elements write_mid close_block
write_extensions sub es dst at =
    close_block at (write_mid sub (write_elements sub es (at + 4, dst)))

-- The first 12 bytes of the output.
unfoldable pub fixed_bytes : List ℕ → RtpHeader → Subscription → ℕ → Bool → ℕ → ℕ → List ℕ
fixed_bytes src hdr sub pt extended seq ts =
    bit_or (bit_or (bit_or 0x80 (bit_and (get_or src 0 0) 0x20)) (if extended then 0x10 else 0))
      hdr.csrc_count
    ∷ bit_or (bit_and (get_or src 1 0) 0x80) pt
    ∷ (u16_bytes seq ++ (u32_bytes ts ++ u32_bytes sub.rewrite.out_ssrc))

-- What a rewritten packet gives: its length, the state to commit, the buffer and the generator.
pub record Rewritten : Type 0 where
  pub out_len : ℕ
  pub advance : Advance
  pub dst : List ℕ
  pub rng : ℕ

-- `rewrite` after the extensions: the payload, the numbers and the fixed header.
unfoldable pub rewrite_payload :
    List ℕ
    → RtpHeader
    → Subscription
    → ℕ
    → ℕ
    → ℕ
    → Result RewriteError Cursor
    → Result RewriteError Rewritten
unfolding fixed_bytes
rewrite_payload src hdr sub rng now pt (err e) = err e
rewrite_payload src hdr sub rng now pt (ok (header_end, dst)) =
    let payload = drop hdr.header_len_bytes src in
    let out_len = header_end + length payload in
    let (seq_offset, ts_offset, rebased, rng') = offsets sub.rewrite hdr sub.clock_rate rng now in
    let seq = add_16 hdr.sequence_number seq_offset in
    let ts = add_32 hdr.timestamp ts_offset in
    let extended = ltb (12 + 4 * hdr.csrc_count) header_end in
    if ltb (length dst) out_len
    then err too_large
    else ok (record {
      out_len = out_len;
      advance = record {
        seq_offset = seq_offset;
        ts_offset = ts_offset;
        in_seq = hdr.sequence_number;
        out_seq = seq;
        out_ts = ts;
        rebased = rebased;
      };
      dst =
          write_at (write_at dst header_end payload) 0 (fixed_bytes src hdr sub pt extended seq ts);
      rng = rng';
    })

unfoldable pub rewrite_mapped :
    List ℕ → RtpHeader → Subscription → ℕ → ℕ → List ℕ → Option ℕ → Result RewriteError Rewritten
unfolding rewrite_payload write_extensions
rewrite_mapped src hdr sub rng now dst none = err unmapped_pt
rewrite_mapped src hdr sub rng now dst (some pt) =
    let csrc_end = 12 + 4 * hdr.csrc_count in
    if ltb (length dst) csrc_end
    then err too_large
    else rewrite_payload src hdr sub rng now pt (
        write_extensions sub (all_elements src hdr)
          (write_at dst 12 (take (csrc_end - 12) (drop 12 src))) csrc_end)

-- `rewrite`
unfoldable pub rewrite :
    List ℕ → RtpHeader → Subscription → ℕ → ℕ → List ℕ → Result RewriteError Rewritten
unfolding rewrite_mapped
rewrite src hdr sub rng now dst =
    rewrite_mapped src hdr sub rng now dst (map_pt sub.pt_map hdr.payload_type)
