-- ===== src/Dataplane/Ext/Encode.antt =====
-- The iterator of ext.rs on a block in the one-byte form: it gives back the elements it was made of.
use nexus_sfu.Base.{
  ℕ, zero, suc, ◌+◌, ◌-◌, ◌*◌, ◌/◌, ◌%◌, ◌^◌, ◌≤◌, ◌<◌, bit_or, ◌≡◌, refl, sym, ap, ◌∙◌, inl, inr,
  true, false, Option, none, some, List, [], ◌∷◌, ◌++◌, append_assoc, arith, leb, ◌==◌, Bool-cases,
  length, get_elem?, take, drop, replicate, length-append, length-drop,
}
use nexus_sfu.Base.Bits.{bit_or_fields}
use nexus_sfu.Base.Slices.{drop-drop, take-append, drop-append}
use nexus_sfu.Dataplane.Ext.{
  Element, Elements, start, skip_padding, element_head, take_slice, take_element, next_at, next,
  collect_next, collect, slice?, max_elements,
}

-- One element in the one-byte form, and several.
unfoldable pub encode_element : ℕ → List ℕ → List ℕ
encode_element id bytes = bit_or (id * 2 ^ 4 % 256) (length bytes - 1) ∷ bytes

unfoldable pub encode : List Element → List ℕ
unfolding encode_element
encode [] = []
encode (e ∷ es) = encode_element e.id e.bytes ++ encode es

-- An id and a length that the one-byte form has.
abbrev pub IsOneByte : Element → Type 0
IsOneByte e = (0 < e.id) × (e.id < 15) × (0 < length e.bytes) × (length e.bytes ≤ 16)

abbrev pub AreOneByte : List Element → Type 0
AreOneByte [] = Unit {0}
AreOneByte (e ∷ es) = IsOneByte e × AreOneByte es

skip_padding-zeros : (n at : ℕ) → skip_padding false (replicate n 0) at ≡ at + n
unfolding skip_padding
skip_padding-zeros zero at = omega arith
skip_padding-zeros (suc n) at = rw (skip_padding-zeros n (at + 1)) (omega arith)

head_byte :
    (id len : ℕ)
    → id < 15
    → 0 < len
    → len ≤ 16
    → bit_or (id * 2 ^ 4 % 256) (len - 1) ≡ id * 16 + (len - 1)
head_byte id len h h' h'' =
    ap (λ n. bit_or n (len - 1)) (omega arith) ∙ bit_or_fields 4 id (len - 1) (omega arith)

-- The index of a byte behind a prefix.
get_elem?-drop {ℓ} : {A : Type ℓ} (xs : List A) (i : ℕ) → get_elem? xs i ≡ get_elem? (drop i xs) 0
get_elem?-drop [] zero = refl
get_elem?-drop [] (suc i) = refl
get_elem?-drop (x ∷ xs) zero = refl
get_elem?-drop (x ∷ xs) (suc i) = get_elem?-drop xs i

module _ (block : List ℕ) (at seen : ℕ) (e : Element) (rest : List ℕ) (valid : IsOneByte e)
    (here : drop at block ≡ encode_element e.id e.bytes ++ rest) where
  byte_value : bit_or (e.id * 2 ^ 4 % 256) (length e.bytes - 1) ≡ e.id * 16 + (length e.bytes - 1)
  byte_value = head_byte e.id (length e.bytes) valid.1 valid.2 valid.3

  no_padding : skip_padding false (drop at block) at ≡ at
  unfolding skip_padding encode_element
  no_padding = rw here (ground (arith, byte_value, valid))

  first_byte : get_elem? block at ≡ some (e.id * 16 + (length e.bytes - 1))
  unfolding encode_element
  first_byte = get_elem?-drop block at ∙ ap (λ xs. get_elem? xs 0) here ∙ ap some byte_value

  room_left : at + 1 + length e.bytes ≤ length block
  unfolding encode_element
  room_left = omega (arith, length-drop at block, ap length here, length-append e.bytes rest)

  data_part : take (length e.bytes) (drop (at + 1) block) ≡ e.bytes
  unfolding encode_element
  data_part =
      ap (take (length e.bytes)) (sym (drop-drop at 1 block) ∙ ap (drop 1) here)
      ∙ take-append e.bytes rest

  rest_part : drop (at + 1 + length e.bytes) block ≡ rest
  unfolding encode_element
  rest_part =
      sym (drop-drop (at + 1) (length e.bytes) block)
      ∙ ap (drop (length e.bytes)) (sym (drop-drop at 1 block) ∙ ap (drop 1) here)
      ∙ drop-append e.bytes rest

  head_lem :
      element_head block false at (e.id * 16 + (length e.bytes - 1))
      ≡ some (e.id, length e.bytes, at + 1)
  unfolding element_head
  head_lem =
      let q : (e.id * 16 + (length e.bytes - 1)) / 16 ≡ e.id = omega (arith, valid) in
      let r : (e.id * 16 + (length e.bytes - 1)) % 16 + 1 ≡ length e.bytes = omega (arith, valid) in
      let low : (e.id == 15) ≡ false = ground (arith, valid) in rw q (rw r (rw low refl))

  take_lem :
      (it : Elements)
      → slice? it.block (at + 1) (length e.bytes) ≡ some e.bytes
      → take_element it (some (e.id, length e.bytes, at + 1))
        ≡ (some e, record it { at = at + 1 + length e.bytes; seen = it.seen + 1 })
  unfolding take_element
  take_lem it h = ap (take_slice it e.id (at + 1 + length e.bytes)) h

  next-element :
      seen < 16
      → next (record { block = block; at = at; two_byte = false; seen = seen }) ≡ (
        some e,
        record { block = block; at = at + 1 + length e.bytes; two_byte = false; seen = seen + 1 },
      )
  unfolding next next_at
  next-element h =
      let not_last : (seen == 16) ≡ false = ground arith in
      let inside : leb (at + 1 + length e.bytes) (length block) ≡ true =
        ground (arith, room_left) in
      rw not_last (
        rw no_padding (
          rw first_byte (
            rw head_lem (
              take_lem (record { block = block; at = at; two_byte = false; seen = seen })
                (rw inside (ap some data_part))))))

drop_zeros : (n : ℕ) → drop n (replicate n (let z : ℕ = 0 in z)) ≡ []
drop_zeros zero = refl
drop_zeros (suc n) = drop_zeros n

stops :
    (rest : Elements → List Element) (r : Option Element × Elements)
    → r.0 ≡ none
    → collect_next rest r ≡ []
unfolding collect_next
stops rest (none, it) h = refl
stops rest (some e, it) h = cc

-- At the padding the iterator ends.
next-padding :
    (block : List ℕ) (at seen n : ℕ)
    → drop at block ≡ replicate n 0
    → (next (record { block = block; at = at; two_byte = false; seen = seen })).0 ≡ none
unfolding next next_at
next-padding block at seen n here = elim (Bool-cases (seen == 16)) [
  | inl e ↦ rw e refl
  | inr e ↦
      let ended : skip_padding false (drop at block) at ≡ at + n =
        rw here (skip_padding-zeros n at) in
      let past : get_elem? block (at + n) ≡ none =
        get_elem?-drop block (at + n)
        ∙ ap (λ xs. get_elem? xs 0)
            (sym (drop-drop at n block) ∙ ap (drop n) here ∙ drop_zeros n) in
      rw e (rw ended (rw past refl))
]

-- A run over encoded elements, with as many rounds as there are elements or more.
collect-encode :
    (es : List Element) (block : List ℕ) (at seen n fuel : ℕ)
    → AreOneByte es
    → drop at block ≡ encode es ++ replicate n 0
    → seen + length es ≤ 16
    → length es ≤ fuel
    → collect fuel (record { block = block; at = at; two_byte = false; seen = seen }) ≡ es
unfolding collect encode
collect-encode [] block at seen n zero valid here room h = refl
collect-encode [] block at seen n (suc fuel) valid here room h =
    stops (collect fuel) (next (record { block = block; at = at; two_byte = false; seen = seen }))
      (next-padding block at seen n here)
collect-encode (e ∷ es) block at seen n zero valid here room h = elim h [ ]
collect-encode (e ∷ es) block at seen n (suc fuel) (one, valid) here room h =
    let here' = here ∙ append_assoc (encode_element e.id e.bytes) (encode es) (replicate n 0) in
    ap (collect_next (collect fuel))
      (next-element block at seen e (encode es ++ replicate n 0) one here' (omega arith))
    ∙ ap (λ xs. e ∷ xs)
        (collect-encode es block (at + 1 + length e.bytes) (seen + 1) n fuel valid
          (rest_part block at seen e (encode es ++ replicate n 0) one here') (omega arith)
          (omega arith))

-- At most 16 elements in the one-byte form, encoded and padded, are read back.
pub elements-encode :
    (es : List Element) (n : ℕ)
    → AreOneByte es
    → length es ≤ 16
    → collect max_elements (start (encode es ++ replicate n 0) false) ≡ es
elements-encode es n valid room =
    collect-encode es (encode es ++ replicate n 0) 0 0 n 16 valid refl (omega arith) room
