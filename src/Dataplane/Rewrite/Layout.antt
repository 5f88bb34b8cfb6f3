-- ===== src/Dataplane/Rewrite/Layout.antt =====
-- The bytes that rewrite.rs writes for the header extensions, as one list.
use nexus_sfu.Base.{
  ℕ, ◌+◌, ◌-◌, ◌*◌, ◌/◌, ◌%◌, ◌^◌, ◌≤◌, ◌<◌, bit_or, ◌≡◌, refl, sym, ap, ap₂, subst, ◌∙◌, ◌⊎◌, inl,
  inr, Option, none, some, List, [], ◌∷◌, ◌++◌, append_assoc, append-nil, arith, ltb, ◌==◌,
  if◌then◌else◌, Bool-cases, length, replicate, length-append, Result, ok, err,
}
use nexus_sfu.Base.Bytes.{u16_bytes, write_at}
use nexus_sfu.Base.Slices.{
  slice, slice-add, length-write_at, slice-write_at_before, slice-write_at_self,
}
use nexus_sfu.Dataplane.Ext.{Element}
use nexus_sfu.Dataplane.Subscription.{Subscription}
use nexus_sfu.Dataplane.Rewrite.{RewriteError, too_large}
use nexus_sfu.Dataplane.Rewrite.Write.{
  Cursor, write_element, target_id, write_kept, write_elements, write_mid,
}

-- One element in the one-byte form.
unfoldable pub encode_element : ℕ → List ℕ → List ℕ
encode_element id bytes = bit_or (id * 2 ^ 4 % 256) (length bytes - 1) ∷ bytes

-- The elements of the packet that are kept, with the subscriber's ids.
unfoldable pub encode_kept : Subscription → List Element → List ℕ
unfolding encode_element
encode_kept sub [] = []
encode_kept sub (e ∷ es) =
    let rest = encode_kept sub es in
    elim (target_id sub e) [ none ↦ rest | some to ↦ encode_element to e.bytes ++ rest ]

unfoldable pub encode_mid : Subscription → List ℕ
unfolding encode_element
encode_mid sub = if sub.ext_map.mid == 0 then [] else encode_element sub.ext_map.mid sub.mid

-- The whole block: nothing, or a header, the elements and the padding to a multiple of four.
unfoldable pub block_bytes : List ℕ → List ℕ
block_bytes [] = []
block_bytes (x ∷ xs) =
    let words = (length (x ∷ xs) + 3) / 4 in
    u16_bytes 0xBEDE ++ (u16_bytes words ++ ((x ∷ xs) ++ replicate (words * 4 - length (x ∷ xs)) 0))

-- The buffer holds `ys` at `i`, is as before in front of it and as long as before; or `ys` does
-- not fit, and that is the error.
abbrev pub Fills : List ℕ → ℕ → List ℕ → Result RewriteError Cursor → Type 0
Fills old i ys (ok (end, dst)) =
    (end ≡ i + length ys)
    × ((length ys ≡ 0) ⊎ (i + length ys ≤ length old))
    × (length dst ≡ length old)
    × (slice i (length ys) dst ≡ ys)
    × ((j k : ℕ) → j + k ≤ i → slice j k dst ≡ slice j k old)
Fills old i ys (err e) = (e ≡ too_large) × (0 < length ys) × (length old < i + length ys)

append-Fills :
    (old : List ℕ) (i : ℕ) (ys zs : List ℕ) (end : ℕ) (dst : List ℕ)
    → end + length zs ≤ length dst
    → Fills old i ys (ok (end, dst))
    → Fills old i (ys ++ zs) (ok (end + length zs, write_at dst end zs))
append-Fills old i ys zs end dst fits (at_end, room, same, holds, frame) =
    let total = length-append ys zs in
    (
      omega (arith, total),
      inr (omega (arith, total)),
      length-write_at dst end zs fits ∙ same,
      ap (λ n. slice i n (write_at dst end zs)) total
          ∙ slice-add i (length ys) (length zs) (write_at dst end zs)
          ∙ ap₂ ◌++◌ (slice-write_at_before dst end zs fits i (length ys) (omega arith) ∙ holds) (
              ap (λ n. slice n (length zs) (write_at dst end zs)) (sym at_end)
              ∙ slice-write_at_self dst end zs fits),
      λ j k h. slice-write_at_before dst end zs fits j k (omega arith) ∙ frame j k h,
    )

write_element-Fills :
    (old : List ℕ) (i : ℕ) (ys : List ℕ) (cursor : Cursor) (id : ℕ) (bytes : List ℕ)
    → Fills old i ys (ok cursor)
    → Fills old i (ys ++ encode_element id bytes) (write_element cursor id bytes)
unfolding write_element encode_element
write_element-Fills old i ys (end, dst) id bytes (at_end, room, same, holds, frame) =
    elim (Bool-cases (ltb (length dst) (end + 1 + length bytes))) [
      | inl e ↦ rw e (
        refl,
        omega (arith, length-append ys (bit_or (id * 2 ^ 4 % 256) (length bytes - 1) ∷ bytes)),
        ground (arith, length-append ys (bit_or (id * 2 ^ 4 % 256) (length bytes - 1) ∷ bytes)),
      )
      | inr e ↦ rw e (
          subst
            (λ n.
              Fills old i (ys ++ encode_element id bytes)
                (ok (n, write_at dst end (encode_element id bytes))))
            (omega arith)
            (append-Fills old i ys (encode_element id bytes) end dst (ground arith)
              (at_end, room, same, holds, frame)))
    ]

-- A longer list does not fit either.
longer-append : (ys zs : List ℕ) → 0 < length ys → 0 < length (ys ++ zs)
longer-append ys zs h = omega (arith, length-append ys zs)

overflow-append :
    (old : List ℕ) (i : ℕ) (ys zs : List ℕ)
    → length old < i + length ys
    → length old < i + length (ys ++ zs)
overflow-append old i ys zs h = omega (arith, length-append ys zs)

after_element :
    (old : List ℕ) (i : ℕ) (ys : List ℕ) (r : Result RewriteError Cursor)
    (rest : Cursor → Result RewriteError Cursor) (tail : List ℕ)
    → ((ys' : List ℕ) (c : Cursor) → Fills old i ys' (ok c) → Fills old i (ys' ++ tail) (rest c))
    → Fills old i ys r
    → Fills old i (ys ++ tail) (elim r [ ok c ↦ rest c | err e ↦ err e ])
after_element old i ys (err e) rest tail step (is_large, some_data, h) =
    (is_large, longer-append ys tail some_data, overflow-append old i ys tail h)
after_element old i ys (ok c) rest tail step h = step ys c h

write_kept-Fills :
    (old : List ℕ) (i : ℕ) (ys : List ℕ) (cursor : Cursor) (bytes : List ℕ) (id : Option ℕ)
    (rest : Cursor → Result RewriteError Cursor) (tail : List ℕ)
    → ((ys' : List ℕ) (c : Cursor) → Fills old i ys' (ok c) → Fills old i (ys' ++ tail) (rest c))
    → Fills old i ys (ok cursor)
    → Fills old i
        (ys ++ (elim id [ none ↦ tail | some to ↦ encode_element to bytes ++ tail ]))
        (write_kept rest cursor bytes id)
unfolding write_kept
write_kept-Fills old i ys cursor bytes none rest tail step h = step ys cursor h
write_kept-Fills old i ys cursor bytes (some to) rest tail step h =
    subst (λ zs. Fills old i zs (write_kept rest cursor bytes (some to)))
      (append_assoc ys (encode_element to bytes) tail)
      (after_element old i (ys ++ encode_element to bytes) (write_element cursor to bytes) rest tail
        step (write_element-Fills old i ys cursor to bytes h))

pub write_elements-Fills :
    (sub : Subscription) (es : List Element) (old : List ℕ) (i : ℕ) (ys : List ℕ) (cursor : Cursor)
    → Fills old i ys (ok cursor)
    → Fills old i (ys ++ encode_kept sub es) (write_elements sub es cursor)
unfolding write_elements encode_kept
write_elements-Fills sub [] old i ys cursor h =
    subst (λ zs. Fills old i zs (ok cursor)) (sym (append-nil ys)) h
write_elements-Fills sub (e ∷ es) old i ys cursor h =
    write_kept-Fills old i ys cursor e.bytes (target_id sub e) (write_elements sub es)
      (encode_kept sub es) (λ ys' c h'. write_elements-Fills sub es old i ys' c h') h

pub write_mid-Fills :
    (sub : Subscription) (old : List ℕ) (i : ℕ) (ys : List ℕ) (r : Result RewriteError Cursor)
    → Fills old i ys r
    → Fills old i (ys ++ encode_mid sub) (write_mid sub r)
unfolding write_mid encode_mid
write_mid-Fills sub old i ys (err e) (is_large, some_data, h) = (
  is_large,
  longer-append ys (encode_mid sub) some_data,
  overflow-append old i ys (encode_mid sub) h,
)
write_mid-Fills sub old i ys (ok cursor) h = elim (Bool-cases (sub.ext_map.mid == 0)) [
  | inl e ↦ rw e (subst (λ zs. Fills old i zs (ok cursor)) (sym (append-nil ys)) h)
  | inr e ↦ rw e (write_element-Fills old i ys cursor sub.ext_map.mid sub.mid h)
]
