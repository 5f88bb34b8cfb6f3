-- ===== src/Dataplane/Rewrite/Block.antt =====
-- The end of the extension block in rewrite.rs: the padding and the block's header.
use nexus_sfu.Base.{
  ℕ, ◌+◌, ◌-◌, ◌*◌, ◌/◌, ◌≤◌, ◌≡◌, refl, sym, ap, ap₂, subst, ◌∙◌, inl, inr, true, false, List, [],
  ◌∷◌, ◌++◌, arith, ltb, ◌==◌, Bool-cases, length, replicate, length-append, length-replicate,
  Result, ok, err,
}
use nexus_sfu.Base.Bytes.{u16_bytes, write_at}
use nexus_sfu.Base.Slices.{
  slice, slice-add, length-write_at, slice-write_at_before, slice-write_at_self,
  slice-write_at_after,
}
use nexus_sfu.Dataplane.Rewrite.{RewriteError}
use nexus_sfu.Dataplane.Rewrite.Write.{
  Cursor, close_block, write_extensions, write_mid, write_elements,
}
use nexus_sfu.Dataplane.Ext.{Element}
use nexus_sfu.Dataplane.Subscription.{Subscription}
use nexus_sfu.Dataplane.Rewrite.Layout.{
  encode_kept, encode_mid, write_elements-Fills, write_mid-Fills, Fills, block_bytes,
}

-- Padding written at the end, then two words in front.
module _ (dst : List ℕ) (at : ℕ) (enc zeros high low : List ℕ) (two : length high ≡ 2)
    (two' : length low ≡ 2) (fits : at + 4 + length enc + length zeros ≤ length dst)
    (holds : slice (at + 4) (length enc) dst ≡ enc) where
  d₁ : List ℕ
  d₁ = write_at dst (at + 4 + length enc) zeros

  d₂ : List ℕ
  d₂ = write_at d₁ at high

  framed : List ℕ
  framed = write_at d₂ (at + 2) low

  same₁ : length d₁ ≡ length dst
  unfolding d₁
  same₁ = length-write_at dst (at + 4 + length enc) zeros fits

  same₂ : length d₂ ≡ length dst
  unfolding d₂
  same₂ = length-write_at d₁ at high (omega (arith, same₁)) ∙ same₁

  length-framed : length framed ≡ length dst
  unfolding framed
  length-framed = length-write_at d₂ (at + 2) low (omega (arith, same₂)) ∙ same₂

  framed_before : (j k : ℕ) → j + k ≤ at → slice j k framed ≡ slice j k dst
  unfolding framed d₁ d₂
  framed_before j k h =
      slice-write_at_before d₂ (at + 2) low (omega (arith, same₂)) j k (omega arith)
      ∙ slice-write_at_before d₁ at high (omega (arith, same₁)) j k h
      ∙ slice-write_at_before dst (at + 4 + length enc) zeros fits j k (omega arith)

  framed_after : (j k : ℕ) → at + 4 ≤ j → slice j k framed ≡ slice j k d₁
  unfolding framed d₂
  framed_after j k h =
      slice-write_at_after d₂ (at + 2) low (omega (arith, same₂)) j k (omega arith)
      ∙ slice-write_at_after d₁ at high (omega (arith, same₁)) j k (omega arith)

  framed_high : slice at 2 framed ≡ high
  unfolding framed d₂
  framed_high =
      slice-write_at_before d₂ (at + 2) low (omega (arith, same₂)) at 2 (omega arith)
      ∙ ap (λ n. slice at n d₂) (sym two)
      ∙ slice-write_at_self d₁ at high (omega (arith, same₁))

  framed_low : slice (at + 2) 2 framed ≡ low
  unfolding framed
  framed_low =
      ap (λ n. slice (at + 2) n framed) (sym two')
      ∙ slice-write_at_self d₂ (at + 2) low (omega (arith, same₂))

  framed_rest : slice (at + 4) (length enc + length zeros) framed ≡ enc ++ zeros
  unfolding d₁
  framed_rest =
      framed_after (at + 4) (length enc + length zeros) (omega arith)
      ∙ slice-add (at + 4) (length enc) (length zeros) d₁
      ∙ ap₂ ◌++◌
          (slice-write_at_before dst (at + 4 + length enc) zeros fits (at + 4) (length enc)
              (omega arith)
            ∙ holds)
          (slice-write_at_self dst (at + 4 + length enc) zeros fits)

  framed_bytes :
      slice at (2 + (2 + (length enc + length zeros))) framed ≡ high ++ (low ++ (enc ++ zeros))
  framed_bytes =
      slice-add at 2 (2 + (length enc + length zeros)) framed
      ∙ ap₂ ◌++◌ framed_high (
          slice-add (at + 2) 2 (length enc + length zeros) framed
          ∙ ap₂ ◌++◌ framed_low
              (ap (λ n. slice n (length enc + length zeros) framed) (omega arith) ∙ framed_rest))

  framed-Fills :
      (old : List ℕ)
      → length dst ≡ length old
      → ((j k : ℕ) → j + k ≤ at → slice j k dst ≡ slice j k old)
      → Fills old at (high ++ (low ++ (enc ++ zeros))) (
          ok (
            at + 4 + length enc + length zeros,
            write_at (write_at (write_at dst (at + 4 + length enc) zeros) at high) (at + 2) low,
          ))
  unfolding framed d₁ d₂
  framed-Fills old same frame =
      let total : length (high ++ (low ++ (enc ++ zeros))) ≡ 2 + (2 + (length enc + length zeros)) =
        omega (
          arith,
          length-append high (low ++ (enc ++ zeros)),
          length-append low (enc ++ zeros),
          length-append enc zeros,
        ) in
      (
        omega (arith, total),
        inr (omega (arith, total)),
        length-framed ∙ same,
        ap (λ n. slice at n framed) total ∙ framed_bytes,
        λ j k h. framed_before j k h ∙ frame j k h,
      )

length-u16_bytes : (x : ℕ) → length (u16_bytes x) ≡ 2
unfolding u16_bytes
length-u16_bytes x = refl

length-block_bytes :
    (x : ℕ) (xs : List ℕ) → length (block_bytes (x ∷ xs)) ≡ 4 + (length (x ∷ xs) + 3) / 4 * 4
unfolding block_bytes u16_bytes
length-block_bytes x xs = omega (
  arith,
  length-append (x ∷ xs) (replicate ((length (x ∷ xs) + 3) / 4 * 4 - length (x ∷ xs)) 0),
  length-replicate ((length (x ∷ xs) + 3) / 4 * 4 - length (x ∷ xs)) (let z : ℕ = 0 in z),
)

-- The block around elements; the end of the elements is written out.
close_some :
    (old : List ℕ) (at x : ℕ) (xs : List ℕ) (dst : List ℕ)
    → Fills old (at + 4) (x ∷ xs) (ok (at + 4 + length (x ∷ xs), dst))
    → Fills old at (block_bytes (x ∷ xs)) (close_block at (ok (at + 4 + length (x ∷ xs), dst)))
unfolding close_block block_bytes
close_some old at x xs dst (at_end, room, same, holds, frame) =
    let n : ℕ = length (x ∷ xs) in
    let words : ℕ = (n + 3) / 4 in
    let zeros : List ℕ = replicate (words * 4 - n) 0 in
    let total : length (block_bytes (x ∷ xs)) ≡ 4 + words * 4 = length-block_bytes x xs in
    let pads : length zeros ≡ words * 4 - n = length-replicate (words * 4 - n) 0 in
    let some_data : (at + 4 + n == at + 4) ≡ false = ground arith in
    let padded : at + 4 + (at + 4 + n - (at + 4) + 3) / 4 * 4 ≡ at + 4 + words * 4 = omega arith in
    let fill : at + 4 + words * 4 - (at + 4 + n) ≡ words * 4 - n = omega arith in
    let count : (at + 4 + words * 4 - (at + 4)) / 4 ≡ words = omega arith in
    elim (Bool-cases (ltb (length dst) (at + 4 + words * 4))) [
      | inl e ↦ rw some_data (rw padded (rw e (refl, omega (arith, total), ground (arith, total))))
      | inr e ↦
          let fits : at + 4 + n + length zeros ≤ length dst = ground (arith, pads) in
          rw some_data (
            rw padded (
              rw e (
                rw fill (
                  rw count (
                    subst
                      (λ m. Fills old at (block_bytes (x ∷ xs)) (
                        ok (
                          m,
                          write_at
                              (write_at (write_at dst (at + 4 + n) zeros) at (u16_bytes 0xBEDE))
                              (at + 2) (u16_bytes words),
                        )))
                      (omega (arith, pads))
                      (framed-Fills dst at (x ∷ xs) zeros (u16_bytes 0xBEDE) (u16_bytes words)
                        (length-u16_bytes 0xBEDE) (length-u16_bytes words) fits holds old same
                        (λ j k h. frame j k (omega arith))))))))
    ]

pub close_block-Fills :
    (old : List ℕ) (at : ℕ) (enc : List ℕ) (r : Result RewriteError Cursor)
    → Fills old (at + 4) enc r
    → Fills old at (block_bytes enc) (close_block at r)
unfolding close_block block_bytes
close_block-Fills old at [] (ok (end, dst)) (at_end, room, same, holds, frame) =
    let none_yet : (end == at + 4) ≡ true = ground arith in
    rw none_yet (omega arith, inl refl, same, refl, λ j k h. frame j k (omega arith))
close_block-Fills old at (x ∷ xs) (ok (end, dst)) h =
    subst
      (λ n.
        Fills old (at + 4) (x ∷ xs) (ok (n, dst))
        → Fills old at (block_bytes (x ∷ xs)) (close_block at (ok (n, dst))))
      (sym h.0) (close_some old at x xs dst) h
close_block-Fills old at [] (err e) (is_large, some_data, h) = absurd (omega (arith, some_data))
close_block-Fills old at (x ∷ xs) (err e) (is_large, some_data, h) =
    (is_large, omega (arith, length-block_bytes x xs), omega (arith, length-block_bytes x xs))

-- The extension block that `write_extensions` writes.
unfoldable pub extension_bytes : Subscription → List Element → List ℕ
unfolding block_bytes encode_kept encode_mid
extension_bytes sub es = block_bytes (encode_kept sub es ++ encode_mid sub)

-- `write_extensions` writes exactly this block, or fails because it does not fit.
pub write_extensions-Fills :
    (sub : Subscription) (es : List Element) (dst : List ℕ) (at : ℕ)
    → Fills dst at (extension_bytes sub es) (write_extensions sub es dst at)
unfolding write_extensions extension_bytes
write_extensions-Fills sub es dst at =
    close_block-Fills dst at (encode_kept sub es ++ encode_mid sub)
      (write_mid sub (write_elements sub es (at + 4, dst)))
      (write_mid-Fills sub dst (at + 4) (encode_kept sub es) (write_elements sub es (at + 4, dst)) (
        write_elements-Fills sub es dst (at + 4) [] (at + 4, dst)
          (omega arith, inl refl, refl, refl, λ j k h. refl)))
