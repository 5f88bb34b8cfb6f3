-- ===== src/Base/Slices.antt =====
-- Parts of a list, `dst[i..i + k]` in Rust, and what a write leaves of them.
use nexus_sfu.Base.Lists.{length, take, drop, length-append, length-take, length-drop}
use nexus_sfu.Base.Bytes.{write_at}
use Prim.Native.Nat.{ℕ, zero, suc, ◌+◌, ◌-◌, ◌≤◌}
use mathlib.Core.Path.{◌≡◌, refl, sym, ap, ◌∙◌}
use mathlib.Core.List.{List, [], ◌∷◌, ◌++◌}
use native.Mathlib.Omega.{arith}

module _ {ℓ} {A : Type ℓ} where
  abbrev pub slice : ℕ → ℕ → List A → List A
  slice i k xs = take k (drop i xs)

  pub take-append : (xs ys : List A) → take (length xs) (xs ++ ys) ≡ xs
  take-append [] ys = refl
  take-append (x ∷ xs) ys = ap (λ zs. x ∷ zs) (take-append xs ys)

  pub drop-append : (xs ys : List A) → drop (length xs) (xs ++ ys) ≡ ys
  drop-append [] ys = refl
  drop-append (x ∷ xs) ys = drop-append xs ys

  pub take-whole : (n : ℕ) (xs : List A) → length xs ≤ n → take n xs ≡ xs
  take-whole zero [] h = refl
  take-whole zero (x ∷ xs) h = elim h [ ]
  take-whole (suc n) [] h = refl
  take-whole (suc n) (x ∷ xs) h = ap (λ ys. x ∷ ys) (take-whole n xs (omega arith))

  drop-nil : (n : ℕ) → drop {A = A} n [] ≡ []
  drop-nil zero = refl
  drop-nil (suc n) = refl

  take-nil : (n : ℕ) → take {A = A} n [] ≡ []
  take-nil zero = refl
  take-nil (suc n) = refl

  pub drop-drop : (i j : ℕ) (xs : List A) → drop j (drop i xs) ≡ drop (i + j) xs
  drop-drop zero j xs = ap (λ n. drop n xs) (omega arith)
  drop-drop (suc i) j [] = drop-nil j ∙ sym (drop-nil (suc i + j))
  drop-drop (suc i) j (x ∷ xs) =
      let e : suc i + j ≡ suc (i + j) = omega arith in
      drop-drop i j xs ∙ ap (λ n. drop n (x ∷ xs)) (sym e)

  pub take_prefix :
      (k at : ℕ) (xs ys : List A) → k ≤ at → at ≤ length xs → take k (take at xs ++ ys) ≡ take k xs
  take_prefix zero at xs ys h g = refl
  take_prefix (suc k) zero xs ys h g = elim h [ ]
  take_prefix (suc k) (suc at) [] ys h g = elim g [ ]
  take_prefix (suc k) (suc at) (x ∷ xs) ys h g =
      ap (λ zs. x ∷ zs) (take_prefix k at xs ys (omega arith) (omega arith))

  pub drop_prefix :
      (i at : ℕ) (xs ys : List A)
      → i ≤ at
      → at ≤ length xs
      → drop i (take at xs ++ ys) ≡ take (at - i) (drop i xs) ++ ys
  drop_prefix zero at xs ys h g = ap (λ n. take n xs ++ ys) (omega arith)
  drop_prefix (suc i) zero xs ys h g = elim h [ ]
  drop_prefix (suc i) (suc at) [] ys h g = elim g [ ]
  drop_prefix (suc i) (suc at) (x ∷ xs) ys h g =
      drop_prefix i at xs ys (omega arith) (omega arith)
      ∙ ap (λ n. take n (drop i xs) ++ ys) (omega arith)

  -- Neighbouring parts.
  pub take-add : (k m : ℕ) (xs : List A) → take (k + m) xs ≡ take k xs ++ take m (drop k xs)
  take-add zero m xs = ap (λ n. take n xs) (omega arith)
  take-add (suc k) m [] = take-nil (suc k + m) ∙ sym (take-nil m)
  take-add (suc k) m (x ∷ xs) =
      let e : suc k + m ≡ suc (k + m) = omega arith in
      ap (λ n. take n (x ∷ xs)) e ∙ ap (λ zs. x ∷ zs) (take-add k m xs)

  pub slice-add :
      (i k m : ℕ) (xs : List A) → slice i (k + m) xs ≡ slice i k xs ++ slice (i + k) m xs
  slice-add i k m xs =
      take-add k m (drop i xs) ∙ ap (λ ys. slice i k xs ++ take m ys) (drop-drop i k xs)

-- A write within the bounds leaves the length and the parts on either side of it.
module _ (dst : List ℕ) (at : ℕ) (xs : List ℕ) (fits : at + length xs ≤ length dst) where
  pub length-write_at : length (write_at dst at xs) ≡ length dst
  unfolding write_at
  length-write_at = omega (
    arith,
    length-append (take at dst) (xs ++ drop (at + length xs) dst),
    length-append xs (drop (at + length xs) dst),
    length-take at dst,
    length-drop (at + length xs) dst,
  )

  pub slice-write_at_before :
      (i k : ℕ) → i + k ≤ at → slice i k (write_at dst at xs) ≡ slice i k dst
  unfolding write_at
  slice-write_at_before i k h =
      ap (take k)
        (drop_prefix i at dst (xs ++ drop (at + length xs) dst) (omega arith) (omega arith))
      ∙ take_prefix k (at - i) (drop i dst) (xs ++ drop (at + length xs) dst) (omega arith)
          (omega (arith, length-drop i dst))

  drop-write_at : drop at (write_at dst at xs) ≡ xs ++ drop (at + length xs) dst
  unfolding write_at
  drop-write_at =
      let here : at - at ≡ 0 = omega arith in
      drop_prefix at at dst (xs ++ drop (at + length xs) dst) (omega arith) (omega arith)
      ∙ ap (λ n. take n (drop at dst) ++ (xs ++ drop (at + length xs) dst)) here

  pub slice-write_at_self : slice at (length xs) (write_at dst at xs) ≡ xs
  slice-write_at_self =
      ap (take (length xs)) drop-write_at ∙ take-append xs (drop (at + length xs) dst)

  pub slice-write_at_after :
      (i k : ℕ) → at + length xs ≤ i → slice i k (write_at dst at xs) ≡ slice i k dst
  slice-write_at_after i k h =
      let rest = i - (at + length xs) in
      let e : i ≡ at + (length xs + rest) = omega arith in
      ap (λ n. slice n k (write_at dst at xs)) e
      ∙ ap (take k) (
          sym (drop-drop at (length xs + rest) (write_at dst at xs))
          ∙ ap (drop (length xs + rest)) drop-write_at
          ∙ sym (drop-drop (length xs) rest (xs ++ drop (at + length xs) dst))
          ∙ ap (drop rest) (drop-append xs (drop (at + length xs) dst))
          ∙ drop-drop (at + length xs) rest dst
          ∙ ap (λ n. drop n dst) (omega arith))
