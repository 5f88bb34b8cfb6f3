-- ===== src/Srtp/Outbound/Slots.antt =====
-- The slot table of `SrtpOutbound`: how many live slots hold an SSRC, and what a write does to it.
use nexus_sfu.Base.{
  ℕ, zero, suc, ◌+◌, ◌<◌, ◌≡◌, refl, ap, ◌≢◌, Bool, true, false, some, List, [], ◌∷◌, arith,
  get_elem?, set, replicate,
}
use nexus_sfu.Srtp.Outbound.{SsrcOut, owns, empty}

abbrev pub one_if : Bool → ℕ
one_if true = 1
one_if false = 0

-- The count that `register` asserts to be 1.
unfoldable pub owners : ℕ → List SsrcOut → ℕ
owners ssrc [] = 0
owners ssrc (x ∷ xs) = one_if (owns ssrc x) + owners ssrc xs

pub owners-set :
    (ssrc : ℕ) (xs : List SsrcOut) (i : ℕ) (old new : SsrcOut)
    → get_elem? xs i ≡ some old
    → owners ssrc (set xs i new) + one_if (owns ssrc old) ≡ owners ssrc xs + one_if (owns ssrc new)
unfolding owners
owners-set ssrc [] i old new e = cc
owners-set ssrc (x ∷ xs) zero old new e = ground arith
owners-set ssrc (x ∷ xs) (suc i) old new e = omega (arith, owners-set ssrc xs i old new e)

pub owners-replicate : (ssrc n : ℕ) → owners ssrc (replicate n empty) ≡ 0
unfolding owners
owners-replicate ssrc zero = refl
owners-replicate ssrc (suc n) = omega (arith, owners-replicate ssrc n)

pub owners-pos :
    (ssrc : ℕ) (xs : List SsrcOut) (i : ℕ) (x : SsrcOut)
    → get_elem? xs i ≡ some x
    → owns ssrc x ≡ true
    → 0 < owners ssrc xs
unfolding owners
owners-pos ssrc [] i x e o = cc
owners-pos ssrc (y ∷ xs) zero x e o = ground arith
owners-pos ssrc (y ∷ xs) (suc i) x e o = omega (arith, owners-pos ssrc xs i x e o)

pub owners-two :
    (ssrc : ℕ) (xs : List SsrcOut) (i j : ℕ) (x y : SsrcOut)
    → i ≢ j
    → get_elem? xs i ≡ some x
    → get_elem? xs j ≡ some y
    → owns ssrc x ≡ true
    → owns ssrc y ≡ true
    → 1 < owners ssrc xs
unfolding owners
owners-two ssrc [] i j x y ne e f o p = cc
owners-two ssrc (z ∷ xs) zero zero x y ne e f o p = absurd (ne refl)
owners-two ssrc (z ∷ xs) zero (suc j) x y ne e f o p = ground (arith, owners-pos ssrc xs j y f p)
owners-two ssrc (z ∷ xs) (suc i) zero x y ne e f o p = ground (arith, owners-pos ssrc xs i x e o)
owners-two ssrc (z ∷ xs) (suc i) (suc j) x y ne e f o p =
    omega (arith, owners-two ssrc xs i j x y (λ q. ne (ap suc q)) e f o p)

-- No slot has an SSRC that every slot is known not to own.
pub owners-none :
    (ssrc : ℕ) (xs : List SsrcOut)
    → ((i : ℕ) (x : SsrcOut) → get_elem? xs i ≡ some x → owns ssrc x ≡ false)
    → owners ssrc xs ≡ 0
unfolding owners
owners-none ssrc [] h = refl
owners-none ssrc (x ∷ xs) h =
    ground (arith, h 0 x refl, owners-none ssrc xs (λ i y e. h (suc i) y e))
