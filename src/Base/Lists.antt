-- ===== src/Base/Lists.antt =====
-- Lists measured and indexed by native numbers, under the library's names.
use Prim.Native.Nat.{ℕ, zero, suc, ◌+◌, ◌-◌, ◌≤◌, ◌<◌, min, max}
use mathlib.Core.Path.{◌≡◌, refl, ap}
use mathlib.Core.Logic.{◌≢◌}
use mathlib.Core.List.{List, [], ◌∷◌, ◌++◌}
use mathlib.Core.Bool.{Bool, true, false, ◌||◌}
use nexus_sfu.Base.Tests.{◌==◌, if◌then◌else◌}
use mathlib.Core.Option.{Option, none, some}
use native.Mathlib.Omega.{arith}

module _ {ℓ} {A : Type ℓ} where
  abbrev pub length : List A → ℕ
  length [] = 0
  length (x ∷ xs) = suc (length xs)

  abbrev pub get_elem? : List A → ℕ → Option A
  get_elem? [] i = none
  get_elem? (x ∷ xs) zero = some x
  get_elem? (x ∷ xs) (suc i) = get_elem? xs i

  abbrev pub get_or : List A → ℕ → A → A
  get_or [] i d = d
  get_or (x ∷ xs) zero d = x
  get_or (x ∷ xs) (suc i) d = get_or xs i d

  -- A write out of bounds changes nothing.
  abbrev pub set : List A → ℕ → A → List A
  set [] i v = []
  set (x ∷ xs) zero v = v ∷ xs
  set (x ∷ xs) (suc i) v = x ∷ set xs i v

  abbrev pub take : ℕ → List A → List A
  take zero xs = []
  take (suc n) [] = []
  take (suc n) (x ∷ xs) = x ∷ take n xs

  abbrev pub drop : ℕ → List A → List A
  drop zero xs = xs
  drop (suc n) [] = []
  drop (suc n) (x ∷ xs) = drop n xs

  abbrev pub replicate : ℕ → A → List A
  replicate zero a = []
  replicate (suc n) a = a ∷ replicate n a

-- Every element satisfies the predicate.
abbrev pub All {ℓ} : {A : Type ℓ} → (A → Type 0) → List A → Type 0
All P [] = Unit {0}
All P (x ∷ xs) = P x × All P xs

module _ {ℓ} {A : Type ℓ} where
  pub length-append : (xs ys : List A) → length (xs ++ ys) ≡ length xs + length ys
  length-append [] ys = omega arith
  length-append (x ∷ xs) ys = omega (arith, length-append xs ys)

  pub length-set : (xs : List A) (i : ℕ) (v : A) → length (set xs i v) ≡ length xs
  length-set [] i v = refl
  length-set (x ∷ xs) zero v = refl
  length-set (x ∷ xs) (suc i) v = ap suc (length-set xs i v)

  pub get_elem?-set_self :
      (xs : List A) (i : ℕ) (v : A) → i < length xs → get_elem? (set xs i v) i ≡ some v
  get_elem?-set_self [] i v h = elim h [ ]
  get_elem?-set_self (x ∷ xs) zero v h = refl
  get_elem?-set_self (x ∷ xs) (suc i) v h = get_elem?-set_self xs i v (omega arith)

  pub get_elem?-set_ne :
      (xs : List A) (i j : ℕ) (v : A) → i ≢ j → get_elem? (set xs i v) j ≡ get_elem? xs j
  get_elem?-set_ne [] i j v h = refl
  get_elem?-set_ne (x ∷ xs) zero zero v h = absurd (h refl)
  get_elem?-set_ne (x ∷ xs) zero (suc j) v h = refl
  get_elem?-set_ne (x ∷ xs) (suc i) zero v h = refl
  get_elem?-set_ne (x ∷ xs) (suc i) (suc j) v h = get_elem?-set_ne xs i j v (λ e. h (ap suc e))

  pub length-take : (n : ℕ) (xs : List A) → length (take n xs) ≡ min n (length xs)
  length-take zero xs = omega arith
  length-take (suc n) [] = omega arith
  length-take (suc n) (x ∷ xs) = omega (arith, length-take n xs)

  pub length-drop : (n : ℕ) (xs : List A) → length (drop n xs) ≡ length xs - n
  length-drop zero xs = omega arith
  length-drop (suc n) [] = omega arith
  length-drop (suc n) (x ∷ xs) = omega (arith, length-drop n xs)

  pub length-replicate : (n : ℕ) (a : A) → length (replicate n a) ≡ n
  length-replicate zero a = refl
  length-replicate (suc n) a = ap suc (length-replicate n a)

  pub get_elem?_lt : (xs : List A) (i : ℕ) (v : A) → get_elem? xs i ≡ some v → i < length xs
  get_elem?_lt [] i v h = ground arith
  get_elem?_lt (x ∷ xs) zero v h = omega arith
  get_elem?_lt (x ∷ xs) (suc i) v h = omega (arith, get_elem?_lt xs i v h)

  pub get_elem?-set_eq : (xs : List A) (i : ℕ) (v x : A) → get_elem? (set xs i v) i ≡ some x → x ≡ v
  get_elem?-set_eq [] i v x h = cc
  get_elem?-set_eq (y ∷ xs) zero v x h = cc
  get_elem?-set_eq (y ∷ xs) (suc i) v x h = get_elem?-set_eq xs i v x h

module _ {ℓ} {A : Type ℓ} where
  pub get_or-get_elem? :
      (xs : List A) (i : ℕ) (x d : A) → get_elem? xs i ≡ some x → get_or xs i d ≡ x
  get_or-get_elem? [] i x d e = cc
  get_or-get_elem? (y ∷ xs) zero x d e = cc
  get_or-get_elem? (y ∷ xs) (suc i) x d e = get_or-get_elem? xs i x d e

pub some_eq {ℓ} : {A : Type ℓ} {a b : A} → some a ≡ some b → a ≡ b
some_eq h = cc

-- Membership as a test, and the largest element.
unfoldable pub contains : ℕ → List ℕ → Bool
contains a [] = false
contains a (x ∷ xs) = a == x || contains a xs

unfoldable pub top : List ℕ → ℕ
top [] = 0
top (x ∷ xs) = max x (top xs)

pub contains-le_top : (a : ℕ) (xs : List ℕ) → contains a xs ≡ true → a ≤ top xs
unfolding contains top
contains-le_top a [] h = cc
contains-le_top a (x ∷ xs) h = ground (arith, contains-le_top a xs)

pub contains-top : (x : ℕ) (xs : List ℕ) → contains (top (x ∷ xs)) (x ∷ xs) ≡ true
unfolding contains top
contains-top x [] = ground arith
contains-top x (y ∷ ys) = ground (arith, contains-top y ys)

module _ {ℓ} {A : Type ℓ} where
  -- The index of the first element that passes the test.
  unfoldable pub position : (A → Bool) → List A → Option ℕ
  position p [] = none
  position p (x ∷ xs) =
      if p x then some 0 else (elim (position p xs) [ none ↦ none | some i ↦ some (suc i) ])

  pub position-some :
      (p : A → Bool) (xs : List A) (i : ℕ) (d : A)
      → position p xs ≡ some i
      → (get_elem? xs i ≡ some (get_or xs i d)) × (p (get_or xs i d) ≡ true)
  unfolding position
  position-some p [] i d h = cc
  position-some p (x ∷ xs) zero d h = (refl, ground arith)
  position-some p (x ∷ xs) (suc i) d h = position-some p xs i d (ground arith)

  pub position-none :
      (p : A → Bool) (xs : List A) (i : ℕ) (x : A)
      → position p xs ≡ none
      → get_elem? xs i ≡ some x
      → p x ≡ false
  unfolding position
  position-none p [] i x h e = cc
  position-none p (y ∷ xs) zero x h e = ground arith
  position-none p (y ∷ xs) (suc i) x h e = position-none p xs i x (ground arith) e

-- How many elements pass the test.
module _ {ℓ} {A : Type ℓ} where
  unfoldable pub count : (A → Bool) → List A → ℕ
  count p [] = 0
  count p (x ∷ xs) = if p x then suc (count p xs) else count p xs

  pub count-set :
      (p : A → Bool) (xs : List A) (i : ℕ) (old new : A)
      → get_elem? xs i ≡ some old
      → count p (set xs i new) + (if p old then 1 else 0) ≡ count p xs + (if p new then 1 else 0)
  unfolding count
  count-set p [] i old new e = cc
  count-set p (x ∷ xs) zero old new e = ground arith
  count-set p (x ∷ xs) (suc i) old new e = ground (arith, count-set p xs i old new e)

  pub count-none :
      (p : A → Bool) (xs : List A)
      → ((i : ℕ) (x : A) → get_elem? xs i ≡ some x → p x ≡ false)
      → count p xs ≡ 0
  unfolding count
  count-none p [] h = refl
  count-none p (x ∷ xs) h = ground (arith, h 0 x refl, count-none p xs (λ i y e. h (suc i) y e))

  pub count-pos :
      (p : A → Bool) (xs : List A) (i : ℕ) (x : A)
      → get_elem? xs i ≡ some x
      → p x ≡ true
      → 0 < count p xs
  unfolding count
  count-pos p [] i x e o = cc
  count-pos p (y ∷ xs) zero x e o = ground arith
  count-pos p (y ∷ xs) (suc i) x e o = ground (arith, count-pos p xs i x e o)

  pub count-two :
      (p : A → Bool) (xs : List A) (i j : ℕ) (x y : A)
      → i ≢ j
      → get_elem? xs i ≡ some x
      → get_elem? xs j ≡ some y
      → p x ≡ true
      → p y ≡ true
      → 1 < count p xs
  unfolding count
  count-two p [] i j x y ne e f o q = cc
  count-two p (z ∷ xs) zero zero x y ne e f o q = absurd (ne refl)
  count-two p (z ∷ xs) zero (suc j) x y ne e f o q = ground (arith, count-pos p xs j y f q)
  count-two p (z ∷ xs) (suc i) zero x y ne e f o q = ground (arith, count-pos p xs i x e o)
  count-two p (z ∷ xs) (suc i) (suc j) x y ne e f o q =
      ground (arith, count-two p xs i j x y (λ q. ne (ap suc q)) e f o q)

  pub count-append : (p : A → Bool) (xs ys : List A) → count p (xs ++ ys) ≡ count p xs + count p ys
  unfolding count
  count-append p [] ys = omega arith
  count-append p (x ∷ xs) ys = ground (arith, count-append p xs ys)

  -- If no element fails the test, all are counted.
  pub count-all :
      (p : A → Bool) (xs : List A)
      → ((i : ℕ) (x : A) → get_elem? xs i ≡ some x → p x ≡ true)
      → count p xs ≡ length xs
  unfolding count
  count-all p [] h = refl
  count-all p (x ∷ xs) h = ground (arith, h 0 x refl, count-all p xs (λ i y e. h (suc i) y e))

  pub count-le : (p : A → Bool) (xs : List A) → count p xs ≤ length xs
  unfolding count
  count-le p [] = omega arith
  count-le p (x ∷ xs) = ground (arith, count-le p xs)

pub length-snoc {ℓ} : {A : Type ℓ} (xs : List A) (x : A) → length (xs ++ (x ∷ [])) ≡ suc (length xs)
length-snoc [] x = refl
length-snoc (y ∷ xs) x = ap suc (length-snoc xs x)
