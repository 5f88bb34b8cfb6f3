-- ===== src/Dataplane/Slab/Vacant.antt =====
-- Lists of vacant slots of slab.rs.
use nexus_sfu.Base.{
  ℕ, zero, suc, ◌<◌, ◌≡◌, refl, ap, ◌∙◌, ◌≢◌, Bool, true, false, some, List, [], ◌∷◌, ◌++◌, arith,
  length, get_elem?, get_or, set, length-append, length-set, get_elem?-set_self, get_or-get_elem?,
  contains,
}
use nexus_sfu.Dataplane.Slab.{Slot, no_slot, has_value}

module _ {A : Type 0} where
  abbrev pub is_taken : Slot A → Bool
  is_taken slot = has_value slot.value

  -- Every index in the list is of a vacant slot, and none occurs twice.
  abbrev pub AreVacant : List (Slot A) → List ℕ → Type 0
  AreVacant slots [] = Unit {0}
  AreVacant slots (i ∷ is) =
      (i < length slots)
      × (is_taken (get_or slots i no_slot) ≡ false)
      × (contains i is ≡ false)
      × AreVacant slots is

  pub get_elem?-get_or :
      (xs : List (Slot A)) (i : ℕ) → i < length xs → get_elem? xs i ≡ some (get_or xs i no_slot)
  get_elem?-get_or [] i h = elim h [ ]
  get_elem?-get_or (x ∷ xs) zero h = refl
  get_elem?-get_or (x ∷ xs) (suc i) h = get_elem?-get_or xs i (omega arith)

  pub get_or-set_ne :
      (xs : List (Slot A)) (i j : ℕ) (v : Slot A)
      → i ≢ j
      → get_or (set xs i v) j no_slot ≡ get_or xs j no_slot
  get_or-set_ne [] i j v h = refl
  get_or-set_ne (x ∷ xs) zero zero v h = absurd (h refl)
  get_or-set_ne (x ∷ xs) zero (suc j) v h = refl
  get_or-set_ne (x ∷ xs) (suc i) zero v h = refl
  get_or-set_ne (x ∷ xs) (suc i) (suc j) v h = get_or-set_ne xs i j v (λ e. h (ap suc e))

  -- A write outside the list keeps it.
  pub set-AreVacant :
      (xs : List (Slot A)) (is : List ℕ) (i : ℕ) (v : Slot A)
      → contains i is ≡ false
      → AreVacant xs is
      → AreVacant (set xs i v) is
  unfolding contains
  set-AreVacant xs [] i v out h = tt
  set-AreVacant xs (j ∷ is) i v out (inside, empty, once, h) =
      let other : i ≢ j = λ e. ground arith in
      (
        omega (arith, length-set xs i v),
        ap is_taken (get_or-set_ne xs i j v other) ∙ empty,
        once,
        set-AreVacant xs is i v (ground arith) h,
      )

  pub get_or-append_slot :
      (xs ys : List (Slot A)) (i : ℕ)
      → i < length xs
      → get_or (xs ++ ys) i no_slot ≡ get_or xs i no_slot
  get_or-append_slot [] ys i h = elim h [ ]
  get_or-append_slot (x ∷ xs) ys zero h = refl
  get_or-append_slot (x ∷ xs) ys (suc i) h = get_or-append_slot xs ys i (omega arith)

  pub append-AreVacant :
      (xs ys : List (Slot A)) (is : List ℕ) → AreVacant xs is → AreVacant (xs ++ ys) is
  append-AreVacant xs ys [] h = tt
  append-AreVacant xs ys (i ∷ is) (inside, empty, once, h) = (
    omega (arith, length-append xs ys),
    ap is_taken (get_or-append_slot xs ys i inside) ∙ empty,
    once,
    append-AreVacant xs ys is h,
  )

  -- A taken slot is not in the free list.
  pub AreVacant-not_free :
      (xs : List (Slot A)) (is : List ℕ) (i : ℕ)
      → AreVacant xs is
      → is_taken (get_or xs i no_slot) ≡ true
      → contains i is ≡ false
  unfolding contains
  AreVacant-not_free xs [] i h taken = refl
  AreVacant-not_free xs (j ∷ is) i (inside, empty, once, h) taken =
      let rest = AreVacant-not_free xs is i h taken in
      let same : i ≡ j → is_taken (get_or xs i no_slot) ≡ false =
        λ e. ap (λ n. is_taken (get_or xs n no_slot)) e ∙ empty in
      let other : i ≢ j = λ e. (let p = same e in cc) in ground arith

  pub get_or-set_at :
      (xs : List (Slot A)) (i : ℕ) (v : Slot A) → i < length xs → get_or (set xs i v) i no_slot ≡ v
  get_or-set_at xs i v h = get_or-get_elem? (set xs i v) i v no_slot (get_elem?-set_self xs i v h)
