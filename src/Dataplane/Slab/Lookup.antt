-- ===== src/Dataplane/Slab/Lookup.antt =====
-- The slab of slab.rs as a map from keys to entries.
use nexus_sfu.Base.{
  ℕ, zero, suc, ◌+◌, ◌%◌, ◌^◌, ◌<◌, ◌≡◌, refl, sym, ap, subst, ◌∙◌, ◌≢◌, Bool, true, false, ◌||◌,
  Option, none, some, List, [], ◌∷◌, ◌++◌, arith, leb, ◌==◌, if◌then◌else◌, length, get_elem?, set,
  get_elem?-set_self, get_elem?-set_ne, get_elem?_lt, some_eq,
}
use native.Mathlib.Decide.{ℕ_discrete}
use nexus_sfu.Dataplane.Slab.Vacant.{get_elem?-get_or}
use nexus_sfu.Dataplane.Slab.Sound.{appended, reused, emptied}
use nexus_sfu.Dataplane.Slab.{
  Key, Slot, Slab, slot_at, has_value, insert_with, insert, remove_value, remove_slot, remove,
}

pub else_some {ℓ} :
    {B : Type ℓ} (test : Bool) (x : Option B) (y : B)
    → (if test then none else x) ≡ some y
    → (test ≡ false) × (x ≡ some y)
else_some true x y h = cc
else_some false x y h = (refl, h)

or_false : (a b : Bool) → (a || b) ≡ false → b ≡ false
or_false true b h = cc
or_false false b h = h

module _ {A : Type 0} where
  -- The entry under a key: the slot must be of the key's generation.
  unfoldable pub entry_of : ℕ → Option (Slot A) → Option A
  entry_of gen none = none
  entry_of gen (some slot) = if slot.gen == gen then slot.value else none

  abbrev pub entry : Slab A → Key → Option A
  entry s k = entry_of k.gen (get_elem? s.slots k.index)

  -- One map has the key and the other has not, and they agree elsewhere.
  pub record Adds (s : Slab A) (k : Key) (a : A) (t : Slab A) : Type 0 where
    pub before : entry s k ≡ none
    pub after : entry t k ≡ some a
    pub others : (j : Key) → (j.index ≡ k.index → j.gen ≢ k.gen) → entry t j ≡ entry s j

  get_elem?-append_at :
      (xs : List (Slot A)) (v : Slot A) → get_elem? (xs ++ (v ∷ [])) (length xs) ≡ some v
  get_elem?-append_at [] v = refl
  get_elem?-append_at (x ∷ xs) v = get_elem?-append_at xs v

  get_elem?-append_ne :
      (xs : List (Slot A)) (v : Slot A) (i : ℕ)
      → i ≢ length xs
      → get_elem? (xs ++ (v ∷ [])) i ≡ get_elem? xs i
  get_elem?-append_ne [] v zero h = absurd (h refl)
  get_elem?-append_ne [] v (suc i) h = refl
  get_elem?-append_ne (x ∷ xs) v zero h = refl
  get_elem?-append_ne (x ∷ xs) v (suc i) h = get_elem?-append_ne xs v i (λ e. h (ap suc e))

  get_elem?-end : (xs : List (Slot A)) → get_elem? xs (length xs) ≡ none
  get_elem?-end [] = refl
  get_elem?-end (x ∷ xs) = get_elem?-end xs

  entry_of-stale : (slot : Slot A) (gen : ℕ) → gen ≢ slot.gen → entry_of gen (some slot) ≡ none
  unfolding entry_of
  entry_of-stale slot gen h = ground arith

  entry_of-vacant : (slot : Slot A) (gen : ℕ) → slot.value ≡ none → entry_of gen (some slot) ≡ none
  unfolding entry_of
  entry_of-vacant slot gen h = ground arith

  end_entry : (s : Slab A) (gen : ℕ) → entry_of gen (get_elem? s.slots (length s.slots)) ≡ none
  unfolding entry_of
  end_entry s gen = ap (entry_of gen) (get_elem?-end s.slots)

  has_value-none : (v : Option A) → has_value v ≡ false → v ≡ none
  has_value-none none h = refl
  has_value-none (some a) h = cc

  entry_of-live :
      (slot : Slot A) (a : A) → slot.value ≡ some a → entry_of slot.gen (some slot) ≡ some a
  unfolding entry_of
  entry_of-live slot a h = ground arith

  -- If one slot differs, and no other generation of it was live, the other keys are kept.
  others_agree :
      (xs ys : List (Slot A)) (i : ℕ) (v : Slot A)
      → ((n : ℕ) → n ≢ i → get_elem? ys n ≡ get_elem? xs n)
      → get_elem? ys i ≡ some v
      → ((gen : ℕ) → gen ≢ v.gen → entry_of gen (get_elem? xs i) ≡ none)
      → (j : Key) → (j.index ≡ i → j.gen ≢ v.gen)
      → entry_of j.gen (get_elem? ys j.index) ≡ entry_of j.gen (get_elem? xs j.index)
  others_agree xs ys i v kept at dead j other = elim (ℕ_discrete j.index i) [
    | yes e ↦
        ap (λ n. entry_of j.gen (get_elem? ys n)) e
        ∙ ap (entry_of j.gen) at
        ∙ entry_of-stale v j.gen (other e)
        ∙ sym (dead j.gen (other e))
        ∙ sym (ap (λ n. entry_of j.gen (get_elem? xs n)) e)
    | no ne ↦ ap (entry_of j.gen) (kept j.index ne)
  ]

  appended-Adds :
      (s : Slab A) (a : A) → Adds s (record { index = length s.slots; gen = 0 }) a (appended s a)
  unfolding appended
  appended-Adds s a =
      let fresh : Slot A = record { gen = 0; value = some a } in
      let at = get_elem?-append_at s.slots fresh in
      let dead : (gen : ℕ) → entry_of gen (get_elem? s.slots (length s.slots)) ≡ none =
        λ gen. end_entry s gen in
      record {
        before = dead 0;
        after = ap (entry_of 0) at ∙ entry_of-live fresh a refl;
        others =
            others_agree s.slots (s.slots ++ (fresh ∷ [])) (length s.slots) fresh
              (get_elem?-append_ne s.slots fresh) at (λ gen h. dead gen);
      }

  reused-Adds :
      (s : Slab A) (a : A) (i : ℕ) (free : List ℕ) (gen : ℕ)
      → i < length s.slots
      → has_value (slot_at s i).value ≡ false
      → Adds s
          (record { index = i; gen = gen })
          a
          (reused s i free (record { gen = gen; value = some a }))
  unfolding reused
  reused-Adds s a i free gen inside empty =
      let fresh : Slot A = record { gen = gen; value = some a } in
      let at = get_elem?-set_self s.slots i fresh inside in
      let dead : (g : ℕ) → entry_of g (get_elem? s.slots i) ≡ none = λ g.
        ap (entry_of g) (get_elem?-get_or s.slots i inside)
        ∙ entry_of-vacant (slot_at s i) g (has_value-none (slot_at s i).value empty) in
      record {
        before = dead gen;
        after = ap (entry_of gen) at ∙ entry_of-live fresh a refl;
        others =
            others_agree s.slots (set s.slots i fresh) i fresh
              (λ n ne. get_elem?-set_ne s.slots i n fresh (λ e. ne (sym e))) at (λ g h. dead g);
      }

  insert_with-Adds :
      (s : Slab A) (a : A) (free : List ℕ) (k : Key) (t : Slab A)
      → insert_with s a free ≡ some (k, t)
      → Adds s k a t
  unfolding insert_with appended reused
  insert_with-Adds s a [] k t h =
      subst (λ p. Adds s p.0 a p.1)
        (some_eq (else_some (leb (2 ^ 32) (length s.slots)) _ (k, t) h).1) (appended-Adds s a)
  insert_with-Adds s a (i ∷ free) k t h =
      let (test, e) =
        else_some (leb (length s.slots) i || has_value (slot_at s i).value) _ (k, t) h in
      let inside : i < length s.slots = ground arith in
      subst (λ p. Adds s p.0 a p.1) (some_eq e)
        (reused-Adds s a i free (((slot_at s i).gen + 1) % 2 ^ 32) inside
          (or_false (leb (length s.slots) i) (has_value (slot_at s i).value) test))

  -- When `insert` succeeds, its key had no entry before and has the new one after, and every other key
  -- keeps what it had.
  pub insert-Adds :
      (s : Slab A) (a : A) (k : Key) (t : Slab A) → insert s a ≡ some (k, t) → Adds s k a t
  unfolding insert
  insert-Adds s a k t h = insert_with-Adds s a s.free k t h

  emptied-Adds :
      (s : Slab A) (key : Key) (slot : Slot A) (a : A)
      → get_elem? s.slots key.index ≡ some slot
      → slot.gen ≡ key.gen
      → slot.value ≡ some a
      → Adds (emptied s key slot) key a s
  unfolding emptied
  emptied-Adds s key slot a e same f =
      let gone : Slot A = record slot { value = none } in
      let at = get_elem?-set_self s.slots key.index gone (get_elem?_lt s.slots key.index slot e) in
      let dead : (g : ℕ) → entry_of g (get_elem? (set s.slots key.index gone) key.index) ≡ none =
        λ g. ap (entry_of g) at ∙ entry_of-vacant gone g refl in
      record {
        before = dead key.gen;
        after =
            ap (entry_of key.gen) e
            ∙ ap (λ g. entry_of g (some slot)) (sym same)
            ∙ entry_of-live slot a f;
        others = λ j other.
            others_agree (set s.slots key.index gone) s.slots key.index slot
              (λ n ne. sym (get_elem?-set_ne s.slots key.index n gone (λ q. ne (sym q)))) e
              (λ g h. dead g) j (λ q r. other q (r ∙ same));
      }

  remove_value-Adds :
      (s : Slab A) (key : Key) (slot : Slot A) (value : Option A) (a : A) (t : Slab A)
      → get_elem? s.slots key.index ≡ some slot
      → slot.gen ≡ key.gen
      → slot.value ≡ value
      → remove_value s key slot value ≡ some (a, t)
      → Adds t key a s
  unfolding remove_value emptied
  remove_value-Adds s key slot none a t e same f h = cc
  remove_value-Adds s key slot (some b) a t e same f h =
      subst (λ p. Adds p.1 key p.0 s) (some_eq h) (emptied-Adds s key slot b e same f)

  remove_slot-Adds :
      (s : Slab A) (key : Key) (found : Option (Slot A)) (a : A) (t : Slab A)
      → get_elem? s.slots key.index ≡ found
      → remove_slot s key found ≡ some (a, t)
      → Adds t key a s
  unfolding remove_slot
  remove_slot-Adds s key none a t e h = cc
  remove_slot-Adds s key (some slot) a t e h =
      remove_value-Adds s key slot slot.value a t e (ground arith) refl (ground arith)

  -- When `remove` succeeds, its key had the entry returned and has none after, and every other key
  -- keeps what it had.
  pub remove-Adds :
      (s : Slab A) (key : Key) (a : A) (t : Slab A) → remove s key ≡ some (a, t) → Adds t key a s
  unfolding remove
  remove-Adds s key a t h = remove_slot-Adds s key (get_elem? s.slots key.index) a t refl h
