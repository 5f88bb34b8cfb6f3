-- ===== src/Dataplane/Slab/Sound.antt =====
-- The free list of slab.rs.
use nexus_sfu.Base.{
  ℕ, ◌+◌, ◌-◌, ◌%◌, ◌^◌, ◌<◌, ◌≡◌, refl, ap, subst, ◌∙◌, true, Option, none, some, List, [], ◌∷◌,
  ◌++◌, arith, length, get_elem?, get_or, set, length-append, length-set, get_elem?_lt,
  get_or-get_elem?, some_eq, count, count-set, count-pos, count-append,
}
use nexus_sfu.Dataplane.Slab.{
  Key, Slot, Slab, new, no_slot, slot_at, has_value, insert_with, insert, remove_value, remove_slot,
  remove,
}
use nexus_sfu.Dataplane.Slab.Vacant.{
  get_elem?-get_or, is_taken, AreVacant, set-AreVacant, append-AreVacant, AreVacant-not_free,
  get_or-set_at,
}

module _ {A : Type 0} where
  -- The free list holds the vacant slots, all of them, and the length counts the rest.
  pub record Sound (s : Slab A) : Type 0 where
    pub vacant : AreVacant s.slots s.free
    pub counted : s.len ≡ count is_taken s.slots
    pub all : s.len + length s.free ≡ length s.slots

  pub new-Sound : Sound (new {A = A})
  unfolding new count
  new-Sound = record { vacant = tt; counted = refl; all = omega arith }

  -- A fresh slot for an entry, when no slot is free.
  unfoldable pub appended : Slab A → A → Slab A
  appended s a = record s {
    slots = s.slots ++ (record { gen = 0; value = some a } ∷ []);
    len = s.len + 1;
  }

  appended-Sound : (s : Slab A) (a : A) → Sound s → Sound (appended s a)
  unfolding appended count
  appended-Sound s a v =
      let fresh : List (Slot A) = record { gen = 0; value = some a } ∷ [] in
      record {
        vacant = append-AreVacant s.slots fresh s.free v.vacant;
        counted = omega (arith, v.counted, count-append is_taken s.slots fresh);
        all = omega (arith, v.all, length-append s.slots fresh);
      }

  -- A free slot with a new entry.
  unfoldable pub reused : Slab A → ℕ → List ℕ → Slot A → Slab A
  reused s i free slot = record s { slots = set s.slots i slot; free = free; len = s.len + 1 }

  reused-Sound :
      (s : Slab A) (i : ℕ) (free : List ℕ) (slot : Slot A)
      → Sound s
      → s.free ≡ i ∷ free
      → is_taken slot ≡ true
      → Sound (reused s i free slot)
  unfolding reused
  reused-Sound s i free slot v e taken =
      let (inside, empty, once, rest) = subst (AreVacant s.slots) e v.vacant in
      let counts =
        count-set is_taken s.slots i (get_or s.slots i no_slot) slot
          (get_elem?-get_or s.slots i inside) in
      record {
        vacant = set-AreVacant s.slots free i slot once rest;
        counted = ground (arith, v.counted);
        all = omega (arith, v.all, ap length e, length-set s.slots i slot);
      }

  -- `insert` fails only where the index would not fit.
  pub insert_with-Sound :
      (s : Slab A) (a : A) (free : List ℕ)
      → Sound s
      → s.free ≡ free
      → length s.slots < 2 ^ 32
      → (k : Key) × (t : Slab A) × (insert_with s a free ≡ some (k, t)) × Sound t
  unfolding insert_with appended reused
  insert_with-Sound s a [] v e room =
      (record { index = length s.slots; gen = 0 }, appended s a, ground arith, appended-Sound s a v)
  insert_with-Sound s a (i ∷ free) v e room =
      let gen = ((slot_at s i).gen + 1) % 2 ^ 32 in
      let slot : Slot A = record { gen = gen; value = some a } in
      let (inside, empty, once, rest) = subst (AreVacant s.slots) e v.vacant in
      (
        record { index = i; gen = gen },
        reused s i free slot,
        ground arith,
        reused-Sound s i free slot v e refl,
      )

  -- The slab after the entry in a slot is taken out.
  unfoldable pub emptied : Slab A → Key → Slot A → Slab A
  emptied s key slot = record {
    slots = set s.slots key.index (record slot { value = none });
    free = key.index ∷ s.free;
    len = s.len - 1;
  }

  emptied-Sound :
      (s : Slab A) (key : Key) (slot : Slot A)
      → Sound s
      → get_elem? s.slots key.index ≡ some slot
      → is_taken slot ≡ true
      → Sound (emptied s key slot)
  unfolding emptied
  emptied-Sound s key slot v e taken =
      let old = get_or-get_elem? s.slots key.index slot no_slot e in
      let inside = get_elem?_lt s.slots key.index slot e in
      let gone : Slot A = record slot { value = none } in
      let out = AreVacant-not_free s.slots s.free key.index v.vacant (ap is_taken old ∙ taken) in
      let counts = count-set is_taken s.slots key.index slot gone e in
      let some_left = count-pos is_taken s.slots key.index slot e taken in
      record {
        vacant = (
          omega (arith, length-set s.slots key.index gone),
          ap is_taken (get_or-set_at s.slots key.index gone inside),
          out,
          set-AreVacant s.slots s.free key.index gone out v.vacant,
        );
        counted = ground (arith, v.counted);
        all = omega (arith, v.all, v.counted, length-set s.slots key.index gone);
      }

  -- A sound slab of less than 2 ^ 32 slots takes an entry, and stays sound.
  pub insert-Sound :
      (s : Slab A) (a : A)
      → Sound s
      → length s.slots < 2 ^ 32
      → (k : Key) × (t : Slab A) × (insert s a ≡ some (k, t)) × Sound t
  unfolding insert
  insert-Sound s a v room = insert_with-Sound s a s.free v refl room

  remove_value-Sound :
      (s : Slab A) (key : Key) (slot : Slot A) (value : Option A) (a : A) (t : Slab A)
      → Sound s
      → get_elem? s.slots key.index ≡ some slot
      → slot.value ≡ value
      → remove_value s key slot value ≡ some (a, t)
      → Sound t
  unfolding remove_value emptied
  remove_value-Sound s key slot none a t v e f h = cc
  remove_value-Sound s key slot (some b) a t v e f h =
      subst Sound (ap (λ p. p.1) (some_eq h)) (emptied-Sound s key slot v e (ap has_value f))

  remove_slot-Sound :
      (s : Slab A) (key : Key) (found : Option (Slot A)) (a : A) (t : Slab A)
      → Sound s
      → get_elem? s.slots key.index ≡ found
      → remove_slot s key found ≡ some (a, t)
      → Sound t
  unfolding remove_slot
  remove_slot-Sound s key none a t v e h = cc
  remove_slot-Sound s key (some slot) a t v e h =
      remove_value-Sound s key slot slot.value a t v e refl (ground arith)

  -- A sound slab stays sound when `remove` succeeds.
  pub remove-Sound :
      (s : Slab A) (key : Key) (a : A) (t : Slab A) → Sound s → remove s key ≡ some (a, t) → Sound t
  unfolding remove
  remove-Sound s key a t v h = remove_slot-Sound s key (get_elem? s.slots key.index) a t v refl h
