-- ===== src/Dataplane/Slab/Keys.antt =====
-- The readers of slab.rs on live keys.
use nexus_sfu.Base.{ℕ, ◌≡◌, refl, sym, ap, ◌∙◌, Option, none, some, arith, get_elem?, some_eq}
use nexus_sfu.Dataplane.Slab.{Key, Slot, Slab, has_value, key_of, key_at, get, value_of}
use nexus_sfu.Dataplane.Slab.Lookup.{entry, entry_of}

module _ {A : Type 0} where
  value_of-live :
      (found : Option (Slot A)) (gen : ℕ) (a : A)
      → entry_of gen found ≡ some a
      → value_of found ≡ some a
  unfolding value_of entry_of
  value_of-live none gen a h = cc
  value_of-live (some slot) gen a h = ground arith

  -- `get` returns the entry of a live key.
  pub get-live : (s : Slab A) (k : Key) (a : A) → entry s k ≡ some a → get s k ≡ some a
  unfolding get
  get-live s k a h = value_of-live (get_elem? s.slots k.index) k.gen a h

  key_of-live :
      (i : ℕ) (slot : Slot A) (value : Option A) (k : Key)
      → slot.value ≡ value
      → key_of i slot ≡ some k
      → (k.index ≡ i) × (a : A) × (entry_of k.gen (some slot) ≡ some a)
  unfolding key_of entry_of
  key_of-live i slot none k e h = ground (arith, ap has_value e)
  key_of-live i slot (some a) k e h =
      let q : some (record { index = i; gen = slot.gen }) ≡ some k =
        ground (arith, ap has_value e) in
      let same = some_eq q in
      (ap (λ k. k.index) (sym same), a, ground (arith, e, ap (λ k. k.gen) same))

  key_at_found :
      (i : ℕ) (found : Option (Slot A)) (k : Key)
      → (elim found [ none ↦ none | some slot ↦ key_of i slot ]) ≡ some k
      → (k.index ≡ i) × (a : A) × (entry_of k.gen found ≡ some a)
  key_at_found i none k h = cc
  key_at_found i (some slot) k h = key_of-live i slot slot.value k refl h

  -- A key that `key_at` returns is live, and of the slot asked for.
  pub key_at-live :
      (s : Slab A) (i : ℕ) (k : Key)
      → key_at s i ≡ some k
      → (k.index ≡ i) × (a : A) × (entry s k ≡ some a)
  unfolding key_at
  key_at-live s i k h =
      let (index, a, live) = key_at_found i (get_elem? s.slots i) k h in
      (index, a, ap (λ n. entry_of k.gen (get_elem? s.slots n)) index ∙ live)
