-- ===== src/Dataplane/Slab.antt =====
-- crates/nexus-dataplane/src/slab.rs: slots with generations and a free list. `none` is a failed
-- assertion or an index out of bounds.
pub mod Vacant
pub mod Sound
pub mod Lookup
pub mod Reuse
pub mod Keys
use nexus_sfu.Base.{
  ℕ, ◌+◌, ◌-◌, ◌%◌, ◌^◌, Bool, true, false, ◌||◌, Option, none, some, List, [], ◌∷◌, ◌++◌, leb,
  ◌==◌, if◌then◌else◌, length, get_elem?, get_or, set,
}

-- `Key`
pub record Key : Type 0 where
  pub index : ℕ
  pub gen : ℕ

-- `Slot`
pub record Slot (A : Type 0) : Type 0 where
  pub gen : ℕ
  pub value : Option A

-- `Slab`; the top of the free stack comes first.
pub record Slab (A : Type 0) : Type 0 where
  pub slots : List (Slot A)
  pub free : List ℕ
  pub len : ℕ

module _ {A : Type 0} where
  -- `new`
  unfoldable pub new : Slab A
  new = record { slots = []; free = []; len = 0 }

  -- A slot past the end, to read with.
  abbrev pub no_slot : Slot A
  no_slot = record { gen = 0; value = none }

  abbrev pub slot_at : Slab A → ℕ → Slot A
  slot_at s i = get_or s.slots i no_slot

  abbrev pub has_value : Option A → Bool
  has_value none = false
  has_value (some a) = true

  -- `key_at`
  unfoldable pub key_of : ℕ → Slot A → Option Key
  key_of i slot = if has_value slot.value then some (record { index = i; gen = slot.gen }) else none

  unfoldable pub key_at : Slab A → ℕ → Option Key
  unfolding key_of
  key_at s i = elim (get_elem? s.slots i) [ none ↦ none | some slot ↦ key_of i slot ]

  -- `insert`, by the free stack.
  unfoldable pub insert_with : Slab A → A → List ℕ → Option (Key × Slab A)
  insert_with s a [] =
      if leb (2 ^ 32) (length s.slots)
      then none
      else some (
        record { index = length s.slots; gen = 0 },
        record s { slots = s.slots ++ (record { gen = 0; value = some a } ∷ []); len = s.len + 1 },
      )
  insert_with s a (i ∷ free) =
      let gen = ((slot_at s i).gen + 1) % 2 ^ 32 in
      if leb (length s.slots) i || has_value (slot_at s i).value
      then none
      else some (
        record { index = i; gen = gen },
        record s {
          slots = set s.slots i (record { gen = gen; value = some a });
          free = free;
          len = s.len + 1;
        },
      )

  -- `insert`: the key and the slab after it.
  unfoldable pub insert : Slab A → A → Option (Key × Slab A)
  unfolding insert_with
  insert s a = insert_with s a s.free

  unfoldable pub remove_value : Slab A → Key → Slot A → Option A → Option (A × Slab A)
  remove_value s key slot none = none
  remove_value s key slot (some a) = some (
    a,
    record {
      slots = set s.slots key.index (record slot { value = none });
      free = key.index ∷ s.free;
      len = s.len - 1;
    },
  )

  unfoldable pub remove_slot : Slab A → Key → Option (Slot A) → Option (A × Slab A)
  unfolding remove_value
  remove_slot s key none = none
  remove_slot s key (some slot) =
      if slot.gen == key.gen then remove_value s key slot slot.value else none

  -- `remove`: the entry and the slab after it.
  unfoldable pub remove : Slab A → Key → Option (A × Slab A)
  unfolding remove_slot
  remove s key = remove_slot s key (get_elem? s.slots key.index)

  -- `get`, and what `get_mut` writes through.
  unfoldable pub value_of : Option (Slot A) → Option A
  value_of none = none
  value_of (some slot) = slot.value

  unfoldable pub get : Slab A → Key → Option A
  unfolding value_of
  get s key = value_of (get_elem? s.slots key.index)

  unfoldable pub set_value : Slab A → Key → A → Option (Slab A)
  unfolding get
  set_value s key a =
      if has_value (get s key)
      then some (record s {
        slots = set s.slots key.index (record (slot_at s key.index) { value = some a });
      })
      else none
