-- ===== src/State/Orswot.antt =====
-- crates/nexus-state/src/crdt/orswot.rs: the observed-remove set, one call at a time. An element is
-- only compared, so numbers stand for elements.
pub mod Sound
pub mod Additions
pub mod Merging
pub mod Runs
pub mod Removal
pub mod Buried
pub mod Gone
use nexus_sfu.Base.{
  ℕ, ◌+◌, ◌-◌, ◌*◌, ◌%◌, min, Bool, true, false, not, ◌&&◌, ◌||◌, Option, none, some, List, [], ◌∷◌,
  ◌++◌, ltb, leb, ◌==◌, if◌then◌else◌, length, get_or, set, position, Result, ok, err,
}

abbrev pub max_actors : ℕ
max_actors = 256

abbrev pub max_tombstones_all : ℕ
max_tombstones_all = 5000

-- `Dot`, and its order: by the clock, then by the actor.
pub record Dot : Type 0 where
  pub actor_id : ℕ
  pub clock : ℕ

abbrev pub dot_less : Dot → Dot → Bool
dot_less a b = ltb a.clock b.clock || (a.clock == b.clock && ltb a.actor_id b.actor_id)

abbrev pub same_dot : Dot → Dot → Bool
same_dot a b = a.actor_id == b.actor_id && a.clock == b.clock

-- `Entry`
pub record Entry : Type 0 where
  pub element : Option ℕ
  pub dot : Dot

-- The errors of `CrdtError` that the set returns.
pub data SetError : Type 0 where
  capacity_exhausted : ℕ → SetError
  invalid_dot : ℕ → ℕ → SetError

-- `Orswot`; a slot of `tombstones` is always filled, so it is the dot itself.
pub record Orswot : Type 0 where
  pub entries : List Entry
  pub max_elements : ℕ
  pub len : ℕ
  pub tombstones : List Dot
  pub max_tombstones : ℕ
  pub next_tombstone : ℕ
  pub tombstone_count : ℕ

-- `with_capacity`; a capacity of 0 or above 10,000 fails the assertion.
unfoldable pub with_capacity : ℕ → Orswot
with_capacity max_elements = record {
  entries = [];
  max_elements = max_elements;
  len = 0;
  tombstones = [];
  max_tombstones = min (2 * max_elements) max_tombstones_all;
  next_tombstone = 0;
  tombstone_count = 0;
}

abbrev pub holds_at : ℕ → Option ℕ → Bool
holds_at x none = false
holds_at x (some y) = y == x

-- The entry holds the element, any element, or none.
abbrev pub holds : ℕ → Entry → Bool
holds x e = holds_at x e.element

abbrev pub is_filled_at : Option ℕ → Bool
is_filled_at none = false
is_filled_at (some y) = true

abbrev pub is_filled : Entry → Bool
is_filled e = is_filled_at e.element

abbrev pub is_vacant : Entry → Bool
is_vacant e = not (is_filled e)

-- `contains`
unfoldable pub contains_at : ℕ → List Entry → Bool
contains_at x [] = false
contains_at x (e ∷ es) = holds x e || contains_at x es

unfoldable pub contains_element : Orswot → ℕ → Bool
unfolding contains_at
contains_element s x = contains_at x s.entries

-- `is_tombstoned` and `has_tombstone`
unfoldable pub covers : Dot → List Dot → Bool
covers d [] = false
covers d (t ∷ ts) = (t.actor_id == d.actor_id && leb d.clock t.clock) || covers d ts

unfoldable pub is_tombstoned : Orswot → Dot → Bool
unfolding covers
is_tombstoned s d = covers d s.tombstones

unfoldable pub has_dot : Dot → List Dot → Bool
has_dot d [] = false
has_dot d (t ∷ ts) = same_dot t d || has_dot d ts

unfoldable pub has_tombstone : Orswot → Dot → Bool
unfolding has_dot
has_tombstone s d = has_dot d s.tombstones

-- `add_tombstone`, which never fails.
unfoldable pub add_tombstone : Orswot → Dot → Orswot
unfolding has_tombstone
add_tombstone s d =
    if has_tombstone s d
    then s
    else (if ltb (length s.tombstones) s.max_tombstones
        then record s {
          tombstones = s.tombstones ++ (d ∷ []);
          tombstone_count = s.tombstone_count + 1;
        }
        else record s {
          tombstones = set s.tombstones s.next_tombstone d;
          next_tombstone = (s.next_tombstone + 1) % s.max_tombstones;
        })

abbrev pub no_entry : Entry
no_entry = record { element = none; dot = record { actor_id = 0; clock = 0 } }

-- `add` of a new element: a free slot, else a new one. `Sound.add-room` is the assertion there.
unfoldable pub place : Orswot → Entry → Option ℕ → Orswot
place s e none = record s { entries = s.entries ++ (e ∷ []); len = s.len + 1 }
place s e (some i) = record s { entries = set s.entries i e; len = s.len + 1 }

-- `add`, by the entry that holds the element.
unfoldable pub add_at : Orswot → ℕ → Dot → Option ℕ → Result SetError Bool × Orswot
unfolding place
add_at s x d (some i) =
    if dot_less (get_or s.entries i no_entry).dot d
    then (
      ok true,
      record s { entries = set s.entries i (record (get_or s.entries i no_entry) { dot = d }) },
    )
    else (ok false, s)
add_at s x d none =
    if leb s.max_elements s.len
    then (err (capacity_exhausted s.max_elements), s)
    else (ok true, place s (record { element = some x; dot = d }) (position is_vacant s.entries))

-- `add`
unfoldable pub add : Orswot → ℕ → Dot → Result SetError Bool × Orswot
unfolding add_at is_tombstoned
add s x d =
    if leb max_actors d.actor_id
    then (err (invalid_dot d.actor_id d.clock), s)
    else (if d.clock == 0
        then (err (invalid_dot d.actor_id 0), s)
        else (if is_tombstoned s d
            then (ok false, s)
            else add_at s x d (position (holds x) s.entries)))

-- An entry is emptied, and the count follows.
unfoldable pub clear : Orswot → ℕ → Orswot
clear s i = record s {
  entries = set s.entries i (record (get_or s.entries i no_entry) { element = none });
  len = s.len - 1;
}

unfoldable pub remove_at : Orswot → Dot → Option ℕ → Result SetError Bool × Orswot
unfolding clear add_tombstone
remove_at s d none = (ok false, s)
remove_at s d (some i) =
    let dot = (get_or s.entries i no_entry).dot in
    if dot_less d dot then (ok false, s) else (ok true, clear (add_tombstone s dot) i)

-- `remove`
unfoldable pub remove : Orswot → ℕ → Dot → Result SetError Bool × Orswot
unfolding remove_at
remove s x d =
    if leb max_actors d.actor_id
    then (err (invalid_dot d.actor_id d.clock), s)
    else remove_at s d (position (holds x) s.entries)

-- `remove_by_dot`
abbrev pub has_that_dot : Dot → Entry → Bool
has_that_dot d e = is_filled e && same_dot e.dot d

unfoldable pub clear_found : Orswot → Option ℕ → Orswot
unfolding clear
clear_found s none = s
clear_found s (some i) = clear s i

unfoldable pub remove_by_dot : Orswot → Dot → Orswot
unfolding clear_found
remove_by_dot s d = clear_found s (position (has_that_dot d) s.entries)

-- The first loop of `merge`, over the other set's tombstones.
unfoldable pub merge_tombstones : Orswot → List Dot → Orswot
unfolding remove_by_dot add_tombstone
merge_tombstones s [] = s
merge_tombstones s (d ∷ ds) = merge_tombstones (remove_by_dot (add_tombstone s d) d) ds

-- The second loop, over its entries: it stops at the first error.
unfoldable pub merge_added :
    (Orswot → Result SetError (Unit {0}) × Orswot)
    → Result SetError Bool × Orswot
    → Result SetError (Unit {0}) × Orswot
merge_added rest (ok _, s) = rest s
merge_added rest (err e, s) = (err e, s)

unfoldable pub merge_entry :
    (Orswot → Result SetError (Unit {0}) × Orswot)
    → Orswot
    → Dot
    → Option ℕ
    → Result SetError (Unit {0}) × Orswot
unfolding merge_added
merge_entry rest s d none = rest s
merge_entry rest s d (some x) = if is_tombstoned s d then rest s else merge_added rest (add s x d)

unfoldable pub merge_entries : List Entry → Orswot → Result SetError (Unit {0}) × Orswot
unfolding merge_entry
merge_entries [] s = (ok tt, s)
merge_entries (e ∷ es) s = merge_entry (merge_entries es) s e.dot e.element

-- `merge`
unfoldable pub merge : Orswot → Orswot → Result SetError (Unit {0}) × Orswot
unfolding merge_tombstones merge_entries
merge s other = merge_entries other.entries (merge_tombstones s other.tombstones)
