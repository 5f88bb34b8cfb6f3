-- ===== src/State/Orswot/Merging.antt =====
-- What a removal from the set in crdt/orswot.rs and a merge keep.
use nexus_sfu.Base.{
  ℕ, ◌≡◌, refl, sym, subst, inl, inr, Bool, true, Option, none, some, List, [], ◌∷◌, arith, ltb,
  leb, Bool-cases, length, get_elem?, get_or, position, position-some, Result, ok, err,
}
use nexus_sfu.State.Orswot.{
  Dot, Entry, Orswot, SetError, holds, is_filled, is_tombstoned, has_tombstone, add_tombstone,
  no_entry, add, remove_at, remove, has_that_dot, clear_found, remove_by_dot, merge_tombstones,
  merge_added, merge_entry, merge_entries, merge, dot_less, max_actors,
}
use nexus_sfu.State.Orswot.Sound.{Sound, add_tombstone-Sound, clear-Sound}
use nexus_sfu.State.Orswot.Additions.{add-Sound, holds-filled}

-- A tombstone leaves the entries as they are.
pub add_tombstone-entries : (s : Orswot) (d : Dot) → (add_tombstone s d).entries ≡ s.entries
unfolding add_tombstone
add_tombstone-entries s d = elim (Bool-cases (has_tombstone s d)) [
  | inl e ↦ rw e refl
  | inr e ↦ rw e (elim (Bool-cases (ltb (length s.tombstones) s.max_tombstones)) [
    | inl r ↦ rw r refl
    | inr r ↦ rw r refl
  ])
]

remove_at-Sound :
    (s : Orswot) (x : ℕ) (d : Dot) (i : Option ℕ)
    → Sound s
    → position (holds x) s.entries ≡ i
    → Sound (remove_at s d i).1
unfolding remove_at
remove_at-Sound s x d none v e = v
remove_at-Sound s x d (some i) v e =
    let (at, own) = position-some (holds x) s.entries i no_entry e in
    let old = get_or s.entries i no_entry in
    let same = add_tombstone-entries s old.dot in
    elim (Bool-cases (dot_less d old.dot)) [
      | inl older ↦ rw older v
      | inr newer ↦ rw newer (
          clear-Sound (add_tombstone s old.dot) i (add_tombstone-Sound s old.dot v)
            (subst (λ es. get_elem? es i ≡ some (get_or es i no_entry)) (sym same) at)
            (subst (λ es. is_filled (get_or es i no_entry) ≡ true) (sym same)
              (holds-filled x old.element own)))
    ]

pub remove-Sound : (s : Orswot) (x : ℕ) (d : Dot) → Sound s → Sound (remove s x d).1
unfolding remove
remove-Sound s x d v = elim (Bool-cases (leb max_actors d.actor_id)) [
  | inl a ↦ rw a v
  | inr a ↦ rw a (remove_at-Sound s x d (position (holds x) s.entries) v refl)
]

clear_found-Sound :
    (s : Orswot) (d : Dot) (i : Option ℕ)
    → Sound s
    → position (has_that_dot d) s.entries ≡ i
    → Sound (clear_found s i)
unfolding clear_found
clear_found-Sound s d none v e = v
clear_found-Sound s d (some i) v e =
    let (at, own) = position-some (has_that_dot d) s.entries i no_entry e in
    clear-Sound s i v at (ground arith)

merge_tombstones-Sound : (s : Orswot) (ds : List Dot) → Sound s → Sound (merge_tombstones s ds)
unfolding merge_tombstones remove_by_dot
merge_tombstones-Sound s [] v = v
merge_tombstones-Sound s (d ∷ ds) v =
    let s' = add_tombstone s d in
    merge_tombstones-Sound (remove_by_dot s' d) ds (
      clear_found-Sound s' d (position (has_that_dot d) s'.entries) (add_tombstone-Sound s d v)
        refl)

merge_added-Sound :
    (rest : Orswot → Result SetError (Unit {0}) × Orswot)
    → ((s : Orswot) → Sound s → Sound (rest s).1)
    → (r : Result SetError Bool × Orswot) → Sound r.1
    → Sound (merge_added rest r).1
unfolding merge_added
merge_added-Sound rest h (ok _, s) v = h s v
merge_added-Sound rest h (err e, s) v = v

merge_entry-Sound :
    (rest : Orswot → Result SetError (Unit {0}) × Orswot)
    → ((s : Orswot) → Sound s → Sound (rest s).1)
    → (s : Orswot) (d : Dot) (x : Option ℕ) → Sound s
    → Sound (merge_entry rest s d x).1
unfolding merge_entry
merge_entry-Sound rest h s d none v = h s v
merge_entry-Sound rest h s d (some x) v = elim (Bool-cases (is_tombstoned s d)) [
  | inl t ↦ rw t (h s v)
  | inr t ↦ rw t (merge_added-Sound rest h (add s x d) (add-Sound s x d v))
]

merge_entries-Sound : (es : List Entry) (s : Orswot) → Sound s → Sound (merge_entries es s).1
unfolding merge_entries
merge_entries-Sound [] s v = v
merge_entries-Sound (e ∷ es) s v =
    merge_entry-Sound (merge_entries es) (merge_entries-Sound es) s e.dot e.element v

pub merge-Sound : (s other : Orswot) → Sound s → Sound (merge s other).1
unfolding merge
merge-Sound s other v =
    merge_entries-Sound other.entries (merge_tombstones s other.tombstones)
      (merge_tombstones-Sound s other.tombstones v)
