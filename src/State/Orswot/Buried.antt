-- ===== src/State/Orswot/Buried.antt =====
-- Additions and removals on the set in crdt/orswot.rs while a dot is tombstoned.
use nexus_sfu.Base.{
  ℕ, zero, suc, ◌≡◌, refl, ap, ◌∙◌, inl, inr, Bool, true, false, ◌&&◌, Option, none, some, List, [],
  ◌∷◌, arith, leb, ◌==◌, Bool-cases, get_or, set, position, count, count-append,
}
use nexus_sfu.State.Orswot.{
  Dot, Entry, Orswot, holds, is_tombstoned, covers, add_tombstone, no_entry, place, add_at, add,
  clear, remove_at, remove, dot_less, is_vacant, max_actors, has_that_dot, clear_found,
  remove_by_dot, merge_tombstones,
}
use nexus_sfu.State.Orswot.Merging.{add_tombstone-entries}
use nexus_sfu.State.Orswot.Runs.{Op, step}

-- A dot of the same actor, no later.
abbrev pub is_under : Dot → Dot → Bool
is_under b d = d.actor_id == b.actor_id && leb d.clock b.clock

-- The entry holds the element under such a dot.
abbrev pub holds_under : ℕ → Dot → Entry → Bool
holds_under x b e = holds x e && is_under b e.dot

-- No entry does.
abbrev pub IsGone : ℕ → Dot → Orswot → Type 0
IsGone x b s = count (holds_under x b) s.entries ≡ 0

-- The dot is tombstoned after each of the operations.
abbrev pub IsKept : Dot → Orswot → List Op → Type 0
IsKept b s [] = Unit {0}
IsKept b s (o ∷ os) = (is_tombstoned (step s o) b ≡ true) × IsKept b (step s o) os

-- What covers a dot covers those under it.
covers-under :
    (b d : Dot) (ts : List Dot) → is_under b d ≡ true → covers b ts ≡ true → covers d ts ≡ true
unfolding covers
covers-under b d [] u h = h
covers-under b d (t ∷ ts) u h = ground (arith, covers-under b d ts u)

fresh-under :
    (s : Orswot) (b d : Dot)
    → is_tombstoned s b ≡ true
    → is_tombstoned s d ≡ false
    → is_under b d ≡ false
unfolding is_tombstoned
fresh-under s b d t n = elim (Bool-cases (is_under b d)) [
  | inl u ↦ let c = covers-under b d s.tombstones u t in cc
  | inr u ↦ u
]

-- Writing an entry that does not hold the element under the dot.
set-IsGone :
    (x : ℕ) (b : Dot) (es : List Entry) (i : ℕ) (e : Entry)
    → holds_under x b e ≡ false
    → count (holds_under x b) es ≡ 0
    → count (holds_under x b) (set es i e) ≡ 0
unfolding count
set-IsGone x b [] i e n h = h
set-IsGone x b (o ∷ es) zero e n h = ground arith
set-IsGone x b (o ∷ es) (suc i) e n h = ground (arith, set-IsGone x b es i e n)

under-false : (x : ℕ) (b : Dot) (e : Entry) → is_under b e.dot ≡ false → holds_under x b e ≡ false
under-false x b e h = ground arith

place-IsGone :
    (s : Orswot) (x : ℕ) (b : Dot) (e : Entry) (i : Option ℕ)
    → is_under b e.dot ≡ false
    → IsGone x b s
    → IsGone x b (place s e i)
unfolding place count
place-IsGone s x b e none n h =
    ground (arith, count-append (holds_under x b) s.entries (e ∷ []), under-false x b e n)
place-IsGone s x b e (some i) n h = set-IsGone x b s.entries i e (under-false x b e n) h

add_at-IsGone :
    (s : Orswot) (x y : ℕ) (b d : Dot) (i : Option ℕ)
    → is_under b d ≡ false
    → IsGone x b s
    → IsGone x b (add_at s y d i).1
unfolding add_at
add_at-IsGone s x y b d (some i) n h =
    let old = get_or s.entries i no_entry in
    elim (Bool-cases (dot_less old.dot d)) [
      | inl r ↦ rw r (
          set-IsGone x b s.entries i (record old { dot = d })
            (under-false x b (record old { dot = d }) n) h)
      | inr r ↦ rw r h
    ]
add_at-IsGone s x y b d none n h = elim (Bool-cases (leb s.max_elements s.len)) [
  | inl r ↦ rw r h
  | inr r ↦
      rw r (
        place-IsGone s x b (record { element = some y; dot = d }) (position is_vacant s.entries) n
          h)
]

-- An addition of anything, while the dot is tombstoned.
pub add-IsGone :
    (s : Orswot) (x y : ℕ) (b d : Dot)
    → is_tombstoned s b ≡ true
    → IsGone x b s
    → IsGone x b (add s y d).1
unfolding add
add-IsGone s x y b d t h = elim (Bool-cases (leb max_actors d.actor_id)) [
  | inl r ↦ rw r h
  | inr r ↦ rw r (elim (Bool-cases (d.clock == 0)) [
    | inl z ↦ rw z h
    | inr z ↦ rw z (elim (Bool-cases (is_tombstoned s d)) [
      | inl c ↦ rw c h
      | inr c ↦
          rw c (add_at-IsGone s x y b d (position (holds y) s.entries) (fresh-under s b d t c) h)
    ])
  ])
]

place-tombstones : (s : Orswot) (e : Entry) (i : Option ℕ) → (place s e i).tombstones ≡ s.tombstones
unfolding place
place-tombstones s e none = refl
place-tombstones s e (some i) = refl

add_at-tombstones :
    (s : Orswot) (y : ℕ) (d : Dot) (i : Option ℕ) → (add_at s y d i).1.tombstones ≡ s.tombstones
unfolding add_at
add_at-tombstones s y d (some i) =
    elim (Bool-cases (dot_less (get_or s.entries i no_entry).dot d)) [
      | inl r ↦ rw r refl
      | inr r ↦ rw r refl
    ]
add_at-tombstones s y d none = elim (Bool-cases (leb s.max_elements s.len)) [
  | inl r ↦ rw r refl
  | inr r ↦
      rw r
        (place-tombstones s (record { element = some y; dot = d }) (position is_vacant s.entries))
]

-- An addition leaves the tombstones as they are.
pub add-tombstones : (s : Orswot) (y : ℕ) (d : Dot) → (add s y d).1.tombstones ≡ s.tombstones
unfolding add
add-tombstones s y d = elim (Bool-cases (leb max_actors d.actor_id)) [
  | inl r ↦ rw r refl
  | inr r ↦ rw r (elim (Bool-cases (d.clock == 0)) [
    | inl z ↦ rw z refl
    | inr z ↦ rw z (elim (Bool-cases (is_tombstoned s d)) [
      | inl c ↦ rw c refl
      | inr c ↦ rw c (add_at-tombstones s y d (position (holds y) s.entries))
    ])
  ])
]

clear-IsGone : (s : Orswot) (x i : ℕ) (b : Dot) → IsGone x b s → IsGone x b (clear s i)
unfolding clear
clear-IsGone s x i b h =
    set-IsGone x b s.entries i (record (get_or s.entries i no_entry) { element = none }) refl h

add_tombstone-IsGone :
    (s : Orswot) (x : ℕ) (b d : Dot) → IsGone x b s → IsGone x b (add_tombstone s d)
add_tombstone-IsGone s x b d h = ap (count (holds_under x b)) (add_tombstone-entries s d) ∙ h

remove_at-IsGone :
    (s : Orswot) (x : ℕ) (b d : Dot) (i : Option ℕ) → IsGone x b s → IsGone x b (remove_at s d i).1
unfolding remove_at
remove_at-IsGone s x b d none h = h
remove_at-IsGone s x b d (some i) h =
    let dot = (get_or s.entries i no_entry).dot in
    elim (Bool-cases (dot_less d dot)) [
      | inl r ↦ rw r h
      | inr r ↦ rw r (clear-IsGone (add_tombstone s dot) x i b (add_tombstone-IsGone s x b dot h))
    ]

pub remove-IsGone_later :
    (s : Orswot) (x y : ℕ) (b d : Dot) → IsGone x b s → IsGone x b (remove s y d).1
unfolding remove
remove-IsGone_later s x y b d h = elim (Bool-cases (leb max_actors d.actor_id)) [
  | inl r ↦ rw r h
  | inr r ↦ rw r (remove_at-IsGone s x b d (position (holds y) s.entries) h)
]

clear_found-IsGone :
    (s : Orswot) (x : ℕ) (b : Dot) (i : Option ℕ) → IsGone x b s → IsGone x b (clear_found s i)
unfolding clear_found
clear_found-IsGone s x b none h = h
clear_found-IsGone s x b (some i) h = clear-IsGone s x i b h

pub merge_tombstones-IsGone :
    (s : Orswot) (x : ℕ) (b : Dot) (ds : List Dot)
    → IsGone x b s
    → IsGone x b (merge_tombstones s ds)
unfolding merge_tombstones remove_by_dot
merge_tombstones-IsGone s x b [] h = h
merge_tombstones-IsGone s x b (d ∷ ds) h =
    let s' = add_tombstone s d in
    merge_tombstones-IsGone (remove_by_dot s' d) x b ds (
      clear_found-IsGone s' x b (position (has_that_dot d) s'.entries)
        (add_tombstone-IsGone s x b d h))
