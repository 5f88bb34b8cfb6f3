-- ===== src/State/Orswot/Removal.antt =====
-- Removed elements of the set in crdt/orswot.rs, and the order of merging.
use nexus_sfu.Base.{
  ℕ, zero, suc, ◌≤◌, ◌<◌, ◌≡◌, refl, ◌≢◌, inl, inr, true, false, Option, none, some, List, [], ◌∷◌,
  ◌++◌, arith, ltb, leb, Bool-cases, length, get_elem?, get_or, set, position, position-some, count,
  count-set, ok,
}
use nexus_sfu.State.Orswot.{
  Dot, Entry, Orswot, with_capacity, holds, contains_at, contains_element, is_tombstoned, covers,
  has_tombstone, has_dot, add_tombstone, no_entry, add, clear, remove_at, remove, merge, dot_less,
  max_actors,
}
use nexus_sfu.State.Orswot.Sound.{Sound}
use nexus_sfu.State.Orswot.Merging.{add_tombstone-entries}

-- A tombstone just added covers its dot.
covers-append : (d : Dot) (ts us : List Dot) → covers d us ≡ true → covers d (ts ++ us) ≡ true
unfolding covers
covers-append d [] us h = h
covers-append d (t ∷ ts) us h = ground (arith, covers-append d ts us h)

covers-set : (d : Dot) (ts : List Dot) (i : ℕ) → i < length ts → covers d (set ts i d) ≡ true
unfolding covers
covers-set d [] i h = absurd (omega arith)
covers-set d (t ∷ ts) zero h = ground arith
covers-set d (t ∷ ts) (suc i) h = ground (arith, covers-set d ts i (omega arith))

has_dot-covers : (d : Dot) (ts : List Dot) → has_dot d ts ≡ true → covers d ts ≡ true
unfolding has_dot covers
has_dot-covers d [] h = h
has_dot-covers d (t ∷ ts) h = ground (arith, has_dot-covers d ts)

covers-one : (d : Dot) → covers d (d ∷ []) ≡ true
unfolding covers
covers-one d = ground arith

add_tombstone-covers : (s : Orswot) (d : Dot) → Sound s → is_tombstoned (add_tombstone s d) d ≡ true
unfolding add_tombstone is_tombstoned has_tombstone
add_tombstone-covers s d v = elim (Bool-cases (has_dot d s.tombstones)) [
  | inl e ↦ rw e (has_dot-covers d s.tombstones e)
  | inr e ↦ rw e (elim (Bool-cases (ltb (length s.tombstones) s.max_tombstones)) [
    | inl r ↦ rw r (covers-append d s.tombstones (d ∷ []) (covers-one d))
    | inr r ↦ rw r (covers-set d s.tombstones s.next_tombstone (ground (arith, v.next_fits)))
  ])
]

-- The dot under which an element is held.
abbrev pub dot_at : Orswot → Option ℕ → Dot
dot_at s none = no_entry.dot
dot_at s (some i) = (get_or s.entries i no_entry).dot

abbrev pub held_dot : Orswot → ℕ → Dot
held_dot s x = dot_at s (position (holds x) s.entries)

add-tombstoned : (s : Orswot) (y : ℕ) (d : Dot) → is_tombstoned s d ≡ true → (add s y d).0 ≢ ok true
unfolding add
add-tombstoned s y d t h = ground arith

contains-count : (x : ℕ) (es : List Entry) → count (holds x) es ≡ 0 → contains_at x es ≡ false
unfolding contains_at count
contains-count x [] h = refl
contains-count x (e ∷ es) h = ground (arith, contains-count x es)

still_buried :
    (s : Orswot) (d : Dot) (i : ℕ) → Sound s → is_tombstoned (clear (add_tombstone s d) i) d ≡ true
unfolding is_tombstoned clear
still_buried s d i v = add_tombstone-covers s d v

cleared :
    (s : Orswot) (x i : ℕ) (es : List Entry)
    → s.entries ≡ es
    → get_elem? es i ≡ some (get_or es i no_entry)
    → holds x (get_or es i no_entry) ≡ true
    → count (holds x) es ≤ 1
    → contains_element (clear s i) x ≡ false
unfolding contains_element clear
cleared s x i es same at own one =
    let old = get_or es i no_entry in
    rw same (
      contains-count x (set es i (record old { element = none }))
        (ground (arith, count-set (holds x) es i old (record old { element = none }) at)))

removed_at :
    (s : Orswot) (x : ℕ) (d : Dot) (i : Option ℕ)
    → Sound s
    → position (holds x) s.entries ≡ i
    → (remove_at s d i).0 ≡ ok true
    → (contains_element (remove_at s d i).1 x ≡ false)
      × ((y : ℕ) → (add (remove_at s d i).1 y (dot_at s i)).0 ≢ ok true)
      × (is_tombstoned (remove_at s d i).1 (dot_at s i) ≡ true)
unfolding remove_at
removed_at s x d none v e done = cc
removed_at s x d (some i) v e done =
    let (at, own) = position-some (holds x) s.entries i no_entry e in
    let dot = (get_or s.entries i no_entry).dot in
    elim (Bool-cases (dot_less d dot)) [
      | inl older ↦ let done' = rw older at done in cc
      | inr newer ↦ rw newer (
        cleared (add_tombstone s dot) x i s.entries (add_tombstone-entries s dot) at own
            (v.single x),
        λ y. add-tombstoned (clear (add_tombstone s dot) i) y dot (still_buried s dot i v),
        still_buried s dot i v,
      )
    ]

-- Right after a removal.
pub gone :
    (s : Orswot) (x : ℕ) (d : Dot)
    → Sound s
    → (remove s x d).0 ≡ ok true
    → (contains_element (remove s x d).1 x ≡ false)
      × ((y : ℕ) → (add (remove s x d).1 y (held_dot s x)).0 ≢ ok true)
      × (is_tombstoned (remove s x d).1 (held_dot s x) ≡ true)
unfolding remove
gone s x d v done = elim (Bool-cases (leb max_actors d.actor_id)) [
  | inl a ↦ let done' = rw a at done in cc
  | inr a ↦
      let done' = rw a at done in
      rw a (removed_at s x d (position (holds x) s.entries) v refl done')
]

-- Merging depends on the order.
abbrev pub adder : ℕ → ℕ → ℕ → ℕ → Orswot
adder n x a c = (add (with_capacity n) x (record { actor_id = a; clock = c })).1

abbrev pub remover : ℕ → ℕ → ℕ → ℕ → Orswot
remover n y a d =
    (remove (add (with_capacity n) y (record { actor_id = a; clock = d })).1 y
      (record { actor_id = a; clock = d })).1

-- One replica has heard of an element that an actor added; another has heard of a later element of
-- that actor and of its removal. Merged one way the first element stays, merged the other way it
-- is refused: the tombstone of the later one covers it.
pub merge_order :
    (n x y a c d : ℕ)
    → 0 < n
    → a < max_actors
    → 0 < c
    → c < d
    → (contains_element (merge (adder n x a c) (remover n y a d)).1 x ≡ true)
      × (contains_element (merge (remover n y a d) (adder n x a c)).1 x ≡ false)
unfolding merge add remove with_capacity contains_element position
merge_order n x y a c d hn ha hc hd = ground arith
