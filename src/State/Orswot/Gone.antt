-- ===== src/State/Orswot/Gone.antt =====
-- A removed element of the set in crdt/orswot.rs, through any later operations.
use nexus_sfu.Base.{
  ℕ, ◌<◌, ◌≡◌, refl, sym, ap, ◌∙◌, ◌≢◌, inl, inr, Bool, true, false, Option, none, some, List, [],
  ◌∷◌, arith, Bool-cases, count, Result, ok, err,
}
use nexus_sfu.State.Orswot.{
  Dot, Entry, Orswot, SetError, with_capacity, contains_at, contains_element, is_tombstoned, covers,
  add, remove, merge, merge_tombstones, merge_added, merge_entry, merge_entries,
}
use nexus_sfu.State.Orswot.Removal.{held_dot, gone}
use nexus_sfu.State.Orswot.Runs.{Op, adds, removes, merges, step, replica, replica-Sound}
use nexus_sfu.State.Orswot.Buried.{
  holds_under, IsGone, IsKept, add-IsGone, add-tombstones, remove-IsGone_later,
  merge_tombstones-IsGone,
}

-- What holds of a result of merging and of its tombstones.
Stays : ℕ → Dot → Orswot → Orswot → Type 0
Stays x b s t =
    (t.tombstones ≡ s.tombstones) × (is_tombstoned s b ≡ true → IsGone x b s → IsGone x b t)

merge_added-Stays :
    (x : ℕ) (b : Dot) (s : Orswot) (rest : Orswot → Result SetError (Unit {0}) × Orswot)
    → ((s : Orswot) → Stays x b s (rest s).1)
    → (r : Result SetError Bool × Orswot) → Stays x b s r.1
    → Stays x b s (merge_added rest r).1
unfolding merge_added Stays is_tombstoned
merge_added-Stays x b s rest k (ok _, t) (e, g) =
    let (e', g') = k t in (e' ∙ e, λ c h. g' (ap (covers b) e ∙ c) (g c h))
merge_added-Stays x b s rest k (err _, t) h = h

added-Stays : (x y : ℕ) (b d : Dot) (s : Orswot) → Stays x b s (add s y d).1
unfolding Stays
added-Stays x y b d s = (add-tombstones s y d, λ c h. add-IsGone s x y b d c h)

merge_entry-Stays :
    (x : ℕ) (b : Dot) (rest : Orswot → Result SetError (Unit {0}) × Orswot)
    → ((s : Orswot) → Stays x b s (rest s).1)
    → (s : Orswot) (d : Dot) (y : Option ℕ) → Stays x b s (merge_entry rest s d y).1
unfolding merge_entry
merge_entry-Stays x b rest k s d none = k s
merge_entry-Stays x b rest k s d (some y) = elim (Bool-cases (is_tombstoned s d)) [
  | inl c ↦ rw c (k s)
  | inr c ↦ rw c (merge_added-Stays x b s rest k (add s y d) (added-Stays x y b d s))
]

merge_entries-Stays :
    (x : ℕ) (b : Dot) (es : List Entry) (s : Orswot) → Stays x b s (merge_entries es s).1
unfolding merge_entries Stays
merge_entries-Stays x b [] s = (refl, λ c h. h)
merge_entries-Stays x b (e ∷ es) s =
    merge_entry-Stays x b (merge_entries es) (merge_entries-Stays x b es) s e.dot e.element

-- One operation, when the dot is tombstoned before and after it.
step-IsGone :
    (s : Orswot) (x : ℕ) (b : Dot) (o : Op)
    → is_tombstoned s b ≡ true
    → is_tombstoned (step s o) b ≡ true
    → IsGone x b s
    → IsGone x b (step s o)
unfolding step merge is_tombstoned Stays
step-IsGone s x b (adds y d) t t' h = add-IsGone s x y b d t h
step-IsGone s x b (removes y d) t t' h = remove-IsGone_later s x y b d h
step-IsGone s x b (merges other) t t' h =
    let cut = merge_tombstones s other.tombstones in
    let (e, g) = merge_entries-Stays x b other.entries cut in
    g (sym (ap (covers b) e) ∙ t') (merge_tombstones-IsGone s x b other.tombstones h)

replica-IsGone :
    (s : Orswot) (x : ℕ) (b : Dot) (os : List Op)
    → is_tombstoned s b ≡ true
    → IsKept b s os
    → IsGone x b s
    → IsGone x b (replica s os)
unfolding replica
replica-IsGone s x b [] t k h = h
replica-IsGone s x b (o ∷ os) t (t', k) h =
    replica-IsGone (step s o) x b os t' k (step-IsGone s x b o t t' h)

-- An element that is not held is not held under a dot.
absent-IsGone :
    (x : ℕ) (b : Dot) (es : List Entry) → contains_at x es ≡ false → count (holds_under x b) es ≡ 0
unfolding contains_at count
absent-IsGone x b [] h = refl
absent-IsGone x b (e ∷ es) h = ground (arith, absent-IsGone x b es)

-- After a successful removal the element is gone, and it does not come back by any later additions,
-- removals and merges under the dot it was held by, or an earlier one of that actor, as long as that dot
-- is tombstoned after each of them; no element can be added under that dot right after the removal.
pub remove-IsGone :
    (n : ℕ) (os : List Op) (x : ℕ) (d : Dot) (later : List Op)
    → 0 < n
    → (remove (replica (with_capacity n) os) x d).0 ≡ ok true
    → IsKept
        (held_dot (replica (with_capacity n) os) x)
        (remove (replica (with_capacity n) os) x d).1
        later
    → let s = replica (with_capacity n) os in
      (contains_element (remove s x d).1 x ≡ false)
      × ((y : ℕ) → (add (remove s x d).1 y (held_dot s x)).0 ≢ ok true)
      × IsGone x (held_dot s x) (replica (remove s x d).1 later)
unfolding contains_element
remove-IsGone n os x d later h done kept =
    let s = replica (with_capacity n) os in
    let (out, refused, buried) = gone s x d (replica-Sound n os h) done in
    (
      out,
      refused,
      replica-IsGone (remove s x d).1 x (held_dot s x) later buried kept
          (absent-IsGone x (held_dot s x) (remove s x d).1.entries out),
    )
