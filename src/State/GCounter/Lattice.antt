-- ===== src/State/GCounter/Lattice.antt =====
-- Merging counters of crdt/gcounter.rs.
use nexus_sfu.Base.{ℕ, ◌≡◌, refl, ap₂, List, [], ◌∷◌, arith, length}
use nexus_sfu.State.GCounter.{GCounter, merge, merge_counters, max_actors}

merge_counters_comm :
    (xs ys : List ℕ) → length xs ≡ length ys → merge_counters xs ys ≡ merge_counters ys xs
unfolding merge_counters
merge_counters_comm [] [] h = refl
merge_counters_comm [] (y ∷ ys) h = absurd (omega arith)
merge_counters_comm (x ∷ xs) [] h = absurd (omega arith)
merge_counters_comm (x ∷ xs) (y ∷ ys) h =
    ap₂ ◌∷◌ (ground arith) (merge_counters_comm xs ys (omega arith))

merge_counters_assoc :
    (xs ys zs : List ℕ)
    → length xs ≡ length ys
    → length ys ≡ length zs
    → merge_counters (merge_counters xs ys) zs ≡ merge_counters xs (merge_counters ys zs)
unfolding merge_counters
merge_counters_assoc [] ys zs h g = refl
merge_counters_assoc (x ∷ xs) [] zs h g = absurd (omega arith)
merge_counters_assoc (x ∷ xs) (y ∷ ys) [] h g = absurd (omega arith)
merge_counters_assoc (x ∷ xs) (y ∷ ys) (z ∷ zs) h g =
    ap₂ ◌∷◌ (ground arith) (merge_counters_assoc xs ys zs (omega arith) (omega arith))

merge_counters_idem : (xs : List ℕ) → merge_counters xs xs ≡ xs
unfolding merge_counters
merge_counters_idem [] = refl
merge_counters_idem (x ∷ xs) = ap₂ ◌∷◌ (ground arith) (merge_counters_idem xs)

abbrev pub IsCounter : GCounter → Type 0
IsCounter c = length c.counters ≡ max_actors

counter_eq : (c d : GCounter) → c.counters ≡ d.counters → c ≡ d
counter_eq c d h = cc

-- Replicas that exchange counters converge: merging is commutative, associative and idempotent.
pub merge-lattice :
    (a b c : GCounter)
    → IsCounter a
    → IsCounter b
    → IsCounter c
    → (merge a b ≡ merge b a) × (merge (merge a b) c ≡ merge a (merge b c)) × (merge a a ≡ a)
unfolding merge
merge-lattice a b c ha hb hc = (
  counter_eq _ _ (merge_counters_comm a.counters b.counters (omega (arith, ha, hb))),
  counter_eq _ _ (
      merge_counters_assoc a.counters b.counters c.counters (omega (arith, ha, hb))
        (omega (arith, hb, hc))),
  counter_eq _ _ (merge_counters_idem a.counters),
)
