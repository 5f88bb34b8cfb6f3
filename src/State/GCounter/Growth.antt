-- ===== src/State/GCounter/Growth.antt =====
-- The value of the counter of crdt/gcounter.rs.
use nexus_sfu.Base.{
  ℕ, zero, suc, ◌+◌, ◌%◌, ◌^◌, ◌≤◌, ◌<◌, min, ◌≡◌, refl, ◌∙◌, ◌⊎◌, inl, inr, some, List, [], ◌∷◌,
  arith, ltb, leb, ◌==◌, Bool-cases, length, get_or, set, ok, err,
}
use nexus_sfu.State.GCounter.{
  GCounter, invalid_actor_id, invalid_state, overflow, value, sum_from, merge, merge_counters,
  try_increment, increment, saturating_add, fetch_add, u64_max, max_actors,
}

-- The sum that the value saturates.
unfoldable pub sum : List ℕ → ℕ
sum [] = 0
sum (x ∷ xs) = x + sum xs

sum_from-sum : (s : ℕ) (xs : List ℕ) → s ≤ u64_max → sum_from s xs ≡ min (s + sum xs) u64_max
unfolding sum_from sum
sum_from-sum s [] h = omega arith
sum_from-sum s (x ∷ xs) h = omega (arith, sum_from-sum (saturating_add s x) xs (omega arith))

pub value-sum : (c : GCounter) → value c ≡ min (sum c.counters) u64_max
unfolding value
value-sum c = sum_from-sum 0 c.counters (omega arith) ∙ omega arith

sum-merge :
    (xs ys : List ℕ)
    → length xs ≡ length ys
    → (sum xs ≤ sum (merge_counters xs ys))
      × (sum ys ≤ sum (merge_counters xs ys))
      × (sum (merge_counters xs ys) ≤ sum xs + sum ys)
unfolding sum merge_counters
sum-merge [] [] h = omega arith
sum-merge [] (y ∷ ys) h = absurd (omega arith)
sum-merge (x ∷ xs) [] h = absurd (omega arith)
sum-merge (x ∷ xs) (y ∷ ys) h = ground (arith, sum-merge xs ys (omega arith))

-- The value after a merge is no less than either value, and no more than their sum: no increment
-- is lost and none is counted twice.
pub merge-value :
    (a b : GCounter)
    → length a.counters ≡ length b.counters
    → (value a ≤ value (merge a b))
      × (value b ≤ value (merge a b))
      × (value (merge a b) ≤ value a + value b)
unfolding merge
merge-value a b h =
    omega
      (arith, value-sum a, value-sum b, value-sum (merge a b), sum-merge a.counters b.counters h)

sum-set : (xs : List ℕ) (i v : ℕ) → i < length xs → sum (set xs i v) + get_or xs i 0 ≡ sum xs + v
unfolding sum
sum-set [] i v h = absurd (omega arith)
sum-set (x ∷ xs) zero v h = omega arith
sum-set (x ∷ xs) (suc i) v h = omega (arith, sum-set xs i v (omega arith))

fetch_add-value :
    (c : GCounter) (actor delta : ℕ)
    → length c.counters ≡ max_actors
    → actor < max_actors
    → get_or c.counters actor 0 + delta ≤ u64_max
    → value (fetch_add c actor delta) ≡ min (sum c.counters + delta) u64_max
fetch_add-value c actor delta h inside small = omega (
  arith,
  value-sum (fetch_add c actor delta),
  sum-set c.counters actor ((get_or c.counters actor 0 + delta) % 2 ^ 64) (omega (arith, h)),
)

-- Every branch of `try_increment`: it refuses an actor out of range, a delta of 0 and an overflow
-- of the actor's counter, in this order, and leaves the counter alone; else the actor's counter
-- grows by the delta, and so does the value until it saturates.
pub try_increment-value :
    (c : GCounter) (actor delta : ℕ)
    → length c.counters ≡ max_actors
    → let r = try_increment c actor delta in
      ((max_actors ≤ actor) × (r ≡ (err (invalid_actor_id actor), c)))
      ⊎ ((actor < max_actors) × (delta ≡ 0) × (r ≡ (err invalid_state, c)))
      ⊎ ((actor < max_actors)
          × (u64_max < get_or c.counters actor 0 + delta)
          × (r ≡ (err overflow, c)))
      ⊎ ((r.0 ≡ ok (get_or c.counters actor 0 + delta))
          × (value r.1 ≡ min (sum c.counters + delta) u64_max)
          × (increment c actor delta ≡ some (get_or c.counters actor 0 + delta, r.1)))
unfolding try_increment increment
try_increment-value c actor delta h = elim (Bool-cases (leb max_actors actor)) [
  | inl e ↦ rw e (inl (ground arith, refl))
  | inr e ↦ rw e (
      inr (elim (Bool-cases (delta == 0)) [
        | inl z ↦ rw z (inl (ground arith, ground arith, refl))
        | inr z ↦ rw z (
            inr (elim (Bool-cases (ltb u64_max (get_or c.counters actor 0 + delta))) [
              | inl o ↦ rw o (inl (ground arith, ground arith, refl))
              | inr o ↦
                  rw o (
                    inr (refl, fetch_add-value c actor delta h (ground arith) (ground arith), refl))
            ]))
      ]))
]
