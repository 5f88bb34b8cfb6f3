-- ===== src/State/GCounter.antt =====
-- crates/nexus-state/src/crdt/gcounter.rs: the grow-only counter, one call at a time.
pub mod Lattice
pub mod Growth
use nexus_sfu.Base.{
  ℕ, ◌+◌, ◌%◌, ◌^◌, min, Bool, true, false, ◌||◌, Option, none, some, List, [], ◌∷◌, ltb, leb, ◌==◌,
  if◌then◌else◌, get_or, set, replicate, Result, ok, err,
}

abbrev pub max_actors : ℕ
max_actors = 256

abbrev pub u64_max : ℕ
u64_max = 18446744073709551615

-- The errors of `CrdtError` that `try_increment` returns; its `InvalidState` has one reason.
pub data CounterError : Type 0 where
  invalid_actor_id : ℕ → CounterError
  invalid_state overflow : CounterError

-- `GCounter`: the counters of the actors.
pub record GCounter : Type 0 where
  pub counters : List ℕ

-- `new`
unfoldable pub new : GCounter
new = record { counters = replicate max_actors 0 }

-- `actor_value`; `none` is the failed assertion.
unfoldable pub actor_value : GCounter → ℕ → Option ℕ
actor_value c actor = if ltb actor max_actors then some (get_or c.counters actor 0) else none

-- `fetch_add`, which wraps.
abbrev pub fetch_add : GCounter → ℕ → ℕ → GCounter
fetch_add c actor delta = record {
  counters = set c.counters actor ((get_or c.counters actor 0 + delta) % 2 ^ 64);
}

-- `increment`: the new value of the actor, and the counter; `none` is a failed assertion or the
-- overflow of the returned sum.
unfoldable pub increment : GCounter → ℕ → ℕ → Option (ℕ × GCounter)
increment c actor delta =
    let sum = get_or c.counters actor 0 + delta in
    if delta == 0 || leb max_actors actor || ltb u64_max sum
    then none
    else some (sum, fetch_add c actor delta)

-- `try_increment`
unfoldable pub try_increment : GCounter → ℕ → ℕ → Result CounterError ℕ × GCounter
try_increment c actor delta =
    let sum = get_or c.counters actor 0 + delta in
    if leb max_actors actor
    then (err (invalid_actor_id actor), c)
    else (if delta == 0
        then (err invalid_state, c)
        else (if ltb u64_max sum then (err overflow, c) else (ok sum, fetch_add c actor delta)))

-- `saturating_add`
abbrev pub saturating_add : ℕ → ℕ → ℕ
saturating_add a b = min (a + b) u64_max

-- The loop of `value`, and `value`.
unfoldable pub sum_from : ℕ → List ℕ → ℕ
sum_from sum [] = sum
sum_from sum (x ∷ xs) = sum_from (saturating_add sum x) xs

unfoldable pub value : GCounter → ℕ
unfolding sum_from
value c = sum_from 0 c.counters

-- The loop of `merge`: the larger value of each actor.
unfoldable pub merge_counters : List ℕ → List ℕ → List ℕ
merge_counters [] ys = []
merge_counters (x ∷ xs) [] = x ∷ xs
merge_counters (x ∷ xs) (y ∷ ys) = (if ltb x y then y else x) ∷ merge_counters xs ys

unfoldable pub merge : GCounter → GCounter → GCounter
unfolding merge_counters
merge c other = record { counters = merge_counters c.counters other.counters }

-- The loop of `is_empty`.
unfoldable pub all_zero : List ℕ → Bool
all_zero [] = true
all_zero (x ∷ xs) = if x == 0 then all_zero xs else false

unfoldable pub is_empty : GCounter → Bool
unfolding all_zero
is_empty c = all_zero c.counters
