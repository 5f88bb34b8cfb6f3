-- ===== src/State/LwwReg.antt =====
-- crates/nexus-state/src/crdt/lwwreg.rs: the last-writer-wins register, one call at a time.
pub mod Order
use nexus_sfu.Base.{
  ℕ, Bool, true, false, ◌&&◌, ◌||◌, Option, none, some, ltb, leb, ◌==◌, if◌then◌else◌,
}

abbrev pub max_actors : ℕ
max_actors = 256

-- `LWWReg`
pub record LwwReg {ℓ} (A : Type ℓ) : Type ℓ where
  pub value : A
  pub timestamp : ℕ
  pub writer : ℕ

module _ {ℓ} {A : Type ℓ} where
  -- `with_timestamp`, and `new` at timestamp 0; `none` is the failed assertion.
  unfoldable pub with_timestamp : A → ℕ → ℕ → Option (LwwReg A)
  with_timestamp initial timestamp actor =
      if ltb actor max_actors
      then some (record { value = initial; timestamp = timestamp; writer = actor })
      else none

  unfoldable pub new : A → ℕ → Option (LwwReg A)
  unfolding with_timestamp
  new initial actor = with_timestamp initial 0 actor

  -- `wins` of `set`
  abbrev pub wins : LwwReg A → ℕ → ℕ → Bool
  wins r timestamp actor =
      ltb r.timestamp timestamp || (timestamp == r.timestamp && ltb r.writer actor)

  -- `set`: whether the value was updated, and the register; `none` is a failed assertion.
  unfoldable pub set_reg : LwwReg A → A → ℕ → ℕ → Option (Bool × LwwReg A)
  set_reg r value timestamp actor =
      if timestamp == 0 || leb max_actors actor
      then none
      else (if wins r timestamp actor
          then some (true, record { value = value; timestamp = timestamp; writer = actor })
          else some (false, r))

  -- `merge`
  unfoldable pub merge : LwwReg A → LwwReg A → LwwReg A
  merge r other =
      if ltb 0 other.timestamp
      then (if r.timestamp == 0 || ltb r.timestamp other.timestamp
          then other
          else (if other.timestamp == r.timestamp
              then (if ltb r.writer other.writer
                  then record r { value = other.value; writer = other.writer }
                  else r)
              else r))
      else r
