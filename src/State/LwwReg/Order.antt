-- ===== src/State/LwwReg/Order.antt =====
-- When merging registers of crdt/lwwreg.rs does not depend on the order.
use nexus_sfu.Base.{ℕ, ◌<◌, ◌≡◌, ◌≢◌, ◌↔◌, ◌⊎◌, some, arith}
use nexus_sfu.State.LwwReg.{LwwReg, merge, set_reg, wins, max_actors}

module _ {A : Type 0} where
  -- One of the two writes is newer: by the timestamp, or by the writer of equal ones, which only
  -- counts above 0.
  abbrev pub IsOrdered : LwwReg A → LwwReg A → Type 0
  IsOrdered a b = (a.timestamp ≢ b.timestamp) ⊎ ((0 < a.timestamp) × (a.writer ≢ b.writer))

  -- Merging commutes exactly for registers of which one is newer, and for equal ones. So two
  -- registers that were never set, or were set by one writer at one time, to different values,
  -- stay apart when they are merged both ways.
  pub merge_comm : (a b : LwwReg A) → (merge a b ≡ merge b a) ↔ (IsOrdered a b ⊎ (a ≡ b))
  unfolding merge
  merge_comm a b = (λ h. ground arith, λ h. ground arith)

  -- Merging is associative and idempotent, whatever the registers.
  pub merge_assoc : (a b c : LwwReg A) → merge (merge a b) c ≡ merge a (merge b c)
  unfolding merge
  merge_assoc a b c = ground arith

  pub merge_idem : (a : LwwReg A) → merge a a ≡ a
  unfolding merge
  merge_idem a = ground arith

  -- A write has the same effect as merging the register that it makes.
  pub set_reg-merge :
      (r : LwwReg A) (value : A) (timestamp actor : ℕ)
      → 0 < timestamp
      → actor < max_actors
      → set_reg r value timestamp actor
        ≡ some (
          wins r timestamp actor,
          merge r (record { value = value; timestamp = timestamp; writer = actor }),
        )
  unfolding set_reg merge
  set_reg-merge r value timestamp actor h h' = ground arith
