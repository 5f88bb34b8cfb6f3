-- ===== src/State/Orswot/Runs.antt =====
-- Replicas of the set in crdt/orswot.rs after any operations.
use nexus_sfu.Base.{ℕ, ◌<◌, List, [], ◌∷◌}
use nexus_sfu.State.Orswot.{Dot, Orswot, with_capacity, add, remove, merge}
use nexus_sfu.State.Orswot.Sound.{Sound, with_capacity-Sound}
use nexus_sfu.State.Orswot.Additions.{add-Sound}
use nexus_sfu.State.Orswot.Merging.{remove-Sound, merge-Sound}

-- Calls in any order.
pub data Op : Type 0 where
  adds removes : ℕ → Dot → Op
  merges : Orswot → Op

unfoldable pub step : Orswot → Op → Orswot
step s (adds x d) = (add s x d).1
step s (removes x d) = (remove s x d).1
step s (merges other) = (merge s other).1

unfoldable pub replica : Orswot → List Op → Orswot
replica s [] = s
replica s (o ∷ os) = replica (step s o) os

step-Sound : (s : Orswot) (o : Op) → Sound s → Sound (step s o)
unfolding step
step-Sound s (adds x d) v = add-Sound s x d v
step-Sound s (removes x d) v = remove-Sound s x d v
step-Sound s (merges other) v = merge-Sound s other v

replica_from-Sound : (s : Orswot) (os : List Op) → Sound s → Sound (replica s os)
unfolding replica
replica_from-Sound s [] v = v
replica_from-Sound s (o ∷ os) v = replica_from-Sound (step s o) os (step-Sound s o v)

-- Whatever is added, removed and merged, errors included, in any order: no element is held twice,
-- the count is right, and neither list outgrows its limit.
pub replica-Sound : (n : ℕ) (os : List Op) → 0 < n → Sound (replica (with_capacity n) os)
replica-Sound n os h = replica_from-Sound (with_capacity n) os (with_capacity-Sound n h)
