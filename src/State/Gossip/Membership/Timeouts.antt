-- ===== src/State/Gossip/Membership/Timeouts.antt =====
-- The suspect timeout and the refutation of membership.rs.
use nexus_sfu.Base.{
  ℕ, ◌-◌, ◌≤◌, ◌<◌, ◌≡◌, ◌⊎◌, inl, inr, Option, none, some, arith, ltb, Bool-cases, top, ok,
}
use nexus_sfu.State.Gossip.Peers.{suspect, dead, PeerInfo, max_actors, suspect_timeout_ns, u64_max}
use nexus_sfu.State.Gossip.Membership.{MembershipList, refute, mark_alive}
use nexus_sfu.State.Gossip.Membership.Sound.{Peers}

-- A suspected peer whose time is over.
pub record IsExpired (now : ℕ) (p : PeerInfo) : Type 0 where
  pub suspected : p.state ≡ suspect
  pub old : suspect_timeout_ns < now - p.last_seen_ns

-- What the sweep leaves in a slot.
pub data Swept (now : ℕ) : Option PeerInfo → Option PeerInfo → Type 0 where
  empty : Swept now none none
  dies :
      (p : PeerInfo)
      → IsExpired now p
      → Swept now (some p) (some (record p { state = dead; last_seen_ns = now }))
  stays : (p : PeerInfo) → ¬ IsExpired now p → Swept now (some p) (some p)

-- A slot holds an expired peer of the actor.
abbrev pub Listed : ℕ → ℕ → Option PeerInfo → Type 0
Listed now id none = ⊥
Listed now id (some p) = (p.actor_id ≡ id) × IsExpired now p

refute-above :
    (m : MembershipList) (n : ℕ)
    → (n < (refute m n).incarnation) ⊎ ((refute m n).incarnation ≡ u64_max)
unfolding refute
refute-above m n = elim (Bool-cases (ltb n u64_max)) [
  | inl below ↦ inl (ground arith)
  | inr top ↦ elim (Bool-cases (ltb n m.incarnation)) [
    | inl lower ↦ inl (ground arith)
    | inr higher ↦ inr (ground arith)
  ]
]

-- Marking the local actor alive at an incarnation keeps the peers, lowers no incarnation, and puts the
-- local one above it, or at the largest number.
pub mark_alive-refutes :
    (now : ℕ) (m : MembershipList) (n : ℕ)
    → m.local_actor < max_actors
    → m.incarnation ≤ u64_max
    → (after : MembershipList) × (mark_alive now m m.local_actor n ≡ some (ok tt, after))
      × (after.peers ≡ m.peers)
      × (m.incarnation ≤ after.incarnation)
      × ((n < after.incarnation) ⊎ (after.incarnation ≡ u64_max))
unfolding mark_alive refute
mark_alive-refutes now m n valid h =
    (refute m n, ground arith, ground arith, ground arith, refute-above m n)
