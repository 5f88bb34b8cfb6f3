-- ===== src/State/Gossip/Membership/Calls.antt =====
-- The list of membership.rs through any sequence of calls.
use nexus_sfu.Base.{
  ℕ, ◌≡◌, refl, subst, inl, inr, Bool, true, false, not, ◌&&◌, Option, none, some, arith, ltb, ◌==◌,
  if◌then◌else◌, Bool-cases, some_eq, position,
}
use nexus_sfu.State.Gossip.Peers.{PeerState, SocketAddr, max_actors}
use nexus_sfu.State.Gossip.Membership.{
  MembershipList, Outcome, new, increment_incarnation, saturating_add_1, add_found, add_peer,
  remove_found, remove_peer, update_found, update_state, refute, mark_alive, mark_suspect,
  mark_dead, incarnation_of, find_peer, check_timeouts, touch, has_actor,
}
use nexus_sfu.State.Gossip.Membership.Sound.{IsSound, new-IsSound}
use nexus_sfu.State.Gossip.Membership.Keeps.{
  add_found-IsSound, remove_found-IsSound, update_found-IsSound, check_timeouts-IsSound,
  touch_found-IsSound,
}

-- The calls that change the list.
pub data Call : Type 0 where
  add : ℕ → SocketAddr → Call
  remove : ℕ → Call
  hear_alive : ℕ → ℕ → Call
  hear_suspect : ℕ → ℕ → Call
  hear_dead : ℕ → Call
  set_state : ℕ → PeerState → ℕ → Call
  sweep : Call
  hear : ℕ → Call
  bump : Call

abbrev pub list_after : Option Outcome → Option MembershipList
list_after none = none
list_after (some (r, m)) = some m

-- The list after a call at a time.
unfoldable pub step : ℕ → MembershipList → Call → Option MembershipList
step now m (add id addr) = list_after (add_peer now m id addr)
step now m (remove id) = list_after (remove_peer m id)
step now m (hear_alive id incarnation) = list_after (mark_alive now m id incarnation)
step now m (hear_suspect id incarnation) = list_after (mark_suspect now m id incarnation)
step now m (hear_dead id) = list_after (mark_dead now m id)
step now m (set_state id state n) = list_after (update_state now m id state n)
step now m sweep = some (check_timeouts now m).1
step now m (hear id) = some (touch now m id)
step now m bump = some (increment_incarnation m).1

-- A list that is reached by calls at any times.
pub data Reached (local_actor : ℕ) : MembershipList → Type 0 where
  start : (m : MembershipList) → new local_actor ≡ some m → Reached local_actor m
  called :
      (now : ℕ) (m after : MembershipList) (c : Call)
      → Reached local_actor m
      → step now m c ≡ some after
      → Reached local_actor after

pub list_after-some :
    (P : MembershipList → Type 0) (o : Outcome) (m : MembershipList)
    → P o.1
    → list_after (some o) ≡ some m
    → P m
list_after-some P (r, out) m p e = subst P (some_eq e) p

incarnation-IsSound :
    (m : MembershipList) (n : ℕ) → IsSound m → IsSound (record m { incarnation = n })
incarnation-IsSound m n v = record {
  sized = v.sized;
  counted = v.counted;
  distinct = v.distinct;
  valid = v.valid;
  absent = v.absent;
  local_valid = v.local_valid;
}

pub guarded :
    (test : Bool) (o : Outcome) (m : MembershipList)
    → list_after (if test then some o else none) ≡ some m
    → (test ≡ true) × (list_after (some o) ≡ some m)
guarded true o m h = (refl, h)
guarded false o m h = cc

update_state-IsSound :
    (now : ℕ) (m after : MembershipList) (id : ℕ) (state : PeerState) (n : ℕ)
    → IsSound m
    → list_after (update_state now m id state n) ≡ some after
    → IsSound after
unfolding update_state
update_state-IsSound now m after id state n v h =
    let slot = position (has_actor id) m.peers in
    let (valid, e) = guarded (ltb id max_actors) (update_found now m id state n slot) after h in
    list_after-some IsSound (update_found now m id state n slot) after
      (update_found-IsSound now m id state n slot v refl) e

refute-IsSound : (m : MembershipList) (n : ℕ) → IsSound m → IsSound (refute m n)
unfolding refute
refute-IsSound m n v =
    elim (ltb n m.incarnation)
      as (λ above. IsSound (if above then m else record m { incarnation = saturating_add_1 n })) [
        | true ↦ v
        | false ↦ incarnation-IsSound m (saturating_add_1 n) v
      ]

-- A call keeps the invariant.
pub step-IsSound :
    (now : ℕ) (m after : MembershipList) (c : Call)
    → IsSound m
    → step now m c ≡ some after
    → IsSound after
unfolding step add_peer remove_peer mark_alive mark_suspect mark_dead touch increment_incarnation
    refute
step-IsSound now m after (add id addr) v h =
    let slot = position (has_actor id) m.peers in
    let (valid, e) =
      guarded (ltb id max_actors && not (id == m.local_actor)) (add_found now m id addr slot) after
        h in
    list_after-some IsSound (add_found now m id addr slot) after
      (add_found-IsSound now m id addr slot v (ground arith) (ground arith) refl) e
step-IsSound now m after (remove id) v h =
    let slot = position (has_actor id) m.peers in
    let (valid, e) = guarded (ltb id max_actors) (remove_found m id slot) after h in
    list_after-some IsSound (remove_found m id slot) after (remove_found-IsSound m id slot v refl) e
step-IsSound now m after (hear_alive id n) v h = elim (Bool-cases (id == m.local_actor)) [
  | inl self ↦
      let here : some (refute m n) ≡ some after = ground arith in
      subst IsSound (some_eq here) (refute-IsSound m n v)
  | inr other ↦ update_state-IsSound now m after id PeerState.alive n v (ground arith)
]
step-IsSound now m after (hear_suspect id n) v h = elim (Bool-cases (id == m.local_actor)) [
  | inl self ↦ cc
  | inr other ↦ update_state-IsSound now m after id PeerState.suspect n v (ground arith)
]
step-IsSound now m after (hear_dead id) v h = elim (Bool-cases (id == m.local_actor)) [
  | inl self ↦ cc
  | inr other ↦
      update_state-IsSound now m after id PeerState.dead (incarnation_of (find_peer m id)) v
        (ground arith)
]
step-IsSound now m after (set_state id state n) v h =
    update_state-IsSound now m after id state n v h
step-IsSound now m after sweep v h = subst IsSound (some_eq h) (check_timeouts-IsSound now m v)
step-IsSound now m after (hear id) v h =
    subst IsSound (some_eq h)
      (touch_found-IsSound now m id (position (has_actor id) m.peers) v refl)
step-IsSound now m after bump v h =
    subst IsSound (some_eq h) (incarnation-IsSound m (increment_incarnation m).0 v)

-- After any calls at any times the list has its 256 slots, counts its peers, lists no actor twice, only
-- valid actors, and not the local one.
pub reached-IsSound : (local_actor : ℕ) (m : MembershipList) → Reached local_actor m → IsSound m
reached-IsSound local_actor m (start made h) = new-IsSound local_actor made h
reached-IsSound local_actor m (called now before after c r h) =
    step-IsSound now before after c (reached-IsSound local_actor before r) h
