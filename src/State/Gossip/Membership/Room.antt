-- ===== src/State/Gossip/Membership/Room.antt =====
-- The list of membership.rs has a slot for every actor.
use nexus_sfu.Base.{
  ℕ, zero, suc, ◌+◌, ◌≤◌, ◌<◌, ◌≡◌, refl, ap, ◌∙◌, ◌≢◌, Bool, false, not, Option, none, some, [],
  ◌∷◌, arith, ℕ_discrete, ltb, if◌then◌else◌, position, position-none, count, count-all, ok,
}
use nexus_sfu.State.Gossip.Peers.{SocketAddr, PeerInfo, max_actors}
use nexus_sfu.State.Gossip.Membership.{
  MembershipList, add_found, add_peer, insert_peer, has_actor, is_empty,
}
use nexus_sfu.State.Gossip.Membership.Sound.{Peers, is_taken, IsSound}
use nexus_sfu.State.Gossip.Membership.Calls.{Reached, reached-IsSound}

-- How many entries have an actor below the bound.
below : ℕ → Peers → ℕ
below zero peers = 0
below (suc n) peers = count (has_actor n) peers + below n peers

in_bound : ℕ → Option PeerInfo → Bool
in_bound n none = false
in_bound n (some p) = ltb p.actor_id n

below-nil : (n : ℕ) → below n [] ≡ 0
unfolding below count
below-nil zero = refl
below-nil (suc n) = omega (arith, below-nil n)

below-cons :
    (n : ℕ) (p : Option PeerInfo) (ps : Peers)
    → below n (p ∷ ps) ≡ below n ps + (if in_bound n p then 1 else 0)
unfolding below count in_bound has_actor
below-cons zero none ps = refl
below-cons zero (some p) ps = ground arith
below-cons (suc n) none ps = omega (arith, below-cons n none ps)
below-cons (suc n) (some p) ps = ground (arith, below-cons n (some p) ps)

taken-below :
    (n : ℕ) (ps : Peers)
    → ((id : ℕ) → n ≤ id → count (has_actor id) ps ≡ 0)
    → count is_taken ps ≤ below n ps
unfolding count has_actor is_empty in_bound
taken-below n [] h = omega (arith, below-nil n)
taken-below n (none ∷ ps) h = omega (arith, below-cons n none ps, taken-below n ps h)
taken-below n (some p ∷ ps) h =
    let rest : (id : ℕ) → n ≤ id → count (has_actor id) ps ≡ 0 = λ id le. ground (arith, h id le) in
    ground (arith, below-cons n (some p) ps, taken-below n ps rest, h p.actor_id)

-- Each actor once, and one of them not at all.
below-room :
    (n local_actor : ℕ) (ps : Peers)
    → ((id : ℕ) → count (has_actor id) ps ≤ 1)
    → count (has_actor local_actor) ps ≡ 0
    → below n ps + (if ltb local_actor n then 1 else 0) ≤ n
unfolding below
below-room zero local_actor ps once absent = ground arith
below-room (suc n) local_actor ps once absent =
    let rest = below-room n local_actor ps once absent in
    elim (ℕ_discrete n local_actor) [
      | yes e ↦
          let none_here : count (has_actor n) ps ≡ 0 =
            ap (λ k. count (has_actor k) ps) e ∙ absent in
          ground arith
      | no ne ↦ ground (arith, once n)
    ]

-- A sound list has at most 255 peers.
peers-lt : (m : MembershipList) → IsSound m → m.peer_count < max_actors
peers-lt m v = ground (
  arith,
  v.counted,
  v.local_valid,
  taken-below max_actors m.peers v.valid,
  below-room max_actors m.local_actor m.peers v.distinct v.absent,
)

-- So there is an empty slot.
insert_peer-ok :
    (now : ℕ) (m : MembershipList) (id : ℕ) (addr : SocketAddr) (slot : Option ℕ)
    → IsSound m
    → position is_empty m.peers ≡ slot
    → (insert_peer now m id addr slot).0 ≡ ok tt
unfolding insert_peer
insert_peer-ok now m id addr (some i) v e = refl
insert_peer-ok now m id addr none v e =
    let full =
      count-all is_taken m.peers (λ i p at. ap not (position-none is_empty m.peers i p e at)) in
    absurd (omega (arith, peers-lt m v, v.counted, v.sized))

add_found-ok :
    (now : ℕ) (m : MembershipList) (id : ℕ) (addr : SocketAddr) (slot : Option ℕ)
    → IsSound m
    → (add_found now m id addr slot).0 ≡ ok tt
unfolding add_found
add_found-ok now m id addr (some i) v = refl
add_found-ok now m id addr none v =
    ground (arith, peers-lt m v, insert_peer-ok now m id addr (position is_empty m.peers) v refl)

-- In a reached list, `add_peer` of another valid actor always succeeds: the capacity error does not
-- occur.
pub add_peer-ok :
    (now local_actor : ℕ) (m : MembershipList) (id : ℕ) (addr : SocketAddr)
    → Reached local_actor m
    → id < max_actors
    → id ≢ m.local_actor
    → (after : MembershipList) × (add_peer now m id addr ≡ some (ok tt, after))
unfolding add_peer
add_peer-ok now local_actor m id addr r valid other =
    let out = add_found now m id addr (position (has_actor id) m.peers) in
    let done =
      add_found-ok now m id addr (position (has_actor id) m.peers)
        (reached-IsSound local_actor m r) in
    (out.1, ground arith)
