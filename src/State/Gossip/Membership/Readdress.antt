-- ===== src/State/Gossip/Membership/Readdress.antt =====
-- A known peer at a new address, in membership.rs.
use nexus_sfu.Base.{
  ℕ, zero, suc, ◌<◌, ◌≡◌, refl, ap, ◌∙◌, ◌≢◌, true, false, Option, none, some, [], ◌∷◌, arith, set,
  position, ok,
}
use nexus_sfu.State.Gossip.Peers.{alive, SocketAddr, same_addr, PeerInfo, new_peer, max_actors}
use nexus_sfu.State.Gossip.Membership.{
  MembershipList, has_actor, peer_at, set_peer, find_at, find_peer, readdress, add_found, add_peer,
}
use nexus_sfu.State.Gossip.Membership.Sound.{Peers}

position-set :
    (id i : ℕ) (peers : Peers) (new : Option PeerInfo)
    → position (has_actor id) peers ≡ some i
    → has_actor id new ≡ true
    → (position (has_actor id) (set peers i new) ≡ some i) × (peer_at (set peers i new) i ≡ new)
unfolding position
position-set id i [] new h g = cc
position-set id zero (p ∷ ps) new h g = (ground arith, refl)
position-set id (suc i) (p ∷ ps) new h g =
    let (at, same) = position-set id i ps new (ground arith) g in (ground arith, same)

found_position :
    (id : ℕ) (peers : Peers) (slot : Option ℕ) (p : PeerInfo)
    → find_at peers slot ≡ some p
    → (i : ℕ) × (slot ≡ some i) × (peer_at peers i ≡ some p)
unfolding find_at
found_position id peers none p h = cc
found_position id peers (some i) p h = (i, refl, h)

-- `add_peer` of a known peer, another valid actor than the local one, at another address puts it back to alive under the incarnation that it
-- had, whatever its state, suspected and dead included.
pub add_peer-revives :
    (now : ℕ) (m : MembershipList) (id : ℕ) (addr : SocketAddr) (p : PeerInfo)
    → id < max_actors
    → id ≢ m.local_actor
    → find_peer m id ≡ some p
    → same_addr p.addr addr ≡ false
    → (after : MembershipList) × (add_peer now m id addr ≡ some (ok tt, after))
      × (find_peer after id ≡ some (record p { actor_id = id; addr = addr; state = alive }))
unfolding add_peer find_peer add_found find_at readdress has_actor new_peer
add_peer-revives now m id addr p valid other known moved =
    let (i, slot, at) = found_position id m.peers (position (has_actor id) m.peers) p known in
    let entry : Option PeerInfo = some (new_peer id addr p.incarnation p.last_seen_ns) in
    let written : readdress id addr (some p) ≡ entry = ground arith in
    let changed : add_found now m id addr (position (has_actor id) m.peers)
        ≡ (ok tt, set_peer m i entry) =
      ap (add_found now m id addr) slot
      ∙ ap (λ o. (ok tt, set_peer m i (readdress id addr o))) at
      ∙ ap (λ o. (ok tt, set_peer m i o)) written in
    let (pos, there) = position-set id i m.peers entry slot (ground arith) in
    (
      set_peer m i entry,
      ground (arith, ap some changed),
      ap (find_at (set m.peers i entry)) pos ∙ there,
    )
