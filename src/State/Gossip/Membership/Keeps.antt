-- ===== src/State/Gossip/Membership/Keeps.antt =====
-- Each operation of membership.rs keeps the invariant.
use nexus_sfu.Base.{
  ℕ, suc, ◌<◌, ◌≡◌, refl, sym, ap, ◌∙◌, ◌≢◌, Bool, true, false, Option, none, some, [], ◌∷◌, map,
  arith, leb, if◌then◌else◌, length, get_elem?, length-set, position, position-some, count,
  count-set, count-le, ok, err,
}
use nexus_sfu.State.Gossip.Peers.{PeerState, SocketAddr, PeerInfo, max_actors, max_peers, new_peer}
use nexus_sfu.State.Gossip.Membership.{
  MembershipList, GossipError, Outcome, has_actor, is_empty, peer_at, set_peer, readdress,
  insert_peer, add_found, remove_found, validate_transition, update_peer, update_found, expire,
  check_timeouts, seen, touch_found,
}
use nexus_sfu.State.Gossip.Membership.Sound.{
  Peers, is_taken, IsSound, SameActor, set_peer-IsSound, found_slot, not_found,
}

readdress-SameActor :
    (id : ℕ) (addr : SocketAddr) (old : Option PeerInfo)
    → has_actor id old ≡ true
    → SameActor old (readdress id addr old)
unfolding readdress has_actor is_empty new_peer
readdress-SameActor id addr none h = cc
readdress-SameActor id addr (some p) h = record { actor = λ j. ground arith; filled = ground arith }

vacant-actor : (id : ℕ) (p : Option PeerInfo) → is_empty p ≡ true → has_actor id p ≡ false
unfolding has_actor is_empty
vacant-actor id none h = refl
vacant-actor id (some p) h = cc

taken-actor : (id : ℕ) (p : Option PeerInfo) → has_actor id p ≡ true → is_empty p ≡ false
unfolding has_actor is_empty
taken-actor id none h = cc
taken-actor id (some p) h = refl

-- A free slot gets a peer that was not listed.
pub insert_peer-IsSound :
    (now : ℕ) (m : MembershipList) (id : ℕ) (addr : SocketAddr) (slot : Option ℕ)
    → IsSound m
    → id < max_actors
    → id ≢ m.local_actor
    → count (has_actor id) m.peers ≡ 0
    → position is_empty m.peers ≡ slot
    → IsSound (insert_peer now m id addr slot).1
unfolding insert_peer has_actor is_empty new_peer
insert_peer-IsSound now m id addr none v ok_id other fresh e = v
insert_peer-IsSound now m id addr (some i) v ok_id other fresh e =
    let (at, vacant) = position-some is_empty m.peers i none e in
    let entry : Option PeerInfo = some (new_peer id addr 0 now) in
    let changed =
      λ (p : Option PeerInfo → Bool). count-set p m.peers i (peer_at m.peers i) entry at in
    let bare = λ (j : ℕ). vacant-actor j (peer_at m.peers i) vacant in
    let small = count-le is_taken m.peers in
    record {
      sized = length-set m.peers i entry ∙ v.sized;
      counted = ground (arith, changed is_taken, v.counted, v.sized);
      distinct = λ j. ground (arith, changed (has_actor j), bare j, v.distinct j);
      valid = λ j h. ground (arith, changed (has_actor j), bare j, v.valid j);
      absent = ground (arith, changed (has_actor m.local_actor), bare m.local_actor);
      local_valid = v.local_valid;
    }

pub add_found-IsSound :
    (now : ℕ) (m : MembershipList) (id : ℕ) (addr : SocketAddr) (slot : Option ℕ)
    → IsSound m
    → id < max_actors
    → id ≢ m.local_actor
    → position (has_actor id) m.peers ≡ slot
    → IsSound (add_found now m id addr slot).1
unfolding add_found
add_found-IsSound now m id addr (some i) v ok_id other e =
    let (at, actor) = found_slot m id i e in
    set_peer-IsSound m i (peer_at m.peers i) (readdress id addr (peer_at m.peers i)) v at
      (readdress-SameActor id addr (peer_at m.peers i) actor)
add_found-IsSound now m id addr none v ok_id other e =
    elim (leb max_peers m.peer_count)
      as (λ full.
        IsSound
          (if full
            then (err (GossipError.peer_capacity_exhausted max_peers), m)
            else insert_peer now m id addr (position is_empty m.peers)).1) [
              | true ↦ v
              | false ↦
                  insert_peer-IsSound now m id addr (position is_empty m.peers) v ok_id other
                    (not_found m id e) refl
            ]

-- A slot is emptied.
pub remove_found-IsSound :
    (m : MembershipList) (id : ℕ) (slot : Option ℕ)
    → IsSound m
    → position (has_actor id) m.peers ≡ slot
    → IsSound (remove_found m id slot).1
unfolding remove_found has_actor is_empty
remove_found-IsSound m id none v e = v
remove_found-IsSound m id (some i) v e =
    let (at, actor) = found_slot m id i e in
    let changed =
      λ (p : Option PeerInfo → Bool). count-set p m.peers i (peer_at m.peers i) none at in
    let taken = taken-actor id (peer_at m.peers i) actor in
    let small = count-le is_taken m.peers in
    record {
      sized = length-set m.peers i none ∙ v.sized;
      counted = ground (arith, changed is_taken, v.counted, v.sized);
      distinct = λ j. ground (arith, changed (has_actor j), v.distinct j);
      valid = λ j h. ground (arith, changed (has_actor j), v.valid j);
      absent = ground (arith, changed (has_actor m.local_actor));
      local_valid = v.local_valid;
    }

pub update_peer-IsSound :
    (now : ℕ) (m : MembershipList) (id i : ℕ) (state : PeerState) (n : ℕ) (old : Option PeerInfo)
    → IsSound m
    → get_elem? m.peers i ≡ some old
    → IsSound (update_peer now m id i state n old).1
unfolding update_peer has_actor is_empty
update_peer-IsSound now m id i state n none v at = v
update_peer-IsSound now m id i state n (some p) v at =
    let entry : PeerInfo = record p { state = state; incarnation = n; last_seen_ns = now } in
    elim (validate_transition p.state state p.incarnation n)
      as (λ valid.
        let out : Outcome =
          if valid
          then (ok tt, set_peer m i (some entry))
          else (err (GossipError.invalid_state_transition p.state state), m) in
        IsSound out.1) [
          | true ↦
              set_peer-IsSound m i (some p) (some entry) v at
                (record { actor = λ j. refl; filled = refl })
          | false ↦ v
        ]

pub update_found-IsSound :
    (now : ℕ) (m : MembershipList) (id : ℕ) (state : PeerState) (n : ℕ) (slot : Option ℕ)
    → IsSound m
    → position (has_actor id) m.peers ≡ slot
    → IsSound (update_found now m id state n slot).1
unfolding update_found
update_found-IsSound now m id state n none v e = v
update_found-IsSound now m id state n (some i) v e =
    update_peer-IsSound now m id i state n (peer_at m.peers i) v (found_slot m id i e).0

-- A map over the slots that keeps the actors.
mapped-count :
    (p : Option PeerInfo → Bool) (f : Option PeerInfo → Option PeerInfo) (peers : Peers)
    → ((old : Option PeerInfo) → p (f old) ≡ p old)
    → count p (map f peers) ≡ count p peers
unfolding count
mapped-count p f [] h = refl
mapped-count p f (x ∷ xs) h = ground (arith, h x, mapped-count p f xs h)

length-mapped :
    (f : Option PeerInfo → Option PeerInfo) (peers : Peers) → length (map f peers) ≡ length peers
length-mapped f [] = refl
length-mapped f (x ∷ xs) = ap suc (length-mapped f xs)

expire-actor :
    (now id : ℕ) (old : Option PeerInfo) → has_actor id (expire now old) ≡ has_actor id old
unfolding expire has_actor
expire-actor now id none = refl
expire-actor now id (some p) = ground arith

expire-filled : (now : ℕ) (old : Option PeerInfo) → is_taken (expire now old) ≡ is_taken old
unfolding expire is_empty
expire-filled now none = refl
expire-filled now (some p) = ground arith

pub check_timeouts-IsSound :
    (now : ℕ) (m : MembershipList) → IsSound m → IsSound (check_timeouts now m).1
unfolding check_timeouts
check_timeouts-IsSound now m v =
    let kept : (id : ℕ)
        → count (has_actor id) (map (expire now) m.peers) ≡ count (has_actor id) m.peers =
      λ id. mapped-count (has_actor id) (expire now) m.peers (expire-actor now id) in
    record {
      sized = length-mapped (expire now) m.peers ∙ v.sized;
      counted = v.counted ∙ sym (mapped-count is_taken (expire now) m.peers (expire-filled now));
      distinct = λ id. omega (arith, kept id, v.distinct id);
      valid = λ id h. kept id ∙ v.valid id h;
      absent = kept m.local_actor ∙ v.absent;
      local_valid = v.local_valid;
    }

seen-SameActor : (now : ℕ) (old : Option PeerInfo) → SameActor old (seen now old)
unfolding seen has_actor is_empty
seen-SameActor now none = record { actor = λ j. refl; filled = refl }
seen-SameActor now (some p) = record { actor = λ j. refl; filled = refl }

pub touch_found-IsSound :
    (now : ℕ) (m : MembershipList) (id : ℕ) (slot : Option ℕ)
    → IsSound m
    → position (has_actor id) m.peers ≡ slot
    → IsSound (touch_found now m slot)
unfolding touch_found
touch_found-IsSound now m id none v e = v
touch_found-IsSound now m id (some i) v e =
    set_peer-IsSound m i (peer_at m.peers i) (seen now (peer_at m.peers i)) v
      (found_slot m id i e).0 (seen-SameActor now (peer_at m.peers i))
