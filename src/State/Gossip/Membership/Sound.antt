-- ===== src/State/Gossip/Membership/Sound.antt =====
-- The invariant of membership.rs.
use nexus_sfu.Base.{
  ℕ, zero, suc, ◌≤◌, ◌<◌, ◌≡◌, refl, sym, ap, subst, ◌∙◌, Bool, true, false, not, Option, none,
  some, List, arith, length, get_elem?, set, replicate, length-set, length-replicate, some_eq,
  position, position-some, position-none, count, count-set, count-none,
}
use nexus_sfu.State.Gossip.Peers.{PeerInfo, max_actors, max_peers}
use nexus_sfu.State.Gossip.Membership.{MembershipList, new, has_actor, is_empty, peer_at, set_peer}

abbrev pub is_taken : Option PeerInfo → Bool
is_taken p = not (is_empty p)

abbrev pub Peers : Type 0
Peers = List (Option PeerInfo)

-- No actor is listed twice, none that is not valid is listed, nor is the local one, and the count is
-- that of the slots in use.
pub record IsSound (m : MembershipList) : Type 0 where
  pub sized : length m.peers ≡ max_peers
  pub counted : m.peer_count ≡ count is_taken m.peers
  pub distinct : (id : ℕ) → count (has_actor id) m.peers ≤ 1
  pub valid : (id : ℕ) → max_actors ≤ id → count (has_actor id) m.peers ≡ 0
  pub absent : count (has_actor m.local_actor) m.peers ≡ 0
  pub local_valid : m.local_actor < max_actors

-- The entries are of one actor, or both empty.
pub record SameActor (old new : Option PeerInfo) : Type 0 where
  pub actor : (id : ℕ) → has_actor id old ≡ has_actor id new
  pub filled : is_empty old ≡ is_empty new

count-replicate :
    (p : Option PeerInfo → Bool) (n : ℕ) → p none ≡ false → count p (replicate n none) ≡ 0
unfolding count
count-replicate p zero h = refl
count-replicate p (suc n) h = ground (arith, count-replicate p n h)

-- A new list is sound.
pub new-IsSound : (local_actor : ℕ) (m : MembershipList) → new local_actor ≡ some m → IsSound m
unfolding new has_actor is_empty
new-IsSound local_actor m h =
    let fresh : MembershipList = record {
      local_actor = local_actor;
      peers = replicate max_peers none;
      peer_count = 0;
      incarnation = 1;
    } in
    let e : some fresh ≡ some m = ground arith in
    subst IsSound (some_eq e) (record {
      sized = length-replicate {A = Option PeerInfo} max_peers none;
      counted = sym (count-replicate is_taken max_peers refl);
      distinct = λ id. omega (arith, count-replicate (has_actor id) max_peers refl);
      valid = λ id h. count-replicate (has_actor id) max_peers refl;
      absent = count-replicate (has_actor local_actor) max_peers refl;
      local_valid = ground arith;
    })

count-set_same :
    (p : Option PeerInfo → Bool) (peers : Peers) (i : ℕ) (old new : Option PeerInfo)
    → get_elem? peers i ≡ some old
    → p old ≡ p new
    → count p (set peers i new) ≡ count p peers
count-set_same p peers i old new at same = ground (arith, count-set p peers i old new at)

-- A slot is written with an entry of the same actor.
pub set_peer-IsSound :
    (m : MembershipList) (i : ℕ) (old new : Option PeerInfo)
    → IsSound m
    → get_elem? m.peers i ≡ some old
    → SameActor old new
    → IsSound (set_peer m i new)
set_peer-IsSound m i old new v at same =
    let kept : (id : ℕ) → count (has_actor id) (set m.peers i new) ≡ count (has_actor id) m.peers =
      λ id. count-set_same (has_actor id) m.peers i old new at (same.actor id) in
    record {
      sized = length-set m.peers i new ∙ v.sized;
      counted = v.counted ∙ sym (count-set_same is_taken m.peers i old new at (ap not same.filled));
      distinct = λ id. omega (arith, kept id, v.distinct id);
      valid = λ id h. kept id ∙ v.valid id h;
      absent = kept m.local_actor ∙ v.absent;
      local_valid = v.local_valid;
    }

-- The slot of a position that was found.
pub found_slot :
    (m : MembershipList) (id i : ℕ)
    → position (has_actor id) m.peers ≡ some i
    → (get_elem? m.peers i ≡ some (peer_at m.peers i)) × (has_actor id (peer_at m.peers i) ≡ true)
found_slot m id i h = position-some (has_actor id) m.peers i none h

pub not_found :
    (m : MembershipList) (id : ℕ)
    → position (has_actor id) m.peers ≡ none
    → count (has_actor id) m.peers ≡ 0
not_found m id h =
    count-none (has_actor id) m.peers (λ i p e. position-none (has_actor id) m.peers i p h e)
