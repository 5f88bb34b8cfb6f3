-- ===== src/State/Gossip/Membership.antt =====
-- crates/nexus-state/src/gossip/membership.rs. The clock's reading is an argument. `none` is a failed
-- assertion. The list is borrowed mutably, so that the atomics are plain numbers.
pub mod Sound
pub mod Keeps
pub mod Calls
pub mod Room
pub mod Transitions
pub mod Hearsay
pub mod Readdress
pub mod Timeouts
pub mod Selection
use nexus_sfu.Base.{
  ℕ, ◌+◌, ◌-◌, ◌%◌, ◌^◌, Bool, true, false, not, ◌&&◌, Option, none, some, List, [], ◌∷◌, map, ltb,
  leb, ◌==◌, if◌then◌else◌, get_or, set, replicate, position, Result, ok, err,
}
use nexus_sfu.State.Gossip.Peers.{
  PeerState, alive, suspect, dead, same_state, SocketAddr, same_addr, PeerInfo, new_peer,
  max_actors, max_peers, suspect_timeout_ns, u64_max,
}

-- The errors of `GossipError` that the list returns.
pub data GossipError : Type 0 where
  peer_capacity_exhausted : ℕ → GossipError
  peer_not_found : ℕ → GossipError
  invalid_state_transition : PeerState → PeerState → GossipError

-- `MembershipList`
pub record MembershipList : Type 0 where
  pub local_actor : ℕ
  pub peers : List (Option PeerInfo)
  pub peer_count : ℕ
  pub incarnation : ℕ

-- What a call returns, and the list after it.
abbrev pub Outcome : Type 0
Outcome = Result GossipError (Unit {0}) × MembershipList

-- `new`
unfoldable pub new : ℕ → Option MembershipList
new local_actor =
    if ltb local_actor max_actors
    then some (record {
      local_actor = local_actor;
      peers = replicate max_peers none;
      peer_count = 0;
      incarnation = 1;
    })
    else none

unfoldable pub saturating_add_1 : ℕ → ℕ
saturating_add_1 n = if ltb n u64_max then n + 1 else u64_max

-- `increment_incarnation`
unfoldable pub increment_incarnation : MembershipList → ℕ × MembershipList
increment_incarnation m =
    let next = saturating_add_1 m.incarnation in (next, record m { incarnation = next })

-- The test of the loops over the slots.
unfoldable pub has_actor : ℕ → Option PeerInfo → Bool
has_actor id none = false
has_actor id (some p) = p.actor_id == id

unfoldable pub is_empty : Option PeerInfo → Bool
is_empty none = true
is_empty (some p) = false

abbrev pub peer_at : List (Option PeerInfo) → ℕ → Option PeerInfo
peer_at peers i = get_or peers i none

-- `find_peer`
unfoldable pub find_at : List (Option PeerInfo) → Option ℕ → Option PeerInfo
find_at peers none = none
find_at peers (some i) = peer_at peers i

unfoldable pub find_peer : MembershipList → ℕ → Option PeerInfo
unfolding find_at
find_peer m id = find_at m.peers (position (has_actor id) m.peers)

abbrev pub set_peer : MembershipList → ℕ → Option PeerInfo → MembershipList
set_peer m i p = record m { peers = set m.peers i p }

-- The rest of `add_peer`: for a known peer, a new address makes a new entry.
unfoldable pub readdress : ℕ → SocketAddr → Option PeerInfo → Option PeerInfo
readdress id addr none = none
readdress id addr (some p) =
    if same_addr p.addr addr then some p else some (new_peer id addr p.incarnation p.last_seen_ns)

unfoldable pub insert_peer : ℕ → MembershipList → ℕ → SocketAddr → Option ℕ → Outcome
insert_peer now m id addr none = (err (peer_capacity_exhausted max_peers), m)
insert_peer now m id addr (some i) = (
  ok tt,
  record m {
    peers = set m.peers i (some (new_peer id addr 0 now));
    peer_count = (m.peer_count + 1) % 2 ^ 32;
  },
)

unfoldable pub add_found : ℕ → MembershipList → ℕ → SocketAddr → Option ℕ → Outcome
unfolding readdress insert_peer is_empty
add_found now m id addr (some i) = (ok tt, set_peer m i (readdress id addr (peer_at m.peers i)))
add_found now m id addr none =
    if leb max_peers m.peer_count
    then (err (peer_capacity_exhausted max_peers), m)
    else insert_peer now m id addr (position is_empty m.peers)

-- `add_peer`
unfoldable pub add_peer : ℕ → MembershipList → ℕ → SocketAddr → Option Outcome
unfolding add_found
add_peer now m id addr =
    if ltb id max_actors && not (id == m.local_actor)
    then some (add_found now m id addr (position (has_actor id) m.peers))
    else none

-- `remove_peer`; `fetch_sub` wraps.
unfoldable pub remove_found : MembershipList → ℕ → Option ℕ → Outcome
remove_found m id none = (err (peer_not_found id), m)
remove_found m id (some i) = (
  ok tt,
  record m { peers = set m.peers i none; peer_count = (m.peer_count + 4294967295) % 2 ^ 32 },
)

unfoldable pub remove_peer : MembershipList → ℕ → Option Outcome
unfolding remove_found
remove_peer m id =
    if ltb id max_actors then some (remove_found m id (position (has_actor id) m.peers)) else none

-- `validate_transition`
unfoldable pub validate_transition : PeerState → PeerState → ℕ → ℕ → Bool
validate_transition alive alive from to = leb from to
validate_transition alive suspect from to = leb from to
validate_transition alive dead from to = true
validate_transition suspect alive from to = ltb from to
validate_transition suspect suspect from to = leb from to
validate_transition suspect dead from to = true
validate_transition dead alive from to = ltb from to
validate_transition dead suspect from to = false
validate_transition dead dead from to = leb from to

-- `update_state` on the slot that was found.
unfoldable pub update_peer : ℕ → MembershipList → ℕ → ℕ → PeerState → ℕ → Option PeerInfo → Outcome
unfolding validate_transition
update_peer now m id i state incarnation none = (err (peer_not_found id), m)
update_peer now m id i state incarnation (some p) =
    if validate_transition p.state state p.incarnation incarnation
    then (
      ok tt,
      set_peer m i
          (some (record p { state = state; incarnation = incarnation; last_seen_ns = now })),
    )
    else (err (invalid_state_transition p.state state), m)

unfoldable pub update_found : ℕ → MembershipList → ℕ → PeerState → ℕ → Option ℕ → Outcome
unfolding update_peer
update_found now m id state incarnation none = (err (peer_not_found id), m)
update_found now m id state incarnation (some i) =
    update_peer now m id i state incarnation (peer_at m.peers i)

-- `update_state`
unfoldable pub update_state : ℕ → MembershipList → ℕ → PeerState → ℕ → Option Outcome
unfolding update_found
update_state now m id state incarnation =
    if ltb id max_actors
    then some (update_found now m id state incarnation (position (has_actor id) m.peers))
    else none

-- `mark_alive`: of the local actor, the incarnation is put above the one heard of.
unfoldable pub refute : MembershipList → ℕ → MembershipList
unfolding saturating_add_1
refute m incarnation =
    if ltb incarnation m.incarnation
    then m
    else record m { incarnation = saturating_add_1 incarnation }

unfoldable pub mark_alive : ℕ → MembershipList → ℕ → ℕ → Option Outcome
unfolding refute update_state
mark_alive now m id incarnation =
    if ltb id max_actors
    then (if id == m.local_actor
        then some (ok tt, refute m incarnation)
        else update_state now m id alive incarnation)
    else none

-- `mark_suspect`
unfoldable pub mark_suspect : ℕ → MembershipList → ℕ → ℕ → Option Outcome
unfolding update_state
mark_suspect now m id incarnation =
    if id == m.local_actor then none else update_state now m id suspect incarnation

-- `mark_dead`, with the peer's own incarnation.
unfoldable pub incarnation_of : Option PeerInfo → ℕ
incarnation_of none = 0
incarnation_of (some p) = p.incarnation

unfoldable pub mark_dead : ℕ → MembershipList → ℕ → Option Outcome
unfolding find_peer incarnation_of update_state
mark_dead now m id =
    if id == m.local_actor
    then none
    else update_state now m id dead (incarnation_of (find_peer m id))

-- `check_timeouts`: one slot, then all, with the actors that were marked.
unfoldable pub has_expired : ℕ → PeerInfo → Bool
has_expired now p = same_state p.state suspect && ltb suspect_timeout_ns (now - p.last_seen_ns)

unfoldable pub expire : ℕ → Option PeerInfo → Option PeerInfo
unfolding has_expired same_state
expire now none = none
expire now (some p) =
    if has_expired now p then some (record p { state = dead; last_seen_ns = now }) else some p

unfoldable pub expired_actors : ℕ → List (Option PeerInfo) → List ℕ
unfolding has_expired same_state
expired_actors now [] = []
expired_actors now (none ∷ ps) = expired_actors now ps
expired_actors now (some p ∷ ps) =
    let rest = expired_actors now ps in if has_expired now p then p.actor_id ∷ rest else rest

unfoldable pub check_timeouts : ℕ → MembershipList → List ℕ × MembershipList
unfolding expired_actors expire
check_timeouts now m = (expired_actors now m.peers, record m { peers = map (expire now) m.peers })

-- `touch`
unfoldable pub seen : ℕ → Option PeerInfo → Option PeerInfo
seen now none = none
seen now (some p) = some (record p { last_seen_ns = now })

unfoldable pub touch_found : ℕ → MembershipList → Option ℕ → MembershipList
unfolding seen
touch_found now m none = m
touch_found now m (some i) = set_peer m i (seen now (peer_at m.peers i))

unfoldable pub touch : ℕ → MembershipList → ℕ → MembershipList
unfolding touch_found
touch now m id = touch_found now m (position (has_actor id) m.peers)
