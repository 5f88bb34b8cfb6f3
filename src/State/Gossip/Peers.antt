-- ===== src/State/Gossip/Peers.antt =====
-- Peers, of gossip/types.rs.
use nexus_sfu.Base.{ℕ, Bool, true, false, ◌&&◌, Option, none, some, ◌==◌, if◌then◌else◌}

abbrev pub max_actors : ℕ
max_actors = 256

abbrev pub max_peers : ℕ
max_peers = 256

-- `SUSPECT_TIMEOUT_MS * 1_000_000`
abbrev pub suspect_timeout_ns : ℕ
suspect_timeout_ns = 5000000000

abbrev pub u64_max : ℕ
u64_max = 18446744073709551615

-- `PeerState`
pub data PeerState : Type 0 where
  alive suspect dead : PeerState

-- `==` of the derived equality.
unfoldable pub same_state : PeerState → PeerState → Bool
same_state alive alive = true
same_state suspect suspect = true
same_state dead dead = true
same_state _ _ = false

unfoldable pub is_active : PeerState → Bool
is_active alive = true
is_active suspect = false
is_active dead = false

unfoldable pub is_reachable : PeerState → Bool
is_reachable alive = true
is_reachable suspect = true
is_reachable dead = false

-- `as u8` and `from_u8`
unfoldable pub state_byte : PeerState → ℕ
state_byte alive = 0
state_byte suspect = 1
state_byte dead = 2

unfoldable pub state_from_byte : ℕ → Option PeerState
state_from_byte b =
    if b == 0
    then some alive
    else if b == 1
    then some suspect
    else if b == 2
    then some dead
    else none

-- `SocketAddr`: an IPv4 address as a number and the port, or the halves of an IPv6 address, the port,
-- the flow information and the scope.
pub data SocketAddr : Type 0 where
  v4 : ℕ → ℕ → SocketAddr
  v6 : ℕ → ℕ → ℕ → ℕ → ℕ → SocketAddr

unfoldable pub same_addr : SocketAddr → SocketAddr → Bool
same_addr (v4 a p) (v4 b q) = a == b && p == q
same_addr (v6 a b p f s) (v6 c d q g t) = a == c && b == d && p == q && f == g && s == t
same_addr (v4 a p) (v6 c d q g t) = false
same_addr (v6 a b p f s) (v4 c q) = false

-- `PeerInfo`
pub record PeerInfo : Type 0 where
  pub actor_id : ℕ
  pub addr : SocketAddr
  pub state : PeerState
  pub incarnation : ℕ
  pub last_seen_ns : ℕ

-- `PeerInfo::new`, which the callers give a valid actor.
unfoldable pub new_peer : ℕ → SocketAddr → ℕ → ℕ → PeerInfo
new_peer actor_id addr incarnation last_seen_ns = record {
  actor_id = actor_id;
  addr = addr;
  state = alive;
  incarnation = incarnation;
  last_seen_ns = last_seen_ns;
}
