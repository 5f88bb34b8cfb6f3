-- ===== src/State/Gossip/Messages.antt =====
-- The messages of crates/nexus-state/src/gossip/types.rs and their bytes.
pub mod Decode
pub mod Size
pub mod Parts
pub mod RoundTrip
pub mod PeerBytes
use nexus_sfu.Base.{
  ℕ, ◌+◌, ◌-◌, ◌*◌, ◌/◌, min, Option, none, some, List, [], ◌∷◌, ◌++◌, leb, if◌then◌else◌, length,
  take, drop, replicate,
}
use nexus_sfu.Base.Bytes.{be_u16, be_u32, be_u64, u16_bytes, u32_bytes, u64_bytes}
use Prim.Native.String.{String}
use nexus_sfu.State.Gossip.Peers.{SocketAddr, v4, v6, max_actors, max_peers}
use nexus_sfu.State.Gossip.Updates.{StateUpdate, update_bytes, decode_update, max_state_update_size}

-- A member of a snapshot: the actor, its incarnation and its state's byte.
pub record Member : Type 0 where
  pub actor_id : ℕ
  pub incarnation : ℕ
  pub state : ℕ

-- `GossipMessage`
pub data GossipMessage : Type 0 where
  ping ack : ℕ → ℕ → List StateUpdate → GossipMessage
  ping_req : ℕ → ℕ → SocketAddr → SocketAddr → GossipMessage
  suspect alive : ℕ → ℕ → GossipMessage
  dead : ℕ → GossipMessage
  forwarded_ack : ℕ → ℕ → GossipMessage
  state_snapshot : ℕ → ℕ → List Member → List StateUpdate → GossipMessage

abbrev pub max_message_size : ℕ
max_message_size = 1400

abbrev pub max_piggyback_updates : ℕ
max_piggyback_updates = 16

-- `MAX_SNAPSHOT_MEMBERS`
abbrev pub max_snapshot_members : ℕ
max_snapshot_members = (1400 - (1 + 8 + 8 + 2 + 2) - 16 * (2 + 43)) / 17

-- `encode_socket_addr`, as the bytes that it writes.
unfoldable pub addr_bytes : SocketAddr → List ℕ
unfolding u16_bytes u32_bytes u64_bytes
addr_bytes (v4 ip port) = 0 ∷ (u32_bytes ip ++ u16_bytes port)
addr_bytes (v6 high low port flowinfo scope_id) =
    1
    ∷ (u64_bytes high
        ++ (u64_bytes low ++ (u16_bytes port ++ (u32_bytes flowinfo ++ u32_bytes scope_id))))

-- The loop that encodes updates; the buffer is that of the update before.
unfoldable pub encode_updates : List StateUpdate → List ℕ → List ℕ
unfolding u16_bytes
encode_updates [] buffer = []
encode_updates (u ∷ us) buffer =
    let n = length (update_bytes u) in
    let buffer' = update_bytes u ++ drop n buffer in
    u16_bytes n ++ (take n buffer' ++ encode_updates us buffer')

-- A list of updates: the count, then the first 16 of them.
unfoldable pub updates_bytes : List StateUpdate → List ℕ
unfolding u16_bytes encode_updates
updates_bytes us =
    u16_bytes (min (length us) max_piggyback_updates)
    ++ encode_updates (take max_piggyback_updates us) (replicate max_state_update_size 0)

unfoldable pub member_bytes : Member → List ℕ
unfolding u64_bytes
member_bytes m = u64_bytes m.actor_id ++ (u64_bytes m.incarnation ++ (m.state ∷ []))

unfoldable pub members_loop : List Member → List ℕ
members_loop [] = []
members_loop (m ∷ ms) = member_bytes m ++ members_loop ms

unfoldable pub members_bytes : List Member → List ℕ
unfolding u16_bytes members_loop member_bytes
members_bytes ms =
    u16_bytes (min (length ms) max_snapshot_members) ++ members_loop (take max_snapshot_members ms)

-- The bytes that `GossipMessage::encode` builds, without the last assertion.
unfoldable pub message_bytes : GossipMessage → List ℕ
unfolding u64_bytes updates_bytes members_bytes addr_bytes
message_bytes (ping from incarnation piggyback) =
    0 ∷ (u64_bytes from ++ (u64_bytes incarnation ++ updates_bytes piggyback))
message_bytes (ack from incarnation piggyback) =
    1 ∷ (u64_bytes from ++ (u64_bytes incarnation ++ updates_bytes piggyback))
message_bytes (ping_req from target target_addr requester_addr) =
    2
    ∷ (u64_bytes from
        ++ (u64_bytes target ++ (addr_bytes target_addr ++ addr_bytes requester_addr)))
message_bytes (suspect actor_id incarnation) = 3 ∷ (u64_bytes actor_id ++ u64_bytes incarnation)
message_bytes (alive actor_id incarnation) = 4 ∷ (u64_bytes actor_id ++ u64_bytes incarnation)
message_bytes (dead actor_id) = 5 ∷ u64_bytes actor_id
message_bytes (forwarded_ack target incarnation) = 6 ∷ (u64_bytes target ++ u64_bytes incarnation)
message_bytes (state_snapshot from incarnation members updates) =
    7
    ∷ (u64_bytes from
        ++ (u64_bytes incarnation ++ (members_bytes members ++ updates_bytes updates)))

-- `GossipMessage::encode`
unfoldable pub encode : GossipMessage → Option (List ℕ)
unfolding message_bytes
encode m =
    let bytes = message_bytes m in if leb (length bytes) max_message_size then some bytes else none
