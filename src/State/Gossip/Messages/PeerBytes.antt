-- ===== src/State/Gossip/Messages/PeerBytes.antt =====
-- The bytes of a peer, of gossip/types.rs.
use nexus_sfu.Base.{
  ℕ, ◌+◌, ◌≤◌, ◌<◌, ◌≡◌, refl, ap, false, ◌&&◌, ◌||◌, Option, none, some, List, ◌∷◌, ◌++◌, arith,
  ltb, leb, if◌then◌else◌, length, get_or, drop, length-append,
}
use nexus_sfu.Base.Bytes.{be_u64, u32_bytes, u64_bytes, be_u64-u64_bytes}
use nexus_sfu.State.Gossip.Peers.{
  SocketAddr, v4, v6, PeerState, alive, suspect, dead, state_byte, state_from_byte, PeerInfo,
  max_actors,
}
use nexus_sfu.State.Gossip.Updates.Valid.{IsU64}
use nexus_sfu.State.Gossip.Messages.{addr_bytes}
use nexus_sfu.State.Gossip.Messages.Decode.{decode_socket_addr}
use nexus_sfu.State.Gossip.Messages.Parts.{IsAddr, received_addr, decode-addr_bytes}

unfoldable pub peer_bytes : PeerInfo → List ℕ
unfolding u64_bytes state_byte addr_bytes
peer_bytes p =
    u64_bytes p.actor_id ++ (u64_bytes p.incarnation ++ (state_byte p.state ∷ addr_bytes p.addr))

-- `PeerInfo::encode`: the length, and the buffer after it. It panics for a buffer of less than 24 bytes,
-- and where the address does not fit the buffer.
unfoldable pub encode_peer : PeerInfo → List ℕ → Option (ℕ × List ℕ)
unfolding peer_bytes
encode_peer p buffer =
    let bytes = peer_bytes p in
    if leb 24 (length buffer) && leb (length bytes) (length buffer)
    then some (length bytes, bytes ++ drop (length bytes) buffer)
    else none

-- `PeerInfo::decode`
unfoldable pub peer_of :
    ℕ → ℕ → ℕ → Option PeerState → Option (SocketAddr × ℕ) → Option (PeerInfo × ℕ)
peer_of actor_id incarnation last_seen_ns none addr = none
peer_of actor_id incarnation last_seen_ns (some state) none = none
peer_of actor_id incarnation last_seen_ns (some state) (some (addr, addr_len)) = some (
  record {
    actor_id = actor_id;
    addr = addr;
    state = state;
    incarnation = incarnation;
    last_seen_ns = last_seen_ns;
  },
  17 + addr_len,
)

unfoldable pub decode_peer : List ℕ → ℕ → Option (PeerInfo × ℕ)
unfolding peer_of be_u64 state_from_byte decode_socket_addr
decode_peer bytes last_seen_ns =
    if ltb (length bytes) 18 || leb max_actors (be_u64 bytes 0)
    then none
    else peer_of (be_u64 bytes 0) (be_u64 bytes 8) last_seen_ns
        (state_from_byte (get_or bytes 16 0)) (decode_socket_addr (drop 17 bytes))

state_back : (s : PeerState) → state_from_byte (state_byte s) ≡ some s
unfolding state_from_byte state_byte
state_back alive = refl
state_back suspect = refl
state_back dead = refl

length-addr_bytes : (a : SocketAddr) → 7 ≤ length (addr_bytes a)
unfolding addr_bytes u32_bytes u64_bytes
length-addr_bytes (v4 a p) = omega arith
length-addr_bytes (v6 a b p f s) = omega arith

-- A peer with fields in range is read back from its bytes, with the time that the reader gives, and its
-- address without flow information and scope.
pub decode_peer-peer_bytes :
    (p : PeerInfo) (now : ℕ) (rest : List ℕ)
    → p.actor_id < max_actors
    → IsU64 p.incarnation
    → IsAddr p.addr
    → decode_peer (peer_bytes p ++ rest) now
      ≡ some (record p { addr = received_addr p.addr; last_seen_ns = now }, length (peer_bytes p))
unfolding decode_peer peer_bytes peer_of u32_bytes u64_bytes be_u64
decode_peer-peer_bytes p now rest ha hi hd =
    let tail = state_byte p.state ∷ (addr_bytes p.addr ++ rest) in
    let ea = be_u64-u64_bytes p.actor_id (u64_bytes p.incarnation ++ tail) (omega arith) in
    let ei = be_u64-u64_bytes p.incarnation tail hi in
    let ed = decode-addr_bytes p.addr rest hd in
    let es = state_back p.state in
    let on : (ltb (length (peer_bytes p ++ rest)) 18 || leb max_actors p.actor_id) ≡ false =
      ground (arith, length-append (addr_bytes p.addr) rest, length-addr_bytes p.addr) in
    let n : 17 + length (addr_bytes p.addr) ≡ length (peer_bytes p) = omega arith in
    rw (ea, ei, es, ed, on)
      (ap (λ k. some (record p { addr = received_addr p.addr; last_seen_ns = now }, k)) n)
