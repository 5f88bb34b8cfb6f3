-- ===== src/State/Gossip/Messages/Decode.antt =====
-- The decoders of the messages of gossip/types.rs; a message's data is what follows its type.
use nexus_sfu.Base.{
  ℕ, zero, suc, ◌+◌, Bool, true, false, ◌&&◌, Option, none, some, List, [], ◌∷◌, ltb, leb, ◌==◌,
  if◌then◌else◌, length, get_or, take, drop, count, Result, ok, err,
}
use nexus_sfu.Base.Bytes.{be_u16, be_u32, be_u64}
use Prim.Native.String.{String}
use nexus_sfu.State.Gossip.Peers.{SocketAddr, v4, v6, max_actors, max_peers}
use nexus_sfu.State.Gossip.Updates.{StateUpdate, decode_update}
use nexus_sfu.State.Gossip.Messages.{
  GossipMessage, ping, ack, ping_req, suspect, alive, dead, forwarded_ack, state_snapshot, Member,
  max_piggyback_updates,
}

-- `decode_socket_addr`: the flow information and the scope are dropped.
unfoldable pub decode_addr_kind : ℕ → List ℕ → Option (SocketAddr × ℕ)
unfolding be_u16 be_u32 be_u64
decode_addr_kind kind bytes =
    if kind == 0
    then (if ltb (length bytes) 7 then none else some (v4 (be_u32 bytes 1) (be_u16 bytes 5), 7))
    else (if kind == 1
        then (if ltb (length bytes) 27
            then none
            else some (v6 (be_u64 bytes 1) (be_u64 bytes 9) (be_u16 bytes 17) 0 0, 27))
        else none)

unfoldable pub decode_socket_addr : List ℕ → Option (SocketAddr × ℕ)
unfolding decode_addr_kind
decode_socket_addr [] = none
decode_socket_addr (kind ∷ bytes) = decode_addr_kind kind (kind ∷ bytes)

-- The results of the decoders.
abbrev pub Decoded : Type 0 → Type 0
Decoded A = Result String A

infixl 5 ◌>>=◌ ◌>>◌
abbrev pub ◌>>=◌ : {A B : Type 0} → Decoded A → (A → Decoded B) → Decoded B
ok a >>= f = f a
err e >>= f = err e

abbrev pub ◌>>◌ : {B : Type 0} → Decoded (Unit {0}) → Decoded B → Decoded B
m >> k = m >>= λ _. k

abbrev pub ensure : Bool → String → Decoded (Unit {0})
ensure true e = ok tt
ensure false e = err e

-- One update of a list: the offset after it, and the update if it is valid.
unfoldable pub add_update : Option (StateUpdate × ℕ) → List StateUpdate → List StateUpdate
add_update none us = us
add_update (some (u, n)) us = u ∷ us

-- The loops over updates, with the messages for data that end too soon.
unfoldable pub decode_updates : String → String → ℕ → List ℕ → ℕ → Decoded (List StateUpdate)
unfolding be_u16 add_update
decode_updates no_length no_update zero bytes offset = ok []
decode_updates no_length no_update (suc count) bytes offset =
    let n = be_u16 bytes offset in
    let start = offset + 2 in
    let rest = decode_updates no_length no_update count bytes (start + n) in
    if ltb (length bytes) (offset + 2)
    then err no_length
    else (if ltb (length bytes) (start + n)
        then err no_update
        else (do us ← rest; ok (add_update (decode_update (take n (drop start bytes))) us)))

-- `decode_ping` and `decode_ack`
unfoldable pub decode_probe :
    String → String → (ℕ → ℕ → List StateUpdate → GossipMessage) → List ℕ → Decoded GossipMessage
unfolding be_u16 be_u64 decode_updates
decode_probe too_short bad_actor message bytes = do
  ensure (leb 18 (length bytes)) too_short
  ensure (ltb (be_u64 bytes 0) max_actors) bad_actor
  ensure (leb (be_u16 bytes 16) max_piggyback_updates) "too many piggyback updates"
  us ←
      decode_updates "piggyback data truncated" "piggyback update truncated" (be_u16 bytes 16) bytes
        18
  ok (message (be_u64 bytes 0) (be_u64 bytes 8) us)

abbrev pub found_or : {A : Type 0} → Option A → String → Decoded A
found_or none e = err e
found_or (some a) e = ok a

-- `decode_ping_req`
unfoldable pub decode_ping_req : List ℕ → Decoded GossipMessage
unfolding be_u64 decode_socket_addr
decode_ping_req bytes = do
  ensure (leb 17 (length bytes)) "ping_req message too short"
  ensure (ltb (be_u64 bytes 0) max_actors) "invalid from actor_id in ping_req"
  ensure (ltb (be_u64 bytes 8) max_actors) "invalid target actor_id in ping_req"
  (target_addr, n) ← found_or (decode_socket_addr (drop 16 bytes)) "invalid target_addr in ping_req"
  (requester_addr, k) ←
      found_or (decode_socket_addr (drop (16 + n) bytes)) "invalid requester_addr in ping_req"
  ok (ping_req (be_u64 bytes 0) (be_u64 bytes 8) target_addr requester_addr)

-- `decode_suspect`, `decode_alive` and `decode_forwarded_ack`
unfoldable pub decode_report :
    String → String → (ℕ → ℕ → GossipMessage) → List ℕ → Decoded GossipMessage
unfolding be_u64
decode_report too_short bad_actor message bytes = do
  ensure (leb 16 (length bytes)) too_short
  ensure (ltb (be_u64 bytes 0) max_actors) bad_actor
  ok (message (be_u64 bytes 0) (be_u64 bytes 8))

-- `decode_dead`
unfoldable pub decode_dead : List ℕ → Decoded GossipMessage
unfolding be_u64
decode_dead bytes = do
  ensure (leb 8 (length bytes)) "dead message too short"
  ensure (ltb (be_u64 bytes 0) max_actors) "invalid actor_id in dead"
  ok (dead (be_u64 bytes 0))

-- The loop over the members, with the offset after them; a member that is not valid is skipped.
unfoldable pub add_member : Member → List Member × ℕ → List Member × ℕ
add_member m (ms, offset) =
    if ltb m.actor_id max_actors && leb m.state 2 then (m ∷ ms, offset) else (ms, offset)

unfoldable pub decode_members : ℕ → List ℕ → ℕ → Decoded (List Member × ℕ)
unfolding be_u64 add_member
decode_members zero bytes offset = ok ([], offset)
decode_members (suc count) bytes offset =
    let rest = decode_members count bytes (offset + 17) in
    let m : Member = record {
      actor_id = be_u64 bytes offset;
      incarnation = be_u64 bytes (offset + 8);
      state = get_or bytes (offset + 16) 0;
    } in
    if ltb (length bytes) (offset + 17)
    then err "member data truncated"
    else (do ms ← rest; ok (add_member m ms))

-- `decode_state_snapshot`
unfoldable pub decode_snapshot_updates : List ℕ → ℕ → Decoded (List StateUpdate)
unfolding be_u16 decode_updates
decode_snapshot_updates bytes offset = do
  ensure (leb (offset + 2) (length bytes)) "update count truncated"
  ensure (leb (be_u16 bytes offset) max_piggyback_updates) "too many updates in state_snapshot"
  decode_updates "update data truncated" "update truncated" (be_u16 bytes offset) bytes (offset + 2)

unfoldable pub decode_state_snapshot : List ℕ → Decoded GossipMessage
unfolding be_u16 be_u64 decode_members decode_snapshot_updates
decode_state_snapshot bytes = do
  ensure (leb 18 (length bytes)) "state_snapshot message too short"
  ensure (ltb (be_u64 bytes 0) max_actors) "invalid from in state_snapshot"
  ensure (leb (be_u16 bytes 16) max_peers) "too many members in state_snapshot"
  (members, offset) ← decode_members (be_u16 bytes 16) bytes 18
  updates ← decode_snapshot_updates bytes offset
  ok (state_snapshot (be_u64 bytes 0) (be_u64 bytes 8) members updates)

-- `GossipMessage::decode`
unfoldable pub decode_kind : ℕ → List ℕ → Decoded GossipMessage
unfolding decode_probe decode_ping_req decode_report decode_dead decode_state_snapshot
decode_kind kind bytes =
    if kind == 0
    then decode_probe "ping message too short" "invalid actor_id in ping" ping bytes
    else (if kind == 1
        then decode_probe "ack message too short" "invalid actor_id in ack" ack bytes
        else (if kind == 2
            then decode_ping_req bytes
            else (if kind == 3
                then decode_report "suspect message too short" "invalid actor_id in suspect" suspect
                    bytes
                else (if kind == 4
                    then decode_report "alive message too short" "invalid actor_id in alive" alive
                        bytes
                    else (if kind == 5
                        then decode_dead bytes
                        else (if kind == 6
                            then decode_report "forwarded_ack message too short"
                                "invalid target in forwarded_ack" forwarded_ack bytes
                            else (if kind == 7
                                then decode_state_snapshot bytes
                                else err "invalid message type")))))))

unfoldable pub decode : List ℕ → Decoded GossipMessage
unfolding decode_kind
decode [] = err "empty message"
decode (kind ∷ bytes) = decode_kind kind bytes
