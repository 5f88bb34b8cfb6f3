-- ===== src/State/Gossip/Messages/RoundTrip.antt =====
-- The messages of gossip/types.rs, encoded and decoded.
use nexus_sfu.Base.{
  ℕ, zero, suc, ◌+◌, ◌*◌, ◌≤◌, ◌<◌, min, ◌≡◌, refl, sym, ap, ap₂, ◌∙◌, some, List, [], ◌∷◌, ◌++◌,
  append-nil, arith, lt→ltb, le→leb, length, take, drop, replicate, All, length-append, length-take,
  ok,
}
use nexus_sfu.Base.Bytes.{
  be_u16, be_u64, u16_bytes, u32_bytes, u64_bytes, be_u16-u16_bytes, be_u64-u64_bytes,
}
use nexus_sfu.State.Gossip.Peers.{SocketAddr, v4, v6, max_actors, max_peers}
use nexus_sfu.State.Gossip.Updates.{StateUpdate, max_state_update_size}
use nexus_sfu.State.Gossip.Updates.Valid.{IsU64, IsValid}
use nexus_sfu.State.Gossip.Messages.{
  GossipMessage, ping, ack, ping_req, suspect, alive, dead, forwarded_ack, state_snapshot, Member,
  max_piggyback_updates, max_snapshot_members, addr_bytes, updates_bytes, members_loop,
  members_bytes, message_bytes, encode, String,
}
use nexus_sfu.State.Gossip.Messages.Decode.{
  decode_socket_addr, decode_updates, decode_probe, decode_ping_req, decode_report, decode_dead,
  decode_snapshot_updates, decode_state_snapshot, decode_kind, decode,
}
use nexus_sfu.State.Gossip.Messages.Size.{
  frames, length-members_loop, encode_updates-frames, encode-fits,
}
use nexus_sfu.Base.Reads.{be_u16-drop, after, length-rest}
use nexus_sfu.State.Gossip.Messages.Parts.{
  IsAddr, received_addr, IsMember, decode-addr_bytes, decode_updates-frames,
  decode_members-members_loop,
}

-- What of a message arrives: 16 updates and 38 members at most, and addresses without flow information and scope.
abbrev pub sent : GossipMessage → GossipMessage
sent (ping from incarnation us) = ping from incarnation (take max_piggyback_updates us)
sent (ack from incarnation us) = ack from incarnation (take max_piggyback_updates us)
sent (state_snapshot from incarnation ms us) =
    state_snapshot from incarnation (take max_snapshot_members ms) (take max_piggyback_updates us)
sent (ping_req from target a b) = ping_req from target (received_addr a) (received_addr b)
sent m = m

abbrev IsSender : ℕ → ℕ → Type 0
IsSender actor incarnation = (actor < max_actors) × IsU64 incarnation

-- The fields are in range.
abbrev pub IsMessage : GossipMessage → Type 0
IsMessage (ping from incarnation us) = IsSender from incarnation × All IsValid us
IsMessage (ack from incarnation us) = IsSender from incarnation × All IsValid us
IsMessage (ping_req from target a b) =
    (from < max_actors) × (target < max_actors) × IsAddr a × IsAddr b
IsMessage (suspect actor_id incarnation) = IsSender actor_id incarnation
IsMessage (alive actor_id incarnation) = IsSender actor_id incarnation
IsMessage (dead actor_id) = actor_id < max_actors
IsMessage (forwarded_ack target incarnation) = IsSender target incarnation
IsMessage (state_snapshot from incarnation ms us) =
    IsSender from incarnation × All IsMember ms × All IsValid us

take-All {ℓ} : {A : Type ℓ} (P : A → Type 0) (n : ℕ) (xs : List A) → All P xs → All P (take n xs)
take-All P zero xs h = tt
take-All P (suc n) [] h = tt
take-All P (suc n) (x ∷ xs) (p, h) = (p, take-All P n xs h)

updates_bytes-frames :
    (us : List StateUpdate)
    → updates_bytes us
      ≡ u16_bytes (length (take max_piggyback_updates us)) ++ frames (take max_piggyback_updates us)
unfolding updates_bytes
updates_bytes-frames us =
    let sent_us = take max_piggyback_updates us in
    let n : min (length us) max_piggyback_updates ≡ length sent_us =
      omega (arith, length-take max_piggyback_updates us) in
    ap₂ (λ k xs. u16_bytes k ++ xs) n
      (encode_updates-frames sent_us (replicate max_state_update_size 0))

-- A list of at most 16 updates at the end of the bytes.
decode-counted :
    (no_length no_update : String) (us : List StateUpdate) (bytes : List ℕ) (at : ℕ)
    → All IsValid us
    → length us ≤ max_piggyback_updates
    → drop at bytes ≡ u16_bytes (length us) ++ frames us
    → (be_u16 bytes at ≡ length us)
      × (decode_updates no_length no_update (length us) bytes (at + 2) ≡ ok us)
unfolding u16_bytes
decode-counted no_length no_update us bytes at v few e = (
  be_u16-drop bytes at
      ∙ ap (λ xs. be_u16 xs 0) e
      ∙ be_u16-u16_bytes (length us) (frames us) (omega arith),
  decode_updates-frames no_length no_update us bytes [] (at + 2) v
      (after bytes (u16_bytes (length us)) (frames us) at e ∙ sym (append-nil (frames us))),
)

decode_probe-ok :
    (short bad : String) (message : ℕ → ℕ → List StateUpdate → GossipMessage) (from incarnation : ℕ)
    (us : List StateUpdate)
    → IsSender from incarnation × All IsValid us
    → decode_probe short bad message (u64_bytes from ++ (u64_bytes incarnation ++ updates_bytes us))
      ≡ ok (message from incarnation (take max_piggyback_updates us))
unfolding decode_probe u16_bytes u64_bytes u32_bytes be_u64
decode_probe-ok short bad message from incarnation us ((hf, hi), v) =
    let sent_us = take max_piggyback_updates us in
    let bytes = u64_bytes from ++ (u64_bytes incarnation ++ updates_bytes us) in
    let ef = be_u64-u64_bytes from (u64_bytes incarnation ++ updates_bytes us) (omega arith) in
    let ei = be_u64-u64_bytes incarnation (updates_bytes us) hi in
    let few : length sent_us ≤ 16 = omega (arith, length-take max_piggyback_updates us) in
    let (en, eu) =
      decode-counted "piggyback data truncated" "piggyback update truncated" sent_us bytes 16
        (take-All IsValid max_piggyback_updates us v) few (updates_bytes-frames us) in
    let long = ap length (updates_bytes-frames us) in
    rw (ef, ei, en, eu)
      (ground (arith, length-append (u16_bytes (length sent_us)) (frames sent_us)))

decode_report-ok :
    (short bad : String) (message : ℕ → ℕ → GossipMessage) (actor incarnation : ℕ)
    → IsSender actor incarnation
    → decode_report short bad message (u64_bytes actor ++ u64_bytes incarnation)
      ≡ ok (message actor incarnation)
unfolding decode_report u64_bytes u32_bytes be_u64
decode_report-ok short bad message actor incarnation (ha, hi) =
    let ea = be_u64-u64_bytes actor (u64_bytes incarnation) (omega arith) in
    let ei =
      ap (λ xs. be_u64 xs 0) (sym (append-nil (u64_bytes incarnation)))
      ∙ be_u64-u64_bytes incarnation [] hi in
    rw (ea, ei) (ground arith)

decode_dead-ok : (actor : ℕ) → actor < max_actors → decode_dead (u64_bytes actor) ≡ ok (dead actor)
unfolding decode_dead u64_bytes u32_bytes be_u64
decode_dead-ok actor ha = rw (be_u64-u64_bytes actor [] (omega arith)) (ground arith)

length-addr_pos : (a : SocketAddr) → 0 < length (addr_bytes a)
unfolding addr_bytes
length-addr_pos (v4 ip port) = omega arith
length-addr_pos (v6 high low port flowinfo scope_id) = omega arith

decode_ping_req-ok :
    (from target : ℕ) (a b : SocketAddr)
    → (from < max_actors) × (target < max_actors) × IsAddr a × IsAddr b
    → decode_ping_req (u64_bytes from ++ (u64_bytes target ++ (addr_bytes a ++ addr_bytes b)))
      ≡ ok (ping_req from target (received_addr a) (received_addr b))
unfolding decode_ping_req u64_bytes u32_bytes be_u64
decode_ping_req-ok from target a b (hf, ht, va, vb) =
    let bytes = u64_bytes from ++ (u64_bytes target ++ (addr_bytes a ++ addr_bytes b)) in
    let ef =
      be_u64-u64_bytes from (u64_bytes target ++ (addr_bytes a ++ addr_bytes b)) (omega arith) in
    let et = be_u64-u64_bytes target (addr_bytes a ++ addr_bytes b) (omega arith) in
    let ea = decode-addr_bytes a (addr_bytes b) va in
    let second : decode_socket_addr (drop (16 + length (addr_bytes a)) bytes)
        ≡ some (received_addr b, length (addr_bytes b)) =
      ap decode_socket_addr
        (after bytes (addr_bytes a) (addr_bytes b) 16 refl ∙ sym (append-nil (addr_bytes b)))
      ∙ decode-addr_bytes b [] vb in
    rw (ef, et, ea, second)
      (ground (arith, length-append (addr_bytes a) (addr_bytes b), length-addr_pos a))

members_bytes-loop :
    (ms : List Member)
    → members_bytes ms
      ≡ u16_bytes (length (take max_snapshot_members ms))
        ++ members_loop (take max_snapshot_members ms)
unfolding members_bytes
members_bytes-loop ms =
    let n : min (length ms) max_snapshot_members ≡ length (take max_snapshot_members ms) =
      omega (arith, length-take max_snapshot_members ms) in
    ap (λ k. u16_bytes k ++ members_loop (take max_snapshot_members ms)) n

decode_snapshot_updates-ok :
    (us : List StateUpdate) (bytes : List ℕ) (at : ℕ)
    → All IsValid us
    → drop at bytes ≡ updates_bytes us
    → decode_snapshot_updates bytes at ≡ ok (take max_piggyback_updates us)
unfolding decode_snapshot_updates u16_bytes
decode_snapshot_updates-ok us bytes at v e =
    let sent_us = take max_piggyback_updates us in
    let few : length sent_us ≤ 16 = omega (arith, length-take max_piggyback_updates us) in
    let framed = e ∙ updates_bytes-frames us in
    let (en, eu) =
      decode-counted "update data truncated" "update truncated" sent_us bytes at
        (take-All IsValid max_piggyback_updates us v) few framed in
    let room = length-rest bytes (u16_bytes (length sent_us) ++ frames sent_us) at framed in
    rw (en, eu) (ground arith)

decode_state_snapshot-ok :
    (from incarnation : ℕ) (ms : List Member) (us : List StateUpdate)
    → IsSender from incarnation × All IsMember ms × All IsValid us
    → decode_state_snapshot
        (u64_bytes from ++ (u64_bytes incarnation ++ (members_bytes ms ++ updates_bytes us)))
      ≡ ok (
          state_snapshot from incarnation
            (take max_snapshot_members ms)
            (take max_piggyback_updates us))
unfolding decode_state_snapshot u16_bytes u64_bytes u32_bytes be_u64
decode_state_snapshot-ok from incarnation ms us ((hf, hi), vm, vu) =
    let sent_ms = take max_snapshot_members ms in
    let listed = members_bytes ms ++ updates_bytes us in
    let bytes = u64_bytes from ++ (u64_bytes incarnation ++ listed) in
    let split : listed ≡ u16_bytes (length sent_ms) ++ (members_loop sent_ms ++ updates_bytes us) =
      ap (λ xs. xs ++ updates_bytes us) (members_bytes-loop ms) in
    let few : length sent_ms ≤ 38 = omega (arith, length-take max_snapshot_members ms) in
    let en : be_u16 bytes 16 ≡ length sent_ms =
      be_u16-drop bytes 16
      ∙ ap (λ xs. be_u16 xs 0) split
      ∙ be_u16-u16_bytes (length sent_ms) (members_loop sent_ms ++ updates_bytes us)
          (omega arith) in
    let body : drop 18 bytes ≡ members_loop sent_ms ++ updates_bytes us =
      after bytes (u16_bytes (length sent_ms)) (members_loop sent_ms ++ updates_bytes us) 16
        split in
    let em =
      decode_members-members_loop sent_ms bytes (updates_bytes us) 18
        (take-All IsMember max_snapshot_members ms vm) body in
    let next : drop (18 + 17 * length sent_ms) bytes ≡ updates_bytes us =
      ap (λ k. drop (18 + k) bytes) (sym (length-members_loop sent_ms))
      ∙ after bytes (members_loop sent_ms) (updates_bytes us) 18 body in
    let eu = decode_snapshot_updates-ok us bytes (18 + 17 * length sent_ms) vu next in
    let ef = be_u64-u64_bytes from (u64_bytes incarnation ++ listed) (omega arith) in
    let ei = be_u64-u64_bytes incarnation listed hi in
    let long = le→leb 18 (length bytes) (omega (arith, ap length split)) in
    let sender = lt→ltb from max_actors hf in
    let listed_few = le→leb (length sent_ms) max_peers (omega arith) in
    rw (ef, ei, en, em, eu, long, sender, listed_few) refl

-- Every message with fields in range is encoded, and decoded to itself but for what is cut: of the
-- updates all but the first 16, of the members all but the first 38, and of the IPv6 addresses of a
-- ping_req the flow information and the scope.
pub decode-encode :
    (m : GossipMessage)
    → IsMessage m
    → (bytes : List ℕ) × (encode m ≡ some bytes) × (decode bytes ≡ ok (sent m))
unfolding decode decode_kind message_bytes
decode-encode (ping from n us) v = (
  message_bytes (ping from n us),
  encode-fits (ping from n us),
  decode_probe-ok _ _ ping from n us v,
)
decode-encode (ack from n us) v = (
  message_bytes (ack from n us),
  encode-fits (ack from n us),
  decode_probe-ok _ _ ack from n us v,
)
decode-encode (ping_req from target a b) v = (
  message_bytes (ping_req from target a b),
  encode-fits (ping_req from target a b),
  decode_ping_req-ok from target a b v,
)
decode-encode (suspect actor n) v = (
  message_bytes (suspect actor n),
  encode-fits (suspect actor n),
  decode_report-ok "suspect message too short" "invalid actor_id in suspect" suspect actor n v,
)
decode-encode (alive actor n) v = (
  message_bytes (alive actor n),
  encode-fits (alive actor n),
  decode_report-ok "alive message too short" "invalid actor_id in alive" alive actor n v,
)
decode-encode (dead actor) v =
    (message_bytes (dead actor), encode-fits (dead actor), decode_dead-ok actor v)
decode-encode (forwarded_ack target n) v = (
  message_bytes (forwarded_ack target n),
  encode-fits (forwarded_ack target n),
  decode_report-ok "forwarded_ack message too short" "invalid target in forwarded_ack" forwarded_ack
      target n v,
)
decode-encode (state_snapshot from n ms us) v = (
  message_bytes (state_snapshot from n ms us),
  encode-fits (state_snapshot from n ms us),
  decode_state_snapshot-ok from n ms us v,
)
