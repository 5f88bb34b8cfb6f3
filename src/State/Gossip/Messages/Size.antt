-- ===== src/State/Gossip/Messages/Size.antt =====
-- The size of the messages of gossip/types.rs.
use nexus_sfu.Base.{
  ℕ, ◌*◌, ◌≤◌, ◌≡◌, refl, ap, ap₂, some, List, [], ◌∷◌, ◌++◌, arith, length, take, drop, replicate,
  length-append, length-take,
}
use nexus_sfu.Base.Bytes.{u16_bytes, u32_bytes, u64_bytes}
use nexus_sfu.Base.Slices.{take-append}
use nexus_sfu.State.Gossip.Peers.{SocketAddr, v4, v6}
use nexus_sfu.State.Gossip.Updates.{StateUpdate, update_bytes, max_state_update_size}
use nexus_sfu.State.Gossip.Updates.RoundTrip.{length-update_bytes}
use nexus_sfu.State.Gossip.Messages.{
  GossipMessage, ping, ack, ping_req, suspect, alive, dead, forwarded_ack, state_snapshot, Member,
  max_message_size, max_piggyback_updates, max_snapshot_members, addr_bytes, encode_updates,
  updates_bytes, member_bytes, members_loop, members_bytes, message_bytes, encode,
}

-- The updates, each after its length.
unfoldable pub frames : List StateUpdate → List ℕ
frames [] = []
frames (u ∷ us) = u16_bytes (length (update_bytes u)) ++ (update_bytes u ++ frames us)

-- What an earlier update left in the buffer is not sent.
pub encode_updates-frames :
    (us : List StateUpdate) (buffer : List ℕ) → encode_updates us buffer ≡ frames us
unfolding encode_updates frames
encode_updates-frames [] buffer = refl
encode_updates-frames (u ∷ us) buffer =
    let n = length (update_bytes u) in
    let rest = drop n buffer in
    ap₂ (λ xs ys. u16_bytes n ++ (xs ++ ys)) (take-append (update_bytes u) rest)
      (encode_updates-frames us (update_bytes u ++ rest))

length-u16_bytes : (x : ℕ) → length (u16_bytes x) ≡ 2
unfolding u16_bytes
length-u16_bytes x = refl

length-u64_bytes : (x : ℕ) → length (u64_bytes x) ≡ 8
unfolding u64_bytes u32_bytes
length-u64_bytes x = refl

length-frames : (us : List StateUpdate) → length (frames us) ≤ 45 * length us
unfolding frames u16_bytes
length-frames [] = omega arith
length-frames (u ∷ us) =
    omega
      (arith, length-append (update_bytes u) (frames us), length-update_bytes u, length-frames us)

length-updates_bytes : (us : List StateUpdate) → length (updates_bytes us) ≤ 722
unfolding updates_bytes u16_bytes
length-updates_bytes us =
    let sent = take max_piggyback_updates us in
    omega (
      arith,
      ap length (encode_updates-frames sent (replicate max_state_update_size 0)),
      length-frames sent,
      length-take max_piggyback_updates us,
    )

pub length-members_loop : (ms : List Member) → length (members_loop ms) ≡ 17 * length ms
unfolding members_loop member_bytes u64_bytes u32_bytes
length-members_loop [] = refl
length-members_loop (m ∷ ms) = omega (arith, length-members_loop ms)

length-members_bytes : (ms : List Member) → length (members_bytes ms) ≤ 648
unfolding members_bytes u16_bytes
length-members_bytes ms =
    let sent = take max_snapshot_members ms in
    omega (arith, length-members_loop sent, length-take max_snapshot_members ms)

length-addr_bytes : (a : SocketAddr) → length (addr_bytes a) ≤ 27
unfolding addr_bytes
length-addr_bytes (v4 ip port) = omega arith
length-addr_bytes (v6 high low port flowinfo scope_id) = omega arith

length-message_bytes : (m : GossipMessage) → length (message_bytes m) ≤ max_message_size
unfolding message_bytes u64_bytes u32_bytes
length-message_bytes (ping from incarnation us) = omega (arith, length-updates_bytes us)
length-message_bytes (ack from incarnation us) = omega (arith, length-updates_bytes us)
length-message_bytes (ping_req from target a b) =
    omega
      (arith, length-append (addr_bytes a) (addr_bytes b), length-addr_bytes a, length-addr_bytes b)
length-message_bytes (suspect actor_id incarnation) = omega arith
length-message_bytes (alive actor_id incarnation) = omega arith
length-message_bytes (dead actor_id) = omega arith
length-message_bytes (forwarded_ack target incarnation) = omega arith
length-message_bytes (state_snapshot from incarnation ms us) = omega (
  arith,
  length-append (members_bytes ms) (updates_bytes us),
  length-members_bytes ms,
  length-updates_bytes us,
)

-- Every message, with any number of updates and members, is encoded and fits the largest size: the
-- assertion in `encode` does not fail.
pub encode-fits : (m : GossipMessage) → encode m ≡ some (message_bytes m)
unfolding encode
encode-fits m = ground (arith, length-message_bytes m)
