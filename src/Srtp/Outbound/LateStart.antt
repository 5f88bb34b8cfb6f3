-- ===== src/Srtp/Outbound/LateStart.antt =====
-- `protect_rtp` of srtp/direction.rs on a stream that starts at a low sequence number.
use nexus_sfu.Base.{ℕ, ◌+◌, ◌-◌, ◌≤◌, ◌<◌, ◌≡◌, true, arith, ok, err}
use nexus_sfu.Srtp.Types.{replay_detected, packet_index_sum}
use nexus_sfu.Srtp.Index.{RocState, estimate_index, update}
use nexus_sfu.Srtp.Replay.{check, accept}
use nexus_sfu.Srtp.Replay as Replay

-- The index state after a first packet with the sequence number `f`.
abbrev pub started_at : ℕ → RocState
started_at f = record { roc = 0; highest_seq = f; initialized = true }

-- A first packet numbered below 64, followed by a packet that precedes it by `d` and so has a
-- number before the wrap: this one is taken for index 65536 + f - d, not for one before the
-- stream. It is admitted, and from then on no number up to 2^14 past the first is admitted.
pub late_packet-blocks :
    (f d n : ℕ)
    → f < d
    → d ≤ 64
    → n ≤ 16384
    → let late : ℕ = f + 65536 - d in
      (estimate_index (started_at f) late ≡ ok late)
      × (update (started_at f) late ≡ (ok tt, started_at f))
      × ((check (accept Replay.new f) late).0 ≡ ok tt)
      × (estimate_index (started_at f) (f + n) ≡ ok (f + n))
      × ((check (accept (accept Replay.new f) late) (f + n)).0 ≡ err replay_detected)
unfolding estimate_index update check accept
late_packet-blocks f d n below near far = (
  ground (arith, packet_index_sum 0 (f + 65536 - d)),
  ground arith,
  ground arith,
  ground (arith, packet_index_sum 0 (f + n)),
  ground arith,
)
