-- ===== src/Srtp/Tests.antt =====
-- Concrete runs of the SRTP layer, and its theorems at concrete inputs.
use nexus_sfu.Base.{
  ℕ, ◌+◌, ◌-◌, min, ◌≡◌, refl, true, List, [], ◌∷◌, map, arith, if◌then◌else◌, position, ok, err,
}
use nexus_sfu.Srtp.Types.{replay_detected, invalid_ssrc, packet_index}
use nexus_sfu.Srtp.Index.{RocState, estimate_index, update, u32_max}
use nexus_sfu.Srtp.Index.Estimate.{estimate_index-exact, receive, receive-exact}
use nexus_sfu.Srtp.Replay.{with_window_size, check, accept, check_and_accept}
use nexus_sfu.Srtp.Replay.Window.{admits, with_window_size-Tracks, accept-Tracks}
use nexus_sfu.Srtp.Replay.Safety.{accepted, admitted, check-admits, accepted-admitted}
use nexus_sfu.Srtp.Cipher.{Cipher}
use nexus_sfu.Base.Bytes.{be_u32, be_u16}
use nexus_sfu.Srtp.Outbound.{from_keys, register, retire, protect_rtp, protect_rtcp}
use nexus_sfu.Srtp.Outbound.Inv.{from_keys-Inv}
use nexus_sfu.Srtp.Outbound.RtcpIndex.{run_rtcp, emitted_rtcp, rtcp_pair}
use nexus_sfu.Srtp.Outbound.Rtcp.{run-Once}
use nexus_sfu.Srtp.Outbound.Run.{
  protects_rtcp, Op, registers, retires, protects, run, step, emitted, protected, pair_of,
}
use nexus_sfu.Srtp.Outbound.Once.{Once}
use nexus_sfu.Srtp.Outbound.Register.{after, register_again}
use nexus_sfu.Srtp.Outbound.LateStart.{started_at, late_packet-blocks}
use nexus_sfu.Srtp.Replay as Replay

-- A stream just before the sequence number wraps.
abbrev near_wrap : RocState
near_wrap = record { roc = 0; highest_seq = 65500; initialized = true }

estimate_index-exact_example : estimate_index near_wrap 5 ≡ ok 65541
estimate_index-exact_example =
    estimate_index-exact near_wrap 65541 (omega arith) refl (omega arith) (omega arith)

receive-exact_example :
    receive near_wrap (65510 ∷ 5 ∷ 65535 ∷ 32700 ∷ []) ≡ map ok (65510 ∷ 65541 ∷ 65535 ∷ 98236 ∷ [])
receive-exact_example =
    receive-exact near_wrap (65510 ∷ 65541 ∷ 65535 ∷ 98236 ∷ []) (omega arith) refl (omega arith)

-- A stream whose rollover counter is spent.
abbrev spent : RocState
spent = record { roc = u32_max; highest_seq = 40000; initialized = true }

-- 100, then 50 inside the window, then both again, one too old, and one ahead.
abbrev arrivals : List ℕ
arrivals = 100 ∷ 50 ∷ 50 ∷ 100 ∷ 30 ∷ 101 ∷ []

arrivals-accepted : accepted (with_window_size 64) arrivals ≡ 100 ∷ 50 ∷ 101 ∷ []
unfolding accepted with_window_size check_and_accept check accept
arrivals-accepted = refl

accepted-admitted_example :
    accepted (with_window_size 100) arrivals ≡ admitted (min 100 64) [] arrivals
accepted-admitted_example = accepted-admitted 100 arrivals

check-admits_example : (check (accept (with_window_size 64) 100) 30).0 ≡ (
    if admits (accept (with_window_size 64) 100).window_size (100 ∷ []) 30
    then ok tt
    else err replay_detected)
check-admits_example =
    check-admits (accept (with_window_size 64) 100) (100 ∷ []) 30
      (accept-Tracks (with_window_size 64) [] 100 (with_window_size-Tracks 64))

-- A cipher that leaves the packet as it is.
abbrev plain : Cipher
plain = record {
  is_aead = true;
  tag_len = 16;
  protect_rtp = λ buf len index. (ok (len + 16), buf);
  unprotect_rtp = λ buf len index. (ok (len - 16), buf);
  protect_rtcp = λ buf len index. (ok (len + 20), buf);
  unprotect_rtcp = λ buf len. (ok (len - 20, 0), buf);
}

-- An RTP packet of SSRC 7 with sequence number 1.
abbrev packet : List ℕ
packet = 0x80 ∷ 96 ∷ 0 ∷ 1 ∷ 0 ∷ 0 ∷ 0 ∷ 0 ∷ 0 ∷ 0 ∷ 0 ∷ 7 ∷ []

abbrev calls : List Op
calls = registers 7 ∷ protects packet 12 ∷ protects packet 12 ∷ retires 7 ∷ registers 7 ∷ []

calls-run : run (from_keys plain 5) [] calls ≡ (7, 1) ∷ []
unfolding run step emitted protected from_keys register position retire protect_rtp be_u32 be_u16
    estimate_index update packet_index check accept pair_of
calls-run = refl

-- An RTCP packet of SSRC 7.
abbrev report : List ℕ
report = 0x80 ∷ 200 ∷ 0 ∷ 1 ∷ 0 ∷ 0 ∷ 0 ∷ 7 ∷ []

abbrev rtcp_calls : List Op
rtcp_calls = registers 7 ∷ protects packet 12 ∷ protects_rtcp report 8 ∷ protects_rtcp report 8 ∷ []

rtcp_calls-run : run_rtcp (from_keys plain 5) [] rtcp_calls ≡ (7, 1) ∷ (7, 0) ∷ []
unfolding run_rtcp step emitted_rtcp rtcp_pair from_keys register position protect_rtp protect_rtcp
    be_u32 be_u16 estimate_index update packet_index check accept
rtcp_calls-run = refl

run-Once_example :
    Once (run (from_keys plain 5) [] rtcp_calls) × Once (run_rtcp (from_keys plain 5) [] rtcp_calls)
run-Once_example = run-Once plain 5 rtcp_calls

register_again_example :
    let o' = after (register (from_keys plain 5) 7).1 (retires 7 ∷ []) in
    register o' 7 ≡ (err invalid_ssrc, o')
unfolding register from_keys position
register_again_example =
    register_again (from_keys plain 5) [] 7 (retires 7 ∷ []) (from_keys-Inv plain 5) refl

late_packet-blocks_example :
    (estimate_index (started_at 3) 65530 ≡ ok 65530)
    × (update (started_at 3) 65530 ≡ (ok tt, started_at 3))
    × ((check (accept Replay.new 3) 65530).0 ≡ ok tt)
    × (estimate_index (started_at 3) (3 + 1) ≡ ok (3 + 1))
    × ((check (accept (accept Replay.new 3) 65530) (3 + 1)).0 ≡ err replay_detected)
late_packet-blocks_example = late_packet-blocks 3 9 1 (omega arith) (omega arith) (omega arith)
