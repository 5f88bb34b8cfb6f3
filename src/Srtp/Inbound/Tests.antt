-- ===== src/Srtp/Inbound/Tests.antt =====
-- Concrete runs of `SrtpInbound`, and its theorems there.
use nexus_sfu.Base.{
  ℕ, ◌+◌, ◌-◌, ◌≡◌, refl, true, List, [], ◌∷◌, replicate, position, count, ok, err,
}
use nexus_sfu.Base.Bytes.{be_u16, be_u32}
use nexus_sfu.Srtp.Types.{authentication_failed, packet_index}
use nexus_sfu.Srtp.Cipher.{Cipher}
use nexus_sfu.Srtp.Replay.{check, accept}
use nexus_sfu.Srtp.Index.{estimate_index, update}
use nexus_sfu.Srtp.Inbound.{from_keys, pin, slot_for, slot_to_replace}
use nexus_sfu.Srtp.Inbound.Unprotect.{unprotect_rtp}
use nexus_sfu.Srtp.Inbound.Control.{Op, pins, receives_rtp, evicts, run, step, run-Sound}
use nexus_sfu.Srtp.Inbound.Sound.{Sound}
use nexus_sfu.Srtp.Inbound.Replayed.{history}
use nexus_sfu.Srtp.Inbound.Refused.{Frame, unprotect_rtp-refused}

-- A cipher that leaves the packet as it is, and one that refuses every packet.
abbrev plain : Cipher
plain = record {
  is_aead = true;
  tag_len = 16;
  protect_rtp = λ buf len index. (ok (len + 16), buf);
  unprotect_rtp = λ buf len index. (ok (len - 16), buf);
  protect_rtcp = λ buf len index. (ok (len + 20), buf);
  unprotect_rtcp = λ buf len. (ok (len - 20, 0), buf);
}

abbrev strict : Cipher
strict = record plain { unprotect_rtp = λ buf len index. (err authentication_failed, buf) }

-- An RTP packet of SSRC 7, with sequence number 1 and 16 bytes of tag.
abbrev packet : List ℕ
packet = 0x80 ∷ 96 ∷ 0 ∷ 1 ∷ 0 ∷ 0 ∷ 0 ∷ 0 ∷ 0 ∷ 0 ∷ 0 ∷ 7 ∷ replicate 16 0

abbrev calls : List Op
calls = receives_rtp packet 28 5 ∷ receives_rtp packet 28 6 ∷ evicts 100 30 ∷ []

-- The packet is delivered once.
packet-history : history 7 [] (pin (from_keys plain) 7).1 calls ≡ 1 ∷ []
unfolding history step from_keys pin position slot_to_replace unprotect_rtp slot_for be_u32 be_u16
    estimate_index update check accept packet_index count
packet-history = refl

-- The SSRC is pinned after its first packet: that one is not delivered again, the next one is.
abbrev next_packet : List ℕ
next_packet = 0x80 ∷ 96 ∷ 0 ∷ 2 ∷ 0 ∷ 0 ∷ 0 ∷ 0 ∷ 0 ∷ 0 ∷ 0 ∷ 7 ∷ replicate 16 0

abbrev more_calls : List Op
more_calls = receives_rtp packet 28 6 ∷ receives_rtp next_packet 28 7 ∷ []

run-Sound_example : Sound (run (from_keys plain) (pins 7 ∷ calls)).slots
run-Sound_example = run-Sound plain (pins 7 ∷ calls)

unprotect_rtp-refused_example :
    Frame (from_keys strict).slots (unprotect_rtp (from_keys strict) packet 28 5).2.slots
unfolding unprotect_rtp from_keys slot_for be_u32 be_u16 packet_index
unprotect_rtp-refused_example = unprotect_rtp-refused (from_keys strict) packet 28 5 refl
