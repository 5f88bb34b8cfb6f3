-- ===== src/Media/Rtcp/Tests.antt =====
-- The theorems on the RTCP packets at concrete packets.
use nexus_sfu.Base.{
  ℕ, ◌+◌, ◌*◌, ◌/◌, ◌^◌, ◌<◌, ◌≡◌, refl, ◌↔◌, false, Option, some, List, [], ◌∷◌, ◌++◌, arith,
  length, take, drop, replicate, contains, count, ok,
}
use nexus_sfu.Media.Rtcp.{parse_header, packet_len_bytes, RtcpHeader, RtcpType}
use nexus_sfu.Media.Rtcp.Compound.{CompoundEntry, max_compound_packets, demux_compound}
use nexus_sfu.Media.Rtcp.Compound.Splitting.{Splits, demux_compound-Splits}
use nexus_sfu.Media.Rtcp.Feedback.{RembPacket, parse_remb, build_remb}
use nexus_sfu.Media.Rtcp.Feedback.Bitrate.{Encodes}
use nexus_sfu.Media.Rtcp.Feedback.RoundTrip.{parse_remb-build_remb}
use nexus_sfu.Media.Rtcp.Nack.{NackPacket, max_nack_packets, push_entry, parse_nack, build_nack}
use nexus_sfu.Media.Rtcp.Nack.Masks.{ones}
use nexus_sfu.Media.Rtcp.Nack.Overrun.{push_entry-overruns}
use nexus_sfu.Media.Rtcp.Nack.RoundTrip.{parse_nack-build_nack}
use nexus_sfu.Media.Rtcp.Reports.{
  ℤ, parse_sender_report, generate, ReceiverReport, parse_receiver_report,
}
use nexus_sfu.Media.Rtcp.Twcc.{build_twcc}
use nexus_sfu.Media.Rtcp.Twcc.Symbols.{is_wide}
use nexus_sfu.Media.Rtcp.Twcc.Chunks.{read_feedback}
use nexus_sfu.Media.Rtcp.Twcc.Reader.{packets_of, read_feedback-build_twcc}
use nexus_sfu.Media.Rtcp.Reports.Sent.{sent, total, parse_sender_report-sent}
use nexus_sfu.Media.Rtcp.Reports.Blocks.{BlocksAt, parse_receiver_report-BlocksAt}

-- A PLI, and a receiver report without blocks after it.
abbrev datagram : List ℕ
datagram =
    0x81 ∷ 206 ∷ 0 ∷ 2 ∷ 0 ∷ 0 ∷ 0 ∷ 1 ∷ 0 ∷ 0 ∷ 0 ∷ 2 ∷ 0x80 ∷ 201 ∷ 0 ∷ 1 ∷ 0 ∷ 0 ∷ 0 ∷ 9 ∷ []

abbrev header : RtcpType → ℕ → ℕ → ℕ → RtcpHeader
header kind count words ssrc = record {
  version = 2;
  padding = false;
  count = count;
  packet_type = kind;
  length_words = words;
  ssrc = ssrc;
}

abbrev entries : List CompoundEntry
entries =
    record { header = header RtcpType.payload_feedback 1 2 1; bytes = take 12 datagram }
    ∷ record { header = header RtcpType.receiver_report 0 1 9; bytes = drop 12 datagram }
    ∷ []

demux_compound-Splits_example :
    (demux_compound datagram ≡ ok entries) ↔ Splits max_compound_packets datagram entries
demux_compound-Splits_example = demux_compound-Splits datagram entries

-- The run itself.
datagram_split : demux_compound datagram ≡ ok entries
unfolding demux_compound parse_header packet_len_bytes
datagram_split = refl

abbrev remb : RembPacket
remb = record { sender_ssrc = 7; bitrate_bps = 1000000; ssrcs = 8 ∷ 9 ∷ [] }

parse_remb-build_remb_example :
    (bytes : List ℕ) × (exp : ℕ) × (mantissa : ℕ) × (build_remb remb ≡ some bytes)
    × Encodes 1000000 exp mantissa
    × (parse_remb bytes ≡ ok (record remb { bitrate_bps = mantissa * 2 ^ exp }))
parse_remb-build_remb_example =
    parse_remb-build_remb remb (omega arith) (omega arith, (omega arith, tt)) (omega arith)
      (omega arith) (omega arith) (omega arith)

-- Losses across the end of the sequence numbers, and one of them twice.
abbrev nack : NackPacket
nack = record { sender_ssrc = 1; media_ssrc = 2; lost_packets = 65535 ∷ 3 ∷ 0 ∷ 3 ∷ 40 ∷ [] }

nack_bytes : build_nack nack ≡ (
    0x81 ∷ 205 ∷ 0 ∷ 5 ∷ 0 ∷ 0 ∷ 0 ∷ 1 ∷ 0 ∷ 0 ∷ 0 ∷ 2 ∷ 0 ∷ 0 ∷ 0 ∷ 4 ∷ 0 ∷ 40 ∷ 0 ∷ 0 ∷ 255 ∷ 255
    ∷ 0 ∷ 0 ∷ [])
unfolding build_nack
nack_bytes = refl

parse_nack-build_nack_example :
    (q : NackPacket) × (parse_nack (build_nack nack) ≡ ok q)
    × ((q.sender_ssrc ≡ 1)
        × ((q.media_ssrc ≡ 2) × (contains 40 q.lost_packets ≡ contains 40 nack.lost_packets)))
parse_nack-build_nack_example =
    parse_nack-build_nack nack 40 (omega arith) (omega arith)
      (omega arith, (omega arith, (omega arith, (omega arith, (omega arith, tt))))) (omega arith)

push_entry-overruns_example :
    (max_nack_packets < length (push_entry 500 1 (replicate 63 7)))
    ↔ ((length (replicate {A = ℕ} 63 7) ≡ 63) × (0 < ones 16 0 1))
push_entry-overruns_example = push_entry-overruns 500 1 (replicate 63 7) (omega arith)

-- Four entries, the last of which starts with 63 packets: 65 are reported.
overrun :
    length (
      push_entry 500 1 (
        push_entry 300 0x7FF
          (push_entry 200 0xFFFF (push_entry 100 0xFFFF (push_entry 0 0xFFFF [])))))
    ≡ 65
unfolding push_entry
overrun = refl

parse_sender_report-sent_example :
    parse_sender_report (
      generate
        (sent (record { sender_ssrc = 7; packet_count = 0; octet_count = 0 }) (1200 ∷ 900 ∷ []))
        1700000000
        500000000
        90000)
    ≡ ok (record {
      ssrc = 7;
      ntp_timestamp = (1700000000 + 2208988800) * 2 ^ 32 + 500000000 * 2 ^ 32 / 1000000000;
      rtp_timestamp = 90000;
      packet_count = 2;
      octet_count = 2100;
    })
unfolding total
parse_sender_report-sent_example =
    parse_sender_report-sent 7 1700000000 500000000 90000 (1200 ∷ 900 ∷ []) (omega arith)
      (omega arith) (omega arith) (omega arith)

abbrev report : List ℕ
report = 0x81 ∷ 201 ∷ 0 ∷ 7 ∷ 0 ∷ 0 ∷ 0 ∷ 9 ∷ (replicate 5 1 ++ (255 ∷ replicate 18 1))

one_block :
    (r : ReceiverReport) × (parse_receiver_report report ≡ ok r)
    × ((length r.blocks ≡ 1) × BlocksAt report 8 r.blocks)
one_block = parse_receiver_report-BlocksAt report refl refl (omega arith)

abbrev feedback_bytes : List ℕ
feedback_bytes =
    143 ∷ 205 ∷ 0 ∷ 6 ∷ 0 ∷ 0 ∷ 0 ∷ 1 ∷ 0 ∷ 0 ∷ 0 ∷ 2 ∷ 0 ∷ 10 ∷ 0 ∷ 3 ∷ 0 ∷ 0 ∷ 100 ∷ 0 ∷ 168 ∷ 0
    ∷ 0 ∷ 1 ∷ 144 ∷ 0 ∷ 0 ∷ 0 ∷ []

-- Two packets 100 milliseconds apart, and none between them: the feedback announces two deltas, and has three bytes of them: 0, and 400 in two bytes.
feedback : build_twcc 1 2 0 ((10, 6400000) ∷ (12, 6500000) ∷ []) ≡ some feedback_bytes
unfolding build_twcc
feedback = refl

abbrev packets : List (Option ℤ)
packets = packets_of 10 6400000 ((12, 6500000) ∷ [])

read_feedback-build_twcc_example :
    (read_feedback feedback_bytes ≡ packets) ↔ (count is_wide packets ≡ 0)
read_feedback-build_twcc_example =
    read_feedback-build_twcc 1 2 0 10 6400000 ((12, 6500000) ∷ []) feedback_bytes feedback
