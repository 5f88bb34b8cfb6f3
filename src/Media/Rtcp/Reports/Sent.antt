-- ===== src/Media/Rtcp/Reports/Sent.antt =====
-- What a sender report of rtcp/packet.rs says of the packets that were sent.
use nexus_sfu.Base.{
  ℕ, ◌+◌, ◌*◌, ◌/◌, ◌%◌, ◌^◌, ◌<◌, ◌≡◌, refl, List, [], ◌∷◌, ◌++◌, arith, length, ok,
}
use nexus_sfu.Base.Bytes.{be_u32, be_u64, u32_bytes, u64_bytes, be_u32-u32_bytes, be_u64-u64_bytes}
use nexus_sfu.Base.Bits.{bit_or_fields}
use nexus_sfu.Media.Rtcp.{check_start}
use nexus_sfu.Media.Rtcp.Reports.{
  parse_sender_report, SenderReportGenerator, update_stats, ntp_epoch_offset,
  calculate_ntp_timestamp, generate,
}

-- The generator after the packets of these sizes.
unfoldable pub sent : SenderReportGenerator → List ℕ → SenderReportGenerator
unfolding update_stats
sent g [] = g
sent g (size ∷ sizes) = sent (update_stats g size) sizes

unfoldable pub total : List ℕ → ℕ
total [] = 0
total (n ∷ ns) = n + total ns

abbrev IsCounting : SenderReportGenerator → ℕ → ℕ → ℕ → Type 0
IsCounting g ssrc packets octets =
    (g.sender_ssrc ≡ ssrc)
    × ((g.packet_count ≡ packets % 4294967296) × (g.octet_count ≡ octets % 4294967296))

sent-IsCounting :
    (g : SenderReportGenerator) (ssrc packets octets : ℕ) (sizes : List ℕ)
    → IsCounting g ssrc packets octets
    → IsCounting (sent g sizes) ssrc (packets + length sizes) (octets + total sizes)
unfolding sent total update_stats
sent-IsCounting g ssrc packets octets [] (a, (b, c)) = (a, (omega arith, omega arith))
sent-IsCounting g ssrc packets octets (size ∷ sizes) (a, (b, c)) =
    let (a', (b', c')) =
      sent-IsCounting (update_stats g size) ssrc (packets + 1) (octets + size) sizes
        (a, (omega arith, omega arith)) in
    (a', (omega arith, omega arith))

-- The fraction of a second, in units of 2^-32 seconds.
abbrev pub fraction : ℕ → ℕ
fraction nanos = nanos * 2 ^ 32 / 1000000000

ntp-fields :
    (secs nanos : ℕ)
    → nanos < 1000000000
    → secs + ntp_epoch_offset < 2 ^ 32
    → calculate_ntp_timestamp secs nanos ≡ (secs + ntp_epoch_offset) * 2 ^ 32 + fraction nanos
unfolding calculate_ntp_timestamp
ntp-fields secs nanos sub early =
    let e : (secs + 2208988800) * 4294967296 % 18446744073709551616
        ≡ (secs + 2208988800) * 4294967296 =
      omega arith in
    rw e (bit_or_fields 32 (secs + 2208988800) (fraction nanos) (omega arith))

pub parse_sender_report-bytes :
    (ssrc ntp rtp packets octets : ℕ)
    → ssrc < 2 ^ 32
    → ntp < 2 ^ 64
    → rtp < 2 ^ 32
    → packets < 2 ^ 32
    → octets < 2 ^ 32
    → parse_sender_report (
        128
        ∷ 200
        ∷ 0
        ∷ 6
        ∷ (u32_bytes ssrc
            ++ (u64_bytes ntp ++ (u32_bytes rtp ++ (u32_bytes packets ++ u32_bytes octets)))))
      ≡ ok (record {
        ssrc = ssrc;
        ntp_timestamp = ntp;
        rtp_timestamp = rtp;
        packet_count = packets;
        octet_count = octets;
      })
unfolding parse_sender_report check_start u32_bytes u64_bytes be_u32 be_u64
parse_sender_report-bytes ssrc ntp rtp packets octets h1 h2 h3 h4 h5 =
    let es = be_u32-u32_bytes ssrc [] h1 in
    let en = be_u64-u64_bytes ntp [] h2 in
    let er = be_u32-u32_bytes rtp [] h3 in
    let ep = be_u32-u32_bytes packets [] h4 in
    let eo = be_u32-u32_bytes octets [] h5 in rw (es, en, er, ep, eo) refl

-- The report of a generator that counted packets of these sizes since it was new, at a time before the
-- NTP seconds run over in 2036 and with an SSRC and an RTP time of 32 bits, is parsed back with the SSRC,
-- both times, the number of the packets and the sum of their sizes, the last two modulo 2^32.
pub parse_sender_report-sent :
    (ssrc secs nanos rtp : ℕ) (sizes : List ℕ)
    → ssrc < 2 ^ 32
    → secs + ntp_epoch_offset < 2 ^ 32
    → nanos < 1000000000
    → rtp < 2 ^ 32
    → let g = sent (record { sender_ssrc = ssrc; packet_count = 0; octet_count = 0 }) sizes in
      parse_sender_report (generate g secs nanos rtp)
      ≡ ok (record {
        ssrc = ssrc;
        ntp_timestamp = (secs + ntp_epoch_offset) * 2 ^ 32 + fraction nanos;
        rtp_timestamp = rtp;
        packet_count = length sizes % 4294967296;
        octet_count = total sizes % 4294967296;
      })
unfolding generate
parse_sender_report-sent ssrc secs nanos rtp sizes hs early sub hr =
    let g = sent (record { sender_ssrc = ssrc; packet_count = 0; octet_count = 0 }) sizes in
    let (a, (b, c)) =
      sent-IsCounting (record { sender_ssrc = ssrc; packet_count = 0; octet_count = 0 }) ssrc 0 0
        sizes (refl, (refl, refl)) in
    let b' : g.packet_count ≡ length sizes % 4294967296 = omega (arith, b) in
    let c' : g.octet_count ≡ total sizes % 4294967296 = omega (arith, c) in
    rw (a, b', c', ntp-fields secs nanos sub early)
      (parse_sender_report-bytes ssrc ((secs + ntp_epoch_offset) * 2 ^ 32 + fraction nanos) rtp
        (length sizes % 4294967296) (total sizes % 4294967296) hs (omega arith) hr (omega arith)
        (omega arith))
