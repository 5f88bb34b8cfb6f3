-- ===== src/Dataplane/Rtcp/Answered.antt =====
-- The compound that the shard sends for a publisher's report, read as the shard reads one.
use nexus_sfu.Base.{
  ℕ, ◌+◌, ◌-◌, ◌/◌, ◌%◌, ◌^◌, ◌≤◌, ◌<◌, ◌≡◌, refl, sym, ap, ◌∙◌, true, false, some, List, [], ◌∷◌,
  ◌++◌, append_assoc, append-nil, arith, ◌==◌, le→leb, length, take, drop, replicate, length-append,
  length-drop, length-replicate, position, count, ok,
}
use nexus_sfu.Base.Bytes.{
  be_u16, be_u32, u16_bytes, u32_bytes, u64_bytes, be_u16-u16_bytes, be_u32-u32_bytes,
}
use nexus_sfu.Base.Slices.{take-append, drop-append}
use nexus_sfu.Media.Rtcp.{RtcpHeader, RtcpType, parse_header, packet_len_bytes}
use nexus_sfu.Media.Rtcp.Compound.{CompoundEntry, demux_compound}
use nexus_sfu.Media.Rtcp.Compound.Splitting.{packet, no_more, demux_compound-Splits}
use nexus_sfu.Media.Rtcp.Feedback.Lists.{IsU32}
use nexus_sfu.Media.Rtcp.Reports.{SenderReport, parse_sender_report}
use nexus_sfu.Media.Rtcp.Reports.Sent.{parse_sender_report-bytes}
use nexus_sfu.Dataplane.Rtcp.{
  SrInfo, block_header, write_front, sr_bytes, write_sr, sdes_len, sdes_bytes, write_sdes_cname,
  append_cname, cname_after, translated, Requests, push, put_sr, read_sr, read_block, read_blocks,
  total_len, read_split, read_compound,
}

-- The header of a report, and that of the CNAME after it.
abbrev header_of : RtcpType → ℕ → ℕ → ℕ → RtcpHeader
header_of kind count words ssrc = record {
  version = 2;
  padding = false;
  count = count;
  packet_type = kind;
  length_words = words;
  ssrc = ssrc;
}

parse_header-sr :
    (ssrc : ℕ) (sr : SrInfo) (packets octets : ℕ) (rest : List ℕ)
    → IsU32 ssrc
    → parse_header (sr_bytes ssrc sr packets octets ++ rest)
      ≡ ok (header_of RtcpType.sender_report 0 6 ssrc)
unfolding parse_header sr_bytes block_header be_u16 be_u32 u16_bytes u32_bytes u64_bytes
parse_header-sr ssrc sr packets octets rest hs =
    let es = be_u32-u32_bytes ssrc [] hs in
    let long = le→leb 8 (length (sr_bytes ssrc sr packets octets ++ rest)) (omega arith) in
    rw (es, long) refl

parse_header-sdes :
    (ssrc : ℕ) (name rest : List ℕ)
    → IsU32 ssrc
    → length name ≤ 255
    → parse_header (sdes_bytes ssrc name ++ rest)
      ≡ ok (header_of RtcpType.source_description 1 (sdes_len (length name) / 4 - 1) ssrc)
unfolding parse_header sdes_bytes block_header be_u16 be_u32 u16_bytes u32_bytes
parse_header-sdes ssrc name rest hs few =
    let es = be_u32-u32_bytes ssrc [] hs in
    let words = sdes_len (length name) / 4 - 1 in
    let small : words % 65536 ≡ words = omega arith in
    let ew = be_u16-u16_bytes words [] (omega arith) in
    let long = le→leb 8 (length (sdes_bytes ssrc name ++ rest)) (omega arith) in
    rw (es, small, ew, long) refl

length-sr_bytes :
    (ssrc : ℕ) (sr : SrInfo) (packets octets : ℕ) → length (sr_bytes ssrc sr packets octets) ≡ 28
unfolding sr_bytes block_header u16_bytes u32_bytes u64_bytes
length-sr_bytes ssrc sr packets octets = refl

length-sdes_bytes :
    (ssrc : ℕ) (name : List ℕ) → length (sdes_bytes ssrc name) ≡ sdes_len (length name)
unfolding sdes_bytes block_header u16_bytes u32_bytes
length-sdes_bytes ssrc name =
    let n = length name in
    let gap = sdes_len n - (10 + n) in
    let zeros : List ℕ = replicate gap 0 in
    omega (arith, length-append name zeros, length-replicate {A = ℕ} gap 0)

abbrev IsReport : ℕ → SrInfo → ℕ → ℕ → Type 0
IsReport ssrc sr packets octets =
    IsU32 ssrc × ((sr.ntp < 2 ^ 64) × (IsU32 sr.rtp × (IsU32 packets × IsU32 octets)))

-- The two blocks.
abbrev blocks : ℕ → SrInfo → ℕ → ℕ → List ℕ → List CompoundEntry
blocks ssrc sr packets octets name =
    record {
      header = header_of RtcpType.sender_report 0 6 ssrc;
      bytes = sr_bytes ssrc sr packets octets;
    }
    ∷ record {
      header = header_of RtcpType.source_description 1 (sdes_len (length name) / 4 - 1) ssrc;
      bytes = sdes_bytes ssrc name;
    }
    ∷ []

demux_compound-blocks :
    (ssrc : ℕ) (sr : SrInfo) (packets octets : ℕ) (name : List ℕ)
    → IsU32 ssrc
    → length name ≤ 255
    → demux_compound (sr_bytes ssrc sr packets octets ++ sdes_bytes ssrc name)
      ≡ ok (blocks ssrc sr packets octets name)
unfolding packet_len_bytes
demux_compound-blocks ssrc sr packets octets name hs few =
    let front = sr_bytes ssrc sr packets octets in
    let back = sdes_bytes ssrc name in
    let h1 = header_of RtcpType.sender_report 0 6 ssrc in
    let h2 = header_of RtcpType.source_description 1 (sdes_len (length name) / 4 - 1) ssrc in
    let n2 = length-sdes_bytes ssrc name in
    let n1 : length front ≡ 28 = length-sr_bytes ssrc sr packets octets in
    let whole : parse_header back ≡ ok h2 =
      ap parse_header (sym (append-nil back)) ∙ parse_header-sdes ssrc name [] hs few in
    let second =
      packet 14 h2 back back [] [] (sym (append-nil back)) (omega (arith, n2)) whole
        (omega (arith, n2)) (no_more 13 [] (omega arith)) in
    (demux_compound-Splits (front ++ back) (blocks ssrc sr packets octets name)).1 (
      packet 15 h1 (front ++ back) front back _ refl (omega (arith, n1, length-append front back))
        (parse_header-sr ssrc sr packets octets back hs) n1 second)

parse_sr_bytes :
    (ssrc : ℕ) (sr : SrInfo) (packets octets : ℕ)
    → IsU32 ssrc
    → sr.ntp < 2 ^ 64
    → IsU32 sr.rtp
    → IsU32 packets
    → IsU32 octets
    → parse_sender_report (sr_bytes ssrc sr packets octets)
      ≡ ok (record {
        ssrc = ssrc;
        ntp_timestamp = sr.ntp;
        rtp_timestamp = sr.rtp;
        packet_count = packets;
        octet_count = octets;
      })
unfolding sr_bytes block_header u16_bytes
parse_sr_bytes ssrc sr packets octets hs hn hr hp ho =
    parse_sender_report-bytes ssrc sr.ntp sr.rtp packets octets hs hn hr hp ho

read_compound-two :
    (front back : List ℕ) (ssrc words : ℕ) (p : SenderReport)
    → demux_compound (front ++ back)
      ≡ ok (
          record { header = header_of RtcpType.sender_report 0 6 ssrc; bytes = front }
          ∷ record { header = header_of RtcpType.source_description 1 words ssrc; bytes = back }
          ∷ [])
    → parse_sender_report front ≡ ok p
    → read_compound (front ++ back)
      ≡ some (record {
        srs = (p.ssrc, record { ntp = p.ntp_timestamp; rtp = p.rtp_timestamp }) ∷ [];
        keyframes = [];
        ignored = 1;
      })
unfolding read_compound read_split total_len read_blocks read_block read_sr put_sr push position
read_compound-two front back ssrc words p two parsed =
    let all_of_it : (length front + (length back + 0) == length (front ++ back)) ≡ true =
      ground (arith, length-append front back) in
    let behind : CompoundEntry = record {
      header = header_of RtcpType.source_description 1 words ssrc;
      bytes = back;
    } in
    let none_yet : Requests = record { srs = []; keyframes = []; ignored = 0 } in
    rw (two, all_of_it) (ap (λ x. read_blocks (read_sr none_yet x) (behind ∷ [])) parsed)

read_compound-blocks :
    (ssrc : ℕ) (sr : SrInfo) (packets octets : ℕ) (name : List ℕ)
    → IsReport ssrc sr packets octets
    → length name ≤ 255
    → read_compound (sr_bytes ssrc sr packets octets ++ sdes_bytes ssrc name)
      ≡ some (record { srs = (ssrc, sr) ∷ []; keyframes = []; ignored = 1 })
read_compound-blocks ssrc sr packets octets name (hs, (hn, (hr, (hp, ho)))) few =
    read_compound-two (sr_bytes ssrc sr packets octets) (sdes_bytes ssrc name) ssrc
      (sdes_len (length name) / 4 - 1) _ (demux_compound-blocks ssrc sr packets octets name hs few)
      (parse_sr_bytes ssrc sr packets octets hs hn hr hp ho)

write_front-fits :
    (dst bytes : List ℕ)
    → length bytes ≤ length dst
    → write_front dst bytes ≡ some (length bytes, bytes ++ drop (length bytes) dst)
unfolding write_front
write_front-fits dst bytes h = ground arith

written-behind :
    (front back tail : List ℕ)
    → length back ≤ length tail
    → append_cname
        (length front)
        (front ++ tail)
        (write_front (drop (length front) (front ++ tail)) back)
      ≡ some (length front + length back, front ++ (back ++ drop (length back) tail))
unfolding append_cname
written-behind front back tail h =
    rw (drop-append front tail, write_front-fits tail back h, take-append front tail) refl

translated-bytes :
    (dst : List ℕ) (ssrc : ℕ) (sr : SrInfo) (ts_offset packets octets : ℕ) (name : List ℕ)
    → 28 + sdes_len (length name) ≤ length dst
    → let front =
        sr_bytes ssrc (record sr { rtp = (sr.rtp + ts_offset) % 4294967296 }) packets octets in
      let back = sdes_bytes ssrc name in
      translated dst ssrc sr ts_offset packets octets name
      ≡ some (28 + length back, front ++ (back ++ drop (length back) (drop 28 dst)))
unfolding translated write_sr cname_after write_sdes_cname
translated-bytes dst ssrc sr ts_offset packets octets name room =
    let front =
      sr_bytes ssrc (record sr { rtp = (sr.rtp + ts_offset) % 4294967296 }) packets octets in
    let back = sdes_bytes ssrc name in
    let n1 : length front ≡ 28 =
      length-sr_bytes ssrc (record sr { rtp = (sr.rtp + ts_offset) % 4294967296 }) packets octets in
    ap (cname_after ssrc name) (write_front-fits dst front (omega (arith, n1, room)))
    ∙ written-behind front back (drop 28 dst)
        (omega (arith, length-drop 28 dst, length-sdes_bytes ssrc name, room))

-- If the buffer has room, the shard's report for a subscriber, with fields in range and a CNAME of at most
-- 255 bytes, is written; read as the shard reads a compound, it is one sender report of the subscriber's
-- SSRC, with the publisher's NTP time and the shifted RTP time, and a block that is ignored.
pub read_compound-translated :
    (dst : List ℕ) (ssrc : ℕ) (sr : SrInfo) (ts_offset packets octets : ℕ) (name : List ℕ)
    → IsReport ssrc sr packets octets
    → length name ≤ 255
    → 28 + sdes_len (length name) ≤ length dst
    → (out : List ℕ) × (translated dst ssrc sr ts_offset packets octets name
        ≡ some (28 + sdes_len (length name), out))
      × (read_compound (take (28 + sdes_len (length name)) out)
          ≡ some (record {
            srs = (ssrc, record { ntp = sr.ntp; rtp = (sr.rtp + ts_offset) % 4294967296 }) ∷ [];
            keyframes = [];
            ignored = 1;
          }))
read_compound-translated dst ssrc sr ts_offset packets octets name (hs, (hn, (hr, (hp, ho)))) few
      room =
    let moved : SrInfo = record sr { rtp = (sr.rtp + ts_offset) % 4294967296 } in
    let front = sr_bytes ssrc moved packets octets in
    let back = sdes_bytes ssrc name in
    let rest = drop (length back) (drop 28 dst) in
    let n2 = length-sdes_bytes ssrc name in
    let long : 28 + sdes_len (length name) ≡ length (front ++ back) =
      omega (arith, n2, length-sr_bytes ssrc moved packets octets, length-append front back) in
    let sent : take (28 + sdes_len (length name)) (front ++ (back ++ rest)) ≡ front ++ back =
      ap (λ n. take n (front ++ (back ++ rest))) long
      ∙ ap (take (length (front ++ back))) (sym (append_assoc front back rest))
      ∙ take-append (front ++ back) rest in
    (
      front ++ (back ++ rest),
      translated-bytes dst ssrc sr ts_offset packets octets name room
          ∙ ap (λ n. some (28 + n, front ++ (back ++ rest))) n2,
      ap read_compound sent
          ∙ read_compound-blocks ssrc moved packets octets name (hs, (hn, (omega arith, (hp, ho))))
              few,
    )
