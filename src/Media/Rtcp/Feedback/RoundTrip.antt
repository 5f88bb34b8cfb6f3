-- ===== src/Media/Rtcp/Feedback/RoundTrip.antt =====
-- The feedback packets of rtcp/packet.rs, built and parsed.
use nexus_sfu.Base.{
  ℕ, ◌+◌, ◌*◌, ◌^◌, ◌≤◌, ◌<◌, ◌≡◌, refl, some, List, [], ◌∷◌, ◌++◌, arith, le→leb, length, drop,
  All, ok,
}
use nexus_sfu.Base.Bytes.{be_u32, u32_bytes, be_u32-u32_bytes}
use nexus_sfu.Media.Rtcp.{check_start, check_fmt}
use nexus_sfu.Media.Rtcp.Feedback.{
  PliPacket, parse_pli, build_pli, FirEntry, FirPacket, max_fir_entries, fir_entry_bytes, parse_fir,
  build_fir, RembPacket, remb_count, parse_remb, encode_bitrate, ssrc_bytes, remb_bytes, build_remb,
}
use nexus_sfu.Media.Rtcp.Feedback.Lists.{IsU32, IsFirEntry, fir_entries-bytes, remb_ssrcs-bytes}
use nexus_sfu.Media.Rtcp.Feedback.Bitrate.{Encodes, encode_bitrate-Encodes, decode_bitrate-bytes}

-- A PLI is parsed back from its bytes, whatever follows.
pub parse_pli-build_pli :
    (p : PliPacket) (rest : List ℕ)
    → IsU32 p.sender_ssrc
    → IsU32 p.media_ssrc
    → parse_pli (build_pli p ++ rest) ≡ ok p
unfolding parse_pli build_pli check_start check_fmt u32_bytes be_u32
parse_pli-build_pli p rest hs hm =
    let es = be_u32-u32_bytes p.sender_ssrc (u32_bytes p.media_ssrc ++ rest) hs in
    let em = be_u32-u32_bytes p.media_ssrc rest hm in
    let long = le→leb 12 (length (build_pli p ++ rest)) (omega arith) in rw (es, em, long) refl

length-fir_entry_bytes : (es : List FirEntry) → length (fir_entry_bytes es) ≡ 8 * length es
unfolding fir_entry_bytes u32_bytes
length-fir_entry_bytes [] = refl
length-fir_entry_bytes (e ∷ es) = omega (arith, length-fir_entry_bytes es)

-- A FIR with one to 31 entries is parsed back.
pub parse_fir-build_fir :
    (p : FirPacket)
    → IsU32 p.sender_ssrc
    → All IsFirEntry p.entries
    → 0 < length p.entries
    → length p.entries ≤ max_fir_entries
    → parse_fir (build_fir p) ≡ ok p
unfolding parse_fir build_fir check_start check_fmt u32_bytes be_u32
parse_fir-build_fir p hs v some_entry few =
    let es = be_u32-u32_bytes p.sender_ssrc (u32_bytes 0 ++ fir_entry_bytes p.entries) hs in
    let ee = fir_entries-bytes max_fir_entries p.entries (build_fir p) 12 v few refl in
    let long = le→leb 20 (length (build_fir p)) (omega (arith, length-fir_entry_bytes p.entries)) in
    rw (es, ee, long) refl

length-ssrc_bytes : (ss : List ℕ) → length (ssrc_bytes ss) ≡ 4 * length ss
unfolding ssrc_bytes u32_bytes
length-ssrc_bytes [] = refl
length-ssrc_bytes (s ∷ ss) = omega (arith, length-ssrc_bytes ss)

parse-remb_bytes :
    (p : RembPacket) (exp mantissa : ℕ)
    → IsU32 p.sender_ssrc
    → All IsU32 p.ssrcs
    → length p.ssrcs ≤ 32
    → p.bitrate_bps < 2 ^ 64
    → Encodes p.bitrate_bps exp mantissa
    → parse_remb (remb_bytes p (exp, mantissa)) ≡ ok (record p { bitrate_bps = mantissa * 2 ^ exp })
unfolding parse_remb remb_bytes check_start check_fmt u32_bytes be_u32
parse-remb_bytes p exp mantissa hs v few wide enc =
    let bytes = remb_bytes p (exp, mantissa) in
    let es = be_u32-u32_bytes p.sender_ssrc (drop 8 bytes) hs in
    let count : remb_count bytes ≡ length p.ssrcs = omega arith in
    let ess = remb_ssrcs-bytes p.ssrcs bytes 20 v refl in
    let eb = decode_bitrate-bytes p.bitrate_bps exp mantissa wide enc in
    let long = le→leb 20 (length bytes) (omega arith) in
    let full =
      le→leb (20 + length p.ssrcs * 4) (length bytes) (omega (arith, length-ssrc_bytes p.ssrcs)) in
    rw (es, count, ess, eb, long, full) refl

-- A REMB with a positive bitrate of 64 bits and one to 32 SSRCs, all of 32 bits, is built, and parsed back
-- but for the bitrate, which comes back as the mantissa and the exponent stand for.
pub parse_remb-build_remb :
    (p : RembPacket)
    → IsU32 p.sender_ssrc
    → All IsU32 p.ssrcs
    → 0 < length p.ssrcs
    → length p.ssrcs ≤ 32
    → 0 < p.bitrate_bps
    → p.bitrate_bps < 2 ^ 64
    → (bytes : List ℕ) × (exp : ℕ) × (mantissa : ℕ) × (build_remb p ≡ some bytes)
      × Encodes p.bitrate_bps exp mantissa
      × (parse_remb bytes ≡ ok (record p { bitrate_bps = mantissa * 2 ^ exp }))
unfolding build_remb
parse_remb-build_remb p hs v some_ssrc few pos wide =
    let (exp, mantissa) = encode_bitrate p.bitrate_bps in
    let enc = encode_bitrate-Encodes p.bitrate_bps pos wide in
    let bytes = remb_bytes p (exp, mantissa) in
    (bytes, exp, mantissa, ground arith, enc, parse-remb_bytes p exp mantissa hs v few wide enc)
