-- ===== src/Media/Tests.antt =====
-- The RTP header's theorems at concrete packets.
use nexus_sfu.Base.{ℕ, ◌≡◌, refl, true, false, some, List, [], ◌∷◌, arith, length, replicate, ok}
use nexus_sfu.Media.RtpHeader.{
  fixed_fields, with_extension, extension_end, padding_of, RtpHeader, parse, serialize,
}
use nexus_sfu.Base.Bytes.{be_u16, be_u32}
use nexus_sfu.Media.RtpHeader.Bounds.{Fits, parse-Fits}
use nexus_sfu.Media.RtpHeader.RoundTrip.{parse-serialize}
use nexus_sfu.Media.RtpHeader.Simd.{neon, parse_simd, parse_simd-parse, to_option}

-- A packet with one CSRC, an empty extension block, two payload bytes and two padding bytes.
abbrev packet : List ℕ
packet =
    0xB1 ∷ 0xE0 ∷ 0 ∷ 9 ∷ 0 ∷ 0 ∷ 1 ∷ 0 ∷ 0 ∷ 0 ∷ 0 ∷ 7 ∷ 1 ∷ 2 ∷ 3 ∷ 4 ∷ 0xBE ∷ 0xDE ∷ 0 ∷ 0 ∷ 42
    ∷ 43 ∷ 0 ∷ 2 ∷ []

abbrev header : RtpHeader
header = record {
  version = 2;
  padding = true;
  extension = true;
  csrc_count = 1;
  marker = true;
  payload_type = 96;
  sequence_number = 9;
  timestamp = 256;
  ssrc = 7;
  header_len_bytes = 20;
  padding_len = 2;
}

parse-Fits_example : Fits packet header
unfolding parse fixed_fields with_extension extension_end padding_of be_u16 be_u32
parse-Fits_example = parse-Fits packet header (ground arith) refl

abbrev plain_header : RtpHeader
plain_header = record header { extension = false; padding = false; csrc_count = 2 }

abbrev buffer : List ℕ
buffer = replicate 24 1

parse-serialize_example :
    (out : List ℕ) × (serialize plain_header buffer ≡ some (12, out))
    × (length out ≡ length buffer)
    × (parse out ≡ ok (record plain_header { header_len_bytes = 20; padding_len = 0 }))
parse-serialize_example =
    parse-serialize plain_header buffer
      (record {
        version_two = refl;
        csrc_fits = omega arith;
        pt_fits = omega arith;
        seq_fits = omega arith;
        timestamp_fits = omega arith;
        ssrc_fits = omega arith;
      })
      refl refl (omega arith)

parse_simd-parse_example : parse_simd neon packet ≡ to_option (parse packet)
parse_simd-parse_example = parse_simd-parse neon packet (ground arith)
