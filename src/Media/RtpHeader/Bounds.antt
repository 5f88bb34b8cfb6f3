-- ===== src/Media/RtpHeader/Bounds.antt =====
-- What a parsed RTP header promises of its packet.
use nexus_sfu.Base.{ℕ, ◌+◌, ◌*◌, ◌≤◌, ◌<◌, ◌≡◌, List, arith, length, ok}
use nexus_sfu.Base.Bytes.{be_u16, be_u32, IsBytes, get_or-lt}
use nexus_sfu.Media.RtpHeader.{RtpHeader, padding_of, parse, payload_len}

-- A header that fits its packet: the lengths lie inside it, and every field fits its width.
pub record Fits (bytes : List ℕ) (h : RtpHeader) : Type 0 where
  pub version_two : h.version ≡ 2
  pub csrc_fits : h.csrc_count ≤ 15
  pub pt_fits : h.payload_type ≤ 127
  pub seq_fits : h.sequence_number < 65536
  pub timestamp_fits : h.timestamp < 4294967296
  pub ssrc_fits : h.ssrc < 4294967296
  pub csrcs_inside : 12 + 4 * h.csrc_count ≤ h.header_len_bytes
  pub header_short : h.header_len_bytes ≤ 65535
  pub padding_inside : h.header_len_bytes + h.padding_len ≤ length bytes
  pub payload : h.header_len_bytes + payload_len h (length bytes) + h.padding_len ≡ length bytes

-- Every header that the parser returns fits its packet, so that no later access of the CSRCs, the
-- extension block, the payload or the padding is out of range.
pub parse-Fits :
    (bytes : List ℕ) (h : RtpHeader) → IsBytes bytes → parse bytes ≡ ok h → Fits bytes h
unfolding parse payload_len padding_of be_u16 be_u32
parse-Fits bytes h b e = ground (
  arith,
  get_or-lt bytes 2 b,
  get_or-lt bytes 3 b,
  get_or-lt bytes 4 b,
  get_or-lt bytes 5 b,
  get_or-lt bytes 6 b,
  get_or-lt bytes 7 b,
  get_or-lt bytes 8 b,
  get_or-lt bytes 9 b,
  get_or-lt bytes 10 b,
  get_or-lt bytes 11 b,
)
