-- ===== src/Media/RtpHeader.antt =====
-- crates/nexus-media/src/rtp/header.rs: the RTP header. A byte is a number below 256; `>>` and `&`
-- with a low mask are `/` and `%`.
pub mod Bounds
pub mod RoundTrip
pub mod Simd
pub mod Built
use nexus_sfu.Base.{
  ℕ, ◌+◌, ◌-◌, ◌*◌, ◌/◌, ◌%◌, ◌^◌, bit_or, Bool, true, false, not, ◌||◌, Option, none, some, List,
  ◌∷◌, ◌++◌, ltb, leb, ◌==◌, if◌then◌else◌, length, get_or, drop, Result, ok, err,
}
use nexus_sfu.Base.Bytes.{be_u16, be_u32, u16_bytes, u32_bytes}

-- The errors of `RtpError` that the parser returns.
pub data RtpError : Type 0 where
  too_short : ℕ → ℕ → RtpError
  invalid_version : ℕ → RtpError
  invalid_csrc_count : ℕ → ℕ → RtpError
  invalid_padding : ℕ → ℕ → RtpError
  invalid_extension : RtpError

abbrev pub rtp_header_min_size_bytes : ℕ
rtp_header_min_size_bytes = 12

abbrev pub rtp_csrc_size_bytes : ℕ
rtp_csrc_size_bytes = 4

abbrev pub rtp_version : ℕ
rtp_version = 2

abbrev pub max_header_len_bytes : ℕ
max_header_len_bytes = 65535

-- `RtpHeader`
pub record RtpHeader : Type 0 where
  pub version : ℕ
  pub padding : Bool
  pub extension : Bool
  pub csrc_count : ℕ
  pub marker : Bool
  pub payload_type : ℕ
  pub sequence_number : ℕ
  pub timestamp : ℕ
  pub ssrc : ℕ
  pub header_len_bytes : ℕ
  pub padding_len : ℕ

-- The extension part of `parse`: the header's length.
unfoldable pub extension_end : List ℕ → Bool → ℕ → Result RtpError ℕ
extension_end bytes false start = ok start
extension_end bytes true start =
    if ltb (length bytes) (start + 4)
    then err invalid_extension
    else (let header_len = start + (4 + be_u16 bytes (start + 2) * 4) in
        if ltb max_header_len_bytes header_len
        then err invalid_extension
        else (if ltb (length bytes) header_len then err invalid_extension else ok header_len))

-- The padding part of `parse`: the number of padding bytes.
unfoldable pub padding_of : List ℕ → Bool → ℕ → Result RtpError ℕ
padding_of bytes false header_len = ok 0
padding_of bytes true header_len =
    if leb (length bytes) header_len
    then err (invalid_padding 0 (length bytes - header_len))
    else (let pad = get_or bytes (length bytes - 1) 0 in
        let available = length bytes - header_len in
        if pad == 0 || ltb available pad then err (invalid_padding pad available) else ok pad)

-- The last steps of `parse` once the header's length and the padding are known.
unfoldable pub with_padding : RtpHeader → Result RtpError ℕ → Result RtpError RtpHeader
with_padding h (err e) = err e
with_padding h (ok pad) = ok (record h { padding_len = pad })

unfoldable pub with_extension : List ℕ → RtpHeader → Result RtpError ℕ → Result RtpError RtpHeader
unfolding with_padding padding_of
with_extension bytes h (err e) = err e
with_extension bytes h (ok header_len) =
    with_padding (record h { header_len_bytes = header_len })
      (padding_of bytes h.padding header_len)

-- The fixed fields, with the length after the CSRCs; `is_set` is `!= 0` of one bit.
abbrev pub is_set : ℕ → Bool
is_set b = not (b == 0)

unfoldable pub fixed_fields : List ℕ → RtpHeader
fixed_fields bytes =
    let first = get_or bytes 0 0 in
    let second = get_or bytes 1 0 in
    record {
      version = first / 64 % 4;
      padding = is_set (first / 32 % 2);
      extension = is_set (first / 16 % 2);
      csrc_count = first % 16;
      marker = is_set (second / 128 % 2);
      payload_type = second % 128;
      sequence_number = be_u16 bytes 2;
      timestamp = be_u32 bytes 4;
      ssrc = be_u32 bytes 8;
      header_len_bytes = rtp_header_min_size_bytes + first % 16 * rtp_csrc_size_bytes;
      padding_len = 0;
    }

-- `RtpHeader::parse`
unfoldable pub parse : List ℕ → Result RtpError RtpHeader
unfolding fixed_fields with_extension extension_end
parse bytes =
    if ltb (length bytes) rtp_header_min_size_bytes
    then err (too_short (length bytes) rtp_header_min_size_bytes)
    else (let h = fixed_fields bytes in
        if h.version == rtp_version
        then (if ltb (length bytes) h.header_len_bytes
            then err (invalid_csrc_count h.csrc_count (length bytes - rtp_header_min_size_bytes))
            else with_extension bytes h (extension_end bytes h.extension h.header_len_bytes))
        else err (invalid_version h.version))

abbrev pub flag : Bool → ℕ
flag true = 1
flag false = 0

-- `RtpHeader::serialize`: the bytes that go over the first 12 of the buffer; a shorter buffer
-- fails the assertion.
unfoldable pub header_bytes : RtpHeader → List ℕ
header_bytes h =
    bit_or
      (bit_or (bit_or (h.version * 2 ^ 6 % 256) (flag h.padding * 2 ^ 5))
        (flag h.extension * 2 ^ 4))
      (h.csrc_count % 16)
    ∷ bit_or (flag h.marker * 2 ^ 7) (h.payload_type % 128)
    ∷ (u16_bytes h.sequence_number ++ (u32_bytes h.timestamp ++ u32_bytes h.ssrc))

unfoldable pub serialize : RtpHeader → List ℕ → Option (ℕ × List ℕ)
unfolding header_bytes
serialize h buffer =
    if ltb (length buffer) rtp_header_min_size_bytes
    then none
    else some (rtp_header_min_size_bytes, header_bytes h ++ drop rtp_header_min_size_bytes buffer)

-- `payload_len`; `saturating_sub` is the subtraction of ℕ.
unfoldable pub payload_len : RtpHeader → ℕ → ℕ
payload_len h packet_len = packet_len - h.header_len_bytes - h.padding_len
