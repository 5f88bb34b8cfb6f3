-- ===== src/Media/Rtcp.antt =====
-- crates/nexus-media/src/rtcp/header.rs, and the checks with which the parsers of rtcp/packet.rs begin. A
-- byte is a number below 256.
pub mod Kinds
pub mod Compound
pub mod Reports
pub mod Feedback
pub mod Nack
pub mod FirSeq
pub mod Twcc
mod Tests
use nexus_sfu.Base.{
  ℕ, ◌+◌, ◌*◌, ◌/◌, ◌%◌, Bool, true, false, not, List, leb, ◌==◌, if◌then◌else◌, length, get_or,
  Result, ok, err,
}
use nexus_sfu.Base.Bytes.{be_u16, be_u32}

-- `RtcpError`
pub data RtcpError : Type 0 where
  too_short : ℕ → ℕ → RtcpError
  invalid_version : ℕ → RtcpError
  invalid_packet_type : ℕ → RtcpError
  invalid_report_count : ℕ → ℕ → RtcpError

abbrev pub Parsed : Type 0 → Type 0
Parsed A = Result RtcpError A

infixl 5 ◌>>=◌ ◌>>◌
abbrev pub ◌>>=◌ : {A B : Type 0} → Parsed A → (A → Parsed B) → Parsed B
ok a >>= f = f a
err e >>= f = err e

abbrev pub ◌>>◌ : {B : Type 0} → Parsed (Unit {0}) → Parsed B → Parsed B
m >> k = m >>= λ _. k

abbrev pub ensure : Bool → RtcpError → Parsed (Unit {0})
ensure true e = ok tt
ensure false e = err e

-- `RtcpType`
pub data RtcpType : Type 0 where
  sender_report receiver_report source_description goodbye application_defined : RtcpType
  transport_feedback payload_feedback extended_reports : RtcpType
  unknown : ℕ → RtcpType

-- `from_byte` and `to_byte`
unfoldable pub from_byte : ℕ → RtcpType
from_byte pt =
    if pt == 200
    then sender_report
    else (if pt == 201
        then receiver_report
        else (if pt == 202
            then source_description
            else (if pt == 203
                then goodbye
                else (if pt == 204
                    then application_defined
                    else (if pt == 205
                        then transport_feedback
                        else (if pt == 206
                            then payload_feedback
                            else (if pt == 207 then extended_reports else unknown pt)))))))

unfoldable pub to_byte : RtcpType → ℕ
to_byte sender_report = 200
to_byte receiver_report = 201
to_byte source_description = 202
to_byte goodbye = 203
to_byte application_defined = 204
to_byte transport_feedback = 205
to_byte payload_feedback = 206
to_byte extended_reports = 207
to_byte (unknown pt) = pt

-- `RtcpHeader`
pub record RtcpHeader : Type 0 where
  pub version : ℕ
  pub padding : Bool
  pub count : ℕ
  pub packet_type : RtcpType
  pub length_words : ℕ
  pub ssrc : ℕ

abbrev pub rtcp_header_min_size_bytes : ℕ
rtcp_header_min_size_bytes = 8

abbrev pub rtcp_version : ℕ
rtcp_version = 2

-- `(data[0] >> 6) & 0x03`, and `data[0] & 0x1F`
abbrev pub version_of : List ℕ → ℕ
version_of bytes = get_or bytes 0 0 / 64 % 4

abbrev pub count_of : List ℕ → ℕ
count_of bytes = get_or bytes 0 0 % 32

-- `RtcpHeader::parse`
unfoldable pub parse_header : List ℕ → Parsed RtcpHeader
unfolding from_byte be_u16 be_u32
parse_header bytes = do
  ensure (leb rtcp_header_min_size_bytes (length bytes))
      (too_short (length bytes) rtcp_header_min_size_bytes)
  ensure (version_of bytes == rtcp_version) (invalid_version (version_of bytes))
  ok (record {
    version = version_of bytes;
    padding = not (get_or bytes 0 0 / 32 % 2 == 0);
    count = count_of bytes;
    packet_type = from_byte (get_or bytes 1 0);
    length_words = be_u16 bytes 2;
    ssrc = be_u32 bytes 4;
  })

-- `packet_len_bytes`
unfoldable pub packet_len_bytes : RtcpHeader → ℕ
packet_len_bytes h = (h.length_words + 1) * 4

-- The checks of the length, the version and the packet type.
unfoldable pub check_start : ℕ → ℕ → List ℕ → Parsed (Unit {0})
check_start min_bytes packet_type bytes = do
  ensure (leb min_bytes (length bytes)) (too_short (length bytes) min_bytes)
  ensure (version_of bytes == rtcp_version) (invalid_version (version_of bytes))
  ensure (get_or bytes 1 0 == packet_type) (invalid_packet_type (get_or bytes 1 0))

-- The check of the feedback's format.
unfoldable pub check_fmt : ℕ → List ℕ → Parsed (Unit {0})
check_fmt fmt bytes = ensure (count_of bytes == fmt) (invalid_packet_type (count_of bytes))
