-- ===== src/Media/Rtcp/Kinds.antt =====
-- The packet types of rtcp/header.rs.
use nexus_sfu.Base.{ℕ, ◌<◌, ◌≡◌, refl, ◌⊎◌, inl, inr, arith}
use nexus_sfu.Media.Rtcp.{
  RtcpType, sender_report, receiver_report, source_description, goodbye, application_defined,
  transport_feedback, payload_feedback, extended_reports, unknown, from_byte, to_byte,
}

-- A packet type is the one of its byte, unless it is unknown with the byte of a known one.
abbrev pub IsKind : RtcpType → Type 0
IsKind (unknown pt) = (pt < 200) ⊎ (207 < pt)
IsKind _ = Unit {0}

to_byte-from_byte : (pt : ℕ) → to_byte (from_byte pt) ≡ pt
unfolding from_byte to_byte
to_byte-from_byte pt = ground arith

from_byte-to_byte : (t : RtcpType) → IsKind t → from_byte (to_byte t) ≡ t
unfolding from_byte to_byte
from_byte-to_byte (unknown pt) (inl h) = ground arith
from_byte-to_byte (unknown pt) (inr h) = ground arith
from_byte-to_byte sender_report h = refl
from_byte-to_byte receiver_report h = refl
from_byte-to_byte source_description h = refl
from_byte-to_byte goodbye h = refl
from_byte-to_byte application_defined h = refl
from_byte-to_byte transport_feedback h = refl
from_byte-to_byte payload_feedback h = refl
from_byte-to_byte extended_reports h = refl
