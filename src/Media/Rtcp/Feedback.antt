-- ===== src/Media/Rtcp/Feedback.antt =====
-- The feedback packets of crates/nexus-media/src/rtcp/packet.rs: PLI, FIR, REMB and the header of
-- Transport-CC. A part that is shifted into place is added, since the parts share no bit.
pub mod Lists
pub mod RoundTrip
pub mod Bitrate
use nexus_sfu.Base.{
  ℕ, zero, suc, ◌+◌, ◌-◌, ◌*◌, ◌/◌, ◌%◌, ◌^◌, min, bit_or, Bool, ◌&&◌, Option, none, some, List, [],
  ◌∷◌, ◌++◌, ltb, leb, ◌==◌, if◌then◌else◌, length, get_or, ok,
}
use nexus_sfu.Base.Bytes.{be_u16, be_u32, u16_bytes, u32_bytes}
use nexus_sfu.Media.Rtcp.{
  RtcpError, too_short, invalid_packet_type, Parsed, ◌>>=◌, ◌>>◌, ensure, check_start, check_fmt,
  rtcp_version,
}

abbrev pub rtcp_psfb_pt : ℕ
rtcp_psfb_pt = 206

abbrev pub rtcp_rtpfb_pt : ℕ
rtcp_rtpfb_pt = 205

abbrev pub rtcp_psfb_fmt_remb : ℕ
rtcp_psfb_fmt_remb = 15

abbrev pub rtcp_psfb_fmt_fir : ℕ
rtcp_psfb_fmt_fir = 4

-- `(RTCP_VERSION << 6) | fmt`
abbrev pub first_byte : ℕ → ℕ
first_byte fmt = bit_or (rtcp_version * 2 ^ 6) fmt

-- The length field of a packet of so many bytes: words, less one.
abbrev pub length_field : ℕ → List ℕ
length_field n = (n / 4 - 1) / 256 % 256 ∷ (n / 4 - 1) % 256 ∷ []

-- `PliPacket`
pub record PliPacket : Type 0 where
  pub sender_ssrc : ℕ
  pub media_ssrc : ℕ

unfoldable pub parse_pli : List ℕ → Parsed PliPacket
unfolding check_start check_fmt be_u32
parse_pli bytes = do
  check_start 12 rtcp_psfb_pt bytes
  check_fmt 1 bytes
  ok (record { sender_ssrc = be_u32 bytes 4; media_ssrc = be_u32 bytes 8 })

unfoldable pub build_pli : PliPacket → List ℕ
unfolding u32_bytes
build_pli p =
    first_byte 1 ∷ rtcp_psfb_pt ∷ 0 ∷ 2 ∷ (u32_bytes p.sender_ssrc ++ u32_bytes p.media_ssrc)

-- `FirEntry` and `FirPacket`
pub record FirEntry : Type 0 where
  pub ssrc : ℕ
  pub seq_nr : ℕ

pub record FirPacket : Type 0 where
  pub sender_ssrc : ℕ
  pub entries : List FirEntry

abbrev pub max_fir_entries : ℕ
max_fir_entries = 31

-- The loop of `FirPacket::parse`, with the entries that there is still room for.
unfoldable pub fir_entries : ℕ → List ℕ → ℕ → List FirEntry
unfolding be_u32
fir_entries zero bytes offset = []
fir_entries (suc room) bytes offset =
    let rest = fir_entries room bytes (offset + 8) in
    if leb (offset + 8) (length bytes)
    then record { ssrc = be_u32 bytes offset; seq_nr = get_or bytes (offset + 4) 0 } ∷ rest
    else []

unfoldable pub parse_fir : List ℕ → Parsed FirPacket
unfolding check_start check_fmt be_u32 fir_entries
parse_fir bytes = do
  check_start 20 rtcp_psfb_pt bytes
  check_fmt rtcp_psfb_fmt_fir bytes
  ok (record { sender_ssrc = be_u32 bytes 4; entries = fir_entries max_fir_entries bytes 12 })

unfoldable pub fir_entry_bytes : List FirEntry → List ℕ
unfolding u32_bytes
fir_entry_bytes [] = []
fir_entry_bytes (e ∷ es) = u32_bytes e.ssrc ++ (e.seq_nr ∷ 0 ∷ 0 ∷ 0 ∷ fir_entry_bytes es)

unfoldable pub build_fir : FirPacket → List ℕ
unfolding u32_bytes fir_entry_bytes
build_fir p =
    first_byte rtcp_psfb_fmt_fir
    ∷ rtcp_psfb_pt
    ∷ (length_field (12 + length p.entries * 8)
        ++ (u32_bytes p.sender_ssrc ++ (u32_bytes 0 ++ fir_entry_bytes p.entries)))

-- `RembPacket`
pub record RembPacket : Type 0 where
  pub sender_ssrc : ℕ
  pub bitrate_bps : ℕ
  pub ssrcs : List ℕ

-- The loop over the SSRCs, with those that are still to come.
unfoldable pub remb_ssrcs : ℕ → List ℕ → ℕ → List ℕ
unfolding be_u32
remb_ssrcs zero bytes offset = []
remb_ssrcs (suc n) bytes offset =
    let rest = remb_ssrcs n bytes (offset + 4) in
    if ltb (length bytes) (offset + 4) then [] else be_u32 bytes offset ∷ rest

-- `data[12..16] != REMB_IDENTIFIER`
abbrev pub is_remb : List ℕ → Bool
is_remb bytes =
    get_or bytes 12 0 == b'R'
    && get_or bytes 13 0 == b'E'
    && get_or bytes 14 0 == b'M'
    && get_or bytes 15 0 == b'B'

abbrev pub remb_count : List ℕ → ℕ
remb_count bytes = min (get_or bytes 16 0) 32

-- `(mantissa as u64) << exp`
unfoldable pub decode_bitrate : ℕ → ℕ → ℕ → ℕ
decode_bitrate b17 b18 b19 = (b17 % 4 * 65536 + b18 * 256 + b19) * 2 ^ (b17 / 4 % 64) % 2 ^ 64

unfoldable pub parse_remb : List ℕ → Parsed RembPacket
unfolding check_start check_fmt be_u32 remb_ssrcs decode_bitrate
parse_remb bytes = do
  check_start 20 rtcp_psfb_pt bytes
  check_fmt rtcp_psfb_fmt_remb bytes
  ensure (is_remb bytes) (invalid_packet_type 0)
  ensure (leb (20 + remb_count bytes * 4) (length bytes))
      (too_short (length bytes) (20 + remb_count bytes * 4))
  ok (record {
    sender_ssrc = be_u32 bytes 4;
    bitrate_bps = decode_bitrate (get_or bytes 17 0) (get_or bytes 18 0) (get_or bytes 19 0);
    ssrcs = remb_ssrcs (remb_count bytes) bytes 20;
  })

-- `encode_bitrate`: the loop, with the rounds until the exponent is 63.
unfoldable pub shrink : ℕ → ℕ → ℕ → ℕ × ℕ
shrink zero exp mantissa = (exp, mantissa)
shrink (suc room) exp mantissa =
    let more = shrink room (exp + 1) (mantissa / 2) in
    if ltb 0x3FFFF mantissa then more else (exp, mantissa)

unfoldable pub encode_bitrate : ℕ → ℕ × ℕ
unfolding shrink
encode_bitrate bitrate_bps =
    if bitrate_bps == 0
    then (0, 0)
    else (let (exp, mantissa) = shrink 63 0 bitrate_bps in (exp, mantissa % 2 ^ 32 % 2 ^ 18))

unfoldable pub ssrc_bytes : List ℕ → List ℕ
unfolding u32_bytes
ssrc_bytes [] = []
ssrc_bytes (s ∷ ss) = u32_bytes s ++ ssrc_bytes ss

-- `RembPacket::build`; `none` is a failed assertion.
unfoldable pub remb_bytes : RembPacket → ℕ × ℕ → List ℕ
unfolding u32_bytes ssrc_bytes
remb_bytes p (exp, mantissa) =
    first_byte rtcp_psfb_fmt_remb
    ∷ rtcp_psfb_pt
    ∷ (length_field (20 + length p.ssrcs * 4)
        ++ (u32_bytes p.sender_ssrc
            ++ (u32_bytes 0
                ++ (b'R'
                    ∷ b'E'
                    ∷ b'M'
                    ∷ b'B'
                    ∷ length p.ssrcs % 256
                    ∷ (exp * 4 + mantissa / 65536 % 4) % 256
                    ∷ mantissa / 256 % 256
                    ∷ mantissa % 256
                    ∷ ssrc_bytes p.ssrcs))))

unfoldable pub build_remb : RembPacket → Option (List ℕ)
unfolding remb_bytes encode_bitrate
build_remb p =
    if ltb 0 p.bitrate_bps && ltb 0 (length p.ssrcs)
    then some (remb_bytes p (encode_bitrate p.bitrate_bps))
    else none

-- `TransportCcFeedback`
pub record TransportCcFeedback : Type 0 where
  pub sender_ssrc : ℕ
  pub media_ssrc : ℕ
  pub base_sequence : ℕ
  pub packet_status_count : ℕ
  pub reference_time : ℕ
  pub feedback_packet_count : ℕ

unfoldable pub parse_transport_cc : List ℕ → Parsed TransportCcFeedback
unfolding check_start check_fmt be_u16 be_u32
parse_transport_cc bytes = do
  check_start 20 rtcp_rtpfb_pt bytes
  check_fmt 15 bytes
  ok (record {
    sender_ssrc = be_u32 bytes 4;
    media_ssrc = be_u32 bytes 8;
    base_sequence = be_u16 bytes 12;
    packet_status_count = be_u16 bytes 14;
    reference_time = get_or bytes 16 0 * 65536 + get_or bytes 17 0 * 256 + get_or bytes 18 0;
    feedback_packet_count = get_or bytes 19 0;
  })
