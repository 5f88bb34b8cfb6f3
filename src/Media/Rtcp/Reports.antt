-- ===== src/Media/Rtcp/Reports.antt =====
-- The sender and receiver reports of crates/nexus-media/src/rtcp/packet.rs. The clock is an argument, as
-- the seconds and nanoseconds since the Unix epoch.
pub mod Sent
pub mod Blocks
use nexus_sfu.Base.{
  ℕ, zero, suc, ◌+◌, ◌-◌, ◌*◌, ◌/◌, ◌%◌, ◌^◌, bit_or, Option, none, some, List, [], ◌∷◌, ◌++◌, ltb,
  leb, ◌==◌, if◌then◌else◌, length, get_or, ok,
}
use nexus_sfu.Base.Slices.{slice}
use nexus_sfu.Base.Bytes.{be_u32, be_u64, u32_bytes, u64_bytes}
use nexus_sfu.Media.Rtcp.{
  RtcpError, too_short, invalid_report_count, Parsed, ◌>>=◌, ◌>>◌, ensure, check_start, count_of,
  rtcp_version,
}

-- `SenderReport`
pub record SenderReport : Type 0 where
  pub ssrc : ℕ
  pub ntp_timestamp : ℕ
  pub rtp_timestamp : ℕ
  pub packet_count : ℕ
  pub octet_count : ℕ

unfoldable pub parse_sender_report : List ℕ → Parsed SenderReport
unfolding check_start be_u32 be_u64
parse_sender_report bytes = do
  check_start 28 200 bytes
  ok (record {
    ssrc = be_u32 bytes 4;
    ntp_timestamp = be_u64 bytes 8;
    rtp_timestamp = be_u32 bytes 16;
    packet_count = be_u32 bytes 20;
    octet_count = be_u32 bytes 24;
  })

-- `SenderReportGenerator`
pub record SenderReportGenerator : Type 0 where
  pub sender_ssrc : ℕ
  pub packet_count : ℕ
  pub octet_count : ℕ

-- `SenderReportGenerator::new`, which panics for 0.
unfoldable pub new_generator : ℕ → Option SenderReportGenerator
new_generator sender_ssrc =
    if sender_ssrc == 0
    then none
    else some (record { sender_ssrc = sender_ssrc; packet_count = 0; octet_count = 0 })

-- `update_stats`, with the wrap-around of `fetch_add` and of `packet_size as u32`.
unfoldable pub update_stats : SenderReportGenerator → ℕ → SenderReportGenerator
update_stats g packet_size = record g {
  packet_count = (g.packet_count + 1) % 4294967296;
  octet_count = (g.octet_count + packet_size % 4294967296) % 4294967296;
}

abbrev pub ntp_epoch_offset : ℕ
ntp_epoch_offset = 2208988800

-- `calculate_ntp_timestamp`, at a time of so many seconds and nanoseconds.
unfoldable pub calculate_ntp_timestamp : ℕ → ℕ → ℕ
calculate_ntp_timestamp secs nanos =
    bit_or ((secs + ntp_epoch_offset) * 2 ^ 32 % 2 ^ 64) (nanos * 2 ^ 32 / 1000000000)

-- `generate`
unfoldable pub generate : SenderReportGenerator → ℕ → ℕ → ℕ → List ℕ
unfolding u32_bytes u64_bytes calculate_ntp_timestamp
generate g secs nanos rtp_timestamp =
    rtcp_version * 2 ^ 6
    ∷ 200
    ∷ 0
    ∷ 6
    ∷ (u32_bytes g.sender_ssrc
        ++ (u64_bytes (calculate_ntp_timestamp secs nanos)
            ++ (u32_bytes rtp_timestamp ++ (u32_bytes g.packet_count ++ u32_bytes g.octet_count))))

-- An `i32`: `pos n` is n, and `negsuc n` is -(n + 1).
pub data ℤ : Type 0 where
  pos negsuc : ℕ → ℤ

-- `i32::from_be_bytes`, of the word.
unfoldable pub as_i32 : ℕ → ℤ
as_i32 word = if ltb word 2147483648 then pos word else negsuc (4294967295 - word)

-- `cumulative_lost` of a block: 24 bits, with the sign extended.
unfoldable pub sign_extended : ℕ → ℕ → ℕ → ℤ
unfolding as_i32
sign_extended b0 b1 b2 =
    let low = b0 * 65536 + b1 * 256 + b2 in
    if b0 / 128 % 2 == 0 then as_i32 low else as_i32 (255 * 16777216 + low)

-- `ReceiverReportBlock`
pub record ReceiverReportBlock : Type 0 where
  pub ssrc : ℕ
  pub fraction_lost : ℕ
  pub cumulative_lost : ℤ
  pub highest_seq : ℕ
  pub jitter : ℕ
  pub last_sr : ℕ
  pub delay_since_sr : ℕ

abbrev pub receiver_report_block_size_bytes : ℕ
receiver_report_block_size_bytes = 24

-- `ReceiverReportBlock::parse`
unfoldable pub parse_block : List ℕ → Parsed ReceiverReportBlock
unfolding be_u32 sign_extended
parse_block bytes = do
  ensure (leb receiver_report_block_size_bytes (length bytes))
      (too_short (length bytes) receiver_report_block_size_bytes)
  ok (record {
    ssrc = be_u32 bytes 0;
    fraction_lost = get_or bytes 4 0;
    cumulative_lost = sign_extended (get_or bytes 5 0) (get_or bytes 6 0) (get_or bytes 7 0);
    highest_seq = be_u32 bytes 8;
    jitter = be_u32 bytes 12;
    last_sr = be_u32 bytes 16;
    delay_since_sr = be_u32 bytes 20;
  })

-- `ReceiverReport`
pub record ReceiverReport : Type 0 where
  pub ssrc : ℕ
  pub blocks : List ReceiverReportBlock

-- The loop over the blocks, with those that are still to come.
unfoldable pub parse_blocks : ℕ → List ℕ → ℕ → Parsed (List ReceiverReportBlock)
unfolding parse_block
parse_blocks zero bytes offset = ok []
parse_blocks (suc n) bytes offset = do
  block ← parse_block (slice offset receiver_report_block_size_bytes bytes)
  blocks ← parse_blocks n bytes (offset + receiver_report_block_size_bytes)
  ok (block ∷ blocks)

unfoldable pub parse_receiver_report : List ℕ → Parsed ReceiverReport
unfolding check_start be_u32 parse_blocks
parse_receiver_report bytes = do
  check_start 8 201 bytes
  ensure (leb (8 + count_of bytes * receiver_report_block_size_bytes) (length bytes))
      (invalid_report_count (count_of bytes) (length bytes - 8))
  blocks ← parse_blocks (count_of bytes) bytes 8
  ok (record { ssrc = be_u32 bytes 4; blocks = blocks })
