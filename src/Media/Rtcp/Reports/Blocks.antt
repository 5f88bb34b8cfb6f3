-- ===== src/Media/Rtcp/Reports/Blocks.antt =====
-- The blocks of a receiver report of rtcp/packet.rs.
use nexus_sfu.Base.{
  ℕ, zero, suc, ◌+◌, ◌-◌, ◌*◌, ◌≤◌, ◌<◌, ◌≡◌, refl, List, [], ◌∷◌, arith, ltb, if◌then◌else◌,
  le→leb, length, get_or, drop, length-take, length-drop, ok,
}
use nexus_sfu.Base.Slices.{slice}
use nexus_sfu.Media.Rtcp.{check_start, version_of, count_of, be_u32}
use nexus_sfu.Media.Rtcp.Reports.{
  ℤ, pos, negsuc, as_i32, sign_extended, ReceiverReportBlock, receiver_report_block_size_bytes,
  parse_block, ReceiverReport, parse_blocks, parse_receiver_report,
}

-- Three bytes as a number in two's complement.
abbrev pub as_i24 : ℕ → ℤ
as_i24 word = if ltb word 8388608 then pos word else negsuc (16777215 - word)

-- The cumulative loss is the three bytes in two's complement, so from -2^23 to 2^23 - 1.
pub sign_extended-as_i24 :
    (b0 b1 b2 : ℕ)
    → b0 < 256
    → b1 < 256
    → b2 < 256
    → sign_extended b0 b1 b2 ≡ as_i24 (b0 * 65536 + b1 * 256 + b2)
unfolding sign_extended as_i32
sign_extended-as_i24 b0 b1 b2 h0 h1 h2 = ground arith

-- The blocks are those of the consecutive 24-byte parts from the offset on.
unfoldable pub BlocksAt : List ℕ → ℕ → List ReceiverReportBlock → Type 0
BlocksAt bytes offset [] = Unit {0}
BlocksAt bytes offset (b ∷ bs) =
    (parse_block (slice offset receiver_report_block_size_bytes bytes) ≡ ok b)
    × BlocksAt bytes (offset + receiver_report_block_size_bytes) bs

parse_block-long :
    (bytes : List ℕ) → 24 ≤ length bytes → (b : ReceiverReportBlock) × parse_block bytes ≡ ok b
unfolding parse_block
parse_block-long bytes h = rw (le→leb 24 (length bytes) h) (_, refl)

parse_blocks-BlocksAt :
    (n : ℕ) (bytes : List ℕ) (offset : ℕ)
    → offset + n * 24 ≤ length bytes
    → (bs : List ReceiverReportBlock) × (parse_blocks n bytes offset ≡ ok bs)
      × ((length bs ≡ n) × BlocksAt bytes offset bs)
unfolding parse_blocks BlocksAt
parse_blocks-BlocksAt zero bytes offset h = ([], refl, (refl, tt))
parse_blocks-BlocksAt (suc n) bytes offset h =
    let (b, eb) =
      parse_block-long (slice offset 24 bytes)
        (omega (arith, length-take 24 (drop offset bytes), length-drop offset bytes)) in
    let (bs, e, (l, at)) = parse_blocks-BlocksAt n bytes (offset + 24) (omega arith) in
    (b ∷ bs, rw (eb, e) refl, (omega (arith, l), (eb, at)))

-- A receiver report of version 2 and type 201 that has room for the blocks that its header counts is
-- always parsed, with that many blocks, each of its own 24 bytes: the loop's own error never occurs.
pub parse_receiver_report-BlocksAt :
    (bytes : List ℕ)
    → version_of bytes ≡ 2
    → get_or bytes 1 0 ≡ 201
    → 8 + count_of bytes * receiver_report_block_size_bytes ≤ length bytes
    → (r : ReceiverReport) × (parse_receiver_report bytes ≡ ok r)
      × ((length r.blocks ≡ count_of bytes) × BlocksAt bytes 8 r.blocks)
unfolding parse_receiver_report check_start
parse_receiver_report-BlocksAt bytes v t room =
    let (bs, e, (l, at)) = parse_blocks-BlocksAt (count_of bytes) bytes 8 room in
    let long = le→leb 8 (length bytes) (omega arith) in
    let full = le→leb (8 + count_of bytes * 24) (length bytes) room in
    (record { ssrc = be_u32 bytes 4; blocks = bs }, rw (v, t, long, full, e) refl, (l, at))
