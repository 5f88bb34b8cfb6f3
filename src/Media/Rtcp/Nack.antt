-- ===== src/Media/Rtcp/Nack.antt =====
-- The NACK of crates/nexus-media/src/rtcp/packet.rs: lost packets as entries of a packet number and a mask
-- of the 16 numbers after it. Sequence numbers are below 65536.
pub mod Overrun
pub mod Masks
pub mod Grouping
pub mod RoundTrip
use nexus_sfu.Base.{
  ℕ, zero, suc, ◌+◌, ◌-◌, ◌*◌, ◌%◌, ◌^◌, bit_or, Bool, ◌&&◌, List, [], ◌∷◌, ◌++◌, ltb, leb, ◌==◌,
  if◌then◌else◌, length, take, ok,
}
use nexus_sfu.Base.Bits.{bit}
use nexus_sfu.Base.Bytes.{be_u16, be_u32, u16_bytes, u32_bytes}
use nexus_sfu.Media.Rtcp.{RtcpError, Parsed, ◌>>=◌, ◌>>◌, ensure, check_start, check_fmt}
use nexus_sfu.Media.Rtcp.Feedback.{rtcp_rtpfb_pt, first_byte, length_field}

abbrev pub max_nack_packets : ℕ
max_nack_packets = 64

abbrev pub max_fci_entries : ℕ
max_fci_entries = 32

-- `NackPacket`
pub record NackPacket : Type 0 where
  pub sender_ssrc : ℕ
  pub media_ssrc : ℕ
  pub lost_packets : List ℕ

-- `blp & (1 << bit) != 0`
abbrev pub is_set : ℕ → ℕ → Bool
is_set blp k = bit blp k == 1

-- The loop over the mask of an entry, from bit `k` on. The bound is checked after a packet is pushed.
unfoldable pub push_bits : ℕ → ℕ → ℕ → ℕ → List ℕ → List ℕ
unfolding bit
push_bits zero k pid blp lost = lost
push_bits (suc n) k pid blp lost =
    let lost' = if is_set blp k then lost ++ ((pid + (k + 1)) % 65536 ∷ []) else lost in
    let rest = push_bits n (k + 1) pid blp lost' in
    if is_set blp k && leb max_nack_packets (length lost') then lost' else rest

-- An entry: its packet, then those of the mask.
unfoldable pub push_entry : ℕ → ℕ → List ℕ → List ℕ
unfolding push_bits
push_entry pid blp lost = push_bits 16 0 pid blp (lost ++ (pid ∷ []))

-- The loop of `NackPacket::parse`, on fuel: every round pushes a packet, so 64 rounds are enough.
unfoldable pub fci_loop : ℕ → List ℕ → ℕ → List ℕ → List ℕ
unfolding push_entry be_u16
fci_loop zero bytes offset lost = lost
fci_loop (suc fuel) bytes offset lost =
    let lost' = push_entry (be_u16 bytes offset) (be_u16 bytes (offset + 2)) lost in
    let rest = fci_loop fuel bytes (offset + 4) lost' in
    if leb (offset + 4) (length bytes) && ltb (length lost) max_nack_packets then rest else lost

unfoldable pub parse_nack : List ℕ → Parsed NackPacket
unfolding check_start check_fmt be_u32 fci_loop
parse_nack bytes = do
  check_start 12 rtcp_rtpfb_pt bytes
  check_fmt 1 bytes
  ok (record {
    sender_ssrc = be_u32 bytes 4;
    media_ssrc = be_u32 bytes 8;
    lost_packets = fci_loop max_nack_packets bytes 12 [];
  })

-- `sort`
unfoldable pub insert_sorted : ℕ → List ℕ → List ℕ
insert_sorted x [] = x ∷ []
insert_sorted x (y ∷ ys) = let rest = insert_sorted x ys in if leb x y then x ∷ y ∷ ys else y ∷ rest

unfoldable pub sort : List ℕ → List ℕ
unfolding insert_sorted
sort [] = []
sort (x ∷ xs) = insert_sorted x (sort xs)

-- `sorted[j].wrapping_sub(pid)`
abbrev pub ahead : ℕ → ℕ → ℕ
ahead pid seq = (seq + 65536 - pid) % 65536

-- The mask of an entry with one packet more, if it is one of the 16 after the entry's own.
unfoldable pub extend : ℕ → ℕ → ℕ → ℕ
extend pid blp seq =
    let diff = ahead pid seq in
    if leb 1 diff && leb diff 16 then bit_or blp (2 ^ (diff - 1)) else blp

-- The inner loop of `encode_fci_entries`: the mask, and the packets from the first one on that is too far
-- ahead.
unfoldable pub gather : ℕ → ℕ → List ℕ → ℕ × List ℕ
unfolding extend
gather pid blp [] = (blp, [])
gather pid blp (seq ∷ seqs) =
    let rest = gather pid (extend pid blp seq) seqs in
    if ltb 16 (ahead pid seq) then (blp, seq ∷ seqs) else rest

-- The outer loop, with the entries that there is still room for.
unfoldable pub group : ℕ → List ℕ → List (ℕ × ℕ)
unfolding gather
group zero seqs = []
group (suc room) [] = []
group (suc room) (pid ∷ seqs) = let (blp, rest) = gather pid 0 seqs in (pid, blp) ∷ group room rest

-- `encode_fci_entries`
unfoldable pub encode_fci_entries : List ℕ → List (ℕ × ℕ)
unfolding group sort
encode_fci_entries lost = group max_fci_entries (sort (take max_nack_packets lost))

unfoldable pub fci_bytes : List (ℕ × ℕ) → List ℕ
unfolding u16_bytes
fci_bytes [] = []
fci_bytes ((pid, blp) ∷ es) = u16_bytes pid ++ (u16_bytes blp ++ fci_bytes es)

-- `NackPacket::build`
unfoldable pub build_nack : NackPacket → List ℕ
unfolding u32_bytes encode_fci_entries fci_bytes
build_nack p =
    let es = encode_fci_entries p.lost_packets in
    first_byte 1
    ∷ rtcp_rtpfb_pt
    ∷ (length_field (12 + length es * 4)
        ++ (u32_bytes p.sender_ssrc ++ (u32_bytes p.media_ssrc ++ fci_bytes es)))
