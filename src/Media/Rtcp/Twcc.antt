-- ===== src/Media/Rtcp/Twcc.antt =====
-- The Transport-CC feedback that crates/nexus-media/src/rtcp/packet.rs builds. Arrivals are pairs of a
-- sequence number and a time in microseconds, below 2^63.
pub mod Symbols
pub mod Chunks
pub mod Reader
use nexus_sfu.Base.{
  ℕ, zero, suc, ◌+◌, ◌-◌, ◌/◌, ◌%◌, ◌^◌, min, bit_or, Bool, true, false, ◌||◌, Option, none, some,
  List, [], ◌∷◌, ◌++◌, ltb, leb, ◌==◌, if◌then◌else◌, length, set, take, drop, replicate,
}
use nexus_sfu.Base.Bytes.{u16_bytes, u32_bytes}
use nexus_sfu.Media.Rtcp.Reports.{ℤ, pos, negsuc}

-- `(delta_us / 250).clamp(-32768, 32767)`, for the time of an arrival and the reference. The division
-- rounds towards zero.
unfoldable pub delta_of : ℕ → ℕ → ℤ
delta_of ref_time_us arrival_us =
    if leb ref_time_us arrival_us
    then pos (min ((arrival_us - ref_time_us) / 250) 32767)
    else (let back = (ref_time_us - arrival_us) / 250 in
        if back == 0 then pos 0 else negsuc (min back 32768 - 1))

-- The loop over the arrivals: what `received` and `delta_250us` say of each packet.
unfoldable pub record_arrivals : List (ℕ × ℕ) → ℕ → ℕ → List (Option ℤ) → List (Option ℤ)
unfolding delta_of
record_arrivals [] base_seq ref_time_us packets = packets
record_arrivals ((seq, arrival_us) ∷ arrivals) base_seq ref_time_us packets =
    let idx = (seq + 65536 - base_seq) % 65536 in
    record_arrivals arrivals base_seq ref_time_us (
      if ltb idx (length packets)
      then set packets idx (some (delta_of ref_time_us arrival_us))
      else packets)

abbrev pub is_received : Option ℤ → Bool
is_received none = false
is_received (some d) = true

-- The loop over the symbols of a chunk, from symbol `j` on.
unfoldable pub set_symbols : List (Option ℤ) → ℕ → ℕ → ℕ
set_symbols [] j chunk = chunk
set_symbols (p ∷ ps) j chunk =
    set_symbols ps (j + 1) (if is_received p then bit_or chunk (2 ^ (13 - j)) else chunk)

-- The status chunks. Every round takes at least one packet, so that as many rounds as packets will do.
unfoldable pub chunk_bytes : ℕ → List (Option ℤ) → List ℕ
unfolding set_symbols u16_bytes
chunk_bytes zero packets = []
chunk_bytes (suc rounds) packets =
    let rest = chunk_bytes rounds (drop 14 packets) in
    if length packets == 0 then [] else u16_bytes (set_symbols (take 14 packets) 0 (2 ^ 15)) ++ rest

-- One delta: a byte, or the two bytes of an `i16`.
unfoldable pub delta_bytes : ℤ → List ℕ
unfolding u16_bytes
delta_bytes (pos n) = if leb n 255 then n ∷ [] else u16_bytes n
delta_bytes (negsuc n) = u16_bytes (65535 - n)

unfoldable pub deltas_bytes : List (Option ℤ) → List ℕ
unfolding delta_bytes
deltas_bytes [] = []
deltas_bytes (none ∷ ps) = deltas_bytes ps
deltas_bytes (some d ∷ ps) = delta_bytes d ++ deltas_bytes ps

-- The padding to a multiple of four bytes.
unfoldable pub padding : ℕ → List ℕ
padding n = replicate ((4 - n % 4) % 4) 0

-- What follows the length field.
unfoldable pub body : ℕ → ℕ → ℕ → ℕ → ℕ → List (Option ℤ) → List ℕ
unfolding u16_bytes u32_bytes chunk_bytes deltas_bytes
body sender_ssrc media_ssrc fb_pkt_count base_seq ref_time_us packets =
    let ref_time_64ms = ref_time_us / 64000 % 2 ^ 32 in
    u32_bytes sender_ssrc
    ++ (u32_bytes media_ssrc
        ++ (u16_bytes base_seq
            ++ (u16_bytes (length packets)
                ++ (ref_time_64ms / 65536 % 256
                    ∷ ref_time_64ms / 256 % 256
                    ∷ ref_time_64ms % 256
                    ∷ fb_pkt_count
                    ∷ (chunk_bytes (length packets) packets ++ deltas_bytes packets)))))

-- The header, with the length, then the rest and the padding.
unfoldable pub framed : List ℕ → List ℕ
unfolding u16_bytes padding
framed rest =
    let padded = rest ++ padding (length rest) in
    143 ∷ 205 ∷ (u16_bytes ((4 + length padded) / 4 - 1) ++ padded)

abbrev pub last_seq : ℕ → List (ℕ × ℕ) → ℕ
last_seq seq [] = seq
last_seq seq ((s, t) ∷ arrivals) = last_seq s arrivals

-- `TwccFeedbackBuilder::build`
unfoldable pub build_twcc : ℕ → ℕ → ℕ → List (ℕ × ℕ) → Option (List ℕ)
unfolding record_arrivals body framed
build_twcc sender_ssrc media_ssrc fb_pkt_count [] = none
build_twcc sender_ssrc media_ssrc fb_pkt_count ((base_seq, ref_time_us) ∷ arrivals) =
    let packet_count = (last_seq base_seq arrivals + 65536 - base_seq + 1) % 65536 in
    if packet_count == 0 || ltb 256 packet_count
    then none
    else some (
        framed (
          body sender_ssrc media_ssrc fb_pkt_count base_seq ref_time_us (
            record_arrivals ((base_seq, ref_time_us) ∷ arrivals) base_seq ref_time_us
              (replicate packet_count none))))
