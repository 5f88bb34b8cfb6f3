-- ===== src/Dataplane/Rewrite/Parsed.antt =====
-- The packet that rewrite.rs leaves, parsed again by rtp/header.rs.
use nexus_sfu.Base.{
  ℕ, zero, suc, ◌+◌, ◌-◌, ◌*◌, ◌/◌, ◌%◌, ◌^◌, ◌≤◌, ◌<◌, bit_and, ◌≡◌, refl, sym, ap, ap₂, ◌∙◌, Bool,
  true, false, List, [], ◌∷◌, ◌++◌, append_assoc, arith, ltb, if◌then◌else◌, length, get_or, take,
  drop, replicate, length-append, length-take, length-drop, length-replicate, ok,
}
use nexus_sfu.Base.Bits.{bit, bit_and-pow}
use nexus_sfu.Base.Bytes.{u16_bytes, u32_bytes, IsBytes}
use nexus_sfu.Base.Slices.{slice, drop-append, take-append}
use nexus_sfu.Media.RtpHeader.{
  RtpHeader, flag, is_set, header_bytes, parse, extension_end, padding_of,
}
use nexus_sfu.Media.RtpHeader.Bounds.{parse-Fits}
use nexus_sfu.Media.RtpHeader.RoundTrip.{IsHeader}
use nexus_sfu.Media.RtpHeader.Built.{
  Read, parse-Read, parse-header_bytes, extension_end-block, padding_of-moved,
}
use nexus_sfu.Dataplane.Ext.{Element, all_elements}
use nexus_sfu.Dataplane.Ext.Encode.{encode, encode_element, AreOneByte}
use nexus_sfu.Dataplane.Subscription.{Subscription}
use nexus_sfu.Dataplane.Rewrite.{Advance}
use nexus_sfu.Dataplane.Rewrite.Write.{fixed_bytes}
use nexus_sfu.Dataplane.Rewrite.Layout.{block_bytes}
use nexus_sfu.Dataplane.Rewrite.Output.{packet_for}
use nexus_sfu.Dataplane.Rewrite.Readback.{
  mapped, extension_bytes-encode, IsExtMap, mapped-AreOneByte,
}

-- The bytes of the elements in the one-byte form, and of the block with its header and padding.
abbrev pub wire_size : List Element → ℕ
wire_size [] = 0
wire_size (e ∷ es) = 1 + length e.bytes + wire_size es

abbrev pub block_size : List Element → ℕ
block_size [] = 0
block_size (e ∷ es) = 4 + (wire_size (e ∷ es) + 3) / 4 * 4

abbrev pub has_elements : List Element → Bool
has_elements [] = false
has_elements (e ∷ es) = true

length-encode : (es : List Element) → length (encode es) ≡ wire_size es
unfolding encode encode_element
length-encode [] = refl
length-encode (e ∷ es) = omega (arith, length-append e.bytes (encode es), length-encode es)

pub length-block_bytes : (es : List Element) → length (block_bytes (encode es)) ≡ block_size es
unfolding block_bytes encode encode_element u16_bytes
length-block_bytes [] = refl
length-block_bytes (e ∷ es) =
    let n : ℕ = wire_size (e ∷ es) in
    let size : suc (length (e.bytes ++ encode es)) ≡ n = length-encode (e ∷ es) in
    let pad : ℕ = (length (encode (e ∷ es)) + 3) / 4 * 4 - length (encode (e ∷ es)) in
    omega (
      arith,
      size,
      length-append (e.bytes ++ encode es) (replicate pad 0),
      length-replicate {A = ℕ} pad 0,
    )

pub has_elements-block :
    (es : List Element) → ltb 0 (length (block_bytes (encode es))) ≡ has_elements es
has_elements-block [] = ap (ltb 0) (length-block_bytes [])
has_elements-block (e ∷ es) = ap (ltb 0) (length-block_bytes (e ∷ es)) ∙ ground arith

wire_size-small : (es : List Element) → AreOneByte es → wire_size es ≤ 17 * length es
wire_size-small [] v = omega arith
wire_size-small (e ∷ es) ((a, b, c, d), v) = omega (arith, wire_size-small es v, d)

-- What the subscriber's packet says in its header.
abbrev pub header_for : Subscription → RtpHeader → ℕ → Advance → List Element → RtpHeader
header_for sub hdr pt a ms = record {
  version = 2;
  padding = hdr.padding;
  extension = has_elements ms;
  csrc_count = hdr.csrc_count;
  marker = hdr.marker;
  payload_type = pt;
  sequence_number = a.out_seq;
  timestamp = a.out_ts;
  ssrc = sub.rewrite.out_ssrc;
  header_len_bytes = 12 + hdr.csrc_count * 4 + block_size ms;
  padding_len = hdr.padding_len;
}

flag-is_set : (n : ℕ) → n < 2 → flag (is_set n) ≡ n
flag-is_set zero h = refl
flag-is_set (suc zero) h = refl
flag-is_set (suc (suc n)) h = absurd (omega (arith, h))

padding_flag : (b : ℕ) → bit_and b 0x20 ≡ flag (is_set (b / 32 % 2)) * 2 ^ 5
unfolding bit
padding_flag b =
    let same : bit b 5 ≡ b / 32 % 2 = omega arith in
    let low : b / 32 % 2 < 2 = omega arith in
    bit_and-pow 5 b ∙ ap (λ n. n * 2 ^ 5) (same ∙ sym (flag-is_set (b / 32 % 2) low))

marker_flag : (b : ℕ) → bit_and b 0x80 ≡ flag (is_set (b / 128 % 2)) * 2 ^ 7
unfolding bit
marker_flag b =
    let same : bit b 7 ≡ b / 128 % 2 = omega arith in
    let low : b / 128 % 2 < 2 = omega arith in
    bit_and-pow 7 b ∙ ap (λ n. n * 2 ^ 7) (same ∙ sym (flag-is_set (b / 128 % 2) low))

extension_flag : (x : Bool) → (if x then 0x10 else 0) ≡ flag x * 2 ^ 4
extension_flag true = refl
extension_flag false = refl

fixed_bytes-header_bytes :
    (sub : Subscription) (src : List ℕ) (hdr : RtpHeader) (pt : ℕ) (a : Advance) (ms : List Element)
    → Read src hdr
    → hdr.csrc_count < 16
    → pt < 128
    → fixed_bytes src hdr sub pt (has_elements ms) a.out_seq a.out_ts
      ≡ header_bytes (header_for sub hdr pt a ms)
unfolding fixed_bytes header_bytes
fixed_bytes-header_bytes sub src hdr pt a ms v few small =
    let p : bit_and (get_or src 0 0) 0x20 ≡ flag hdr.padding * 2 ^ 5 =
      padding_flag (get_or src 0 0) ∙ ap (λ b. flag b * 2 ^ 5) (sym v.padding_bit) in
    let m : bit_and (get_or src 1 0) 0x80 ≡ flag hdr.marker * 2 ^ 7 =
      marker_flag (get_or src 1 0) ∙ ap (λ b. flag b * 2 ^ 7) (sym v.marker_bit) in
    let count : hdr.csrc_count % 16 ≡ hdr.csrc_count = omega arith in
    let type_low : pt % 128 ≡ pt = omega arith in
    rw (p, m, extension_flag (has_elements ms), count, type_low) refl

module _ (sub : Subscription) (src : List ℕ) (hdr : RtpHeader) (pt : ℕ) (a : Advance)
    (parsed : parse src ≡ ok hdr) (bytes : IsBytes src) (ids : IsExtMap sub)
    (few : length (mapped sub (all_elements src hdr)) ≤ 16) (small : pt < 128)
    (seq_fits : a.out_seq < 65536) (ts_fits : a.out_ts < 4294967296)
    (ssrc_fits : sub.rewrite.out_ssrc < 4294967296) where
  abbrev ms : List Element
  ms = mapped sub (all_elements src hdr)

  abbrev out : RtpHeader
  out = header_for sub hdr pt a ms

  abbrev csrcs : List ℕ
  csrcs = slice 12 (4 * hdr.csrc_count) src

  abbrev payload : List ℕ
  payload = drop hdr.header_len_bytes src

  out-IsHeader : IsHeader out
  out-IsHeader =
      let v = parse-Fits src hdr bytes parsed in
      record {
        version_two = refl;
        csrc_fits = omega (arith, v.csrc_fits);
        pt_fits = small;
        seq_fits = seq_fits;
        timestamp_fits = ts_fits;
        ssrc_fits = ssrc_fits;
      }

  length-csrcs : length csrcs ≡ 4 * hdr.csrc_count
  length-csrcs =
      let v = parse-Fits src hdr bytes parsed in
      omega (
        arith,
        v.csrcs_inside,
        v.padding_inside,
        length-take (4 * hdr.csrc_count) (drop 12 src),
        length-drop 12 src,
      )

  -- The packet as a header in front of the rest.
  packet_for-out :
      packet_for sub src hdr pt a
      ≡ header_bytes out ++ (csrcs ++ (block_bytes (encode ms) ++ payload))
  unfolding packet_for
  packet_for-out =
      let v = parse-Fits src hdr bytes parsed in
      let same = extension_bytes-encode sub (all_elements src hdr) in
      let flagged = ap (λ xs. ltb 0 (length xs)) same ∙ has_elements-block ms in
      ap₂ (λ x ext. fixed_bytes src hdr sub pt x a.out_seq a.out_ts ++ (csrcs ++ (ext ++ payload)))
        flagged same
      ∙ ap (λ xs. xs ++ (csrcs ++ (block_bytes (encode ms) ++ payload)))
          (fixed_bytes-header_bytes sub src hdr pt a ms (parse-Read src hdr parsed)
            (omega (arith, v.csrc_fits)) small)

  abbrev front : List ℕ
  front = header_bytes out ++ csrcs

  length-front : length front ≡ 12 + hdr.csrc_count * 4
  unfolding header_bytes u16_bytes u32_bytes
  length-front = omega (arith, length-csrcs)

  front_block : (xs : List ℕ) → header_bytes out ++ (csrcs ++ xs) ≡ front ++ xs
  front_block xs = sym (append_assoc (header_bytes out) csrcs xs)

  ends :
      (es : List Element)
      → AreOneByte es
      → length es ≤ 16
      → extension_end
          (front ++ (block_bytes (encode es) ++ payload))
          (has_elements es)
          (length front)
        ≡ ok (length front + block_size es)
  unfolding block_bytes encode encode_element extension_end
  ends [] v n = ap ok (omega arith)
  ends (e ∷ es) v n =
      let enc : List ℕ = encode (e ∷ es) in
      let words : ℕ = (length enc + 3) / 4 in
      let pad : ℕ = words * 4 - length enc in
      let size : length enc ≡ wire_size (e ∷ es) = length-encode (e ∷ es) in
      let whole : length (enc ++ replicate pad 0) ≡ words * 4 =
        omega (arith, length-append enc (replicate pad 0), length-replicate {A = ℕ} pad 0) in
      let fits = parse-Fits src hdr bytes parsed in
      let short : length front + 4 + words * 4 ≤ 65535 =
        omega (arith, size, wire_size-small (e ∷ es) v, n, length-front, fits.csrc_fits) in
      extension_end-block front (enc ++ replicate pad 0) payload 0xBEDE words whole short
      ∙ ap ok (omega (arith, whole, size))

  front-length : length front + block_size ms ≡ out.header_len_bytes
  front-length = omega (arith, length-front)

  behind-length : length (front ++ block_bytes (encode ms)) ≡ out.header_len_bytes
  behind-length =
      omega
        (arith, length-append front (block_bytes (encode ms)), length-block_bytes ms, length-front)

  -- The packet is parsed to that header.
  pub parse-packet_for : parse (packet_for sub src hdr pt a) ≡ ok out
  parse-packet_for =
      let block = block_bytes (encode ms) in
      let rest : List ℕ = csrcs ++ (block ++ payload) in
      let v = parse-Fits src hdr bytes parsed in
      let twelve : 12 + hdr.csrc_count * 4 ≡ length front = sym length-front in
      let ended : extension_end (header_bytes out ++ rest) out.extension (12 + hdr.csrc_count * 4)
          ≡ ok out.header_len_bytes =
        ap₂ (λ xs n. extension_end xs (has_elements ms) n) (front_block (block ++ payload)) twelve
        ∙ ends ms (mapped-AreOneByte sub (all_elements src hdr) ids) few
        ∙ ap ok front-length in
      let padded : padding_of (header_bytes out ++ rest) out.padding out.header_len_bytes
          ≡ ok out.padding_len =
        ap₂ (λ xs n. padding_of xs hdr.padding n)
          (front_block (block ++ payload) ∙ sym (append_assoc front block payload))
          (sym behind-length)
        ∙ padding_of-moved (front ++ block) src hdr.padding hdr.header_len_bytes
            (omega (arith, v.padding_inside))
        ∙ (parse-Read src hdr parsed).padded in
      ap parse packet_for-out
      ∙ parse-header_bytes out rest out-IsHeader
          (omega (arith, length-csrcs, length-append csrcs (block ++ payload))) ended padded

  pub payload-packet_for : drop out.header_len_bytes (packet_for sub src hdr pt a) ≡ payload
  payload-packet_for =
      let block = block_bytes (encode ms) in
      ap₂ drop (sym behind-length)
        (packet_for-out ∙ front_block (block ++ payload) ∙ sym (append_assoc front block payload))
      ∙ drop-append (front ++ block) payload

  pub csrcs-packet_for : slice 12 (4 * hdr.csrc_count) (packet_for sub src hdr pt a) ≡ csrcs
  unfolding header_bytes u16_bytes u32_bytes
  csrcs-packet_for =
      ap (slice 12 (4 * hdr.csrc_count)) packet_for-out
      ∙ ap (λ n. take n (csrcs ++ (block_bytes (encode ms) ++ payload))) (sym length-csrcs)
      ∙ take-append csrcs (block_bytes (encode ms) ++ payload)
