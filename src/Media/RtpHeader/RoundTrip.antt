-- ===== src/Media/RtpHeader/RoundTrip.antt =====
-- `serialize` of rtp/header.rs, read back by `parse`.
use nexus_sfu.Base.{
  ℕ, ◌+◌, ◌*◌, ◌%◌, ◌^◌, ◌≤◌, ◌<◌, bit_or, ◌≡◌, refl, ap, ◌∙◌, Bool, true, false, some, List, ◌++◌,
  arith, length, drop, length-drop, ok,
}
use nexus_sfu.Base.Bits.{bit_or_fields}
use nexus_sfu.Base.Bytes.{be_u16, be_u32, u16_bytes, u32_bytes}
use nexus_sfu.Media.RtpHeader.{
  RtpHeader, flag, is_set, header_bytes, serialize, parse, fixed_fields, with_extension,
  extension_end,
}

-- The fields fit the header.
pub record IsHeader (h : RtpHeader) : Type 0 where
  pub version_two : h.version ≡ 2
  pub csrc_fits : h.csrc_count < 16
  pub pt_fits : h.payload_type < 128
  pub seq_fits : h.sequence_number < 65536
  pub timestamp_fits : h.timestamp < 4294967296
  pub ssrc_fits : h.ssrc < 4294967296

flag-lt : (b : Bool) → flag b < 2
flag-lt true = omega arith
flag-lt false = omega arith

is_set-flag : (b : Bool) → is_set (flag b) ≡ b
is_set-flag true = refl
is_set-flag false = refl

-- The first byte as a sum of its fields.
first_byte :
    (v p e c : ℕ)
    → v < 4
    → p < 2
    → e < 2
    → c < 16
    → bit_or (bit_or (bit_or (v * 2 ^ 6 % 256) (p * 2 ^ 5)) (e * 2 ^ 4)) c
      ≡ v * 64 + p * 32 + e * 16 + c
first_byte v p e c hv hp he hc =
    let top : v * 2 ^ 6 % 256 ≡ v * 2 ^ 6 = omega arith in
    let two : v * 2 ^ 6 + p * 2 ^ 5 ≡ (v * 2 + p) * 2 ^ 5 = omega arith in
    let three : (v * 2 + p) * 2 ^ 5 + e * 2 ^ 4 ≡ ((v * 2 + p) * 2 + e) * 2 ^ 4 = omega arith in
    rw
      (
        top,
        bit_or_fields 6 v (p * 2 ^ 5) (omega arith),
        two,
        bit_or_fields 5 (v * 2 + p) (e * 2 ^ 4) (omega arith),
        three,
        bit_or_fields 4 ((v * 2 + p) * 2 + e) c hc,
      )
      (omega arith)

second_byte : (m pt : ℕ) → m < 2 → pt < 128 → bit_or (m * 2 ^ 7) (pt % 128) ≡ m * 128 + pt
second_byte m pt hm hp = bit_or_fields 7 m (pt % 128) (omega arith) ∙ omega arith

-- The fixed part, read back from the bytes that were written.
pub fixed_fields-header_bytes :
    (h : RtpHeader) (rest : List ℕ)
    → IsHeader h
    → fixed_fields (header_bytes h ++ rest)
      ≡ record h { header_len_bytes = 12 + h.csrc_count * 4; padding_len = 0 }
unfolding fixed_fields header_bytes be_u16 be_u32 u16_bytes u32_bytes
fixed_fields-header_bytes h rest v =
    rw
      (
        first_byte h.version (flag h.padding) (flag h.extension) (h.csrc_count % 16) (omega arith)
            (flag-lt h.padding) (flag-lt h.extension) (omega arith),
        second_byte (flag h.marker) h.payload_type (flag-lt h.marker) v.pt_fits,
      )
      (ground arith)

-- `parse` of a packet whose fixed fields are good.
pub parse-good :
    (bytes : List ℕ)
    → 12 ≤ length bytes
    → (fixed_fields bytes).version ≡ 2
    → (fixed_fields bytes).header_len_bytes ≤ length bytes
    → parse bytes
      ≡ with_extension bytes
          (fixed_fields bytes)
          (extension_end bytes (fixed_fields bytes).extension (fixed_fields bytes).header_len_bytes)
unfolding parse
parse-good bytes long v fits = ground arith

plain_end :
    (bytes : List ℕ) (h : RtpHeader)
    → h.extension ≡ false
    → h.padding ≡ false
    → h.padding_len ≡ 0
    → with_extension bytes h (extension_end bytes h.extension h.header_len_bytes) ≡ ok h
unfolding with_extension extension_end
plain_end bytes h x p z = rw (x, with_extension, p) (ground arith)

length-out :
    (h : RtpHeader) (buffer : List ℕ)
    → 12 ≤ length buffer
    → length (header_bytes h ++ drop 12 buffer) ≡ length buffer
unfolding header_bytes u16_bytes u32_bytes
length-out h buffer room = omega (arith, length-drop 12 buffer)

-- A header with any CSRC count and without extension and padding is serialized into any buffer that
-- has room for it and its CSRCs, in place, and parsed back; the lengths are those of such a header.
pub parse-serialize :
    (h : RtpHeader) (buffer : List ℕ)
    → IsHeader h
    → h.extension ≡ false
    → h.padding ≡ false
    → 12 + h.csrc_count * 4 ≤ length buffer
    → (out : List ℕ) × (serialize h buffer ≡ some (12, out))
      × (length out ≡ length buffer)
      × (parse out ≡ ok (record h { header_len_bytes = 12 + h.csrc_count * 4; padding_len = 0 }))
unfolding serialize
parse-serialize h buffer v x p room =
    let out = header_bytes h ++ drop 12 buffer in
    let same = length-out h buffer (omega arith) in
    let fields = fixed_fields-header_bytes h (drop 12 buffer) v in
    (
      out,
      ground arith,
      same,
      parse-good out (omega (arith, same))
            (ap (λ (f : RtpHeader). f.version) fields ∙ v.version_two)
            (omega (arith, same, ap (λ (f : RtpHeader). f.header_len_bytes) fields))
          ∙ ap (λ f. with_extension out f (extension_end out f.extension f.header_len_bytes)) fields
          ∙ plain_end out (record h { header_len_bytes = 12 + h.csrc_count * 4; padding_len = 0 }) x
              p refl,
    )
