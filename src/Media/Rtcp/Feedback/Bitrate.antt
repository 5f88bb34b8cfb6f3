-- ===== src/Media/Rtcp/Feedback/Bitrate.antt =====
-- The bitrate of a REMB packet in rtcp/packet.rs.
use nexus_sfu.Base.{
  ℕ, zero, suc, ◌+◌, ◌*◌, ◌/◌, ◌%◌, ◌^◌, ◌≤◌, ◌<◌, ◌≡◌, refl, ap, subst, ◌∙◌, ◌⊎◌, inl, inr, true,
  false, arith, ltb, ◌==◌, ltb→lt, Bool-cases,
}
use native.Mathlib.Nat.{pow-suc}
use nexus_sfu.Media.Rtcp.Feedback.{shrink, encode_bitrate, decode_bitrate}

double : (r k : ℕ) → r * 2 ^ suc k ≡ 2 * (r * 2 ^ k)
double r k = ap (λ (t : ℕ). r * t) (pow-suc 2 k) ∙ omega arith

-- The mantissa is the number without its lowest bits, and no bit more is dropped than has to be.
record Shrinks (exp m room : ℕ) (out : ℕ × ℕ) : Type 0 where
  dropped : ℕ
  at_most : dropped ≤ room
  exponent : out.0 ≡ exp + dropped
  below : out.1 * 2 ^ dropped ≤ m
  above : m < (out.1 + 1) * 2 ^ dropped
  needed : (dropped ≡ 0) ⊎ (0x20000 ≤ out.1)

kept_bits :
    (m k r : ℕ)
    → ltb 0x3FFFF m ≡ true
    → m / 2 < (r + 1) * 2 ^ k
    → (k ≡ 0) ⊎ (0x20000 ≤ r)
    → 0x20000 ≤ r
kept_bits m k r large above (inr big) = big
kept_bits m k r large above (inl e) =
    let first : m / 2 < (r + 1) * 2 ^ 0 = subst (λ d. m / 2 < (r + 1) * 2 ^ d) e above in
    omega (arith, first, ltb→lt 0x3FFFF m large)

shrink-Shrinks : (room exp m : ℕ) → Shrinks exp m room (shrink room exp m)
unfolding shrink
shrink-Shrinks zero exp m = record {
  dropped = 0;
  at_most = omega arith;
  exponent = omega arith;
  below = omega arith;
  above = omega arith;
  needed = inl refl;
}
shrink-Shrinks (suc room) exp m = elim (Bool-cases (ltb 0x3FFFF m)) [
  | inr small ↦ rw small (record {
    dropped = 0;
    at_most = omega arith;
    exponent = omega arith;
    below = omega arith;
    above = omega arith;
    needed = inl refl;
  })
  | inl large ↦
      let more = shrink room (exp + 1) (m / 2) in
      let s = shrink-Shrinks room (exp + 1) (m / 2) in
      rw large (record {
        dropped = suc s.dropped;
        at_most = omega (arith, s.at_most);
        exponent = omega (arith, s.exponent);
        below = omega (arith, s.below, double more.1 s.dropped);
        above = omega (arith, s.above, double (more.1 + 1) s.dropped);
        needed = inr (kept_bits m s.dropped more.1 large s.above s.needed);
      })
]

shrink-fits : (room exp m : ℕ) → m < 0x40000 * 2 ^ room → (shrink room exp m).1 < 0x40000
unfolding shrink
shrink-fits zero exp m h = omega arith
shrink-fits (suc room) exp m h = elim (Bool-cases (ltb 0x3FFFF m)) [
  | inr small ↦ rw small (ground arith)
  | inl large ↦ rw large (shrink-fits room (exp + 1) (m / 2) (omega (arith, double 0x40000 room)))
]

-- A bitrate is sent as a mantissa of 18 bits and an exponent of 6; what they stand for is not above the
-- bitrate, is less than one step of the exponent below it, and the mantissa keeps 18 bits of it, or all.
pub record Encodes (bitrate exp mantissa : ℕ) : Type 0 where
  pub exp_fits : exp < 64
  pub mantissa_fits : mantissa < 2 ^ 18
  pub below : mantissa * 2 ^ exp ≤ bitrate
  pub above : bitrate < (mantissa + 1) * 2 ^ exp
  pub precise : (exp ≡ 0) ⊎ (2 ^ 17 ≤ mantissa)

same_pair :
    (b : ℕ) (p : ℕ × ℕ) → Shrinks 0 b 63 p → p.1 < 0x40000 → Encodes b p.0 (p.1 % 2 ^ 32 % 2 ^ 18)
same_pair b (e, r) s fits =
    let kept : r % 2 ^ 32 % 2 ^ 18 ≡ r = omega arith in
    let same : s.dropped ≡ e = omega (arith, s.exponent) in
    rw kept (record {
      exp_fits = omega (arith, s.at_most);
      mantissa_fits = fits;
      below = subst (λ d. r * 2 ^ d ≤ b) same s.below;
      above = subst (λ d. b < (r + 1) * 2 ^ d) same s.above;
      precise = subst (λ d. (d ≡ 0) ⊎ (0x20000 ≤ r)) same s.needed;
    })

-- `encode_bitrate` of a positive bitrate of 64 bits.
pub encode_bitrate-Encodes :
    (b : ℕ) → 0 < b → b < 2 ^ 64 → Encodes b (encode_bitrate b).0 (encode_bitrate b).1
unfolding encode_bitrate
encode_bitrate-Encodes b pos h =
    let positive : (b == 0) ≡ false = ground arith in
    let wide : b < 0x40000 * 2 ^ 63 = omega arith in
    rw positive (same_pair b (shrink 63 0 b) (shrink-Shrinks 63 0 b) (shrink-fits 63 0 b wide))

-- The three bytes of the exponent and the mantissa, read back.
pub decode_bitrate-bytes :
    (b exp mantissa : ℕ)
    → b < 2 ^ 64
    → Encodes b exp mantissa
    → decode_bitrate
        ((exp * 4 + mantissa / 65536 % 4) % 256)
        (mantissa / 256 % 256)
        (mantissa % 256)
      ≡ mantissa * 2 ^ exp
unfolding decode_bitrate
decode_bitrate-bytes b exp mantissa h v =
    let first = (exp * 4 + mantissa / 65536 % 4) % 256 in
    let whole : first % 4 * 65536 + mantissa / 256 % 256 * 256 + mantissa % 256 ≡ mantissa =
      omega (arith, v.exp_fits, v.mantissa_fits) in
    let power : first / 4 % 64 ≡ exp = omega (arith, v.exp_fits, v.mantissa_fits) in
    rw (whole, power) (omega (arith, v.below))
