-- ===== src/Media/RtpHeader/Built.antt =====
-- Packets that are built behind a header of rtp/header.rs, and parsed.
use nexus_sfu.Base.{
  ℕ, suc, ◌+◌, ◌-◌, ◌*◌, ◌/◌, ◌%◌, ◌≤◌, ◌≡◌, refl, ap, subst, ◌∙◌, inl, inr, Bool, true, false,
  List, [], ◌∷◌, ◌++◌, arith, leb, Bool-cases, length, get_or, drop, length-append, length-drop,
  Result, ok, err,
}
use nexus_sfu.Base.Bytes.{be_u16, u16_bytes, u32_bytes}
use nexus_sfu.Base.Reads.{get_or-drop}
use nexus_sfu.Media.RtpHeader.{
  RtpHeader, RtpError, is_set, header_bytes, parse, fixed_fields, with_extension, with_padding,
  extension_end, padding_of,
}
use nexus_sfu.Media.RtpHeader.RoundTrip.{IsHeader, fixed_fields-header_bytes, parse-good}

-- What a parsed header says of its packet.
pub record Read (bytes : List ℕ) (h : RtpHeader) : Type 0 where
  pub padding_bit : h.padding ≡ is_set (get_or bytes 0 0 / 32 % 2)
  pub marker_bit : h.marker ≡ is_set (get_or bytes 1 0 / 128 % 2)
  pub padded : padding_of bytes h.padding h.header_len_bytes ≡ ok h.padding_len

with_padding-Read :
    (bytes : List ℕ) (f h : RtpHeader) (r : Result RtpError ℕ)
    → f.padding ≡ is_set (get_or bytes 0 0 / 32 % 2)
    → f.marker ≡ is_set (get_or bytes 1 0 / 128 % 2)
    → padding_of bytes f.padding f.header_len_bytes ≡ r
    → with_padding f r ≡ ok h
    → Read bytes h
unfolding with_padding
with_padding-Read bytes f h (err e) p m r e' = cc
with_padding-Read bytes f h (ok pad) p m r e =
    let same : record f { padding_len = pad } ≡ h = cc in
    subst (Read bytes) same (record { padding_bit = p; marker_bit = m; padded = r })

with_extension-Read :
    (bytes : List ℕ) (f h : RtpHeader) (r : Result RtpError ℕ)
    → f.padding ≡ is_set (get_or bytes 0 0 / 32 % 2)
    → f.marker ≡ is_set (get_or bytes 1 0 / 128 % 2)
    → with_extension bytes f r ≡ ok h
    → Read bytes h
unfolding with_extension
with_extension-Read bytes f h (err e) p m e' = cc
with_extension-Read bytes f h (ok n) p m e =
    with_padding-Read bytes (record f { header_len_bytes = n }) h (padding_of bytes f.padding n) p m
      refl e

pub parse-Read : (bytes : List ℕ) (h : RtpHeader) → parse bytes ≡ ok h → Read bytes h
unfolding parse fixed_fields
parse-Read bytes h e =
    let f = fixed_fields bytes in
    with_extension-Read bytes f h (extension_end bytes f.extension f.header_len_bytes) refl refl
      (ground arith)

length-header_bytes :
    (h : RtpHeader) (rest : List ℕ) → length (header_bytes h ++ rest) ≡ 12 + length rest
unfolding header_bytes u16_bytes u32_bytes
length-header_bytes h rest = omega arith

-- A header in front of its packet is parsed, if the lengths are right.
pub parse-header_bytes :
    (h : RtpHeader) (rest : List ℕ)
    → IsHeader h
    → h.csrc_count * 4 ≤ length rest
    → extension_end (header_bytes h ++ rest) h.extension (12 + h.csrc_count * 4)
      ≡ ok h.header_len_bytes
    → padding_of (header_bytes h ++ rest) h.padding h.header_len_bytes ≡ ok h.padding_len
    → parse (header_bytes h ++ rest) ≡ ok h
unfolding with_extension with_padding
parse-header_bytes h rest v room x p =
    let bytes = header_bytes h ++ rest in
    let fields = fixed_fields-header_bytes h rest v in
    let long : length bytes ≡ 12 + length rest = length-header_bytes h rest in
    parse-good bytes (omega (arith, long))
      (ap (λ (f : RtpHeader). f.version) fields ∙ v.version_two)
      (omega (arith, long, ap (λ (f : RtpHeader). f.header_len_bytes) fields))
    ∙ ap (λ f. with_extension bytes f (extension_end bytes f.extension f.header_len_bytes)) fields
    ∙ rw x (rw p refl)

pub get_or-behind : (xs ys : List ℕ) (i d : ℕ) → get_or (xs ++ ys) (length xs + i) d ≡ get_or ys i d
get_or-behind [] ys i d = ap (λ n. get_or ys n d) (omega arith)
get_or-behind (x ∷ xs) ys i d =
    let e : suc (length xs) + i ≡ suc (length xs + i) = omega arith in
    rw e (get_or-behind xs ys i d)

-- An extension block behind the header and its CSRCs.
pub extension_end-block :
    (front body payload : List ℕ) (profile words : ℕ)
    → length body ≡ words * 4
    → length front + 4 + words * 4 ≤ 65535
    → extension_end
        (front ++ ((u16_bytes profile ++ (u16_bytes words ++ body)) ++ payload))
        true
        (length front)
      ≡ ok (length front + 4 + length body)
unfolding extension_end be_u16 u16_bytes
extension_end-block front body payload profile words size short =
    let rest : List ℕ = (u16_bytes profile ++ (u16_bytes words ++ body)) ++ payload in
    let total : length (front ++ rest) ≡ length front + (4 + (length body + length payload)) =
      omega (arith, length-append front rest, length-append body payload) in
    let high : get_or (front ++ rest) (length front + 2) 0 ≡ words / 256 % 256 =
      get_or-behind front rest 2 0 in
    let low : get_or (front ++ rest) (length front + 2 + 1) 0 ≡ words % 256 =
      ap (λ n. get_or (front ++ rest) n 0) (omega arith) ∙ get_or-behind front rest 3 0 in
    ground (arith, total, high, low)

-- Padding is read alike at the end of another packet with the same payload.
pub padding_of-moved :
    (front src : List ℕ) (p : Bool) (n : ℕ)
    → n ≤ length src
    → padding_of (front ++ drop n src) p (length front) ≡ padding_of src p n
unfolding padding_of
padding_of-moved front src false n h = refl
padding_of-moved front src true n h =
    let total : length (front ++ drop n src) ≡ length front + (length src - n) =
      omega (arith, length-append front (drop n src), length-drop n src) in
    elim (Bool-cases (leb (length src) n)) [
      | inl empty ↦
          let same : leb (length front + (length src - n)) (length front) ≡ true = ground arith in
          let none_left : length front + (length src - n) - length front ≡ length src - n =
            omega arith in
          rw (total, same, empty, none_left) refl
      | inr some_left ↦
          let same : leb (length front + (length src - n)) (length front) ≡ false = ground arith in
          let left : length front + (length src - n) - length front ≡ length src - n =
            omega arith in
          let last : length front + (length src - n) - 1 ≡ length front + (length src - n - 1) =
            ground arith in
          let at_end : n + (length src - n - 1) ≡ length src - 1 = ground arith in
          rw
            (
              total,
              same,
              some_left,
              left,
              last,
              get_or-behind front (drop n src) (length src - n - 1) 0,
              get_or-drop src n (length src - n - 1) 0,
              at_end,
            )
            refl
    ]
