-- ===== src/Media/RtpHeader/Simd.antt =====
-- The vector versions of the parser in rtp/header.rs. A vector register is the list of its 16
-- bytes, lowest first; wider lanes are read little endian.
use nexus_sfu.Base.{
  ℕ, zero, suc, ◌+◌, ◌-◌, ◌*◌, ◌/◌, ◌%◌, ◌≤◌, ◌<◌, ◌≡◌, refl, sym, ap, ◌∙◌, inl, inr, Bool, true,
  false, ◌||◌, Option, none, some, List, [], ◌∷◌, ◌++◌, arith, ltb, leb, ◌==◌, if◌then◌else◌,
  Bool-cases, length, get_or, take, replicate, Result, ok, err,
}
use nexus_sfu.Base.Bytes.{be_u16, be_u32, IsBytes, get_or-lt, get_or-take, get_or-append}
use nexus_sfu.Media.RtpHeader.{
  RtpError, RtpHeader, rtp_header_min_size_bytes, rtp_csrc_size_bytes, rtp_version,
  max_header_len_bytes, is_set, parse, fixed_fields, with_extension, extension_end, with_padding,
  padding_of,
}

-- The load: 16 bytes of the packet, or all of a shorter one over zeros.
unfoldable pub load_16 : List ℕ → List ℕ
load_16 bytes =
    if leb 16 (length bytes) then take 16 bytes else bytes ++ replicate (16 - length bytes) 0

abbrev pub lane_8 : List ℕ → ℕ → ℕ
lane_8 r i = get_or r i 0

abbrev pub lane_16 : List ℕ → ℕ → ℕ
lane_16 r i = lane_8 r (2 * i) + lane_8 r (2 * i + 1) * 256

abbrev pub lane_32 : List ℕ → ℕ → ℕ
lane_32 r i = lane_16 r (2 * i) + lane_16 r (2 * i + 1) * 65536

-- `swap_bytes`
abbrev pub swap_16 : ℕ → ℕ
swap_16 x = x % 256 * 256 + x / 256

abbrev pub swap_32 : ℕ → ℕ
swap_32 x = x % 256 * 16777216 + x / 256 % 256 * 65536 + x / 65536 % 256 * 256 + x / 16777216

-- The fixed fields out of an SSE register.
unfoldable pub fields_x86 : List ℕ → RtpHeader
fields_x86 r =
    let first = lane_8 r 0 in
    let second = lane_8 r 1 in
    record {
      version = first / 64 % 4;
      padding = is_set (first / 32 % 2);
      extension = is_set (first / 16 % 2);
      csrc_count = first % 16;
      marker = is_set (second / 128 % 2);
      payload_type = second % 128;
      sequence_number = swap_16 (lane_16 r 1);
      timestamp = swap_32 (lane_32 r 1);
      ssrc = swap_32 (lane_32 r 2);
      header_len_bytes = rtp_header_min_size_bytes + first % 16 * rtp_csrc_size_bytes;
      padding_len = 0;
    }

-- The fixed fields out of a NEON register.
unfoldable pub fields_neon : List ℕ → RtpHeader
fields_neon r =
    let first = lane_8 r 0 in
    let second = lane_8 r 1 in
    record {
      version = first / 64 % 4;
      padding = is_set (first / 32 % 2);
      extension = is_set (first / 16 % 2);
      csrc_count = first % 16;
      marker = is_set (second / 128 % 2);
      payload_type = second % 128;
      sequence_number = be_u16 r 2;
      timestamp = be_u32 r 4;
      ssrc = be_u32 r 8;
      header_len_bytes = rtp_header_min_size_bytes + first % 16 * rtp_csrc_size_bytes;
      padding_len = 0;
    }

-- The scalar rest, the same text in both: the header's length with the extension, and the padding.
unfoldable pub end_of_extension : List ℕ → Bool → ℕ → Option ℕ
end_of_extension bytes false start = some start
end_of_extension bytes true start =
    if ltb (length bytes) (start + 4)
    then none
    else (let header_len = start + (4 + be_u16 bytes (start + 2) * 4) in
        if ltb max_header_len_bytes header_len
        then none
        else (if ltb (length bytes) header_len then none else some header_len))

unfoldable pub padding_bytes : List ℕ → Bool → ℕ → Option ℕ
padding_bytes bytes false header_len = some 0
padding_bytes bytes true header_len =
    if leb (length bytes) header_len
    then none
    else (let pad = get_or bytes (length bytes - 1) 0 in
        if pad == 0 || ltb (length bytes - header_len) pad then none else some pad)

unfoldable pub finish_padding : RtpHeader → Option ℕ → Option RtpHeader
finish_padding h none = none
finish_padding h (some pad) = some (record h { padding_len = pad })

unfoldable pub finish_extension : List ℕ → RtpHeader → Option ℕ → Option RtpHeader
unfolding finish_padding padding_bytes
finish_extension bytes h none = none
finish_extension bytes h (some header_len) =
    finish_padding (record h { header_len_bytes = header_len })
      (padding_bytes bytes h.padding header_len)

unfoldable pub finish : List ℕ → RtpHeader → Option RtpHeader
unfolding finish_extension end_of_extension
finish bytes h =
    if h.version == rtp_version
    then (if ltb (length bytes) h.header_len_bytes
        then none
        else finish_extension bytes h (end_of_extension bytes h.extension h.header_len_bytes))
    else none

-- `parse_simd_x86` and `parse_simd_neon`
unfoldable pub parse_simd_x86 : List ℕ → Option RtpHeader
unfolding load_16 fields_x86 finish
parse_simd_x86 bytes = finish bytes (fields_x86 (load_16 bytes))

unfoldable pub parse_simd_neon : List ℕ → Option RtpHeader
unfolding load_16 fields_neon finish
parse_simd_neon bytes = finish bytes (fields_neon (load_16 bytes))

-- What the machine offers.
pub data Cpu : Type 0 where
  sse4_1 neon scalar : Cpu

-- `.ok()`
unfoldable pub to_option {ℓ} : {E A : Type ℓ} → Result E A → Option A
to_option (ok a) = some a
to_option (err e) = none

-- `parse_simd`, once the length is checked and from the start.
unfoldable pub parse_on : Cpu → List ℕ → Option RtpHeader
unfolding to_option
parse_on sse4_1 bytes = parse_simd_x86 bytes
parse_on neon bytes = parse_simd_neon bytes
parse_on scalar bytes = to_option (parse bytes)

unfoldable pub parse_simd : Cpu → List ℕ → Option RtpHeader
unfolding parse_on
parse_simd cpu bytes =
    if ltb (length bytes) rtp_header_min_size_bytes then none else parse_on cpu bytes

lane_8-load_16 :
    (bytes : List ℕ) (i : ℕ)
    → 12 ≤ length bytes
    → i < 12
    → lane_8 (load_16 bytes) i ≡ get_or bytes i 0
unfolding load_16
lane_8-load_16 bytes i h lt =
    ground
      (arith, get_or-take bytes 16 i 0, get_or-append bytes (replicate (16 - length bytes) 0) i 0)

lanes :
    (bytes : List ℕ)
    → 12 ≤ length bytes
    → (lane_8 (load_16 bytes) 0 ≡ get_or bytes 0 0)
      × (lane_8 (load_16 bytes) 1 ≡ get_or bytes 1 0)
      × (lane_8 (load_16 bytes) 2 ≡ get_or bytes 2 0)
      × (lane_8 (load_16 bytes) 3 ≡ get_or bytes 3 0)
      × (lane_8 (load_16 bytes) 4 ≡ get_or bytes 4 0)
      × (lane_8 (load_16 bytes) 5 ≡ get_or bytes 5 0)
      × (lane_8 (load_16 bytes) 6 ≡ get_or bytes 6 0)
      × (lane_8 (load_16 bytes) 7 ≡ get_or bytes 7 0)
      × (lane_8 (load_16 bytes) 8 ≡ get_or bytes 8 0)
      × (lane_8 (load_16 bytes) 9 ≡ get_or bytes 9 0)
      × (lane_8 (load_16 bytes) 10 ≡ get_or bytes 10 0)
      × (lane_8 (load_16 bytes) 11 ≡ get_or bytes 11 0)
lanes bytes h = (
  lane_8-load_16 bytes 0 h (omega arith),
  lane_8-load_16 bytes 1 h (omega arith),
  lane_8-load_16 bytes 2 h (omega arith),
  lane_8-load_16 bytes 3 h (omega arith),
  lane_8-load_16 bytes 4 h (omega arith),
  lane_8-load_16 bytes 5 h (omega arith),
  lane_8-load_16 bytes 6 h (omega arith),
  lane_8-load_16 bytes 7 h (omega arith),
  lane_8-load_16 bytes 8 h (omega arith),
  lane_8-load_16 bytes 9 h (omega arith),
  lane_8-load_16 bytes 10 h (omega arith),
  lane_8-load_16 bytes 11 h (omega arith),
)

fields_neon-load :
    (bytes : List ℕ) → 12 ≤ length bytes → fields_neon (load_16 bytes) ≡ fixed_fields bytes
unfolding fields_neon fixed_fields be_u16 be_u32
fields_neon-load bytes h = ground (arith, lanes bytes h)

swap_16-le : (a b : ℕ) → a < 256 → b < 256 → swap_16 (a + b * 256) ≡ a * 256 + b
swap_16-le a b ha hb = omega arith

swap_32-le :
    (a b c d : ℕ)
    → a < 256
    → b < 256
    → c < 256
    → d < 256
    → swap_32 (a + b * 256 + (c + d * 256) * 65536) ≡ a * 16777216 + b * 65536 + c * 256 + d
swap_32-le a b c d ha hb hc hd = omega arith

fields_x86-neon : (r : List ℕ) → IsBytes r → fields_x86 r ≡ fields_neon r
unfolding fields_x86 fields_neon be_u16 be_u32
fields_x86-neon r h =
    let b = λ (i : ℕ). get_or-lt r i h in
    rw
      (
        swap_16-le (lane_8 r 2) (lane_8 r 3) (b 2) (b 3),
        swap_32-le (lane_8 r 4) (lane_8 r 5) (lane_8 r 6) (lane_8 r 7) (b 4) (b 5) (b 6) (b 7),
        swap_32-le (lane_8 r 8) (lane_8 r 9) (lane_8 r 10) (lane_8 r 11) (b 8) (b 9) (b 10) (b 11),
      )
      refl

end_of_extension-ok :
    (bytes : List ℕ) (e : Bool) (k : ℕ)
    → end_of_extension bytes e k ≡ to_option (extension_end bytes e k)
unfolding end_of_extension extension_end to_option
end_of_extension-ok bytes true k = ground arith
end_of_extension-ok bytes false k = refl

padding_bytes-ok :
    (bytes : List ℕ) (e : Bool) (k : ℕ) → padding_bytes bytes e k ≡ to_option (padding_of bytes e k)
unfolding padding_bytes padding_of to_option
padding_bytes-ok bytes true k = ground arith
padding_bytes-ok bytes false k = refl

finish_padding-ok :
    (h : RtpHeader) (r : Result RtpError ℕ)
    → finish_padding h (to_option r) ≡ to_option (with_padding h r)
unfolding finish_padding with_padding to_option
finish_padding-ok h (ok pad) = refl
finish_padding-ok h (err e) = refl

finish_extension-ok :
    (bytes : List ℕ) (h : RtpHeader) (r : Result RtpError ℕ)
    → finish_extension bytes h (to_option r) ≡ to_option (with_extension bytes h r)
unfolding finish_extension with_extension to_option
finish_extension-ok bytes h (ok k) =
    rw (padding_bytes-ok bytes h.padding k)
      (finish_padding-ok (record h { header_len_bytes = k }) (padding_of bytes h.padding k))
finish_extension-ok bytes h (err e) = refl

finish-parse :
    (bytes : List ℕ)
    → 12 ≤ length bytes
    → finish bytes (fixed_fields bytes) ≡ to_option (parse bytes)
unfolding finish parse to_option
finish-parse bytes h =
    let hdr = fixed_fields bytes in
    let end = extension_end bytes hdr.extension hdr.header_len_bytes in
    rw
      (
        end_of_extension-ok bytes hdr.extension hdr.header_len_bytes,
        finish_extension-ok bytes hdr end,
      )
      (ground arith)

IsBytes-take : (n : ℕ) (xs : List ℕ) → IsBytes xs → IsBytes (take n xs)
IsBytes-take zero xs h = tt
IsBytes-take (suc n) [] h = tt
IsBytes-take (suc n) (x ∷ xs) h = (h.0, IsBytes-take n xs h.1)

IsBytes-zeros : (n : ℕ) → IsBytes (replicate n 0)
IsBytes-zeros zero = tt
IsBytes-zeros (suc n) = (omega arith, IsBytes-zeros n)

IsBytes-append : (xs ys : List ℕ) → IsBytes xs → IsBytes ys → IsBytes (xs ++ ys)
IsBytes-append [] ys h k = k
IsBytes-append (x ∷ xs) ys h k = (h.0, IsBytes-append xs ys h.1 k)

load_16-IsBytes : (bytes : List ℕ) → IsBytes bytes → IsBytes (load_16 bytes)
unfolding load_16
load_16-IsBytes bytes h = elim (Bool-cases (leb 16 (length bytes))) [
  | inl long ↦ rw long (IsBytes-take 16 bytes h)
  | inr short ↦
      rw short (
        IsBytes-append bytes (replicate (16 - length bytes) 0) h
          (IsBytes-zeros (16 - length bytes)))
]

parse_on-parse :
    (cpu : Cpu) (bytes : List ℕ)
    → IsBytes bytes
    → 12 ≤ length bytes
    → parse_on cpu bytes ≡ to_option (parse bytes)
unfolding parse_on parse_simd_x86 parse_simd_neon
parse_on-parse sse4_1 bytes h long =
    ap (finish bytes)
      (fields_x86-neon (load_16 bytes) (load_16-IsBytes bytes h) ∙ fields_neon-load bytes long)
    ∙ finish-parse bytes long
parse_on-parse neon bytes h long =
    ap (finish bytes) (fields_neon-load bytes long) ∙ finish-parse bytes long
parse_on-parse scalar bytes h long = refl

parse-short :
    (bytes : List ℕ)
    → ltb (length bytes) rtp_header_min_size_bytes ≡ true
    → to_option (parse bytes) ≡ none
unfolding parse to_option
parse-short bytes short = rw short

-- On every machine the vector parser accepts what the scalar parser accepts, with the same header.
pub parse_simd-parse :
    (cpu : Cpu) (bytes : List ℕ) → IsBytes bytes → parse_simd cpu bytes ≡ to_option (parse bytes)
unfolding parse_simd
parse_simd-parse cpu bytes h = elim (Bool-cases (ltb (length bytes) rtp_header_min_size_bytes)) [
  | inl short ↦ rw short (sym (parse-short bytes short))
  | inr long ↦ rw long (parse_on-parse cpu bytes h (ground arith))
]
