-- ===== src/Media/Rtcp/Twcc/Reader.antt =====
-- The Transport-CC feedback of rtcp/packet.rs, seen by a reader that follows the format: the status count at byte
-- 14, chunks of 14 one-bit symbols from byte 20 on, then one byte for each packet that is announced.
use nexus_sfu.Base.{
  ℕ, ◌+◌, ◌-◌, ◌*◌, ◌/◌, ◌%◌, ◌<◌, ◌≡◌, refl, sym, ap, ap₂, subst, ◌∙◌, ◌↔◌, inl, inr, Bool, true,
  false, ◌||◌, Option, none, some, List, [], ◌∷◌, ◌++◌, map, append_assoc, arith, ltb, leb, ◌==◌,
  if◌then◌else◌, Bool-cases, length, drop, replicate, length-set, length-replicate, some_eq, count,
}
use nexus_sfu.Base.Slices.{drop-append}
use nexus_sfu.Base.Bytes.{be_u16, u16_bytes, u32_bytes}
use nexus_sfu.Media.Rtcp.Reports.{ℤ, pos, negsuc}
use nexus_sfu.Media.Rtcp.Twcc.{
  is_received, delta_bytes, deltas_bytes, chunk_bytes, body, framed, padding, build_twcc,
  record_arrivals, last_seq,
}
use nexus_sfu.Media.Rtcp.Twcc.Symbols.{is_wide}
use nexus_sfu.Media.Rtcp.Twcc.Chunks.{
  read_symbols, read_deltas, read_feedback, length-chunk_bytes, read_symbols-chunk_bytes,
}

byte_of : Option ℤ → ℕ
byte_of (some (pos n)) = n
byte_of _ = 0

head_of : List (Option ℤ) → Option ℤ
head_of [] = none
head_of (p ∷ ps) = p

-- A delta in two bytes is taken for its first byte.
positive :
    (n : ℕ) (ps : List (Option ℤ)) (rest : List ℕ) (narrow : Bool)
    → leb n 255 ≡ narrow
    → (read_deltas (map is_received ps) (deltas_bytes ps ++ rest) ≡ ps) ↔ (count is_wide ps ≡ 0)
    → (read_deltas (map is_received (some (pos n) ∷ ps)) (deltas_bytes (some (pos n) ∷ ps) ++ rest)
        ≡ some (pos n) ∷ ps)
      ↔ (count is_wide (some (pos n) ∷ ps) ≡ 0)
unfolding read_deltas deltas_bytes delta_bytes count u16_bytes byte_of head_of
positive n ps rest true h (f, g) =
    let no : ltb 255 n ≡ false = ground arith in
    rw (h, no) (λ e. f (ap (drop 1) e), λ e. ap (λ xs. some (pos n) ∷ xs) (g e))
positive n ps rest false h (f, g) =
    let yes : ltb 255 n ≡ true = ground arith in
    let over : 255 < n = ground arith in
    rw (h, yes)
      (
        λ e.
            let same : n / 256 % 256 ≡ n = ap (λ xs. byte_of (head_of xs)) e in
            absurd (omega (arith, same, over)),
        λ e. absurd (omega (arith, e)),
      )

-- The reader takes the bytes for what they are as long as every delta fits a byte, and only then.
read_deltas-deltas_bytes :
    (ps : List (Option ℤ)) (rest : List ℕ)
    → (read_deltas (map is_received ps) (deltas_bytes ps ++ rest) ≡ ps) ↔ (count is_wide ps ≡ 0)
unfolding read_deltas deltas_bytes delta_bytes count u16_bytes
read_deltas-deltas_bytes [] rest = (λ e. refl, λ e. refl)
read_deltas-deltas_bytes (none ∷ ps) rest =
    let (f, g) = read_deltas-deltas_bytes ps rest in
    (λ e. f (ap (drop 1) e), λ e. ap (λ xs. none ∷ xs) (g e))
read_deltas-deltas_bytes (some (pos n) ∷ ps) rest =
    positive n ps rest (leb n 255) refl (read_deltas-deltas_bytes ps rest)
read_deltas-deltas_bytes (some (negsuc n) ∷ ps) rest =
    (λ e. absurd (cc), λ e. absurd (omega (arith, e)))

-- What the arrivals say of each packet from the first number to the last.
abbrev pub packets_of : ℕ → ℕ → List (ℕ × ℕ) → List (Option ℤ)
packets_of base_seq ref_time_us arrivals =
    record_arrivals ((base_seq, ref_time_us) ∷ arrivals) base_seq ref_time_us
      (replicate ((last_seq base_seq arrivals + 65536 - base_seq + 1) % 65536) none)

read_feedback-framed :
    (s m f b t : ℕ) (ps : List (Option ℤ))
    → length ps < 65536
    → (read_feedback (framed (body s m f b t ps)) ≡ ps) ↔ (count is_wide ps ≡ 0)
unfolding read_feedback framed body be_u16 u16_bytes u32_bytes
read_feedback-framed s m f b t ps few =
    let rest = padding (length (body s m f b t ps)) in
    let n : be_u16 (framed (body s m f b t ps)) 14 ≡ length ps = omega arith in
    let whole : chunk_bytes (length ps) ps ++ (deltas_bytes ps ++ rest)
        ≡ drop 20 (framed (body s m f b t ps)) =
      sym (append_assoc (chunk_bytes (length ps) ps) (deltas_bytes ps) rest) in
    let chunks = drop 20 (framed (body s m f b t ps)) in
    let ends : drop (2 * ((length ps + 13) / 14))
          (chunk_bytes (length ps) ps ++ (deltas_bytes ps ++ rest))
        ≡ deltas_bytes ps ++ rest =
      ap (λ k. drop k (chunk_bytes (length ps) ps ++ (deltas_bytes ps ++ rest)))
        (sym (length-chunk_bytes (length ps) ps (omega arith)))
      ∙ drop-append (chunk_bytes (length ps) ps) (deltas_bytes ps ++ rest) in
    let read : read_feedback (framed (body s m f b t ps))
        ≡ read_deltas (map is_received ps) (deltas_bytes ps ++ rest) =
      ap (λ k. read_deltas (read_symbols k 0 chunks) (drop (2 * ((k + 13) / 14)) chunks)) n
      ∙ ap
          (λ xs.
            read_deltas (read_symbols (length ps) 0 xs) (drop (2 * ((length ps + 13) / 14)) xs))
          (sym whole)
      ∙ ap₂ read_deltas
          (read_symbols-chunk_bytes (length ps) 0 ps (deltas_bytes ps ++ rest) (omega arith))
          ends in
    subst (λ xs. (xs ≡ ps) ↔ (count is_wide ps ≡ 0)) (sym read) (read_deltas-deltas_bytes ps rest)

length-record_arrivals :
    (arrivals : List (ℕ × ℕ)) (b t : ℕ) (ps : List (Option ℤ))
    → length (record_arrivals arrivals b t ps) ≡ length ps
unfolding record_arrivals
length-record_arrivals [] b t ps = refl
length-record_arrivals ((seq, at) ∷ arrivals) b t ps =
    elim (Bool-cases (ltb ((seq + 65536 - b) % 65536) (length ps))) [
      | inl within ↦ rw within (length-record_arrivals arrivals b t _ ∙ length-set ps _ _)
      | inr outside ↦ rw outside (length-record_arrivals arrivals b t ps)
    ]

guarded :
    (test : Bool) (xs ys : List ℕ)
    → (if test then none else some xs) ≡ some ys
    → (test ≡ false) × (xs ≡ ys)
guarded true xs ys h = cc
guarded false xs ys h = (refl, some_eq h)

-- Of the feedback that is built, a reader that follows the format gets back which packets arrived and the
-- delta of each if, and only if, no delta is outside 0 to 255.
pub read_feedback-build_twcc :
    (s m f b t : ℕ) (arrivals : List (ℕ × ℕ)) (bytes : List ℕ)
    → build_twcc s m f ((b, t) ∷ arrivals) ≡ some bytes
    → (read_feedback bytes ≡ packets_of b t arrivals)
      ↔ (count is_wide (packets_of b t arrivals) ≡ 0)
unfolding build_twcc
read_feedback-build_twcc s m f b t arrivals bytes h =
    let n = (last_seq b arrivals + 65536 - b + 1) % 65536 in
    let absent : Option ℤ = none in
    let few : length (packets_of b t arrivals) < 65536 = omega (
      arith,
      length-record_arrivals ((b, t) ∷ arrivals) b t (replicate n absent),
      length-replicate n absent,
    ) in
    let made = (guarded (n == 0 || ltb 256 n) _ bytes h).1 in
    subst
      (λ xs.
        (read_feedback xs ≡ packets_of b t arrivals)
        ↔ (count is_wide (packets_of b t arrivals) ≡ 0))
      made (read_feedback-framed s m f b t (packets_of b t arrivals) few)
