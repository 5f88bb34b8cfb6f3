-- ===== src/Media/Rtcp/Twcc/Chunks.antt =====
-- The status chunks of a Transport-CC feedback of rtcp/packet.rs, read by the format.
use nexus_sfu.Base.{
  ℕ, zero, suc, ◌+◌, ◌-◌, ◌*◌, ◌/◌, ◌%◌, ◌^◌, ◌≤◌, ◌<◌, bit_or, ◌≡◌, refl, sym, ap, ap₂, ◌∙◌, inl,
  inr, Bool, true, false, Option, none, some, List, [], ◌∷◌, ◌++◌, map, arith, ◌==◌, if◌then◌else◌,
  Bool-cases, length, get_or, take, drop, length-take, length-drop,
}
use nexus_sfu.Base.Bits.{bit, bit_or-lt, pow_mono}
use nexus_sfu.Base.Slices.{drop-drop}
use nexus_sfu.Base.Bytes.{be_u16, u16_bytes, be_u16-u16_bytes}
use nexus_sfu.Media.Rtcp.Reports.{ℤ, pos}
use nexus_sfu.Media.Rtcp.Twcc.{is_received, set_symbols, chunk_bytes}
use nexus_sfu.Media.Rtcp.Twcc.Symbols.{set_symbols-announces}

-- The symbols from packet `i` on, in chunks of 14.
pub read_symbols : ℕ → ℕ → List ℕ → List Bool
read_symbols zero i chunks = []
read_symbols (suc n) i chunks =
    (bit (be_u16 chunks (2 * (i / 14))) (13 - i % 14) == 1) ∷ read_symbols n (i + 1) chunks

-- One byte for each packet that is announced.
unfoldable pub read_deltas : List Bool → List ℕ → List (Option ℤ)
read_deltas [] bytes = []
read_deltas (false ∷ symbols) bytes = none ∷ read_deltas symbols bytes
read_deltas (true ∷ symbols) bytes =
    some (pos (get_or bytes 0 0)) ∷ read_deltas symbols (drop 1 bytes)

-- What a reader makes of a feedback.
unfoldable pub read_feedback : List ℕ → List (Option ℤ)
unfolding read_symbols read_deltas be_u16
read_feedback bytes =
    let n = be_u16 bytes 14 in
    let chunks = drop 20 bytes in
    read_deltas (read_symbols n 0 chunks) (drop (2 * ((n + 13) / 14)) chunks)

set_symbols-lt :
    (ps : List (Option ℤ)) (j chunk : ℕ) → chunk < 2 ^ 16 → set_symbols ps j chunk < 2 ^ 16
unfolding set_symbols
set_symbols-lt [] j chunk h = h
set_symbols-lt (none ∷ ps) j chunk h = set_symbols-lt ps (j + 1) chunk h
set_symbols-lt (some d ∷ ps) j chunk h =
    set_symbols-lt ps (j + 1) (bit_or chunk (2 ^ (13 - j)))
      (bit_or-lt 16 chunk (2 ^ (13 - j)) h (pow_mono (13 - j) 16 (omega arith)))

be_u16_next : (a b : ℕ) (xs : List ℕ) (k : ℕ) → be_u16 (a ∷ b ∷ xs) (2 * suc k) ≡ be_u16 xs (2 * k)
unfolding be_u16
be_u16_next a b xs k =
    let even : 2 * suc k ≡ suc (suc (2 * k)) = omega arith in
    let odd : 2 * suc k + 1 ≡ suc (suc (2 * k + 1)) = omega arith in
    ap₂ (λ i j. get_or (a ∷ b ∷ xs) i 0 * 256 + get_or (a ∷ b ∷ xs) j 0) even odd

-- Chunk `k` is about the packets from 14 k on.
chunk_bytes-at :
    (rounds k : ℕ) (ps : List (Option ℤ)) (rest : List ℕ)
    → length ps ≤ rounds
    → 14 * k < length ps
    → be_u16 (chunk_bytes rounds ps ++ rest) (2 * k)
      ≡ set_symbols (take 14 (drop (14 * k) ps)) 0 (2 ^ 15)
unfolding chunk_bytes
chunk_bytes-at zero k ps rest few h = absurd (omega (arith, h, few))
chunk_bytes-at (suc rounds) zero ps rest few h =
    let off : (length ps == 0) ≡ false = ground arith in
    rw off (
      be_u16-u16_bytes (set_symbols (take 14 ps) 0 (2 ^ 15))
        (chunk_bytes rounds (drop 14 ps) ++ rest)
        (set_symbols-lt (take 14 ps) 0 (2 ^ 15) (omega arith)))
chunk_bytes-at (suc rounds) (suc k) ps rest few h =
    let off : (length ps == 0) ≡ false = ground arith in
    let there : 14 + 14 * k ≡ 14 * suc k = omega arith in
    let left : length (drop 14 ps) ≤ rounds = omega (arith, length-drop 14 ps) in
    let more : 14 * k < length (drop 14 ps) = omega (arith, length-drop 14 ps) in
    let ih = chunk_bytes-at rounds k (drop 14 ps) rest left more in
    let same : drop (14 * k) (drop 14 ps) ≡ drop (14 * suc k) ps =
      drop-drop 14 (14 * k) ps ∙ ap (λ i. drop i ps) there in
    rw off (
      be_u16_next (set_symbols (take 14 ps) 0 (2 ^ 15) / 256 % 256)
        (set_symbols (take 14 ps) 0 (2 ^ 15) % 256) (chunk_bytes rounds (drop 14 ps) ++ rest) k
      ∙ ih
      ∙ ap (λ xs. set_symbols (take 14 xs) 0 (2 ^ 15)) same)

pub length-chunk_bytes :
    (rounds : ℕ) (ps : List (Option ℤ))
    → length ps ≤ rounds
    → length (chunk_bytes rounds ps) ≡ 2 * ((length ps + 13) / 14)
unfolding chunk_bytes u16_bytes
length-chunk_bytes zero ps few =
    let nothing : (length ps + 13) / 14 ≡ 0 = omega arith in omega (arith, nothing)
length-chunk_bytes (suc rounds) ps few =
    let left : length (drop 14 ps) ≤ rounds = omega (arith, length-drop 14 ps) in
    elim (Bool-cases (length ps == 0)) [
      | inl none_left ↦ let nothing : length ps ≡ 0 = ground arith in rw none_left (rw nothing refl)
      | inr some_left ↦
          let ih = length-chunk_bytes rounds (drop 14 ps) left in
          let at_least : 0 < length ps = ground arith in
          rw some_left (omega (arith, ih, length-drop 14 ps, at_least))
    ]

drop_step :
    (i : ℕ) (ps : List (Option ℤ)) → i < length ps → drop i ps ≡ get_or ps i none ∷ drop (i + 1) ps
drop_step zero [] h = elim h [ ]
drop_step zero (p ∷ ps) h = refl
drop_step (suc i) [] h = elim h [ ]
drop_step (suc i) (p ∷ ps) h =
    let next : suc i + 1 ≡ suc (i + 1) = omega arith in rw next (drop_step i ps (omega arith))

get_or-taken :
    (n i : ℕ) (ps : List (Option ℤ)) → i < n → get_or (take n ps) i none ≡ get_or ps i none
get_or-taken zero i ps h = elim h [ ]
get_or-taken (suc n) i [] h = refl
get_or-taken (suc n) zero (p ∷ ps) h = refl
get_or-taken (suc n) (suc i) (p ∷ ps) h = get_or-taken n i ps (omega arith)

get_or-dropped :
    (n i : ℕ) (ps : List (Option ℤ)) → get_or (drop n ps) i none ≡ get_or ps (n + i) none
get_or-dropped zero i ps = let e : i ≡ zero + i = omega arith in ap (λ k. get_or ps k none) e
get_or-dropped (suc n) i [] = refl
get_or-dropped (suc n) i (p ∷ ps) =
    let e : suc n + i ≡ suc (n + i) = omega arith in rw e (get_or-dropped n i ps)

one_when : (b : Bool) → ((if b then 1 else 0) == 1) ≡ b
one_when true = refl
one_when false = refl

-- The symbol of packet `i`, read from its chunk.
chunk_bytes-symbol :
    (ps : List (Option ℤ)) (rest : List ℕ) (i : ℕ)
    → i < length ps
    → (bit (be_u16 (chunk_bytes (length ps) ps ++ rest) (2 * (i / 14))) (13 - i % 14) == 1)
      ≡ is_received (get_or ps i none)
chunk_bytes-symbol ps rest i h =
    let k = i / 14 in
    let here : 14 * k < length ps = omega arith in
    let of_chunk = take 14 (drop (14 * k) ps) in
    let word = chunk_bytes-at (length ps) k ps rest (omega arith) here in
    let few : length of_chunk ≤ 14 = omega (arith, length-take 14 (drop (14 * k) ps)) in
    let low : i % 14 < 14 = omega arith in
    let at_i : 14 * k + i % 14 ≡ i = omega arith in
    let same : get_or of_chunk (i % 14) none ≡ get_or ps i none =
      get_or-taken 14 (i % 14) (drop (14 * k) ps) low
      ∙ get_or-dropped (14 * k) (i % 14) ps
      ∙ ap (λ j. get_or ps j none) at_i in
    let announced = set_symbols-announces of_chunk (i % 14) few low in
    rw (word, announced, same) (one_when (is_received (get_or ps i none)))

drop_all : (i : ℕ) (ps : List (Option ℤ)) → length ps ≤ i → drop i ps ≡ []
drop_all zero [] h = refl
drop_all zero (p ∷ ps) h = absurd (omega (arith, h))
drop_all (suc i) [] h = refl
drop_all (suc i) (p ∷ ps) h = drop_all i ps (omega arith)

pub read_symbols-chunk_bytes :
    (n i : ℕ) (ps : List (Option ℤ)) (rest : List ℕ)
    → i + n ≡ length ps
    → read_symbols n i (chunk_bytes (length ps) ps ++ rest) ≡ map is_received (drop i ps)
unfolding read_symbols
read_symbols-chunk_bytes zero i ps rest e = sym (ap (map is_received) (drop_all i ps (omega arith)))
read_symbols-chunk_bytes (suc n) i ps rest e =
    ap₂ (λ b bs. b ∷ bs) (chunk_bytes-symbol ps rest i (omega arith))
      (read_symbols-chunk_bytes n (i + 1) ps rest (omega arith))
    ∙ sym (ap (map is_received) (drop_step i ps (omega arith)))
