-- ===== src/Media/Rtcp/Twcc/Symbols.antt =====
-- What the status chunks of a Transport-CC feedback of rtcp/packet.rs announce.
use nexus_sfu.Base.{
  ℕ, suc, ◌+◌, ◌-◌, ◌^◌, ◌≤◌, ◌<◌, max, bit_or, ◌≡◌, inl, inr, Bool, true, false, ◌&&◌, Option,
  none, some, List, [], ◌∷◌, arith, ℕ_discrete, ltb, leb, ◌==◌, if◌then◌else◌, Bool-cases, length,
  get_or,
}
use nexus_sfu.Base.Bits.{bit, bit-bit_or, bit-pow, bit-lt}
use nexus_sfu.Media.Rtcp.Reports.{ℤ, pos, negsuc}
use nexus_sfu.Media.Rtcp.Twcc.{is_received, set_symbols}

-- What symbol `i` of the packets adds to a chunk.
abbrev pub symbol : List (Option ℤ) → ℕ → ℕ
symbol ps i = if is_received (get_or ps i none) then 1 else 0

bit-received :
    (p : Option ℤ) (j k chunk : ℕ)
    → bit (if is_received p then bit_or chunk (2 ^ (13 - j)) else chunk) k
      ≡ max (bit chunk k) (if is_received p && 13 - j == k then 1 else 0)
bit-received none j k chunk = ground (arith, bit-lt chunk k)
bit-received (some d) j k chunk =
    ground (arith, bit-bit_or k chunk (2 ^ (13 - j)), bit-pow (13 - j) k)

bit-set_symbols :
    (ps : List (Option ℤ)) (j k chunk : ℕ)
    → j + length ps ≤ 14
    → k ≤ 13
    → bit (set_symbols ps j chunk) k
      ≡ max (bit chunk k) (if leb j (13 - k) then symbol ps (13 - k - j) else 0)
unfolding set_symbols
bit-set_symbols [] j k chunk few low = ground arith
bit-set_symbols (p ∷ ps) j k chunk few low =
    let ih =
      bit-set_symbols ps (j + 1) k (if is_received p then bit_or chunk (2 ^ (13 - j)) else chunk)
        (omega arith) low in
    let now = bit-received p j k chunk in
    elim (ℕ_discrete (13 - k) j) [
      | yes here ↦ let zeroth : 13 - k - j ≡ 0 = omega arith in rw (ih, now, zeroth) (ground arith)
      | no ne ↦ elim (Bool-cases (leb j (13 - k))) [
        | inl after_it ↦
            let next : 13 - k - j ≡ suc (13 - k - (j + 1)) = ground arith in
            rw (ih, now, next) (ground arith)
        | inr before ↦ rw (ih, now) (ground arith)
      ]
    ]

-- Symbol `i` of a chunk of up to 14 packets tells if packet `i` was received, and the chunk is marked as a
-- vector of one-bit symbols.
pub set_symbols-announces :
    (ps : List (Option ℤ)) (i : ℕ)
    → length ps ≤ 14
    → i < 14
    → bit (set_symbols ps 0 (2 ^ 15)) (13 - i) ≡ symbol ps i
set_symbols-announces ps i few h =
    let back : 13 - (13 - i) ≡ i = omega arith in
    let at_i : i - 0 ≡ i = omega arith in
    rw (bit-set_symbols ps 0 (13 - i) (2 ^ 15) (omega arith) (omega arith))
      (ground (arith, bit-pow 15 (13 - i)))

-- A delta that takes two bytes.
abbrev pub is_wide : Option ℤ → Bool
is_wide none = false
is_wide (some (pos n)) = ltb 255 n
is_wide (some (negsuc n)) = true
