-- ===== src/Base/Bits.antt =====
-- Bits of native numbers: what `&`, `|`, `<<` and a mask do to the single bits.
use Prim.Native.Nat.{
  ℕ, zero, suc, ◌+◌, ◌-◌, ◌*◌, ◌/◌, ◌%◌, ◌^◌, ◌≤◌, ◌<◌, min, max, bit_and, bit_or, digits,
  bit_and-bitwise, bit_or-bitwise, bitwise,
}
use mathlib.Core.Path.{◌≡◌, refl, ap, sym, ◌∙◌}
use native.Mathlib.Nat.{
  pow-suc, mod-lt, mod-eq_of_lt, one-le-pow, div-add-mod, mul_comm, add-mul-mod_self_right,
}
use native.Mathlib.Omega.{arith}
use native.Mathlib.Decide.{ℕ_discrete}
use nexus_sfu.Base.Tests.{ltb, if◌then◌else◌, ◌==◌}

-- The operations mean a recursion on binary digits with fuel; fuel beyond the left number changes
-- nothing, which leaves one equation for the lowest digit.
module _ (rest : ℕ → ℕ) (op : ℕ → ℕ → ℕ) where
  spare_fuel : (n a b : ℕ) → a ≤ n → digits rest op (suc n) a b ≡ digits rest op n a b
  spare_fuel zero zero b h = refl
  spare_fuel zero (suc a) b h = absurd (omega arith)
  spare_fuel (suc n) zero b h = refl
  spare_fuel (suc n) (suc a) b h = rw (spare_fuel n (suc a / 2) (b / 2) (omega arith))

  exact_fuel : (n a b : ℕ) → a ≤ n → digits rest op n a b ≡ digits rest op a a b
  exact_fuel zero zero b h = refl
  exact_fuel zero (suc a) b h = absurd (omega arith)
  exact_fuel (suc n) a b h = elim (ℕ_discrete a (suc n)) [
    | yes e ↦ rw e
    | no ne ↦ spare_fuel n a b (omega arith) ∙ exact_fuel n a b (omega arith)
  ]

  lowest_digit :
      (k b : ℕ)
      → let a = suc k in
        bitwise rest op a b ≡ op (a % 2) (b % 2) + 2 * bitwise rest op (a / 2) (b / 2)
  lowest_digit k b = omega (arith, exact_fuel k (suc k / 2) (b / 2) (omega arith))

pub bit_or_step : (a b : ℕ) → bit_or a b ≡ max (a % 2) (b % 2) + 2 * bit_or (a / 2) (b / 2)
bit_or_step zero b = simp bit_or-bitwise (omega arith)
bit_or_step (suc k) b = simp bit_or-bitwise (lowest_digit (λ y. y) max k b)

pub bit_and_step : (a b : ℕ) → bit_and a b ≡ min (a % 2) (b % 2) + 2 * bit_and (a / 2) (b / 2)
bit_and_step zero b = simp bit_and-bitwise (omega arith)
bit_and_step (suc k) b = simp bit_and-bitwise (lowest_digit (λ y. 0) min k b)

-- Bit `k` of a number.
unfoldable pub bit : ℕ → ℕ → ℕ
bit x zero = x % 2
bit x (suc k) = bit (x / 2) k

pub bit-lt : (x k : ℕ) → bit x k < 2
unfolding bit
bit-lt x zero = omega arith
bit-lt x (suc k) = bit-lt (x / 2) k

pub bit-zero : (k : ℕ) → bit 0 k ≡ 0
unfolding bit
bit-zero zero = refl
bit-zero (suc k) = bit-zero k

pub bit-bit_or : (k a b : ℕ) → bit (bit_or a b) k ≡ max (bit a k) (bit b k)
unfolding bit
bit-bit_or zero a b = omega (arith, bit_or_step a b)
bit-bit_or (suc k) a b =
    let half : bit_or a b / 2 ≡ bit_or (a / 2) (b / 2) = omega (arith, bit_or_step a b) in
    rw half (bit-bit_or k (a / 2) (b / 2))

-- Zero adds no bit.
bit_or-nothing : (bound a : ℕ) → a ≤ bound → bit_or a 0 ≡ a
bit_or-nothing bound zero h = refl
bit_or-nothing zero (suc k) h = absurd (omega arith)
bit_or-nothing (suc bound) (suc k) h =
    let half = bit_or-nothing bound (suc k / 2) (omega arith) in
    omega (arith, half, bit_or_step (suc k) 0)

-- `(q << k) | r` is a sum when `r` fits `k` bits.
pub bit_or_fields : (k q r : ℕ) → r < 2 ^ k → bit_or (q * 2 ^ k) r ≡ q * 2 ^ k + r
bit_or_fields zero q r fits = ground (arith, bit_or-nothing q q)
bit_or_fields (suc k) q r fits =
    let e : q * 2 ^ suc k ≡ 2 * (q * 2 ^ k) = omega (arith, ap (λ (t : ℕ). q * t) (pow-suc 2 k)) in
    let two : 2 ^ suc k ≡ 2 * 2 ^ k = omega (arith, pow-suc 2 k) in
    let half : q * 2 ^ suc k / 2 ≡ q * 2 ^ k = omega (arith, e) in
    let ih : bit_or (q * 2 ^ k) (r / 2) ≡ q * 2 ^ k + r / 2 =
      bit_or_fields k q (r / 2) (omega arith) in
    let split : bit_or (q * 2 ^ suc k / 2) (r / 2) ≡ q * 2 ^ k + r / 2 = rw half ih in
    omega (arith, bit_or_step (q * 2 ^ suc k) r, split)

-- A number and zero have no bit in common.
bit_and-nothing : (bound a : ℕ) → a ≤ bound → bit_and a 0 ≡ 0
bit_and-nothing bound zero h = refl
bit_and-nothing zero (suc k) h = absurd (omega arith)
bit_and-nothing (suc bound) (suc k) h =
    let half = bit_and-nothing bound (suc k / 2) (omega arith) in
    omega (arith, half, bit_and_step (suc k) 0)

pub bit_and-zero : (a : ℕ) → bit_and a 0 ≡ 0
bit_and-zero a = bit_and-nothing a a (omega arith)

-- `a & (1 << k)` isolates bit `k`.
pub bit_and-pow : (k a : ℕ) → bit_and a (2 ^ k) ≡ bit a k * 2 ^ k
unfolding bit
bit_and-pow zero a = omega (arith, bit_and_step a 1, bit_and-zero (a / 2))
bit_and-pow (suc k) a = ground (
  arith,
  bit_and_step a (2 ^ suc k),
  bit_and-pow k (a / 2),
  pow-suc 2 k,
  ap (λ (t : ℕ). bit (a / 2) k * t) (pow-suc 2 k),
)

pub bit-pow : (k j : ℕ) → bit (2 ^ k) j ≡ (if k == j then 1 else 0)
unfolding bit
bit-pow zero zero = refl
bit-pow zero (suc j) = rw (bit-zero j) (ground arith)
bit-pow (suc k) zero = ground (arith, pow-suc 2 k)
bit-pow (suc k) (suc j) =
    let half : 2 ^ suc k / 2 ≡ 2 ^ k = omega (arith, pow-suc 2 k) in
    rw half (bit-pow k j ∙ ground arith)

-- `x << s` moves every bit up by `s`.
pub bit-shift : (s x j : ℕ) → bit (x * 2 ^ s) j ≡ (if ltb j s then 0 else bit x (j - s))
unfolding bit
bit-shift zero x j = ground arith
bit-shift (suc s) x zero = ground (arith, ap (λ (t : ℕ). x * t) (pow-suc 2 s))
bit-shift (suc s) x (suc j) =
    let half : x * 2 ^ suc s / 2 ≡ x * 2 ^ s = omega (arith, ap (λ (t : ℕ). x * t) (pow-suc 2 s)) in
    rw half (bit-shift s x j ∙ ground arith)

-- The two parts of `x % 2P` in terms of the quotient, which is named so that products are linear.
half_mod : (x P q r : ℕ) → x ≡ q * (2 * P) + r → r < 2 * P → x / 2 ≡ r / 2 + q * P
half_mod x P q r e h = omega (arith, e)

mod-pow-suc_half : (n x : ℕ) → x % 2 ^ suc n / 2 ≡ x / 2 % 2 ^ n
mod-pow-suc_half n x =
    let P = 2 ^ n in
    let pos : 0 < P = one-le-pow n 2 (omega arith) in
    let dbl : 2 ^ suc n ≡ 2 * P = omega (arith, pow-suc 2 n) in
    let r = x % (2 * P) in
    let q = x / (2 * P) in
    let e : x / 2 ≡ r / 2 + q * P =
      half_mod x P q r (omega (arith, div-add-mod x (2 * P), mul_comm q (2 * P)))
        (mod-lt x (omega arith)) in
    rw (dbl, e, add-mul-mod_self_right)
      (sym (mod-eq_of_lt (omega (arith, mod-lt x {m = 2 * P} (omega arith)))))

mod-pow-suc_even : (n x : ℕ) → x % 2 ^ suc n % 2 ≡ x % 2
mod-pow-suc_even n x =
    let P = 2 ^ n in
    let dbl : 2 ^ suc n ≡ 2 * P = omega (arith, pow-suc 2 n) in
    rw dbl (omega (arith, div-add-mod x (2 * P), mul_comm (x / (2 * P)) (2 * P)))

-- A cut to `n` bits keeps the bits below `n`.
pub bit-mod : (n j x : ℕ) → j < n → bit (x % 2 ^ n) j ≡ bit x j
unfolding bit
bit-mod zero j x h = elim h [ ]
bit-mod (suc n) zero x h = mod-pow-suc_even n x
bit-mod (suc n) (suc j) x h = rw (mod-pow-suc_half n x) (bit-mod n j (x / 2) (omega arith))

-- `|` of two numbers of `n` bits has `n` bits.
pub bit_or-lt : (n a b : ℕ) → a < 2 ^ n → b < 2 ^ n → bit_or a b < 2 ^ n
bit_or-lt zero zero zero h g = omega (arith, bit_or-nothing 0 0)
bit_or-lt zero zero (suc b) h g = absurd (omega (arith, g))
bit_or-lt zero (suc a) b h g = absurd (omega (arith, h))
bit_or-lt (suc n) a b h g =
    let two : 2 ^ suc n ≡ 2 * 2 ^ n = omega (arith, pow-suc 2 n) in
    let half = bit_or-lt n (a / 2) (b / 2) (omega (arith, two, h)) (omega (arith, two, g)) in
    omega (arith, two, half, bit_or_step a b)

pub pow_mono : (i n : ℕ) → i < n → 2 ^ i < 2 ^ n
pow_mono i zero h = elim h [ ]
pow_mono zero (suc n) h = omega (arith, pow-suc 2 n, one-le-pow n 2 (omega arith))
pow_mono (suc i) (suc n) h = omega (arith, pow-suc 2 i, pow-suc 2 n, pow_mono i n (omega arith))
