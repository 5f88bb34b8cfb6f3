-- ===== src/Base/Bytes.antt =====
-- Big-endian words in byte lists. A read past the end gives 0; the callers check the bounds.
use Prim.Native.Nat.{ℕ, zero, suc, ◌+◌, ◌*◌, ◌/◌, ◌%◌, ◌<◌}
use mathlib.Core.Path.{◌≡◌, refl}
use mathlib.Core.List.{List, [], ◌∷◌, ◌++◌}
use native.Mathlib.Omega.{arith}
use nexus_sfu.Base.Lists.{length, get_or, take, drop}

-- `u16::from_be_bytes` and `u32::from_be_bytes` at an offset.
unfoldable pub be_u16 : List ℕ → ℕ → ℕ
be_u16 buf at = get_or buf at 0 * 256 + get_or buf (at + 1) 0

unfoldable pub be_u32 : List ℕ → ℕ → ℕ
be_u32 buf at =
    get_or buf at 0 * 16777216
    + get_or buf (at + 1) 0 * 65536
    + get_or buf (at + 2) 0 * 256
    + get_or buf (at + 3) 0

-- `to_be_bytes`
unfoldable pub u16_bytes : ℕ → List ℕ
u16_bytes x = x / 256 % 256 ∷ x % 256 ∷ []

unfoldable pub u32_bytes : ℕ → List ℕ
u32_bytes x = x / 16777216 % 256 ∷ x / 65536 % 256 ∷ x / 256 % 256 ∷ x % 256 ∷ []

-- `u64::from_be_bytes` and `to_be_bytes`
unfoldable pub be_u64 : List ℕ → ℕ → ℕ
unfolding be_u32
be_u64 buf at = be_u32 buf at * 4294967296 + be_u32 buf (at + 4)

unfoldable pub u64_bytes : ℕ → List ℕ
unfolding u32_bytes
u64_bytes x = u32_bytes (x / 4294967296) ++ u32_bytes x

-- `dst[at..at + xs.len()].copy_from_slice(xs)`; the callers check the bounds.
unfoldable pub write_at : List ℕ → ℕ → List ℕ → List ℕ
write_at dst at xs = take at dst ++ (xs ++ drop (at + length xs) dst)

-- Every element is a byte.
abbrev pub IsBytes : List ℕ → Type 0
IsBytes [] = Unit {0}
IsBytes (x ∷ xs) = (x < 256) × IsBytes xs

pub get_or-lt : (xs : List ℕ) (i : ℕ) → IsBytes xs → get_or xs i 0 < 256
get_or-lt [] i h = omega arith
get_or-lt (x ∷ xs) zero h = h.0
get_or-lt (x ∷ xs) (suc i) h = get_or-lt xs i h.1

pub get_or-take : (xs : List ℕ) (n i d : ℕ) → i < n → get_or (take n xs) i d ≡ get_or xs i d
get_or-take xs zero i d h = elim h [ ]
get_or-take [] (suc n) i d h = refl
get_or-take (x ∷ xs) (suc n) zero d h = refl
get_or-take (x ∷ xs) (suc n) (suc i) d h = get_or-take xs n i d (omega arith)

pub get_or-append :
    (xs ys : List ℕ) (i d : ℕ) → i < length xs → get_or (xs ++ ys) i d ≡ get_or xs i d
get_or-append [] ys i d h = elim h [ ]
get_or-append (x ∷ xs) ys zero d h = refl
get_or-append (x ∷ xs) ys (suc i) d h = get_or-append xs ys i d (omega arith)

-- Reading back what was written.
pub be_u16-u16_bytes : (x : ℕ) (rest : List ℕ) → x < 65536 → be_u16 (u16_bytes x ++ rest) 0 ≡ x
unfolding be_u16 u16_bytes
be_u16-u16_bytes x rest h = omega arith

pub be_u32-u32_bytes : (x : ℕ) (rest : List ℕ) → x < 4294967296 → be_u32 (u32_bytes x ++ rest) 0 ≡ x
unfolding be_u32 u32_bytes
be_u32-u32_bytes x rest h = omega arith

pub be_u64-u64_bytes :
    (x : ℕ) (rest : List ℕ) → x < 18446744073709551616 → be_u64 (u64_bytes x ++ rest) 0 ≡ x
unfolding be_u64 u64_bytes
be_u64-u64_bytes x rest h = omega arith
