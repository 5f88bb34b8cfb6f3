-- ===== src/Base/Reads.antt =====
-- Reads of a byte list at an offset, as reads of what follows the offset.
use Prim.Native.Nat.{ℕ, zero, suc, ◌+◌, ◌-◌}
use mathlib.Core.Path.{◌≡◌, refl, sym, ap, ◌∙◌}
use mathlib.Core.List.{List, [], ◌∷◌, ◌++◌}
use native.Mathlib.Omega.{arith}
use nexus_sfu.Base.Lists.{length, get_or, drop, length-drop}
use nexus_sfu.Base.Bytes.{be_u16, be_u32, be_u64}
use nexus_sfu.Base.Slices.{drop-append, drop-drop}

pub get_or-drop : (xs : List ℕ) (n i d : ℕ) → get_or (drop n xs) i d ≡ get_or xs (n + i) d
get_or-drop xs zero i d = let e : i ≡ zero + i = omega arith in ap (λ k. get_or xs k d) e
get_or-drop [] (suc n) i d = refl
get_or-drop (x ∷ xs) (suc n) i d =
    let e : suc (n + i) ≡ suc n + i = omega arith in
    get_or-drop xs n i d ∙ ap (λ k. get_or (x ∷ xs) k d) e

-- A read at an offset is a read at the start of what follows.
pub be_u16-drop : (bytes : List ℕ) (at : ℕ) → be_u16 bytes at ≡ be_u16 (drop at bytes) 0
unfolding be_u16
be_u16-drop bytes at = ground (arith, get_or-drop bytes at 0 0, get_or-drop bytes at 1 0)

pub be_u32-drop : (bytes : List ℕ) (at k : ℕ) → be_u32 bytes (at + k) ≡ be_u32 (drop at bytes) k
unfolding be_u32
be_u32-drop bytes at k = ground (
  arith,
  get_or-drop bytes at k 0,
  get_or-drop bytes at (k + 1) 0,
  get_or-drop bytes at (k + 2) 0,
  get_or-drop bytes at (k + 3) 0,
)

pub be_u64-drop : (bytes : List ℕ) (at k : ℕ) → be_u64 bytes (at + k) ≡ be_u64 (drop at bytes) k
unfolding be_u64
be_u64-drop bytes at k = ground (arith, be_u32-drop bytes at k, be_u32-drop bytes at (k + 4))

-- What follows an offset is as long as the rest.
pub length-rest : (bytes xs : List ℕ) (at : ℕ) → drop at bytes ≡ xs → length bytes - at ≡ length xs
length-rest bytes xs at e = sym (length-drop at bytes) ∙ ap length e

pub after :
    (bytes xs ys : List ℕ) (at : ℕ) → drop at bytes ≡ xs ++ ys → drop (at + length xs) bytes ≡ ys
after bytes xs ys at e =
    sym (drop-drop at (length xs) bytes) ∙ ap (drop (length xs)) e ∙ drop-append xs ys
