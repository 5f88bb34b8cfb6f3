-- ===== src/Media/Rtcp/Nack/Masks.antt =====
-- The packets that the mask of a NACK entry names, and how many.
use nexus_sfu.Base.{
  ℕ, zero, suc, ◌+◌, ◌%◌, ◌^◌, ◌≤◌, max, bit_or, ◌≡◌, refl, sym, ap, ◌∙◌, ◌≢◌, Bool, true, false,
  ◌&&◌, ◌||◌, arith, ℕ_discrete, ltb, leb, ◌==◌, if◌then◌else◌,
}
use nexus_sfu.Base.Bits.{bit, bit-bit_or, bit-pow, bit-lt, bit-zero}
use nexus_sfu.Media.Rtcp.Nack.{is_set}

-- The mask names a packet with one of `n` bits from bit `k` on.
unfoldable pub names : ℕ → ℕ → ℕ → ℕ → ℕ → Bool
names zero k pid blp seq = false
names (suc n) k pid blp seq =
    (is_set blp k && seq == (pid + (k + 1)) % 65536) || names n (k + 1) pid blp seq

-- How many of the `n` bits from bit `k` on are set.
unfoldable pub ones : ℕ → ℕ → ℕ → ℕ
ones zero k blp = 0
ones (suc n) k blp = bit blp k + ones n (k + 1) blp

pub names-zero : (n k pid seq : ℕ) → names n k pid 0 seq ≡ false
unfolding names
names-zero zero k pid seq = refl
names-zero (suc n) k pid seq = rw (bit-zero k, names-zero n (k + 1) pid seq) refl

pub ones-zero : (n k : ℕ) → ones n k 0 ≡ 0
unfolding ones
ones-zero zero k = refl
ones-zero (suc n) k = rw (bit-zero k, ones-zero n (k + 1)) refl

bit-set : (blp i k : ℕ) → bit (bit_or blp (2 ^ i)) k ≡ max (bit blp k) (if i == k then 1 else 0)
bit-set blp i k = bit-bit_or k blp (2 ^ i) ∙ ap (max (bit blp k)) (bit-pow i k)

-- The Boolean equations of the two cases of a step.
or_marked : (a q n m : Bool) → (a && q || n) || m ≡ (a && q || (n || m))
or_marked true true n m = refl
or_marked true false n m = refl
or_marked false q n m = refl

or_new : (a q n : Bool) → (true && q || (n || false && q)) ≡ ((a && q || n) || (true && q))
or_new true true n = refl
or_new true false true = refl
or_new true false false = refl
or_new false true true = refl
or_new false true false = refl
or_new false false true = refl
or_new false false false = refl

-- A bit that is set adds the packet it stands for, and at most one to the count.
abbrev pub within : ℕ → ℕ → ℕ → Bool
within k n i = leb k i && ltb i (k + n)

names_set_at :
    (n k pid blp i seq : ℕ)
    → i ≡ k
    → (names n (k + 1) pid (bit_or blp (2 ^ i)) seq
        ≡ (names n (k + 1) pid blp seq || (within (k + 1) n i && seq == (pid + (i + 1)) % 65536)))
    → names (suc n) k pid (bit_or blp (2 ^ i)) seq
      ≡ (names (suc n) k pid blp seq || (within k (suc n) i && seq == (pid + (i + 1)) % 65536))
unfolding names
names_set_at n k pid blp i seq e ih =
    let now : is_set (bit_or blp (2 ^ i)) k ≡ true =
      ground (arith, bit-set blp i k, bit-lt blp k) in
    let out : within (k + 1) n i ≡ false = ground arith in
    let here : within k (suc n) i ≡ true = ground arith in
    let same : (seq == (pid + (i + 1)) % 65536) ≡ (seq == (pid + (k + 1)) % 65536) = rw e refl in
    rw (now, ih, out, here, same)
      (or_new (is_set blp k) (seq == (pid + (k + 1)) % 65536) (names n (k + 1) pid blp seq))

names_set_beyond :
    (n k pid blp i seq : ℕ)
    → i ≢ k
    → (names n (k + 1) pid (bit_or blp (2 ^ i)) seq
        ≡ (names n (k + 1) pid blp seq || (within (k + 1) n i && seq == (pid + (i + 1)) % 65536)))
    → names (suc n) k pid (bit_or blp (2 ^ i)) seq
      ≡ (names (suc n) k pid blp seq || (within k (suc n) i && seq == (pid + (i + 1)) % 65536))
unfolding names
names_set_beyond n k pid blp i seq ne ih =
    let same : bit (bit_or blp (2 ^ i)) k ≡ bit blp k =
      ground (arith, bit-set blp i k, bit-lt blp k) in
    let still : within k (suc n) i ≡ within (k + 1) n i = ground arith in
    rw (same, ih, still)
      (sym (
        or_marked (is_set blp k) (seq == (pid + (k + 1)) % 65536) (names n (k + 1) pid blp seq)
          (within (k + 1) n i && seq == (pid + (i + 1)) % 65536)))

pub names-set :
    (n k pid blp i seq : ℕ)
    → names n k pid (bit_or blp (2 ^ i)) seq
      ≡ (names n k pid blp seq || (within k n i && seq == (pid + (i + 1)) % 65536))
unfolding names
names-set zero k pid blp i seq = ground arith
names-set (suc n) k pid blp i seq =
    let ih = names-set n (k + 1) pid blp i seq in
    elim (ℕ_discrete i k) [
      | yes e ↦ names_set_at n k pid blp i seq e ih
      | no ne ↦ names_set_beyond n k pid blp i seq ne ih
    ]

pub ones-set :
    (n k blp i : ℕ) → ones n k (bit_or blp (2 ^ i)) ≤ ones n k blp + (if leb k i then 1 else 0)
unfolding ones
ones-set zero k blp i = ground arith
ones-set (suc n) k blp i = ground (arith, bit-set blp i k, ones-set n (k + 1) blp i, bit-lt blp k)
