-- ===== src/Srtp/Index/Estimate.antt =====
-- The estimate of RFC 3711: exact for a packet less than 2^15 away from the highest one, and
-- kept in step by `update`.
use nexus_sfu.Base.{
  ℕ, ◌+◌, ◌-◌, ◌*◌, ◌%◌, ◌≤◌, ◌<◌, max, ◌≡◌, refl, sym, ap₂, subst, ◌↔◌, ◌⊎◌, true, List, [], ◌∷◌,
  map, arith, Result, ok, err,
}
use nexus_sfu.Srtp.Types.{SrtpError, roc_overflow, packet_index_sum}
use nexus_sfu.Srtp.Index.{RocState, u32_max, estimate_index, update}

-- The values fit their machine types.
pub record IsRocState (s : RocState) : Type 0 where
  pub roc_fits : s.roc ≤ u32_max
  pub seq_fits : s.highest_seq < 65536

-- The index of the highest packet.
abbrev pub highest : RocState → ℕ
highest s = s.roc * 65536 + s.highest_seq

-- Less than 2^15 apart.
abbrev pub Near : ℕ → ℕ → Type 0
Near h i = (i < h + 32768) × (h < i + 32768)

-- An index of an initialized stream that lies less than 2^15 from the highest one, and whose
-- rollover counter fits, is recovered from its low 16 bits.
pub estimate_index-exact :
    (s : RocState) (i : ℕ)
    → IsRocState s
    → s.initialized ≡ true
    → Near (highest s) i
    → i < 281474976710656
    → estimate_index s (i % 65536) ≡ ok i
unfolding estimate_index
estimate_index-exact s i v live near fits = ground (
  arith,
  packet_index_sum s.roc (i % 65536),
  packet_index_sum (s.roc - 1) (i % 65536),
  packet_index_sum (s.roc + 1) (i % 65536),
)

-- `update` keeps the ranges.
pub update-IsRocState :
    (s : RocState) (seq : ℕ) → IsRocState s → seq < 65536 → IsRocState (update s seq).1
unfolding update
update-IsRocState s seq v h = ground arith

-- After an estimate `i`, `update` succeeds and the highest index becomes the larger of the two,
-- with one exception: in the first rollover period a sequence number more than 2^15 ahead of the
-- highest one is estimated there, and leaves the state alone.
pub update-follows_estimate :
    (s : RocState) (seq i : ℕ)
    → IsRocState s
    → seq < 65536
    → s.initialized ≡ true
    → estimate_index s seq ≡ ok i
    → ((update s seq).0 ≡ ok tt)
      × ((update s seq).1.initialized ≡ true)
      × ((highest (update s seq).1 ≡ max (highest s) i)
          ⊎ ((s.roc ≡ 0) × (s.highest_seq + 32768 < seq) × ((update s seq).1 ≡ s)))
unfolding update estimate_index
update-follows_estimate s seq i v h live e = ground (
  arith,
  packet_index_sum s.roc seq,
  packet_index_sum (s.roc - 1) seq,
  packet_index_sum (s.roc + 1) seq,
)

-- Both operations refuse a packet for the same reason: its sequence number has wrapped and the
-- rollover counter is at its maximum. The state is then unchanged.
pub estimate_index-overflow :
    (s : RocState) (seq : ℕ)
    → (estimate_index s seq ≡ err roc_overflow)
      ↔ ((s.initialized ≡ true) × (s.roc ≡ u32_max) × (seq + 32768 < s.highest_seq))
unfolding estimate_index
estimate_index-overflow s seq = (λ h. ground arith, λ h. ground arith)

pub update-overflow :
    (s : RocState) (seq : ℕ)
    → estimate_index s seq ≡ err roc_overflow
    → update s seq ≡ (err roc_overflow, s)
unfolding update estimate_index
update-overflow s seq h = ground arith

-- For a packet in step the exception is ruled out.
update-Near :
    (s : RocState) (i : ℕ)
    → IsRocState s
    → s.initialized ≡ true
    → Near (highest s) i
    → i < 281474976710656
    → ((update s (i % 65536)).1.initialized ≡ true)
      × (highest (update s (i % 65536)).1 ≡ max (highest s) i)
update-Near s i v live near fits = ground (
  arith,
  update-follows_estimate s (i % 65536) i v (omega arith) live
      (estimate_index-exact s i v live near fits),
)

-- A receiver that estimates and updates for each packet of a stream.
unfoldable pub receive : RocState → List ℕ → List (Result SrtpError ℕ)
receive s [] = []
receive s (seq ∷ seqs) = estimate_index s seq ∷ receive (update s seq).1 seqs

-- Each index lies less than 2^15 from the highest before it, and fits 48 bits.
abbrev pub InStep : ℕ → List ℕ → Type 0
InStep h [] = Unit {0}
InStep h (i ∷ is) = Near h i × (i < 281474976710656) × InStep (max h i) is

-- The indices of such a stream are all recovered, across any number of wraps.
pub receive-exact :
    (s : RocState) (is : List ℕ)
    → IsRocState s
    → s.initialized ≡ true
    → InStep (highest s) is
    → receive s (map (λ i. i % 65536) is) ≡ map ok is
unfolding receive
receive-exact s [] v live h = refl
receive-exact s (i ∷ is) v live (near, fits, rest) =
    let (live', top) = update-Near s i v live near fits in
    ap₂ ◌∷◌ (estimate_index-exact s i v live near fits) (
      receive-exact (update s (i % 65536)).1 is (update-IsRocState s (i % 65536) v (omega arith))
        live' (subst (λ h. InStep h is) (sym top) rest))
