-- ===== src/Dataplane/Rewrite/Stream.antt =====
-- The packets of one subscription, from the rewrite of crates/nexus-dataplane/src/rewrite.rs to
-- the index estimate of the SRTP layer.
use nexus_sfu.Base.{
  ℕ, ◌+◌, ◌-◌, ◌*◌, ◌%◌, ◌≤◌, ◌<◌, max, ◌≡◌, refl, sym, ap, ap₂, subst, ◌∙◌, inl, inr, true, List,
  [], ◌∷◌, map, arith, leb, if◌then◌else◌, length, top, ok,
}
use nexus_sfu.Media.RtpHeader.{RtpHeader}
use nexus_sfu.Dataplane.Subscription.{RewriteState, new_rewrite_state}
use nexus_sfu.Dataplane.Rewrite.{commit, offsets, sub_16, is_ahead, Advance}
use nexus_sfu.Dataplane.Rewrite.Numbering.{IsAligned, IsClose, advance_of, commit-IsAligned}
use nexus_sfu.Srtp.Types.{packet_index_sum}
use nexus_sfu.Srtp.Index.{RocState, new, estimate_index, update}
use nexus_sfu.Srtp.Index.Estimate.{InStep, receive, receive-exact}

-- A packet that is rewritten, protected and queued. One that is not protected is not committed,
-- so it leaves the state alone and is left out.
pub record Forwarded : Type 0 where
  pub hdr : RtpHeader
  pub clock_rate : ℕ
  pub rng : ℕ
  pub now : ℕ

abbrev pub numbers : RewriteState → Forwarded → Advance
numbers s p = advance_of s p.hdr p.clock_rate p.rng p.now

-- The sequence numbers sent, in order.
unfoldable pub forward : RewriteState → List Forwarded → List ℕ
forward s [] = []
forward s (p ∷ ps) = (numbers s p).out_seq ∷ forward (commit s (numbers s p) p.now) ps

-- The index of a number, from the highest index before it: the nearest one with these low bits.
unfoldable pub nearest : ℕ → ℕ → ℕ
nearest h out = let d = sub_16 out (h % 65536) in if leb d 32768 then h + d else h + d - 65536

unfoldable pub indices : ℕ → List ℕ → List ℕ
unfolding nearest
indices h [] = []
indices h (out ∷ outs) = nearest h out ∷ indices (max h (nearest h out)) outs

abbrev pub AreHeaders : List Forwarded → Type 0
AreHeaders [] = Unit {0}
AreHeaders (p ∷ ps) = (p.hdr.sequence_number < 65536) × AreHeaders ps

-- One packet: its index is near, has its number as low bits, and the highest index and the last
-- number sent move together.
abbrev Follows : ℕ → ℕ → Type 0
Follows h out =
    (nearest h out % 65536 ≡ out)
    × (nearest h out ≤ h + 16384)
    × (h ≤ nearest h out + 64)
    × (max h (nearest h out) % 65536
        ≡ (if is_ahead (sub_16 out (h % 65536)) then out else h % 65536))

nearest_ahead : (h out : ℕ) → 64 ≤ h → out < 65536 → sub_16 out (h % 65536) ≤ 16384 → Follows h out
unfolding nearest
nearest_ahead h out low fits c = ground arith

nearest_behind : (h out : ℕ) → 64 ≤ h → out < 65536 → 65472 ≤ sub_16 out (h % 65536) → Follows h out
unfolding nearest
nearest_behind h out low fits c = ground arith

nearest-IsClose :
    (s : RewriteState) (h out : ℕ)
    → h % 65536 ≡ s.last_out_seq
    → 64 ≤ h
    → IsClose s out
    → (nearest h out % 65536 ≡ out)
      × (nearest h out ≤ h + 16384)
      × (h ≤ nearest h out + 64)
      × (max h (nearest h out) % 65536
          ≡ (if is_ahead (sub_16 out s.last_out_seq) then out else s.last_out_seq))
unfolding nearest
nearest-IsClose s h out e low (fits, inl c) = rw (sym e) (nearest_ahead h out low fits (rw e c))
nearest-IsClose s h out e low (fits, inr c) = rw (sym e) (nearest_behind h out low fits (rw e c))

forward-InStep :
    (s : RewriteState) (ps : List Forwarded) (h : ℕ)
    → IsAligned s
    → AreHeaders ps
    → h % 65536 ≡ s.last_out_seq
    → 64 ≤ h
    → h + 16384 * length ps < 281474976710656
    → InStep h (indices h (forward s ps))
      × (map (λ i. i % 65536) (indices h (forward s ps)) ≡ forward s ps)
unfolding forward indices
forward-InStep s [] h v hs e low room = (tt, refl)
forward-InStep s (p ∷ ps) h v (fits, hs) e low room =
    let (v', close, moved) = commit-IsAligned s p.hdr p.clock_rate p.rng p.now v fits in
    let (low_bits, above, below, top) = nearest-IsClose s h (numbers s p).out_seq e low close in
    let (steps, same) =
      forward-InStep (commit s (numbers s p) p.now) ps (max h (nearest h (numbers s p).out_seq)) v'
        hs (top ∙ sym moved) (omega arith) (omega arith) in
    (((omega arith, omega arith), omega arith, steps), ap₂ ◌∷◌ low_bits same)

-- The first packet sent: its number is random, and it starts the stream.
first-IsAligned :
    (ssrc : ℕ) (p : Forwarded)
    → p.hdr.sequence_number < 65536
    → let s = new_rewrite_state ssrc in
      let s' = commit s (numbers s p) p.now in
      IsAligned s' × ((numbers s p).out_seq ≡ s'.last_out_seq)
unfolding advance_of offsets commit
first-IsAligned ssrc p h = (
  record {
    started = refl;
    in_fits = h;
    out_fits = omega arith;
    offset_fits = omega arith;
    aligned = refl;
  },
  refl,
)

abbrev pub first_number : ℕ → Forwarded → ℕ
first_number ssrc p = (numbers (new_rewrite_state ssrc) p).out_seq

-- The numbers sent after the first packet.
abbrev pub later_numbers : ℕ → Forwarded → List Forwarded → List ℕ
later_numbers ssrc p ps =
    forward (commit (new_rewrite_state ssrc) (numbers (new_rewrite_state ssrc) p) p.now) ps

first_number-lt : (ssrc : ℕ) (p : Forwarded) → first_number ssrc p < 65536
unfolding advance_of
first_number-lt ssrc p = omega arith

-- A stream of at most 2^33 packets whose first number is at least 64: whatever the gaps, wraps
-- and reorderings of its input, the receiver's RFC 3711 estimate gives each packet sent the index
-- nearest to the highest one before it, and so never loses the stream.
pub forward-received :
    (ssrc : ℕ) (p : Forwarded) (ps : List Forwarded)
    → AreHeaders (p ∷ ps)
    → length ps < 8589934592
    → 64 ≤ first_number ssrc p
    → receive new (forward (new_rewrite_state ssrc) (p ∷ ps))
      ≡ map ok (first_number ssrc p ∷ indices (first_number ssrc p) (later_numbers ssrc p ps))
unfolding forward receive estimate_index update
forward-received ssrc p ps (fits, hs) room low =
    let first = first_number ssrc p in
    let s = commit (new_rewrite_state ssrc) (numbers (new_rewrite_state ssrc) p) p.now in
    let (v, sent) = first-IsAligned ssrc p fits in
    let (steps, same) =
      forward-InStep s ps first v hs (omega (arith, first_number-lt ssrc p, sent)) low
        (omega arith) in
    let start : RocState = record { roc = 0; highest_seq = first; initialized = true } in
    ap₂ ◌∷◌ (ap ok (packet_index_sum 0 first (first_number-lt ssrc p) ∙ omega arith)) (
      ap (receive start) (sym same)
      ∙ receive-exact start (indices first (forward s ps))
          (record { roc_fits = omega arith; seq_fits = first_number-lt ssrc p }) refl
          (subst (λ h. InStep h (indices first (forward s ps))) (omega arith) steps))
