-- ===== src/Dataplane/Rewrite/Numbering.antt =====
-- The numbers that rewrite.rs gives to a subscriber's packets.
use nexus_sfu.Base.{
  ℕ, ◌≤◌, ◌<◌, ◌≡◌, refl, sym, ◌⊎◌, inl, inr, Bool, true, false, not, ◌&&◌, arith, if◌then◌else◌,
  Bool-cases,
}
use nexus_sfu.Media.RtpHeader.{RtpHeader}
use nexus_sfu.Dataplane.Subscription.{RewriteState}
use nexus_sfu.Dataplane.Rewrite.{
  Advance, offsets, add_16, sub_16, add_32, in_step, is_idle, commit, is_ahead,
}

-- The state after the first packet: the offsets lead from the last input to the last output.
pub record IsAligned (s : RewriteState) : Type 0 where
  pub started : s.started ≡ true
  pub in_fits : s.last_in_seq < 65536
  pub out_fits : s.last_out_seq < 65536
  pub offset_fits : s.seq_offset < 65536
  pub aligned : add_16 s.last_in_seq s.seq_offset ≡ s.last_out_seq

shifted :
    (s : RewriteState) (seq : ℕ)
    → IsAligned s
    → seq < 65536
    → sub_16 (add_16 seq s.seq_offset) s.last_out_seq ≡ sub_16 seq s.last_in_seq
shifted s seq v h = rw (sym v.aligned) (omega (arith, v.in_fits, v.offset_fits))

next_number :
    (s : RewriteState) (seq : ℕ)
    → IsAligned s
    → seq < 65536
    → add_16 seq (sub_16 (add_16 s.last_out_seq 1) seq) ≡ add_16 s.last_out_seq 1
next_number s seq v h = omega (arith, v.out_fits)

left-and : (a b : Bool) → (a && b) ≡ true → a ≡ true
left-and true b h = refl
left-and false b h = h

-- The numbers of one packet.
unfoldable pub advance_of : RewriteState → RtpHeader → ℕ → ℕ → ℕ → Advance
advance_of s hdr clock_rate rng now =
    let (seq_offset, ts_offset, rebased, _) = offsets s hdr clock_rate rng now in
    record {
      seq_offset = seq_offset;
      ts_offset = ts_offset;
      in_seq = hdr.sequence_number;
      out_seq = add_16 hdr.sequence_number seq_offset;
      out_ts = add_32 hdr.timestamp ts_offset;
      rebased = rebased;
    }

-- Every packet of a started stream is numbered close to the last one sent: one past it after a
-- rebase, and otherwise at the distance of its input, from 64 behind to 2^14 ahead.
pub advance_of-in_step :
    (s : RewriteState) (hdr : RtpHeader) (clock_rate rng now : ℕ)
    → IsAligned s
    → hdr.sequence_number < 65536
    → let a = advance_of s hdr clock_rate rng now in
      ((a.rebased ≡ true) × (a.out_seq ≡ add_16 s.last_out_seq 1))
      ⊎ ((a.rebased ≡ false)
          × (a.seq_offset ≡ s.seq_offset)
          × (sub_16 a.out_seq s.last_out_seq ≡ sub_16 hdr.sequence_number s.last_in_seq)
          × (in_step (sub_16 a.out_seq s.last_out_seq) ≡ true))
unfolding advance_of offsets
advance_of-in_step s hdr clock_rate rng now v h =
    rw v.started
      (elim (Bool-cases
        (in_step (sub_16 hdr.sequence_number s.last_in_seq) && not (is_idle s.last_out_at now))) [
          | inl e ↦ rw e (
              inr (
                refl,
                refl,
                shifted s hdr.sequence_number v h,
                rw (shifted s hdr.sequence_number v h) (left-and _ _ e),
              ))
          | inr e ↦ rw e (inl (refl, next_number s hdr.sequence_number v h))
        ])

-- How far two numbers are apart, by the numbers that follow the last one sent.
abbrev pub IsClose : RewriteState → ℕ → Type 0
IsClose s out =
    (out < 65536) × ((sub_16 out s.last_out_seq ≤ 16384) ⊎ (65472 ≤ sub_16 out s.last_out_seq))

IsClose-next : (s : RewriteState) → s.last_out_seq < 65536 → IsClose s (add_16 s.last_out_seq 1)
IsClose-next s h = (omega arith, inl (omega arith))

next_ahead :
    (s : RewriteState)
    → s.last_out_seq < 65536
    → is_ahead (sub_16 (add_16 s.last_out_seq 1) s.last_out_seq) ≡ true
next_ahead s h = ground arith

IsClose-in_step :
    (s : RewriteState) (out : ℕ)
    → out < 65536
    → in_step (sub_16 out s.last_out_seq) ≡ true
    → IsClose s out
IsClose-in_step s out h e = (h, ground arith)

-- What `commit` does with the numbers of a packet, rebased or not.
abbrev pub IsNumbered : Advance → Type 0
IsNumbered a =
    (a.in_seq < 65536) × (a.seq_offset < 65536) × (add_16 a.in_seq a.seq_offset ≡ a.out_seq)

abbrev pub Commits : RewriteState → Advance → ℕ → Type 0
Commits s a now =
    let s' = commit s a now in
    IsAligned s'
    × IsClose s a.out_seq
    × (s'.last_out_seq
        ≡ (if is_ahead (sub_16 a.out_seq s.last_out_seq) then a.out_seq else s.last_out_seq))

commit_rebased :
    (s : RewriteState) (a : Advance) (now : ℕ)
    → IsAligned s
    → IsNumbered a
    → a.rebased ≡ true
    → a.out_seq ≡ add_16 s.last_out_seq 1
    → Commits s a now
unfolding commit
commit_rebased s a now v n r e =
    let fits : a.out_seq < 65536 = omega (arith, n.2) in
    let close : IsClose s a.out_seq = rw e (IsClose-next s v.out_fits) in
    let ahead : is_ahead (sub_16 a.out_seq s.last_out_seq) ≡ true =
      rw e (next_ahead s v.out_fits) in
    rw v.started (
      rw r (
        rw ahead (
          record {
            started = refl;
            in_fits = n.0;
            out_fits = fits;
            offset_fits = n.1;
            aligned = n.2;
          },
          close,
          refl,
        )))

commit_kept :
    (s : RewriteState) (a : Advance) (now : ℕ)
    → IsAligned s
    → IsNumbered a
    → a.rebased ≡ false
    → a.seq_offset ≡ s.seq_offset
    → in_step (sub_16 a.out_seq s.last_out_seq) ≡ true
    → Commits s a now
unfolding commit
commit_kept s a now v n r e c =
    let fits : a.out_seq < 65536 = omega (arith, n.2) in
    elim (Bool-cases (is_ahead (sub_16 a.out_seq s.last_out_seq))) [
      | inl t ↦ rw v.started (
          rw r (
            rw t (
              record {
                started = refl;
                in_fits = n.0;
                out_fits = fits;
                offset_fits = n.1;
                aligned = n.2;
              },
              IsClose-in_step s a.out_seq fits c,
              refl,
            )))
      | inr t ↦ rw v.started (
          rw r (
            rw t (
              record {
                started = refl;
                in_fits = v.in_fits;
                out_fits = v.out_fits;
                offset_fits = n.1;
                aligned = rw e v.aligned;
              },
              IsClose-in_step s a.out_seq fits c,
              refl,
            )))
    ]

offsets_fit :
    (s : RewriteState) (hdr : RtpHeader) (clock_rate rng now : ℕ)
    → IsAligned s
    → (offsets s hdr clock_rate rng now).0 < 65536
unfolding offsets
offsets_fit s hdr clock_rate rng now v =
    rw v.started
      (elim (Bool-cases
        (in_step (sub_16 hdr.sequence_number s.last_in_seq) && not (is_idle s.last_out_at now))) [
          | inl e ↦ rw e v.offset_fits
          | inr e ↦ rw e (omega arith)
        ])

advance_of-IsNumbered :
    (s : RewriteState) (hdr : RtpHeader) (clock_rate rng now : ℕ)
    → IsAligned s
    → hdr.sequence_number < 65536
    → IsNumbered (advance_of s hdr clock_rate rng now)
unfolding advance_of
advance_of-IsNumbered s hdr clock_rate rng now v h =
    (h, offsets_fit s hdr clock_rate rng now v, refl)

-- Committed numbers keep the offsets aligned, lie close to the last number sent, and move it only
-- ahead.
pub commit-IsAligned :
    (s : RewriteState) (hdr : RtpHeader) (clock_rate rng now : ℕ)
    → IsAligned s
    → hdr.sequence_number < 65536
    → Commits s (advance_of s hdr clock_rate rng now) now
commit-IsAligned s hdr clock_rate rng now v h =
    elim (advance_of-in_step s hdr clock_rate rng now v h) [
      | inl (r, e) ↦
          commit_rebased s _ now v (advance_of-IsNumbered s hdr clock_rate rng now v h) r e
      | inr (r, o, e, c) ↦
          commit_kept s _ now v (advance_of-IsNumbered s hdr clock_rate rng now v h) r o c
    ]
