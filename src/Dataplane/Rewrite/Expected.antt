-- ===== src/Dataplane/Rewrite/Expected.antt =====
-- The payload type, number and time of a packet of rewrite.rs, described apart from the code.
use nexus_sfu.Base.{
  ℕ, zero, suc, ◌+◌, ◌-◌, ◌*◌, ◌/◌, ◌%◌, ◌^◌, ◌<◌, min, max, ◌≡◌, refl, sym, ◌∙◌, inl, inr, not,
  ◌&&◌, Option, none, some, List, [], ◌∷◌, arith, ◌==◌, if◌then◌else◌, Bool-cases, position,
}
use nexus_sfu.Media.RtpHeader.{RtpHeader}
use nexus_sfu.Dataplane.Subscription.{Subscription, RewriteState, find_pt, next_u64}
use nexus_sfu.Dataplane.Rewrite.{offsets, in_step, is_idle, elapsed_ms, sub_16}
use nexus_sfu.Dataplane.Rewrite.Numbering.{advance_of}

-- The number and the time of a packet for a subscriber: at a random start for the first one, at the distance
-- of the input while the input is in step and the subscriber was not idle, and else one past the last
-- packet that was sent, at a time that is later by the time that passed.
abbrev pub numbers : RewriteState → RtpHeader → ℕ → ℕ → ℕ → ℕ × ℕ
numbers s hdr clock_rate rng now =
    if s.started
    then (if in_step (sub_16 hdr.sequence_number s.last_in_seq) && not (is_idle s.last_out_at now)
        then (
          (hdr.sequence_number + s.seq_offset) % 65536,
          (hdr.timestamp + s.ts_offset) % 4294967296,
        )
        else (
          (s.last_out_seq + 1) % 65536,
          (s.last_out_ts
                + max (min (elapsed_ms s.last_out_at now % 2 ^ 64 * clock_rate) (2 ^ 64 - 1) / 1000)
                    1
                  % 4294967296)
              % 4294967296,
        ))
    else ((next_u64 rng).0 % 65536, (next_u64 rng).0 / 4294967296 % 4294967296)

-- The payload type for a subscriber: that of the first pair for the publisher's.
abbrev pub type_at : List (ℕ × ℕ) → Option ℕ → Option ℕ
type_at pairs none = none
type_at [] (some i) = none
type_at ((from, to) ∷ pairs) (some zero) = some to
type_at ((from, to) ∷ pairs) (some (suc i)) = type_at pairs (some i)

abbrev pub assigned_type : Subscription → ℕ → Option ℕ
assigned_type sub pt = type_at sub.pt_map.pairs (position (λ q. q.0 == pt) sub.pt_map.pairs)

type_at-suc :
    (from to : ℕ) (pairs : List (ℕ × ℕ)) (i : Option ℕ)
    → type_at ((from, to) ∷ pairs) (elim i [ none ↦ none | some j ↦ some (suc j) ])
      ≡ type_at pairs i
type_at-suc from to pairs none = refl
type_at-suc from to pairs (some i) = refl

pub find_pt-assigned :
    (pairs : List (ℕ × ℕ)) (pt : ℕ)
    → find_pt pairs pt ≡ type_at pairs (position (λ q. q.0 == pt) pairs)
unfolding find_pt position
find_pt-assigned [] pt = refl
find_pt-assigned ((from, to) ∷ pairs) pt = elim (Bool-cases (from == pt)) [
  | inl this ↦ rw this refl
  | inr other ↦ rw other (
      find_pt-assigned pairs pt ∙ sym (type_at-suc from to pairs (position (λ q. q.0 == pt) pairs)))
]

back_16 :
    (x seq : ℕ) → seq < 65536 → (seq + (x % 2 ^ 16 + 2 ^ 16 - seq) % 2 ^ 16) % 2 ^ 16 ≡ x % 65536
back_16 x seq h = omega arith

back_32 :
    (x ts : ℕ)
    → ts < 4294967296
    → (ts + (x % 2 ^ 32 + 2 ^ 32 - ts) % 2 ^ 32) % 2 ^ 32 ≡ x % 4294967296
back_32 x ts h = omega arith

pub advance_of-numbers :
    (s : RewriteState) (hdr : RtpHeader) (clock_rate rng now : ℕ)
    → hdr.sequence_number < 65536
    → hdr.timestamp < 4294967296
    → let a = advance_of s hdr clock_rate rng now in
      (a.out_seq ≡ (numbers s hdr clock_rate rng now).0)
      × (a.out_ts ≡ (numbers s hdr clock_rate rng now).1)
unfolding advance_of offsets
advance_of-numbers s hdr clock_rate rng now hs ht = elim (Bool-cases s.started) [
  | inl on ↦
      rw on
        (elim (Bool-cases
          (in_step (sub_16 hdr.sequence_number s.last_in_seq) && not (is_idle s.last_out_at now))) [
            | inl near ↦ rw near (refl, refl)
            | inr far ↦
                rw far
                  (back_16 (s.last_out_seq + 1) hdr.sequence_number hs, back_32 _ hdr.timestamp ht)
          ])
  | inr off ↦ rw off (
    back_16 (next_u64 rng).0 hdr.sequence_number hs,
    back_32 ((next_u64 rng).0 / 2 ^ 32) hdr.timestamp ht,
  )
]

pub advance_of-small :
    (s : RewriteState) (hdr : RtpHeader) (clock_rate rng now : ℕ)
    → let a = advance_of s hdr clock_rate rng now in (a.out_seq < 65536) × (a.out_ts < 4294967296)
unfolding advance_of
advance_of-small s hdr clock_rate rng now = (omega arith, omega arith)
