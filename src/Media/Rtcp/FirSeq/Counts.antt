-- ===== src/Media/Rtcp/FirSeq/Counts.antt =====
-- The tracker of rtcp/packet.rs as one counter per SSRC.
use nexus_sfu.Base.{
  ℕ, zero, suc, ◌+◌, ◌%◌, ◌<◌, ◌≡◌, refl, ◌∙◌, ◌⊎◌, inl, inr, Bool, true, false, ◌||◌, Option, none,
  some, List, [], ◌∷◌, ◌++◌, arith, ◌==◌, if◌then◌else◌, lt→ltb, length, get_or, set, position,
}
use nexus_sfu.Media.Rtcp.FirSeq.{
  FirSeqTracker, max_tracked, is_of, add_ssrc, next_found, next_seq_nr,
}

abbrev Table : Type 0
Table = List (ℕ × ℕ)

-- The counter of an SSRC: the number that it gets next, 0 if it is not tracked.
unfoldable pub counter : Table → ℕ → ℕ
counter [] ssrc = 0
counter ((s, n) ∷ rest) ssrc = if s == ssrc then n else counter rest ssrc

unfoldable pub is_tracked : Table → ℕ → Bool
is_tracked [] ssrc = false
is_tracked ((s, n) ∷ rest) ssrc = s == ssrc || is_tracked rest ssrc

position-counter :
    (t : Table) (ssrc i : ℕ)
    → position (is_of ssrc) t ≡ some i
    → (get_or t i (ssrc, 0)).1 ≡ counter t ssrc
unfolding position counter
position-counter [] ssrc i h = cc
position-counter ((s, n) ∷ t) ssrc zero h = ground arith
position-counter ((s, n) ∷ t) ssrc (suc i) h = ground (arith, position-counter t ssrc i)

counter-set :
    (t : Table) (ssrc i n other : ℕ)
    → position (is_of ssrc) t ≡ some i
    → counter (set t i (ssrc, n)) other ≡ (if ssrc == other then n else counter t other)
unfolding position counter
counter-set [] ssrc i n other h = cc
counter-set ((s, m) ∷ t) ssrc zero n other h = ground arith
counter-set ((s, m) ∷ t) ssrc (suc i) n other h = ground (arith, counter-set t ssrc i n other)

counter-append :
    (t : Table) (ssrc n other : ℕ)
    → is_tracked t ssrc ≡ false
    → counter (t ++ ((ssrc, n) ∷ [])) other ≡ (if ssrc == other then n else counter t other)
unfolding is_tracked counter
counter-append [] ssrc n other h = ground arith
counter-append ((s, m) ∷ t) ssrc n other h = ground (arith, counter-append t ssrc n other)

untracked :
    (t : Table) (ssrc : ℕ)
    → position (is_of ssrc) t ≡ none
    → (is_tracked t ssrc ≡ false) × (counter t ssrc ≡ 0)
unfolding position is_tracked counter
untracked [] ssrc h = (refl, refl)
untracked ((s, n) ∷ t) ssrc h =
    let (a, b) = untracked t ssrc (ground arith) in (ground arith, ground arith)

-- The call returned the counter of `ssrc` and moved it by one, and no other counter.
abbrev pub OneMoved : Table → ℕ × FirSeqTracker → ℕ → ℕ → Type 0
OneMoved t r ssrc other =
    (r.0 ≡ counter t ssrc)
    × (counter r.1.seq_nrs other
        ≡ (if ssrc == other then (counter t ssrc + 1) % 256 else counter t other))

next_found-counter :
    (t : FirSeqTracker) (ssrc other : ℕ)
    → (is_tracked t.seq_nrs ssrc ≡ true) ⊎ (length t.seq_nrs < max_tracked)
    → (o : Option ℕ) → position (is_of ssrc) t.seq_nrs ≡ o
    → OneMoved t.seq_nrs (next_found t ssrc o) ssrc other
unfolding next_found add_ssrc
next_found-counter t ssrc other room none h =
    let (out, at_0) = untracked t.seq_nrs ssrc h in
    let fits : length t.seq_nrs < 64 = elim room [
      | inl tracked ↦ absurd (cc (out, tracked))
      | inr r ↦ r
    ] in
    let moved = counter-append t.seq_nrs ssrc 1 other out in
    rw (lt→ltb (length t.seq_nrs) 64 fits, at_0) (refl, moved)
next_found-counter t ssrc other room (some i) h =
    let at_i = position-counter t.seq_nrs ssrc i h in
    let n = (get_or t.seq_nrs i (ssrc, 0)).1 in
    (at_i, counter-set t.seq_nrs ssrc i ((n + 1) % 256) other h ∙ rw at_i refl)

-- Each SSRC has a counter of its own: `next_seq_nr` returns it and moves it by one, modulo 256, and no
-- other, unless it has to make room.
pub next_seq_nr-counter :
    (t : FirSeqTracker) (ssrc other : ℕ)
    → (is_tracked t.seq_nrs ssrc ≡ true) ⊎ (length t.seq_nrs < max_tracked)
    → OneMoved t.seq_nrs (next_seq_nr t ssrc) ssrc other
unfolding next_seq_nr
next_seq_nr-counter t ssrc other room =
    next_found-counter t ssrc other room (position (is_of ssrc) t.seq_nrs) refl
