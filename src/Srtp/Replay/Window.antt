-- ===== src/Srtp/Replay/Window.antt =====
-- The window of srtp/replay.rs against the history of the accepted indices.
use nexus_sfu.Base.{
  ℕ, ◌-◌, ◌*◌, ◌%◌, ◌^◌, ◌≤◌, ◌<◌, max, bit_or, ◌≡◌, refl, sym, ap, ◌∙◌, ◌≢◌, inl, inr, Bool, true,
  false, not, ◌&&◌, ◌||◌, List, [], ◌∷◌, arith, ltb, leb, ◌==◌, if◌then◌else◌, Bool-cases, contains,
  top, contains-le_top, contains-top,
}
use nexus_sfu.Base.Bits.{bit, bit-lt, bit-zero, bit-bit_or, bit-pow, bit-shift, bit-mod}
use nexus_sfu.Srtp.Replay.{
  ReplayProtection, with_window_size, new, accept_first_packet, accept_newer_packet,
  accept_older_packet, accept,
}

-- What a window of a given size admits after a history, stated over the history alone.
unfoldable pub admits : ℕ → List ℕ → ℕ → Bool
admits size [] i = true
admits size (x ∷ h) i =
    ltb (top (x ∷ h)) i || (ltb (top (x ∷ h) - i) size && not (contains i (x ∷ h)))

-- Bit `d` of a window over a history whose highest index is `n`.
abbrev pub seen : ℕ → List ℕ → ℕ → ℕ
seen n h d = if leb d n && contains (n - d) h then 1 else 0

-- The state holds a history: its bitmap has one bit for each of the last 64 indices.
pub record Tracks (s : ReplayProtection) (h : List ℕ) : Type 0 where
  pub is_on : s.enabled ≡ true
  pub size_fits : s.window_size ≤ 64
  pub highest_top : s.highest ≡ top h
  pub idle : h ≡ [] → s.window ≡ 0
  pub bits : (d : ℕ) → d < 64 → bit s.window d ≡ seen (top h) h d

pub with_window_size-Tracks : (size : ℕ) → Tracks (with_window_size size) []
unfolding with_window_size top contains
with_window_size-Tracks size = record {
  is_on = refl;
  size_fits = ground arith;
  highest_top = refl;
  idle = λ _. refl;
  bits = λ d lt. rw (bit-zero d) (ground arith);
}

pub new-Tracks : Tracks new []
unfolding with_window_size
new-Tracks = with_window_size-Tracks 64

-- A state with a history is past its first packet.
pub window-ne-zero : (s : ReplayProtection) (x : ℕ) (h : List ℕ) → Tracks s (x ∷ h) → s.window ≢ 0
window-ne-zero s x h t e =
    ground (arith, t.bits 0 (omega arith), contains-top x h, bit-zero 0, ap (λ (w : ℕ). bit w 0) e)

-- One bit after the window moved up by `s` and bit 0 was set.
shifted_bit :
    (w s d : ℕ)
    → d < 64
    → bit (bit_or (w * 2 ^ s % 2 ^ 64) 1) d
      ≡ (if d == 0 then 1 else (if ltb d s then 0 else bit w (d - s)))
shifted_bit w s d lt =
    rw
      (
        bit-bit_or d (w * 2 ^ s % 2 ^ 64) 1,
        bit-mod 64 d (w * 2 ^ s) lt,
        bit-shift s w d,
        bit-pow 0 d,
      )
      (ground (arith, bit-lt w (d - s)))

-- One bit after bit `k` was set.
set_bit : (w k d : ℕ) → bit (bit_or w (2 ^ k)) d ≡ (if k == d then 1 else bit w d)
set_bit w k d = rw (bit-bit_or d w (2 ^ k), bit-pow k d) (ground (arith, bit-lt w d))

accept_newer-bits :
    (s : ReplayProtection) (h : List ℕ) (i d : ℕ)
    → Tracks s h
    → top h < i
    → d < 64
    → bit (accept_newer_packet s i).window d ≡ seen i (i ∷ h) d
unfolding accept_newer_packet contains
accept_newer-bits s h i d t new lt = rw t.highest_top (
    ground (
      arith,
      shifted_bit s.window (i - top h) d lt,
      bit-pow 0 d,
      t.bits (d - (i - top h)) (omega arith),
      contains-le_top (i - d) h,
    ))

accept_older-bits :
    (s : ReplayProtection) (h : List ℕ) (i d : ℕ)
    → Tracks s h
    → i ≤ top h
    → d < 64
    → bit (accept_older_packet s i).window d ≡ seen (top h) (i ∷ h) d
unfolding accept_older_packet contains
accept_older-bits s h i d t new lt =
    ground (arith, t.highest_top, t.bits d lt, set_bit s.window (s.highest - i) d)

module _ (s : ReplayProtection) (i : ℕ) where
  accept_older-enabled : (accept_older_packet s i).enabled ≡ s.enabled
  unfolding accept_older_packet
  accept_older-enabled = ground arith

  accept_older-window_size : (accept_older_packet s i).window_size ≡ s.window_size
  unfolding accept_older_packet
  accept_older-window_size = ground arith

  accept_older-highest : (accept_older_packet s i).highest ≡ s.highest
  unfolding accept_older_packet
  accept_older-highest = ground arith

-- Which branch `accept` takes.
accept-first : (s : ReplayProtection) (i : ℕ) → Tracks s [] → accept s i ≡ accept_first_packet s i
unfolding accept top
accept-first s i t = let e : s.window ≡ 0 = t.idle refl in ground (arith, t.is_on, t.highest_top)

accept-newer :
    (s : ReplayProtection) (x : ℕ) (h : List ℕ) (i : ℕ)
    → Tracks s (x ∷ h)
    → ltb (top (x ∷ h)) i ≡ true
    → accept s i ≡ accept_newer_packet s i
unfolding accept
accept-newer s x h i t new = ground (arith, t.is_on, t.highest_top, window-ne-zero s x h t)

accept-older :
    (s : ReplayProtection) (x : ℕ) (h : List ℕ) (i : ℕ)
    → Tracks s (x ∷ h)
    → ltb (top (x ∷ h)) i ≡ false
    → accept s i ≡ accept_older_packet s i
unfolding accept
accept-older s x h i t old = ground (arith, t.is_on, t.highest_top, window-ne-zero s x h t)

accept_first-Tracks :
    (s : ReplayProtection) (i : ℕ) → Tracks s [] → Tracks (accept_first_packet s i) (i ∷ [])
unfolding accept_first_packet top contains
accept_first-Tracks s i t = record {
  is_on = t.is_on;
  size_fits = t.size_fits;
  highest_top = omega arith;
  idle = λ e. cc;
  bits = λ d lt. ground (arith, bit-pow 0 d);
}

accept_newer-Tracks :
    (s : ReplayProtection) (h : List ℕ) (i : ℕ)
    → Tracks s h
    → top h < i
    → Tracks (accept_newer_packet s i) (i ∷ h)
unfolding accept_newer_packet top
accept_newer-Tracks s h i t new =
    let e : max i (top h) ≡ i = omega arith in
    record {
      is_on = t.is_on;
      size_fits = t.size_fits;
      highest_top = omega arith;
      idle = λ e. cc;
      bits = λ d lt. rw e (accept_newer-bits s h i d t new lt);
    }

accept_older-Tracks :
    (s : ReplayProtection) (h : List ℕ) (i : ℕ)
    → Tracks s h
    → i ≤ top h
    → Tracks (accept_older_packet s i) (i ∷ h)
unfolding top
accept_older-Tracks s h i t old =
    let e : max i (top h) ≡ top h = omega arith in
    record {
      is_on = accept_older-enabled s i ∙ t.is_on;
      size_fits = rw (accept_older-window_size s i) t.size_fits;
      highest_top = accept_older-highest s i ∙ t.highest_top ∙ sym e;
      idle = λ e. cc;
      bits = λ d lt. rw e (accept_older-bits s h i d t old lt);
    }

-- The bookkeeping: `accept` adds the index to the history, whatever it is.
pub accept-Tracks :
    (s : ReplayProtection) (h : List ℕ) (i : ℕ) → Tracks s h → Tracks (accept s i) (i ∷ h)
accept-Tracks s [] i t = rw (accept-first s i t) (accept_first-Tracks s i t)
accept-Tracks s (x ∷ h) i t = elim (Bool-cases (ltb (top (x ∷ h)) i)) [
  | inl new ↦ rw (accept-newer s x h i t new) (accept_newer-Tracks s (x ∷ h) i t (ground arith))
  | inr old ↦ rw (accept-older s x h i t old) (accept_older-Tracks s (x ∷ h) i t (ground arith))
]
