-- ===== src/Srtp/Replay/Safety.antt =====
-- What `check` and `check_and_accept` of srtp/replay.rs promise: an index is never accepted twice,
-- and a fresh one inside the window is never refused.
use nexus_sfu.Base.{
  ℕ, ◌+◌, ◌-◌, ◌*◌, ◌%◌, ◌^◌, ◌≤◌, ◌<◌, min, bit_and, ◌≡◌, refl, ap, ◌∙◌, inl, inr, true, false,
  List, [], ◌∷◌, arith, leb, ◌==◌, if◌then◌else◌, Bool-cases, contains, top, contains-le_top,
  Result, ok, err,
}
use nexus_sfu.Base.Bits.{bit, bit-lt, bit_and-pow}
use native.Mathlib.Nat.{one-le-pow}
use nexus_sfu.Srtp.Types.{SrtpError, replay_detected}
use nexus_sfu.Srtp.Replay.{
  ReplayProtection, with_window_size, check, accept, accept_checked, check_and_accept,
}
use nexus_sfu.Srtp.Replay.Window.{
  Tracks, admits, accept-Tracks, with_window_size-Tracks, window-ne-zero,
}

-- The masked bit is zero exactly when the bit is.
masked_bit : (w d : ℕ) → (bit_and w (2 ^ d) == 0) ≡ (bit w d == 0)
masked_bit w d =
    rw (bit_and-pow d w) (ground (arith, bit-lt w d, one-le-pow d 2, ap (λ (b : ℕ). b * 2 ^ d)))

-- The assertion of `check_window_bit`: it is reached with a delta below 64 only.
check_delta-lt :
    (s : ReplayProtection) (i : ℕ)
    → s.window_size ≤ 64
    → leb s.window_size (s.highest - i) ≡ false
    → s.highest - i < 64
check_delta-lt s i h e = ground arith

-- `check` counts and touches nothing else.
pub check_frame :
    (s : ReplayProtection) (i : ℕ)
    → let s' = (check s i).1 in
      (s'.highest ≡ s.highest)
      × (s'.window ≡ s.window)
      × (s'.window_size ≡ s.window_size)
      × (s'.enabled ≡ s.enabled)
      × (s'.packets_checked ≡ (s.packets_checked + 1) % 2 ^ 64)
unfolding check
check_frame s i = ground arith

top-nil : top [] ≡ 0
unfolding top
top-nil = refl

-- `check` admits an index exactly when the window's specification does.
pub check-admits :
    (s : ReplayProtection) (h : List ℕ) (i : ℕ)
    → Tracks s h
    → (check s i).0 ≡ (if admits s.window_size h i then ok tt else err replay_detected)
unfolding check admits
check-admits s [] i t =
    let e : s.window ≡ 0 = t.idle refl in ground (arith, t.is_on, t.highest_top ∙ top-nil)
check-admits s (x ∷ h) i t = ground (
  arith,
  t.is_on,
  t.highest_top,
  window-ne-zero s x h t,
  masked_bit s.window (top (x ∷ h) - i),
  t.bits (top (x ∷ h) - i),
)

pub check-Tracks : (s : ReplayProtection) (h : List ℕ) (i : ℕ) → Tracks s h → Tracks (check s i).1 h
check-Tracks s h i t =
    let (e, w, z, o, _) = check_frame s i in
    record {
      is_on = o ∙ t.is_on;
      size_fits = rw z t.size_fits;
      highest_top = e ∙ t.highest_top;
      idle = λ n. w ∙ t.idle n;
      bits = λ d lt. rw w (t.bits d lt);
    }

-- Both outcomes of `check_and_accept`.
record Step (s : ReplayProtection) (h : List ℕ) (i : ℕ) : Type 0 where
  admit :
      admits s.window_size h i ≡ true
      → ((check_and_accept s i).0 ≡ ok tt)
        × Tracks (check_and_accept s i).1 (i ∷ h)
        × ((check_and_accept s i).1.window_size ≡ s.window_size)
  refuse :
      admits s.window_size h i ≡ false
      → ((check_and_accept s i).0 ≡ err replay_detected)
        × Tracks (check_and_accept s i).1 h
        × ((check_and_accept s i).1.window_size ≡ s.window_size)

accept_checked-ok :
    (i : ℕ) (r : Result SrtpError (Unit {0}) × ReplayProtection)
    → r.0 ≡ ok tt
    → accept_checked i r ≡ (ok tt, accept r.1 i)
unfolding accept_checked
accept_checked-ok i (ok _, s) e = refl
accept_checked-ok i (err x, s) e = cc

accept_checked-err :
    (i : ℕ) (r : Result SrtpError (Unit {0}) × ReplayProtection) (x : SrtpError)
    → r.0 ≡ err x
    → accept_checked i r ≡ (err x, r.1)
unfolding accept_checked
accept_checked-err i (ok _, s) x e = cc
accept_checked-err i (err y, s) x e = ground arith

accept-window_size : (s : ReplayProtection) (i : ℕ) → (accept s i).window_size ≡ s.window_size
unfolding accept
accept-window_size s i = ground arith

check_and_accept-Step : (s : ReplayProtection) (h : List ℕ) (i : ℕ) → Tracks s h → Step s h i
unfolding check_and_accept
check_and_accept-Step s h i t =
    let t' = check-Tracks s h i t in
    let size = (check_frame s i).2 in
    record {
      admit = λ e.
          rw (accept_checked-ok i (check s i) (check-admits s h i t ∙ rw e))
            (refl, accept-Tracks (check s i).1 h i t', accept-window_size (check s i).1 i ∙ size);
      refuse = λ e.
          rw (accept_checked-err i (check s i) replay_detected (check-admits s h i t ∙ rw e))
            (refl, t', size);
    }

-- The indices that a receiver accepts, in order, when each is checked and accepted at once.
unfoldable pub keep_if_ok : ℕ → Result SrtpError (Unit {0}) → List ℕ → List ℕ
keep_if_ok i (ok _) is = i ∷ is
keep_if_ok i (err _) is = is

unfoldable pub accepted : ReplayProtection → List ℕ → List ℕ
unfolding keep_if_ok
accepted s [] = []
accepted s (i ∷ is) = let r = check_and_accept s i in keep_if_ok i r.0 (accepted r.1 is)

-- The same over the history alone.
pub admitted : ℕ → List ℕ → List ℕ → List ℕ
admitted size h [] = []
admitted size h (i ∷ is) =
    if admits size h i then i ∷ admitted size (i ∷ h) is else admitted size h is

accepted-admitted_from :
    (s : ReplayProtection) (h is : List ℕ)
    → Tracks s h
    → accepted s is ≡ admitted s.window_size h is
unfolding accepted admitted
accepted-admitted_from s h [] t = refl
accepted-admitted_from s h (i ∷ is) t =
    let st = check_and_accept-Step s h i t in
    elim (Bool-cases (admits s.window_size h i)) [
      | inl e ↦
          let (r, t', z) = st.admit e in
          rw (e, r)
            (ap (◌∷◌ i) (accepted-admitted_from (check_and_accept s i).1 (i ∷ h) is t' ∙ rw z))
      | inr e ↦
          let (r, t', z) = st.refuse e in
          rw (e, r) (accepted-admitted_from (check_and_accept s i).1 h is t' ∙ rw z)
    ]

-- From a fresh state of any size the code accepts exactly what the specification admits, where
-- the size is cut to 64.
pub accepted-admitted :
    (size : ℕ) (is : List ℕ) → accepted (with_window_size size) is ≡ admitted (min size 64) [] is
unfolding with_window_size
accepted-admitted size is =
    accepted-admitted_from (with_window_size size) [] is (with_window_size-Tracks size)
    ∙ ap (λ n. admitted n [] is) (ground arith)

-- No element occurs later in the list.
abbrev pub Distinct : List ℕ → Type 0
Distinct [] = Unit {0}
Distinct (x ∷ xs) = (contains x xs ≡ false) × Distinct xs

contains-nil : (i : ℕ) → contains i [] ≡ false
unfolding contains
contains-nil i = refl

contains-cons_self : (i : ℕ) (h : List ℕ) → contains i (i ∷ h) ≡ true
unfolding contains
contains-cons_self i h = ground arith

pub admits-fresh : (size : ℕ) (h : List ℕ) (i : ℕ) → admits size h i ≡ true → contains i h ≡ false
unfolding admits
admits-fresh size [] i e = contains-nil i
admits-fresh size (x ∷ h) i e = ground (arith, contains-le_top i (x ∷ h))

admitted-fresh :
    (size : ℕ) (h is : List ℕ) (a : ℕ)
    → contains a h ≡ true
    → contains a (admitted size h is) ≡ false
unfolding admitted contains
admitted-fresh size h [] a e = refl
admitted-fresh size h (i ∷ is) a e =
    ground
      (arith, admits-fresh size h i, admitted-fresh size h is a e, admitted-fresh size (i ∷ h) is a)

admitted-Distinct : (size : ℕ) (h is : List ℕ) → Distinct (admitted size h is)
unfolding admitted
admitted-Distinct size h [] = tt
admitted-Distinct size h (i ∷ is) = elim (Bool-cases (admits size h i)) [
  | inl e ↦
      rw e (
        admitted-fresh size (i ∷ h) is i (contains-cons_self i h),
        admitted-Distinct size (i ∷ h) is,
      )
  | inr e ↦ rw e (admitted-Distinct size h is)
]

-- An index is accepted at most once, whatever arrives and in whatever order.
pub accepted-Distinct : (size : ℕ) (is : List ℕ) → Distinct (accepted (with_window_size size) is)
accepted-Distinct size is = rw (accepted-admitted size is) (admitted-Distinct (min size 64) [] is)
