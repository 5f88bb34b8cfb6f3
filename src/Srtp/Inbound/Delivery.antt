-- ===== src/Srtp/Inbound/Delivery.antt =====
-- What `SrtpInbound` delivers of a pinned SSRC, call by call.
use nexus_sfu.Base.{
  ℕ, ◌≡◌, refl, sym, ap, subst, ◌∙◌, ◌≢◌, inl, inr, true, false, false≢true, Option, none, some,
  List, ◌∷◌, arith, ℕ_discrete, ◌==◌, if◌then◌else◌, get_elem?, set, get_elem?-set_self,
  get_elem?_lt, get_or-get_elem?, contains, count-two, Result, ok, err,
}
use nexus_sfu.Srtp.Types.{SrtpError}
use nexus_sfu.Srtp.Replay.{ReplayProtection, check}
use nexus_sfu.Srtp.Replay.Window.{Tracks, accept-Tracks}
use nexus_sfu.Srtp.Replay.Safety.{Distinct, check-admits, check-Tracks, admits-fresh}
use nexus_sfu.Srtp.Index.{estimate_index}
use nexus_sfu.Srtp.Inbound.{SsrcIn, empty, SrtpInbound, owns, slot_at, write_slot}
use nexus_sfu.Srtp.Inbound.Unprotect.{open_rtp, unprotect_checked, unprotect_known, unprotect_slot}
use nexus_sfu.Srtp.Inbound.Table.{At, Found, Replaceable}
use nexus_sfu.Srtp.Inbound.Sound.{Sound}
use nexus_sfu.Srtp.Inbound.Pinned.{Guards, SameBut-Guards, unprotect_slot-SameBut}

-- The history after a packet, by whether it was delivered and by its index.
unfoldable pub grow : List ℕ → Option ℕ → Result SrtpError ℕ → List ℕ
grow h none e = h
grow h (some _) (ok i) = i ∷ h
grow h (some _) (err _) = h

-- The slot is still there, pinned, with the grown history, in which nothing is new twice.
abbrev pub Kept : ℕ → ℕ → List ℕ → List ℕ → List SsrcIn → Type 0
Kept k p h h' xs = (Distinct h → Distinct h') × ((x : SsrcIn) × Guards xs k p h' x)

pub rewrite_slot :
    (xs : List SsrcIn) (k p : ℕ) (h h' : List ℕ) (x : SsrcIn) (y : SsrcIn)
    → Guards xs k p h x
    → y.ssrc ≡ x.ssrc
    → y.live ≡ x.live
    → y.pinned ≡ x.pinned
    → Tracks y.rtp_replay h'
    → Guards (set xs k y) k p h' y
rewrite_slot xs k p h h' x y g same live pinned t = record {
  here = get_elem?-set_self xs k y (get_elem?_lt xs k x g.here);
  its = same ∙ g.its;
  lives = live ∙ g.lives;
  is_pinned = pinned ∙ g.is_pinned;
  tracks = t;
}

open_rtp-Kept :
    (s : SrtpInbound) (k p : ℕ) (h : List ℕ) (x : SsrcIn) (seq i now_s : ℕ)
    (r : Result SrtpError ℕ × List ℕ)
    → Guards s.slots k p h x
    → contains i h ≡ false
    → Kept k p h
        (grow h (open_rtp s k x seq i now_s r).0 (ok i))
        (open_rtp s k x seq i now_s r).2.slots
unfolding open_rtp grow
open_rtp-Kept s k p h x seq i now_s (err _, buf) g new = (λ d. d, (x, g))
open_rtp-Kept s k p h x seq i now_s (ok out, buf) g new = (
  λ d. (new, d),
  (
    _,
    rewrite_slot s.slots k p h (i ∷ h) x _ g refl refl refl
        (accept-Tracks x.rtp_replay h i g.tracks),
  ),
)

unprotect_checked-Kept :
    (s : SrtpInbound) (k p : ℕ) (h : List ℕ) (x : SsrcIn) (buf : List ℕ) (len seq i now_s : ℕ)
    (r : Result SrtpError (Unit {0}) × ReplayProtection)
    → Guards s.slots k p h x
    → Tracks r.1 h
    → (r.0 ≡ ok tt → contains i h ≡ false)
    → let q = unprotect_checked s k x buf len seq i now_s r in
      Kept k p h (grow h q.0 (ok i)) q.2.slots
unfolding unprotect_checked grow
unprotect_checked-Kept s k p h x buf len seq i now_s (err _, r) g t new =
    (λ d. d, (_, rewrite_slot s.slots k p h h x _ g refl refl refl t))
unprotect_checked-Kept s k p h x buf len seq i now_s (ok _, r) g t new =
    let x' : SsrcIn = record x { rtp_replay = r } in
    open_rtp-Kept (write_slot s k x') k p h x' seq i now_s (s.cipher.unprotect_rtp buf len i)
      (rewrite_slot s.slots k p h h x x' g refl refl refl t) (new refl)

unprotect_known-Kept :
    (s : SrtpInbound) (k p : ℕ) (h : List ℕ) (x : SsrcIn) (buf : List ℕ) (len seq now_s : ℕ)
    (e : Result SrtpError ℕ)
    → Guards s.slots k p h x
    → let q = unprotect_known s k x buf len seq now_s e in Kept k p h (grow h q.0 e) q.2.slots
unfolding unprotect_known grow
unprotect_known-Kept s k p h x buf len seq now_s (err _) g = (λ d. d, (x, g))
unprotect_known-Kept s k p h x buf len seq now_s (ok i) g =
    unprotect_checked-Kept s k p h x buf len seq i now_s (check x.rtp_replay i) g
      (check-Tracks x.rtp_replay h i g.tracks)
      (λ e.
        ground (
          arith,
          check-admits x.rtp_replay h i g.tracks,
          admits-fresh x.rtp_replay.window_size h i,
        ))

-- The history of `p` after a packet for some SSRC.
unfoldable pub heard : ℕ → List ℕ → SrtpInbound → ℕ → ℕ → Option ℕ → Option ℕ → List ℕ
unfolding grow
heard p h s ssrc seq none out = h
heard p h s ssrc seq (some k) out =
    if ssrc == p then grow h out (estimate_index (slot_at s k).roc seq) else h

module _ (s : SrtpInbound) (k p : ℕ) (h : List ℕ) (x : SsrcIn) (v : Sound s.slots)
    (g : Guards s.slots k p h x) where
  -- The guarded slot is the one that owns `p`.
  pub owner_is : (j : ℕ) (y : SsrcIn) → get_elem? s.slots j ≡ some y → owns p y ≡ true → j ≡ k
  owner_is j y at own = elim (ℕ_discrete j k) [
    | yes same ↦ same
    | no other ↦ absurd (
        omega (
          arith,
          v.single p,
          count-two (owns p) s.slots j k y x other at g.here own (ground (arith, g.its, g.lives)),
        ))
  ]

  pub taken : (j now_s : ℕ) → At s.slots j (Replaceable now_s) → k ≢ j
  taken j now_s (y, at, inl dead) same =
      let e : get_elem? s.slots j ≡ some x = ap (get_elem? s.slots) (sym same) ∙ g.here in
      let eq : y ≡ x = cc in
      absurd (false≢true (sym dead ∙ ap (λ (z : SsrcIn). z.live) eq ∙ g.lives))
  taken j now_s (y, at, inr (unpinned, idle)) same =
      let e : get_elem? s.slots j ≡ some x = ap (get_elem? s.slots) (sym same) ∙ g.here in
      let eq : y ≡ x = cc in
      absurd (false≢true (sym unpinned ∙ ap (λ (z : SsrcIn). z.pinned) eq ∙ g.is_pinned))

  pub owns-p : owns p x ≡ true
  owns-p = ground (arith, g.its, g.lives)

  elsewhere :
      (buf : List ℕ) (len ssrc seq now_s j : ℕ)
      → k ≢ j
      → ssrc ≢ p
      → let q = unprotect_slot s buf len ssrc seq now_s (some j) in
        Kept k p h (heard p h s ssrc seq (some j) q.0) q.2.slots
  unfolding heard
  elsewhere buf len ssrc seq now_s j other apart =
      let no : (ssrc == p) ≡ false = ground arith in
      rw no (
        λ d. d,
        (
          x,
          SameBut-Guards s.slots (unprotect_slot s buf len ssrc seq now_s (some j)).2.slots k j p h
              x (unprotect_slot-SameBut s buf len ssrc seq now_s j) other g,
        ),
      )

  at_home :
      (buf : List ℕ) (len ssrc seq now_s : ℕ)
      → ssrc ≡ p
      → let q = unprotect_slot s buf len ssrc seq now_s (some k) in
        Kept k p h (heard p h s ssrc seq (some k) q.0) q.2.slots
  unfolding heard unprotect_slot
  at_home buf len ssrc seq now_s same =
      let yes_p : (ssrc == p) ≡ true = ground arith in
      let own : owns ssrc x ≡ true = ap (λ n. owns n x) same ∙ owns-p in
      rw (get_or-get_elem? s.slots k x empty g.here) (
        rw yes_p
          (rw own (unprotect_known-Kept s k p h x buf len seq now_s (estimate_index x.roc seq) g)))

  pub not_here :
      (ssrc j : ℕ) (y : SsrcIn)
      → get_elem? s.slots j ≡ some y
      → owns ssrc y ≡ true
      → ssrc ≢ p
      → k ≢ j
  not_here ssrc j y at own apart same =
      let e : get_elem? s.slots j ≡ some x = ap (get_elem? s.slots) (sym same) ∙ g.here in
      let eq : y ≡ x = cc in
      let its : y.ssrc ≡ p = ap (λ (z : SsrcIn). z.ssrc) eq ∙ g.its in apart (ground arith)

  pub unprotect_slot-Kept :
      (buf : List ℕ) (len ssrc seq now_s : ℕ) (j : Option ℕ)
      → Found s.slots ssrc now_s s.slots j
      → let q = unprotect_slot s buf len ssrc seq now_s j in
        Kept k p h (heard p h s ssrc seq j q.0) q.2.slots
  unfolding heard unprotect_slot
  unprotect_slot-Kept buf len ssrc seq now_s none f = (λ d. d, (x, g))
  unprotect_slot-Kept buf len ssrc seq now_s (some j) (inl (y, at, own)) =
      elim (ℕ_discrete ssrc p) [
        | yes same ↦
            subst
              (λ j.
                Kept k p h
                  (heard p h s ssrc seq (some j)
                    (unprotect_slot s buf len ssrc seq now_s (some j)).0)
                  (unprotect_slot s buf len ssrc seq now_s (some j)).2.slots)
              (sym (owner_is j y at (subst (λ n. owns n y ≡ true) same own)))
              (at_home buf len ssrc seq now_s same)
        | no apart ↦ elsewhere buf len ssrc seq now_s j (not_here ssrc j y at own apart) apart
      ]
  unprotect_slot-Kept buf len ssrc seq now_s (some j) (inr (nobody, free)) =
      elsewhere buf len ssrc seq now_s j (taken j now_s free)
        (λ same. false≢true (sym (nobody k x g.here) ∙ ap (λ n. owns n x) same ∙ owns-p))
