-- ===== src/Srtp/Inbound/Replayed.antt =====
-- A pinned SSRC of `SrtpInbound` through any sequence of calls.
use nexus_sfu.Base.{
  ℕ, bit_and, ◌≡◌, refl, sym, ap, subst, ◌∙◌, ◌≢◌, inl, inr, true, ◌||◌, false≢true, Option, none,
  some, List, [], ◌∷◌, ℕ_discrete, ltb, leb, ◌==◌, Bool-cases, length, get_elem?, get_or-get_elem?,
  some_eq, position, position-some, count, Result, ok, err,
}
use nexus_sfu.Base.Bytes.{be_u16, be_u32}
use nexus_sfu.Srtp.Types.{SrtpError}
use nexus_sfu.Srtp.Cipher.{srtcp_index_mask}
use nexus_sfu.Srtp.Replay.{ReplayProtection, check}
use nexus_sfu.Srtp.Inbound.{
  SsrcIn, empty, fresh, SrtpInbound, owns, is_pinned, pinned_count, slot_at, write_slot, slot_for,
  slot_to_replace, pin_slot, pin_new, pin_found, pin, unpin_found, unpin, srtcp_e_flag, evict_idle,
}
use nexus_sfu.Srtp.Inbound.Unprotect.{
  unprotect_rtp, open_rtcp, unprotect_rtcp_checked, unprotect_rtcp_slot, unprotect_rtcp_at,
  unprotect_rtcp, srtcp_trailer_offset,
}
use nexus_sfu.Srtp.Inbound.Table.{Found, slot_for-Found, Takes, slot_to_replace-Takes}
use nexus_sfu.Srtp.Inbound.Sound.{Sound}
use nexus_sfu.Srtp.Inbound.Control.{
  Op, pins, unpins, receives_rtp, receives_rtcp, evicts, step, evict_slots-after,
}
use nexus_sfu.Srtp.Inbound.Pinned.{Guards, SameBut-Guards, set-SameBut, unprotect_rtcp_slot-SameBut}
use nexus_sfu.Srtp.Inbound.Delivery.{
  Kept, heard, rewrite_slot, unprotect_slot-Kept, taken, not_here,
}

-- The history of `p` after a call: an RTP packet of `p` that is delivered adds its index.
unfoldable pub after : ℕ → List ℕ → SrtpInbound → Op → List ℕ
unfolding heard
after p h s (receives_rtp buf len now_s) =
    heard p h s (be_u32 buf 8) (be_u16 buf 2) (slot_for s (be_u32 buf 8) now_s)
      (unprotect_rtp s buf len now_s).0
after p h s (pins ssrc) = h
after p h s (unpins ssrc) = h
after p h s (receives_rtcp buf len now_s) = h
after p h s (evicts now_s idle_s) = h

unfoldable pub history : ℕ → List ℕ → SrtpInbound → List Op → List ℕ
unfolding after
history p h s [] = h
history p h s (o ∷ os) = history p (after p h s o) (step s o) os

abbrev pub Stays : ℕ → Op → Type 0
Stays p (unpins ssrc) = ssrc ≢ p
Stays p _ = Unit {0}

abbrev pub NeverUnpins : ℕ → List Op → Type 0
NeverUnpins p [] = Unit {0}
NeverUnpins p (o ∷ os) = Stays p o × NeverUnpins p os

module _ (s : SrtpInbound) (k p : ℕ) (h : List ℕ) (x : SsrcIn) (v : Sound s.slots)
    (g : Guards s.slots k p h x) where
  unheard : (ssrc seq : ℕ) (j : Option ℕ) → Kept k p h (heard p h s ssrc seq j none) s.slots
  unfolding heard
  unheard ssrc seq none = (λ d. d, (x, g))
  unheard ssrc seq (some j) = elim (Bool-cases (ssrc == p)) [
    | inl e ↦ rw e (λ d. d, (x, g))
    | inr e ↦ rw e (λ d. d, (x, g))
  ]

  unprotect_rtp-Kept :
      (buf : List ℕ) (len now_s : ℕ)
      → Kept k p h
          (after p h s (receives_rtp buf len now_s))
          (unprotect_rtp s buf len now_s).2.slots
  unfolding unprotect_rtp after heard
  unprotect_rtp-Kept buf len now_s = elim (Bool-cases (ltb len 12 || ltb (length buf) len)) [
    | inl e ↦ rw e (unheard (be_u32 buf 8) (be_u16 buf 2) (slot_for s (be_u32 buf 8) now_s))
    | inr e ↦ rw e (
        unprotect_slot-Kept s k p h x v g buf len (be_u32 buf 8) (be_u16 buf 2) now_s
          (slot_for s (be_u32 buf 8) now_s) (slot_for-Found s (be_u32 buf 8) now_s))
  ]

  rtcp_opened :
      (i now_s : ℕ) (x' : SsrcIn)
      → Guards (write_slot s k x').slots k p h x'
      → (r : Result SrtpError (ℕ × ℕ) × List ℕ)
      → (y : SsrcIn) × Guards (open_rtcp (write_slot s k x') k x' i now_s r).2.slots k p h y
  unfolding open_rtcp
  rtcp_opened i now_s x' g' (err _, buf) = (x', g')
  rtcp_opened i now_s x' g' (ok (out, _), buf) =
      (_, rewrite_slot (write_slot s k x').slots k p h h x' _ g' refl refl refl g'.tracks)

  -- RTCP has a window of its own.
  rtcp_home :
      (buf : List ℕ) (len i now_s : ℕ) (r : Result SrtpError (Unit {0}) × ReplayProtection)
      → (y : SsrcIn) × Guards (unprotect_rtcp_checked s k x buf len i now_s r).2.slots k p h y
  unfolding unprotect_rtcp_checked open_rtcp
  rtcp_home buf len i now_s (err _, r) =
      (_, rewrite_slot s.slots k p h h x _ g refl refl refl g.tracks)
  rtcp_home buf len i now_s (ok _, r) =
      let x' : SsrcIn = record x { rtcp_replay = r } in
      rtcp_opened i now_s x' (rewrite_slot s.slots k p h h x x' g refl refl refl g.tracks)
        (s.cipher.unprotect_rtcp buf len)

  rtcp_elsewhere :
      (buf : List ℕ) (len ssrc i now_s j : ℕ)
      → k ≢ j
      → (y : SsrcIn) × Guards (unprotect_rtcp_slot s buf len ssrc i now_s (some j)).2.slots k p h y
  rtcp_elsewhere buf len ssrc i now_s j other = (
    x,
    SameBut-Guards s.slots (unprotect_rtcp_slot s buf len ssrc i now_s (some j)).2.slots k j p h x
        (unprotect_rtcp_slot-SameBut s buf len ssrc i now_s j) other g,
  )

  rtcp_slot :
      (buf : List ℕ) (len ssrc i now_s : ℕ) (j : Option ℕ)
      → Found s.slots ssrc now_s s.slots j
      → (y : SsrcIn) × Guards (unprotect_rtcp_slot s buf len ssrc i now_s j).2.slots k p h y
  unfolding unprotect_rtcp_slot
  rtcp_slot buf len ssrc i now_s none f = (x, g)
  rtcp_slot buf len ssrc i now_s (some j) (inl (y, at, own)) = elim (ℕ_discrete j k) [
    | yes same ↦
        let eq : y ≡ x = some_eq (sym at ∙ ap (get_elem? s.slots) same ∙ g.here) in
        subst
          (λ j.
            (y : SsrcIn) × Guards (unprotect_rtcp_slot s buf len ssrc i now_s (some j)).2.slots k p
              h y)
          (sym same)
          (rw (get_or-get_elem? s.slots k x empty g.here) (
            rw (subst (λ z. owns ssrc z ≡ true) eq own)
              (rtcp_home buf len i now_s (check x.rtcp_replay i))))
    | no apart ↦ rtcp_elsewhere buf len ssrc i now_s j (λ q. apart (sym q))
  ]
  rtcp_slot buf len ssrc i now_s (some j) (inr (nobody, free)) =
      rtcp_elsewhere buf len ssrc i now_s j (taken s k p h x v g j now_s free)

  rtcp_at :
      (buf : List ℕ) (len now_s : ℕ) (at : Option ℕ)
      → (y : SsrcIn) × Guards (unprotect_rtcp_at s buf len now_s at).2.slots k p h y
  unfolding unprotect_rtcp_at
  rtcp_at buf len now_s none = (x, g)
  rtcp_at buf len now_s (some at) = elim (Bool-cases (bit_and (be_u32 buf at) srtcp_e_flag == 0)) [
    | inl e ↦ rw e (x, g)
    | inr e ↦ rw e (
        rtcp_slot buf len (be_u32 buf 4) (bit_and (be_u32 buf at) srtcp_index_mask) now_s
          (slot_for s (be_u32 buf 4) now_s) (slot_for-Found s (be_u32 buf 4) now_s))
  ]

  rtcp-Guards :
      (buf : List ℕ) (len now_s : ℕ)
      → (y : SsrcIn) × Guards (unprotect_rtcp s buf len now_s).2.slots k p h y
  unfolding unprotect_rtcp
  rtcp-Guards buf len now_s = elim (Bool-cases (ltb len 8 || ltb (length buf) len)) [
    | inl e ↦ rw e (x, g)
    | inr e ↦ rw e (rtcp_at buf len now_s (srtcp_trailer_offset s.cipher len))
  ]

  -- The control path leaves the slot alone.
  pin_slot-Guards : (j : ℕ) → k ≢ j → Guards (pin_slot s j).slots k p h x
  unfolding pin_slot
  pin_slot-Guards j other =
      SameBut-Guards s.slots (pin_slot s j).slots k j p h x (set-SameBut j s.slots _) other g

  free_slot : (j : ℕ) → Takes s.slots (some j) → k ≢ j
  free_slot j (y, at, inl dead) same =
      let eq : y ≡ x = some_eq (sym at ∙ ap (get_elem? s.slots) (sym same) ∙ g.here) in
      false≢true (sym dead ∙ ap (λ (z : SsrcIn). z.live) eq ∙ g.lives)
  free_slot j (y, at, inr unpinned) same =
      let eq : y ≡ x = some_eq (sym at ∙ ap (get_elem? s.slots) (sym same) ∙ g.here) in
      false≢true (sym unpinned ∙ ap (λ (z : SsrcIn). z.pinned) eq ∙ g.is_pinned)

  pin_new-Guards :
      (ssrc : ℕ) (j : Option ℕ) → Takes s.slots j → Guards (pin_new s ssrc j).1.slots k p h x
  unfolding pin_new pin_slot
  pin_new-Guards ssrc none t = g
  pin_new-Guards ssrc (some j) t =
      let s' : SrtpInbound = write_slot s j (fresh ssrc 0) in
      SameBut-Guards s'.slots (pin_slot s' j).slots k j p h x (set-SameBut j s'.slots _)
        (free_slot j t)
        (SameBut-Guards s.slots s'.slots k j p h x (set-SameBut j s.slots (fresh ssrc 0))
          (free_slot j t) g)

  pin_found-Guards : (ssrc : ℕ) (j : Option ℕ) → Guards (pin_found s ssrc j).1.slots k p h x
  unfolding pin_found pinned_count
  pin_found-Guards ssrc none = elim (Bool-cases (leb 12 (count is_pinned s.slots))) [
    | inl full ↦ rw full g
    | inr room ↦ rw room (pin_new-Guards ssrc (slot_to_replace s) (slot_to_replace-Takes s))
  ]
  pin_found-Guards ssrc (some j) = elim (Bool-cases (slot_at s j).pinned) [
    | inl already ↦ rw already g
    | inr not_yet ↦ rw not_yet (elim (Bool-cases (leb 12 (count is_pinned s.slots))) [
      | inl full ↦ rw full g
      | inr room ↦ rw room (
          pin_slot-Guards j (λ same. false≢true (
            sym not_yet
            ∙ ap (λ (z : SsrcIn). z.pinned)
                (ap (slot_at s) (sym same) ∙ get_or-get_elem? s.slots k x empty g.here)
            ∙ g.is_pinned)))
    ])
  ]

  unpin_found-Guards :
      (ssrc : ℕ) (j : Option ℕ)
      → ssrc ≢ p
      → position (owns ssrc) s.slots ≡ j
      → Guards (unpin_found s j).slots k p h x
  unfolding unpin_found
  unpin_found-Guards ssrc none apart e = g
  unpin_found-Guards ssrc (some j) apart e =
      let (at, own) = position-some (owns ssrc) s.slots j empty e in
      SameBut-Guards s.slots (unpin_found s (some j)).slots k j p h x (set-SameBut j s.slots _)
        (not_here s k p h x v g ssrc j (slot_at s j) at own apart) g

  pub step-Kept : (o : Op) → Stays p o → Kept k p h (after p h s o) (step s o).slots
  unfolding step after pin unpin evict_idle
  step-Kept (pins ssrc) st = (λ d. d, (x, pin_found-Guards ssrc (position (owns ssrc) s.slots)))
  step-Kept (unpins ssrc) st =
      (λ d. d, (x, unpin_found-Guards ssrc (position (owns ssrc) s.slots) st refl))
  step-Kept (receives_rtp buf len now_s) st = unprotect_rtp-Kept buf len now_s
  step-Kept (receives_rtcp buf len now_s) st = (λ d. d, rtcp-Guards buf len now_s)
  step-Kept (evicts now_s idle_s) st = (
    λ d. d,
    (
      x,
      record {
        here = evict_slots-after now_s idle_s s.slots k x g.is_pinned g.here;
        its = g.its;
        lives = g.lives;
        is_pinned = g.is_pinned;
        tracks = g.tracks;
      },
    ),
  )
