-- ===== src/Srtp/Outbound/Once.antt =====
-- The nonce rule of srtp/direction.rs: no (SSRC, index) pair is ever protected twice.
use nexus_sfu.Base.{
  ℕ, ◌≤◌, ◌<◌, ◌≡◌, refl, sym, ap, subst, ◌∙◌, ◌≢◌, ◌⊎◌, inl, inr, true, false, Option, none, some,
  List, [], ◌∷◌, arith, get_elem?, set, contains, Result, ok, err,
}
use nexus_sfu.Srtp.Types.{SrtpError}
use nexus_sfu.Srtp.Replay.{ReplayProtection, check}
use nexus_sfu.Srtp.Replay.Window.{Tracks, accept-Tracks}
use nexus_sfu.Srtp.Replay.Safety.{check-Tracks, check-admits, admits-fresh}
use nexus_sfu.Srtp.Cipher.{Cipher}
use nexus_sfu.Srtp.Outbound.{
  SsrcOut, SrtpOutbound, slot_at, protect_slot, protect_checked, seal_rtp, offset_from,
}
use nexus_sfu.Srtp.Outbound.Slots.{owners, owners-set, owners-two}
use nexus_sfu.Srtp.Outbound.Inv.{indices, Good, Inv, set-good}

-- What happened to a slot: its window still tracks the log, with one index more if it sent.
abbrev pub Sealed : SsrcOut → ℕ → List ℕ → Option ℕ → SsrcOut → Type 0
Sealed x index h none x' = (x'.ssrc ≡ x.ssrc) × (x'.live ≡ x.live) × Tracks x'.sent h
Sealed x index h (some _) x' =
    (x'.ssrc ≡ x.ssrc)
    × (x'.live ≡ x.live)
    × (contains index h ≡ false)
    × Tracks x'.sent (index ∷ h)

seal_rtp-Sealed :
    (x : SsrcOut) (s : ReplayProtection) (seq index : ℕ) (h : List ℕ)
    (r : Result SrtpError ℕ × List ℕ)
    → Tracks s h
    → contains index h ≡ false
    → let (out, _, x') = seal_rtp (record x { sent = s }) seq index r in Sealed x index h out x'
unfolding seal_rtp
seal_rtp-Sealed x s seq index h (err _, buf) t f = (refl, refl, t)
seal_rtp-Sealed x s seq index h (ok out, buf) t f = (refl, refl, f, accept-Tracks s h index t)

protect_checked-Sealed :
    (c : Cipher) (x : SsrcOut) (buf : List ℕ) (len seq index : ℕ) (h : List ℕ)
    (r : Result SrtpError (Unit {0}) × ReplayProtection)
    → Tracks r.1 h
    → (r.0 ≡ ok tt → contains index h ≡ false)
    → let (out, _, x') = protect_checked c x buf len seq index r in Sealed x index h out x'
unfolding protect_checked
protect_checked-Sealed c x buf len seq index h (err _, s) t f = (refl, refl, t)
protect_checked-Sealed c x buf len seq index h (ok _, s) t f =
    seal_rtp-Sealed x s seq index h (c.protect_rtp buf len index) t (f refl)

check-fresh :
    (s : ReplayProtection) (h : List ℕ) (i : ℕ)
    → Tracks s h
    → (check s i).0 ≡ ok tt
    → contains i h ≡ false
check-fresh s h i t e = ground (arith, check-admits s h i t, admits-fresh s.window_size h i)

-- One call of `protect_rtp`, on the slot that the packet's SSRC has.
pub protect_slot-Sealed :
    (c : Cipher) (x : SsrcOut) (buf : List ℕ) (len seq : ℕ) (h : List ℕ) (r : Result SrtpError ℕ)
    → Tracks x.sent h
    → let (out, _, x') = protect_slot c x buf len seq r in
      ((index : ℕ) × (r ≡ ok index) × Sealed x index h out x') ⊎ ((out ≡ none) × (x' ≡ x))
unfolding protect_slot
protect_slot-Sealed c x buf len seq h (err _) t = inr (refl, refl)
protect_slot-Sealed c x buf len seq h (ok index) t = inl (
  index,
  refl,
  protect_checked-Sealed c x buf len seq index h (check x.sent index)
      (check-Tracks x.sent h index t) (check-fresh x.sent h index t),
)

-- No pair occurs later in the log.
abbrev pub Once : List (ℕ × ℕ) → Type 0
Once [] = Unit {0}
Once ((ssrc, i) ∷ log) = (contains i (indices ssrc log) ≡ false) × Once log

pub indices_other :
    (s ssrc i : ℕ) (log : List (ℕ × ℕ)) → s ≢ ssrc → indices ssrc ((s, i) ∷ log) ≡ indices ssrc log
unfolding indices
indices_other s ssrc i log ne = ground arith

pub indices_self : (s i : ℕ) (log : List (ℕ × ℕ)) → indices s ((s, i) ∷ log) ≡ i ∷ indices s log
unfolding indices
indices_self s i log = ground arith

-- A write that keeps a slot's SSRC keeps the counts.
write-single :
    (o : SrtpOutbound) (log : List (ℕ × ℕ)) (k : ℕ) (x' : SsrcOut) (s : ℕ)
    → Inv o log
    → get_elem? o.slots k ≡ some (slot_at o k)
    → x'.ssrc ≡ (slot_at o k).ssrc
    → x'.live ≡ (slot_at o k).live
    → owners s (set o.slots k x') ≤ 1
write-single o log k x' s v at q l =
    ground (arith, owners-set s o.slots k (slot_at o k) x' at, v.single s)

pub write-idle :
    (o : SrtpOutbound) (log : List (ℕ × ℕ)) (k : ℕ) (x' : SsrcOut)
    → Inv o log
    → get_elem? o.slots k ≡ some (slot_at o k)
    → x'.ssrc ≡ (slot_at o k).ssrc
    → x'.live ≡ (slot_at o k).live
    → Tracks x'.sent (indices x'.ssrc log)
    → Inv (record o { slots = set o.slots k x' }) log
write-idle o log k x' v at q l t = record {
  single = λ s. write-single o log k x' s v at q l;
  unused = v.unused;
  good =
      set-good (Good o.ssrc_base o.next_offset log) o.slots k x'
        (λ live. record {
          registered =
              subst (λ s. offset_from o.ssrc_base s < o.next_offset) (sym q)
                (v.good k (slot_at o k) at (sym l ∙ live)).registered;
          tracks = t;
        })
        (λ i x ne e live. v.good i x e live);
}

pub write-sent :
    (o : SrtpOutbound) (log : List (ℕ × ℕ)) (k index : ℕ) (x' : SsrcOut)
    → Inv o log
    → get_elem? o.slots k ≡ some (slot_at o k)
    → (slot_at o k).live ≡ true
    → x'.ssrc ≡ (slot_at o k).ssrc
    → x'.live ≡ (slot_at o k).live
    → Tracks x'.sent (index ∷ indices x'.ssrc log)
    → Inv (record o { slots = set o.slots k x' }) ((x'.ssrc, index) ∷ log)
write-sent o log k index x' v at on q l t =
    let here = v.good k (slot_at o k) at on in
    let below : offset_from o.ssrc_base x'.ssrc < o.next_offset =
      subst (λ s. offset_from o.ssrc_base s < o.next_offset) (sym q) here.registered in
    record {
      single = λ s. write-single o log k x' s v at q l;
      unused = λ s h.
          indices_other x'.ssrc s index log
            (λ e. absurd (omega (arith, below, h, ap (offset_from o.ssrc_base) e)))
          ∙ v.unused s h;
      good =
          set-good (Good o.ssrc_base o.next_offset ((x'.ssrc, index) ∷ log)) o.slots k x'
            (λ live. record { registered = below; tracks = rw (indices_self x'.ssrc index log) t })
            (λ i x ne e live.
              let g = v.good i x e live in
              let other : x'.ssrc ≢ x.ssrc = λ p. absurd (
                omega (
                  arith,
                  v.single x.ssrc,
                  owners-two x.ssrc o.slots i k x (slot_at o k) ne e at (ground arith)
                      (ground arith),
                )) in
              record {
                registered = g.registered;
                tracks = rw (indices_other x'.ssrc x.ssrc index log other) g.tracks;
              });
    }
