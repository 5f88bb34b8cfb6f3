-- ===== src/Srtp/Inbound/Pinned.antt =====
-- A pinned SSRC of `SrtpInbound` keeps its slot, and no packet of it is delivered twice.
use nexus_sfu.Base.{
  ℕ, ◌≡◌, refl, sym, ◌∙◌, ◌≢◌, inl, inr, true, some, List, Bool-cases, get_elem?, set,
  get_elem?-set_ne, Result, ok, err,
}
use nexus_sfu.Srtp.Types.{SrtpError, packet_index}
use nexus_sfu.Srtp.Replay.{ReplayProtection, check}
use nexus_sfu.Srtp.Replay.Window.{Tracks}
use nexus_sfu.Srtp.Index.{estimate_index}
use nexus_sfu.Srtp.Inbound.{SsrcIn, fresh, SrtpInbound, owns, slot_at, write_slot}
use nexus_sfu.Srtp.Inbound.Unprotect.{
  open_rtp, unprotect_checked, unprotect_known, unprotect_slot, open_rtcp, unprotect_rtcp_checked,
  unprotect_rtcp_slot,
}

-- Slot `k` holds a pinned SSRC with a history of delivered indices.
pub record Guards (xs : List SsrcIn) (k p : ℕ) (h : List ℕ) (x : SsrcIn) : Type 0 where
  pub here : get_elem? xs k ≡ some x
  pub its : x.ssrc ≡ p
  pub lives : x.live ≡ true
  pub is_pinned : x.pinned ≡ true
  pub tracks : Tracks x.rtp_replay h

-- All slots but `k` are as before.
abbrev pub SameBut : ℕ → List SsrcIn → List SsrcIn → Type 0
SameBut k xs ys = (j : ℕ) → j ≢ k → get_elem? ys j ≡ get_elem? xs j

pub set-SameBut : (k : ℕ) (xs : List SsrcIn) (x : SsrcIn) → SameBut k xs (set xs k x)
set-SameBut k xs x j other = get_elem?-set_ne xs k j x (λ e. other (sym e))

set_twice-SameBut : (k : ℕ) (xs : List SsrcIn) (x y : SsrcIn) → SameBut k xs (set (set xs k x) k y)
set_twice-SameBut k xs x y j other =
    set-SameBut k (set xs k x) y j other ∙ set-SameBut k xs x j other

open_rtp-SameBut :
    (s : SrtpInbound) (k : ℕ) (x : SsrcIn) (seq i now_s : ℕ) (r : Result SrtpError ℕ × List ℕ)
    → SameBut k s.slots (open_rtp s k x seq i now_s r).2.slots
unfolding open_rtp
open_rtp-SameBut s k x seq i now_s (err _, buf) j other = refl
open_rtp-SameBut s k x seq i now_s (ok out, buf) j other = set-SameBut k s.slots _ j other

open_rtcp-SameBut :
    (s : SrtpInbound) (k : ℕ) (x : SsrcIn) (i now_s : ℕ) (r : Result SrtpError (ℕ × ℕ) × List ℕ)
    → SameBut k s.slots (open_rtcp s k x i now_s r).2.slots
unfolding open_rtcp
open_rtcp-SameBut s k x i now_s (err _, buf) j other = refl
open_rtcp-SameBut s k x i now_s (ok (out, _), buf) j other = set-SameBut k s.slots _ j other

unprotect_checked-SameBut :
    (s : SrtpInbound) (k : ℕ) (x : SsrcIn) (buf : List ℕ) (len seq i now_s : ℕ)
    (r : Result SrtpError (Unit {0}) × ReplayProtection)
    → SameBut k s.slots (unprotect_checked s k x buf len seq i now_s r).2.slots
unfolding unprotect_checked
unprotect_checked-SameBut s k x buf len seq i now_s (err _, r) j other =
    set-SameBut k s.slots _ j other
unprotect_checked-SameBut s k x buf len seq i now_s (ok _, r) j other =
    open_rtp-SameBut (write_slot s k (record x { rtp_replay = r })) k (record x { rtp_replay = r })
      seq i now_s (s.cipher.unprotect_rtp buf len i) j other
    ∙ set-SameBut k s.slots (record x { rtp_replay = r }) j other

unprotect_known-SameBut :
    (s : SrtpInbound) (k : ℕ) (x : SsrcIn) (buf : List ℕ) (len seq now_s : ℕ)
    (r : Result SrtpError ℕ)
    → SameBut k s.slots (unprotect_known s k x buf len seq now_s r).2.slots
unfolding unprotect_known
unprotect_known-SameBut s k x buf len seq now_s (err _) j other = refl
unprotect_known-SameBut s k x buf len seq now_s (ok i) j other =
    unprotect_checked-SameBut s k x buf len seq i now_s (check x.rtp_replay i) j other

pub unprotect_slot-SameBut :
    (s : SrtpInbound) (buf : List ℕ) (len ssrc seq now_s k : ℕ)
    → SameBut k s.slots (unprotect_slot s buf len ssrc seq now_s (some k)).2.slots
unfolding unprotect_slot
unprotect_slot-SameBut s buf len ssrc seq now_s k j other =
    elim (Bool-cases (owns ssrc (slot_at s k))) [
      | inl e ↦ rw e (
          unprotect_known-SameBut s k (slot_at s k) buf len seq now_s
            (estimate_index (slot_at s k).roc seq) j other)
      | inr e ↦ rw e (
          open_rtp-SameBut s k (fresh ssrc now_s) seq (packet_index 0 seq) now_s
            (s.cipher.unprotect_rtp buf len (packet_index 0 seq)) j other)
    ]

unprotect_rtcp_checked-SameBut :
    (s : SrtpInbound) (k : ℕ) (x : SsrcIn) (buf : List ℕ) (len i now_s : ℕ)
    (r : Result SrtpError (Unit {0}) × ReplayProtection)
    → SameBut k s.slots (unprotect_rtcp_checked s k x buf len i now_s r).2.slots
unfolding unprotect_rtcp_checked
unprotect_rtcp_checked-SameBut s k x buf len i now_s (err _, r) j other =
    set-SameBut k s.slots _ j other
unprotect_rtcp_checked-SameBut s k x buf len i now_s (ok _, r) j other =
    open_rtcp-SameBut (write_slot s k (record x { rtcp_replay = r })) k
      (record x { rtcp_replay = r }) i now_s (s.cipher.unprotect_rtcp buf len) j other
    ∙ set-SameBut k s.slots (record x { rtcp_replay = r }) j other

pub unprotect_rtcp_slot-SameBut :
    (s : SrtpInbound) (buf : List ℕ) (len ssrc i now_s k : ℕ)
    → SameBut k s.slots (unprotect_rtcp_slot s buf len ssrc i now_s (some k)).2.slots
unfolding unprotect_rtcp_slot
unprotect_rtcp_slot-SameBut s buf len ssrc i now_s k j other =
    elim (Bool-cases (owns ssrc (slot_at s k))) [
      | inl e ↦ rw e (
          unprotect_rtcp_checked-SameBut s k (slot_at s k) buf len i now_s
            (check (slot_at s k).rtcp_replay i) j other)
      | inr e ↦ rw e (
          open_rtcp-SameBut s k (fresh ssrc now_s) i now_s (s.cipher.unprotect_rtcp buf len) j
            other)
    ]

-- Slots elsewhere do not matter to a guarded one.
pub SameBut-Guards :
    (xs ys : List SsrcIn) (k j p : ℕ) (h : List ℕ) (x : SsrcIn)
    → SameBut j xs ys
    → k ≢ j
    → Guards xs k p h x
    → Guards ys k p h x
SameBut-Guards xs ys k j p h x same other g = record {
  here = same k other ∙ g.here;
  its = g.its;
  lives = g.lives;
  is_pinned = g.is_pinned;
  tracks = g.tracks;
}
