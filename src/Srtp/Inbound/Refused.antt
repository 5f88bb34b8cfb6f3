-- ===== src/Srtp/Inbound/Refused.antt =====
-- What a refused RTP packet leaves in `SrtpInbound`.
use nexus_sfu.Base.{
  ℕ, ◌≡◌, refl, sym, ap, subst, ◌∙◌, inl, inr, ◌||◌, Option, none, some, List, ℕ_discrete, ltb,
  Bool-cases, length, get_elem?, set, get_elem?-set_self, get_elem?-set_ne, get_elem?_lt,
  get_or-get_elem?, some_eq, Result, ok, err,
}
use nexus_sfu.Base.Bytes.{be_u16, be_u32}
use nexus_sfu.Srtp.Types.{SrtpError, packet_index}
use nexus_sfu.Srtp.Replay.{ReplayProtection, check}
use nexus_sfu.Srtp.Replay.Safety.{check_frame}
use nexus_sfu.Srtp.Index.{estimate_index}
use nexus_sfu.Srtp.Inbound.{SsrcIn, empty, fresh, SrtpInbound, write_slot, slot_for}
use nexus_sfu.Srtp.Inbound.Unprotect.{
  open_rtp, unprotect_checked, unprotect_known, unprotect_slot, unprotect_rtp,
}
use nexus_sfu.Srtp.Inbound.Table.{Found, slot_for-Found}

-- The same state but for the window's counters of checked and of replayed packets.
pub record Same (x y : SsrcIn) : Type 0 where
  pub ssrc : y.ssrc ≡ x.ssrc
  pub live : y.live ≡ x.live
  pub pinned : y.pinned ≡ x.pinned
  pub roc : y.roc ≡ x.roc
  pub rtcp : y.rtcp_replay ≡ x.rtcp_replay
  pub last_seen : y.last_seen_s ≡ x.last_seen_s
  pub highest : y.rtp_replay.highest ≡ x.rtp_replay.highest
  pub window : y.rtp_replay.window ≡ x.rtp_replay.window
  pub size : y.rtp_replay.window_size ≡ x.rtp_replay.window_size
  pub enabled : y.rtp_replay.enabled ≡ x.rtp_replay.enabled

unchanged : (x : SsrcIn) → Same x x
unchanged x = record {
  ssrc = refl;
  live = refl;
  pinned = refl;
  roc = refl;
  rtcp = refl;
  last_seen = refl;
  highest = refl;
  window = refl;
  size = refl;
  enabled = refl;
}

unchanged_twice : (x y z : SsrcIn) → Same x y → Same y z → Same x z
unchanged_twice x y z a b = record {
  ssrc = b.ssrc ∙ a.ssrc;
  live = b.live ∙ a.live;
  pinned = b.pinned ∙ a.pinned;
  roc = b.roc ∙ a.roc;
  rtcp = b.rtcp ∙ a.rtcp;
  last_seen = b.last_seen ∙ a.last_seen;
  highest = b.highest ∙ a.highest;
  window = b.window ∙ a.window;
  size = b.size ∙ a.size;
  enabled = b.enabled ∙ a.enabled;
}

-- Every slot is the same in this sense.
abbrev pub Frame : List SsrcIn → List SsrcIn → Type 0
Frame xs ys =
    (j : ℕ) (x : SsrcIn)
    → get_elem? xs j ≡ some x
    → (y : SsrcIn) × (get_elem? ys j ≡ some y) × Same x y

no_change : (xs : List SsrcIn) → Frame xs xs
no_change xs j x e = (x, e, unchanged x)

set-Frame :
    (xs : List SsrcIn) (k : ℕ) (x y : SsrcIn)
    → get_elem? xs k ≡ some x
    → Same x y
    → Frame xs (set xs k y)
set-Frame xs k x y at same j z e = elim (ℕ_discrete j k) [
  | yes q ↦
      let eq : z ≡ x = some_eq (sym e ∙ ap (get_elem? xs) q ∙ at) in
      (
        y,
        ap (get_elem? (set xs k y)) q ∙ get_elem?-set_self xs k y (get_elem?_lt xs k x at),
        subst (λ w. Same w y) (sym eq) same,
      )
  | no other ↦ (z, get_elem?-set_ne xs k j y (λ q. other (sym q)) ∙ e, unchanged z)
]

open_rtp-Frame :
    (s : SrtpInbound) (k : ℕ) (x : SsrcIn) (seq i now_s : ℕ) (r : Result SrtpError ℕ × List ℕ)
    → (open_rtp s k x seq i now_s r).0 ≡ none
    → Frame s.slots (open_rtp s k x seq i now_s r).2.slots
unfolding open_rtp
open_rtp-Frame s k x seq i now_s (err _, buf) e = no_change s.slots
open_rtp-Frame s k x seq i now_s (ok out, buf) e = cc

unprotect_checked-Frame :
    (s : SrtpInbound) (k : ℕ) (x : SsrcIn) (buf : List ℕ) (len seq i now_s : ℕ)
    (r : Result SrtpError (Unit {0}) × ReplayProtection)
    → get_elem? s.slots k ≡ some x
    → Same x (record x { rtp_replay = r.1 })
    → (unprotect_checked s k x buf len seq i now_s r).0 ≡ none
    → Frame s.slots (unprotect_checked s k x buf len seq i now_s r).2.slots
unfolding unprotect_checked
unprotect_checked-Frame s k x buf len seq i now_s (err _, r) at same e j z h =
    set-Frame s.slots k x (record x { rtp_replay = r }) at same j z h
unprotect_checked-Frame s k x buf len seq i now_s (ok _, r) at same e j z h =
    let x' : SsrcIn = record x { rtp_replay = r } in
    let (w, e', same') = set-Frame s.slots k x x' at same j z h in
    let frame =
      open_rtp-Frame (write_slot s k x') k x' seq i now_s (s.cipher.unprotect_rtp buf len i) e in
    let (u, e'', same'') = frame j w e' in (u, e'', unchanged_twice z w u same' same'')

unprotect_known-Frame :
    (s : SrtpInbound) (k : ℕ) (x : SsrcIn) (buf : List ℕ) (len seq now_s : ℕ)
    (r : Result SrtpError ℕ)
    → get_elem? s.slots k ≡ some x
    → (unprotect_known s k x buf len seq now_s r).0 ≡ none
    → Frame s.slots (unprotect_known s k x buf len seq now_s r).2.slots
unfolding unprotect_known
unprotect_known-Frame s k x buf len seq now_s (err _) at e = no_change s.slots
unprotect_known-Frame s k x buf len seq now_s (ok i) at e =
    let (highest, window, size, enabled, _) = check_frame x.rtp_replay i in
    unprotect_checked-Frame s k x buf len seq i now_s (check x.rtp_replay i) at
      (record {
        ssrc = refl;
        live = refl;
        pinned = refl;
        roc = refl;
        rtcp = refl;
        last_seen = refl;
        highest = highest;
        window = window;
        size = size;
        enabled = enabled;
      })
      e

unprotect_slot-Frame :
    (s : SrtpInbound) (buf : List ℕ) (len ssrc seq now_s : ℕ) (k : Option ℕ)
    → Found s.slots ssrc now_s s.slots k
    → (unprotect_slot s buf len ssrc seq now_s k).0 ≡ none
    → Frame s.slots (unprotect_slot s buf len ssrc seq now_s k).2.slots
unfolding unprotect_slot
unprotect_slot-Frame s buf len ssrc seq now_s none f e = no_change s.slots
unprotect_slot-Frame s buf len ssrc seq now_s (some k) (inl (x, at, own)) e =
    let same = get_or-get_elem? s.slots k x empty at in
    let e' = rw own at (rw same at e) in
    rw same
      (rw own (unprotect_known-Frame s k x buf len seq now_s (estimate_index x.roc seq) at e'))
unprotect_slot-Frame s buf len ssrc seq now_s (some k) (inr (nobody, (x, at, free))) e =
    let same = get_or-get_elem? s.slots k x empty at in
    let e' = rw (nobody k x at) at (rw same at e) in
    rw same (
      rw (nobody k x at) (
        open_rtp-Frame s k (fresh ssrc now_s) seq (packet_index 0 seq) now_s
          (s.cipher.unprotect_rtp buf len (packet_index 0 seq)) e'))

-- A packet that is not delivered, be it too short, replayed or not authentic, takes no slot from
-- any SSRC and changes no index state, no window and no time of a slot: only the counters of
-- checked and of replayed packets may move.
pub unprotect_rtp-refused :
    (s : SrtpInbound) (buf : List ℕ) (len now_s : ℕ)
    → (unprotect_rtp s buf len now_s).0 ≡ none
    → Frame s.slots (unprotect_rtp s buf len now_s).2.slots
unfolding unprotect_rtp
unprotect_rtp-refused s buf len now_s e = elim (Bool-cases (ltb len 12 || ltb (length buf) len)) [
  | inl short ↦ rw short (no_change s.slots)
  | inr long ↦
      let e' = rw long at e in
      rw long (
        unprotect_slot-Frame s buf len (be_u32 buf 8) (be_u16 buf 2) now_s
          (slot_for s (be_u32 buf 8) now_s) (slot_for-Found s (be_u32 buf 8) now_s) e')
]
