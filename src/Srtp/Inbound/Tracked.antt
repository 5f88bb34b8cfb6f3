-- ===== src/Srtp/Inbound/Tracked.antt =====
-- Every window of `SrtpInbound` in srtp/direction.rs holds the indices that it let through.
use nexus_sfu.Base.{
  ℕ, zero, suc, bit_and, ◌≡◌, refl, inl, inr, false, ◌||◌, Option, none, some, List, [], ◌∷◌, arith,
  ltb, leb, ◌==◌, Bool-cases, length, get_or, set, replicate, All, contains, position, Result, ok,
  err,
}
use nexus_sfu.Base.Bytes.{be_u16, be_u32}
use nexus_sfu.Srtp.Types.{SrtpError, packet_index}
use nexus_sfu.Srtp.Cipher.{Cipher, rtp_header_size, rtcp_header_size, srtcp_index_mask}
use nexus_sfu.Srtp.Index.{estimate_index}
use nexus_sfu.Srtp.Replay.{ReplayProtection, check}
use nexus_sfu.Srtp.Replay.Window.{Tracks, new-Tracks, accept-Tracks}
use nexus_sfu.Srtp.Replay.Safety.{Distinct, check-Tracks, check-admits, admits-fresh}
use nexus_sfu.Srtp.Inbound.{
  SsrcIn, empty, fresh, SrtpInbound, from_keys, owns, pinned_count, slot_at, slot_for,
  slot_to_replace, pin_slot, pin_new, pin_found, pin, unpin_found, unpin, is_idle, evict_slots,
  evict_idle, srtcp_e_flag, inbound_ssrc_slots, inbound_pinned_max,
}
use nexus_sfu.Srtp.Inbound.Unprotect.{
  open_rtp, unprotect_checked, unprotect_known, unprotect_slot, unprotect_rtp, srtcp_trailer_offset,
  open_rtcp, unprotect_rtcp_checked, unprotect_rtcp_slot, unprotect_rtcp_at, unprotect_rtcp,
}
use nexus_sfu.Srtp.Inbound.Control.{
  Op, pins, unpins, receives_rtp, receives_rtcp, evicts, step, run,
}

-- The window tracks a history without repetitions.
abbrev pub Seen : ReplayProtection → Type 0
Seen r = (h : List ℕ) × Distinct h × Tracks r h

abbrev pub IsTracked : SsrcIn → Type 0
IsTracked x = Seen x.rtp_replay

empty-IsTracked : IsTracked empty
empty-IsTracked = ([], tt, new-Tracks)

set-All :
    (xs : List SsrcIn) (k : ℕ) (y : SsrcIn)
    → All IsTracked xs
    → IsTracked y
    → All IsTracked (set xs k y)
set-All [] k y h t = tt
set-All (x ∷ xs) zero y (a, h) t = (t, h)
set-All (x ∷ xs) (suc k) y (a, h) t = (a, set-All xs k y h t)

get_or-IsTracked : (xs : List SsrcIn) (k : ℕ) → All IsTracked xs → IsTracked (get_or xs k empty)
get_or-IsTracked [] k h = empty-IsTracked
get_or-IsTracked (x ∷ xs) zero (a, h) = a
get_or-IsTracked (x ∷ xs) (suc k) (a, h) = get_or-IsTracked xs k h

replicate-All : (n : ℕ) → All IsTracked (replicate n empty)
replicate-All zero = tt
replicate-All (suc n) = (empty-IsTracked, replicate-All n)

open_rtp-All :
    (s : SrtpInbound) (k : ℕ) (x : SsrcIn) (seq i now_s : ℕ) (r : Result SrtpError ℕ × List ℕ)
    (h : List ℕ)
    → All IsTracked s.slots
    → Distinct h
    → Tracks x.rtp_replay h
    → contains i h ≡ false
    → All IsTracked (open_rtp s k x seq i now_s r).2.slots
unfolding open_rtp
open_rtp-All s k x seq i now_s (err _, buf) h v d t new = v
open_rtp-All s k x seq i now_s (ok out, buf) h v d t new =
    set-All s.slots k _ v (i ∷ h, (new, d), accept-Tracks x.rtp_replay h i t)

unprotect_checked-All :
    (s : SrtpInbound) (k : ℕ) (x : SsrcIn) (buf : List ℕ) (len seq i now_s : ℕ)
    (r : Result SrtpError (Unit {0}) × ReplayProtection) (h : List ℕ)
    → All IsTracked s.slots
    → Distinct h
    → Tracks r.1 h
    → (r.0 ≡ ok tt → contains i h ≡ false)
    → All IsTracked (unprotect_checked s k x buf len seq i now_s r).2.slots
unfolding unprotect_checked
unprotect_checked-All s k x buf len seq i now_s (err _, r) h v d t new =
    set-All s.slots k _ v (h, d, t)
unprotect_checked-All s k x buf len seq i now_s (ok _, r) h v d t new =
    let x' : SsrcIn = record x { rtp_replay = r } in
    open_rtp-All (record s { slots = set s.slots k x' }) k x' seq i now_s
      (s.cipher.unprotect_rtp buf len i) h (set-All s.slots k x' v (h, d, t)) d t (new refl)

unprotect_known-All :
    (s : SrtpInbound) (k : ℕ) (x : SsrcIn) (buf : List ℕ) (len seq now_s : ℕ)
    (r : Result SrtpError ℕ)
    → All IsTracked s.slots
    → IsTracked x
    → All IsTracked (unprotect_known s k x buf len seq now_s r).2.slots
unfolding unprotect_known
unprotect_known-All s k x buf len seq now_s (err _) v t = v
unprotect_known-All s k x buf len seq now_s (ok i) v (h, d, t) =
    unprotect_checked-All s k x buf len seq i now_s (check x.rtp_replay i) h v d
      (check-Tracks x.rtp_replay h i t)
      (λ e.
        ground (arith, check-admits x.rtp_replay h i t, admits-fresh x.rtp_replay.window_size h i))

unprotect_slot-All :
    (s : SrtpInbound) (buf : List ℕ) (len ssrc seq now_s : ℕ) (k : Option ℕ)
    → All IsTracked s.slots
    → All IsTracked (unprotect_slot s buf len ssrc seq now_s k).2.slots
unfolding unprotect_slot contains
unprotect_slot-All s buf len ssrc seq now_s none v = v
unprotect_slot-All s buf len ssrc seq now_s (some k) v =
    let x = slot_at s k in
    elim (Bool-cases (owns ssrc x)) [
      | inl own ↦ rw own (
          unprotect_known-All s k x buf len seq now_s (estimate_index x.roc seq) v
            (get_or-IsTracked s.slots k v))
      | inr new ↦ rw new (
          open_rtp-All s k (fresh ssrc now_s) seq (packet_index 0 seq) now_s
            (s.cipher.unprotect_rtp buf len (packet_index 0 seq)) [] v tt new-Tracks refl)
    ]

unprotect_rtp-All :
    (s : SrtpInbound) (buf : List ℕ) (len now_s : ℕ)
    → All IsTracked s.slots
    → All IsTracked (unprotect_rtp s buf len now_s).2.slots
unfolding unprotect_rtp
unprotect_rtp-All s buf len now_s v =
    elim (Bool-cases (ltb len rtp_header_size || ltb (length buf) len)) [
      | inl e ↦ rw e v
      | inr e ↦ rw e (
          unprotect_slot-All s buf len (be_u32 buf 8) (be_u16 buf 2) now_s
            (slot_for s (be_u32 buf 8) now_s) v)
    ]

open_rtcp-All :
    (s : SrtpInbound) (k : ℕ) (x : SsrcIn) (i now_s : ℕ) (r : Result SrtpError (ℕ × ℕ) × List ℕ)
    → All IsTracked s.slots
    → IsTracked x
    → All IsTracked (open_rtcp s k x i now_s r).2.slots
unfolding open_rtcp
open_rtcp-All s k x i now_s (err _, buf) v t = v
open_rtcp-All s k x i now_s (ok (out, _), buf) v t = set-All s.slots k _ v t

unprotect_rtcp_checked-All :
    (s : SrtpInbound) (k : ℕ) (x : SsrcIn) (buf : List ℕ) (len i now_s : ℕ)
    (r : Result SrtpError (Unit {0}) × ReplayProtection)
    → All IsTracked s.slots
    → IsTracked x
    → All IsTracked (unprotect_rtcp_checked s k x buf len i now_s r).2.slots
unfolding unprotect_rtcp_checked
unprotect_rtcp_checked-All s k x buf len i now_s (err _, r) v t = set-All s.slots k _ v t
unprotect_rtcp_checked-All s k x buf len i now_s (ok _, r) v t =
    let x' : SsrcIn = record x { rtcp_replay = r } in
    open_rtcp-All (record s { slots = set s.slots k x' }) k x' i now_s
      (s.cipher.unprotect_rtcp buf len) (set-All s.slots k x' v t) t

unprotect_rtcp_slot-All :
    (s : SrtpInbound) (buf : List ℕ) (len ssrc i now_s : ℕ) (k : Option ℕ)
    → All IsTracked s.slots
    → All IsTracked (unprotect_rtcp_slot s buf len ssrc i now_s k).2.slots
unfolding unprotect_rtcp_slot
unprotect_rtcp_slot-All s buf len ssrc i now_s none v = v
unprotect_rtcp_slot-All s buf len ssrc i now_s (some k) v =
    let x = slot_at s k in
    elim (Bool-cases (owns ssrc x)) [
      | inl own ↦ rw own (
          unprotect_rtcp_checked-All s k x buf len i now_s (check x.rtcp_replay i) v
            (get_or-IsTracked s.slots k v))
      | inr new ↦ rw new (
          open_rtcp-All s k (fresh ssrc now_s) i now_s (s.cipher.unprotect_rtcp buf len) v
            empty-IsTracked)
    ]

unprotect_rtcp_at-All :
    (s : SrtpInbound) (buf : List ℕ) (len now_s : ℕ) (at : Option ℕ)
    → All IsTracked s.slots
    → All IsTracked (unprotect_rtcp_at s buf len now_s at).2.slots
unfolding unprotect_rtcp_at
unprotect_rtcp_at-All s buf len now_s none v = v
unprotect_rtcp_at-All s buf len now_s (some at) v =
    elim (Bool-cases (bit_and (be_u32 buf at) srtcp_e_flag == 0)) [
      | inl e ↦ rw e v
      | inr e ↦ rw e (
          unprotect_rtcp_slot-All s buf len (be_u32 buf 4)
            (bit_and (be_u32 buf at) srtcp_index_mask) now_s (slot_for s (be_u32 buf 4) now_s) v)
    ]

unprotect_rtcp-All :
    (s : SrtpInbound) (buf : List ℕ) (len now_s : ℕ)
    → All IsTracked s.slots
    → All IsTracked (unprotect_rtcp s buf len now_s).2.slots
unfolding unprotect_rtcp
unprotect_rtcp-All s buf len now_s v =
    elim (Bool-cases (ltb len rtcp_header_size || ltb (length buf) len)) [
      | inl e ↦ rw e v
      | inr e ↦ rw e (unprotect_rtcp_at-All s buf len now_s (srtcp_trailer_offset s.cipher len) v)
    ]

pin_slot-All :
    (s : SrtpInbound) (k : ℕ) → All IsTracked s.slots → All IsTracked (pin_slot s k).slots
unfolding pin_slot
pin_slot-All s k v = set-All s.slots k _ v (get_or-IsTracked s.slots k v)

pin_new-All :
    (s : SrtpInbound) (ssrc : ℕ) (k : Option ℕ)
    → All IsTracked s.slots
    → All IsTracked (pin_new s ssrc k).1.slots
unfolding pin_new
pin_new-All s ssrc none v = v
pin_new-All s ssrc (some k) v =
    pin_slot-All (record s { slots = set s.slots k (fresh ssrc 0) }) k
      (set-All s.slots k (fresh ssrc 0) v empty-IsTracked)

pin_found-All :
    (s : SrtpInbound) (ssrc : ℕ) (k : Option ℕ)
    → All IsTracked s.slots
    → All IsTracked (pin_found s ssrc k).1.slots
unfolding pin_found
pin_found-All s ssrc none v = elim (Bool-cases (leb inbound_pinned_max (pinned_count s))) [
  | inl full ↦ rw full v
  | inr room ↦ rw room (pin_new-All s ssrc (slot_to_replace s) v)
]
pin_found-All s ssrc (some k) v = elim (Bool-cases (slot_at s k).pinned) [
  | inl yet ↦ rw yet v
  | inr not_yet ↦ rw not_yet (elim (Bool-cases (leb inbound_pinned_max (pinned_count s))) [
    | inl full ↦ rw full v
    | inr room ↦ rw room (pin_slot-All s k v)
  ])
]

unpin_found-All :
    (s : SrtpInbound) (k : Option ℕ) → All IsTracked s.slots → All IsTracked (unpin_found s k).slots
unfolding unpin_found
unpin_found-All s none v = v
unpin_found-All s (some k) v = set-All s.slots k _ v (get_or-IsTracked s.slots k v)

evict_slots-All :
    (now_s idle_s : ℕ) (xs : List SsrcIn)
    → All IsTracked xs
    → All IsTracked (evict_slots now_s idle_s xs).1
unfolding evict_slots
evict_slots-All now_s idle_s [] v = tt
evict_slots-All now_s idle_s (x ∷ xs) (a, v) =
    let rest = evict_slots-All now_s idle_s xs v in
    elim (Bool-cases (is_idle now_s idle_s x)) [
      | inl old ↦ rw old (a, rest)
      | inr new ↦ rw new (a, rest)
    ]

step-All : (s : SrtpInbound) (o : Op) → All IsTracked s.slots → All IsTracked (step s o).slots
unfolding step pin unpin evict_idle
step-All s (pins ssrc) v = pin_found-All s ssrc (position (owns ssrc) s.slots) v
step-All s (unpins ssrc) v = unpin_found-All s (position (owns ssrc) s.slots) v
step-All s (receives_rtp buf len now_s) v = unprotect_rtp-All s buf len now_s v
step-All s (receives_rtcp buf len now_s) v = unprotect_rtcp-All s buf len now_s v
step-All s (evicts now_s idle_s) v = evict_slots-All now_s idle_s s.slots v

run_from-All :
    (s : SrtpInbound) (os : List Op) → All IsTracked s.slots → All IsTracked (run s os).slots
unfolding run
run_from-All s [] v = v
run_from-All s (o ∷ os) v = run_from-All (step s o) os (step-All s o v)

-- After any calls, every slot's window holds the indices that it let through, each of them once.
pub run-All : (c : Cipher) (os : List Op) → All IsTracked (run (from_keys c) os).slots
unfolding from_keys
run-All c os = run_from-All (from_keys c) os (replicate-All inbound_ssrc_slots)

pub slot-IsTracked : (s : SrtpInbound) (k : ℕ) → All IsTracked s.slots → IsTracked (slot_at s k)
slot-IsTracked s k v = get_or-IsTracked s.slots k v
