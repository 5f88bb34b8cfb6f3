-- ===== src/Srtp/Outbound/RtcpIndex.antt =====
-- The SRTCP indices of the slots of `SrtpOutbound` in srtp/direction.rs.
use nexus_sfu.Base.{
  ℕ, ◌≤◌, ◌<◌, ◌≡◌, refl, sym, ap, ◌∙◌, inl, inr, true, false, ◌||◌, false≢true, Option, none, some,
  List, [], ◌∷◌, ◌++◌, arith, ltb, Bool-cases, length, get_elem?, set, contains, position,
  position-some, Result, ok, err,
}
use nexus_sfu.Srtp.Types.{SrtpError}
use nexus_sfu.Srtp.Index.{estimate_index}
use nexus_sfu.Srtp.Replay.{ReplayProtection, check}
use nexus_sfu.Srtp.Cipher.{Cipher, rtp_header_size}
use nexus_sfu.Base.Bytes.{be_u16, be_u32}
use nexus_sfu.Srtp.Outbound.{
  SsrcOut, empty, fresh, SrtpOutbound, owns, offset_from, is_free, max_ssrc_offset, register,
  register_at, slot_at, slot_of, protect_rtp, protect_checked, seal_rtp, protect_found,
  protect_slot, protect_rtcp, retire_found,
}
use nexus_sfu.Srtp.Outbound.Inv.{indices, set-good}
use nexus_sfu.Srtp.Outbound.Run.{Op, registers, retires, protects, protects_rtcp, step}

-- The pair under which an RTCP packet was protected: its SSRC and the SRTCP index of the slot.
unfoldable pub rtcp_pair : SrtpOutbound → List ℕ → Option ℕ → Option ℕ → List (ℕ × ℕ)
rtcp_pair o buf none out = []
rtcp_pair o buf (some i) none = []
rtcp_pair o buf (some i) (some out) = (be_u32 buf 4, (slot_at o i).srtcp_index) ∷ []

unfoldable pub emitted_rtcp : SrtpOutbound → Op → List (ℕ × ℕ)
unfolding rtcp_pair
emitted_rtcp o (protects_rtcp buf len) =
    rtcp_pair o buf (slot_of o (be_u32 buf 4)) (protect_rtcp o buf len).0
emitted_rtcp o (registers ssrc) = []
emitted_rtcp o (retires ssrc) = []
emitted_rtcp o (protects buf len) = []

-- The SRTCP pairs of the calls, newest first, on top of those before.
unfoldable pub run_rtcp : SrtpOutbound → List (ℕ × ℕ) → List Op → List (ℕ × ℕ)
unfolding emitted_rtcp
run_rtcp o log [] = log
run_rtcp o log (op ∷ ops) = run_rtcp (step o op) (emitted_rtcp o op ++ log) ops

-- The indices of an SSRC are below that of its slot.
unfoldable pub Below : List (ℕ × ℕ) → SsrcOut → Type 0
Below log x = (n : ℕ) → contains n (indices x.ssrc log) ≡ true → n < x.srtcp_index

pub record RtcpInv (o : SrtpOutbound) (log : List (ℕ × ℕ)) : Type 0 where
  pub unused : (ssrc : ℕ) → o.next_offset ≤ offset_from o.ssrc_base ssrc → indices ssrc log ≡ []
  pub below : (i : ℕ) (x : SsrcOut) → get_elem? o.slots i ≡ some x → x.live ≡ true → Below log x

none-Below : (log : List (ℕ × ℕ)) (x : SsrcOut) → indices x.ssrc log ≡ [] → Below log x
unfolding Below contains
none-Below log x e n h = absurd (false≢true (sym (ap (contains n) e) ∙ h))

register_at-RtcpInv :
    (o : SrtpOutbound) (log : List (ℕ × ℕ)) (ssrc : ℕ) (k : Option ℕ)
    → RtcpInv o log
    → o.next_offset ≤ offset_from o.ssrc_base ssrc
    → RtcpInv (register_at o ssrc (offset_from o.ssrc_base ssrc) k).1 log
unfolding register_at
register_at-RtcpInv o log ssrc none v h = v
register_at-RtcpInv o log ssrc (some k) v h = record {
  unused = λ s h'. v.unused s (omega (arith, h'));
  below =
      set-good (Below log) o.slots k (fresh ssrc)
        (λ _. none-Below log (fresh ssrc) (v.unused ssrc h)) (λ i x ne e l. v.below i x e l);
}

pub register-RtcpInv :
    (o : SrtpOutbound) (log : List (ℕ × ℕ)) (ssrc : ℕ)
    → RtcpInv o log
    → RtcpInv (register o ssrc).1 log
unfolding register
register-RtcpInv o log ssrc v =
    elim (Bool-cases (
      ltb (offset_from o.ssrc_base ssrc) o.next_offset
      || ltb max_ssrc_offset (offset_from o.ssrc_base ssrc))) [
        | inl refused ↦ rw refused v
        | inr new ↦
            rw new (register_at-RtcpInv o log ssrc (position is_free o.slots) v (ground arith))
      ]

-- A write that keeps a slot's SSRC and index, or empties it.
pub write-RtcpInv :
    (o : SrtpOutbound) (log : List (ℕ × ℕ)) (k : ℕ) (x' : SsrcOut)
    → RtcpInv o log
    → (x'.live ≡ true → Below log x')
    → RtcpInv (record o { slots = set o.slots k x' }) log
write-RtcpInv o log k x' v here = record {
  unused = v.unused;
  below = set-good (Below log) o.slots k x' here (λ i x ne e l. v.below i x e l);
}

pub retire_found-RtcpInv :
    (o : SrtpOutbound) (log : List (ℕ × ℕ)) (k : Option ℕ)
    → RtcpInv o log
    → RtcpInv (retire_found o k) log
unfolding retire_found
retire_found-RtcpInv o log none v = v
retire_found-RtcpInv o log (some k) v =
    write-RtcpInv o log k (record (slot_at o k) { live = false }) v (λ l. absurd (false≢true l))

-- What a packet leaves of the slot.
abbrev Kept : SsrcOut → SsrcOut → Type 0
Kept x x' = (x'.ssrc ≡ x.ssrc) × (x'.live ≡ x.live) × (x'.srtcp_index ≡ x.srtcp_index)

seal_rtp-Kept :
    (x : SsrcOut) (seq i : ℕ) (r : Result SrtpError ℕ × List ℕ) → Kept x (seal_rtp x seq i r).2
unfolding seal_rtp
seal_rtp-Kept x seq i (err _, buf) = (refl, refl, refl)
seal_rtp-Kept x seq i (ok out, buf) = (refl, refl, refl)

protect_checked-Kept :
    (c : Cipher) (x : SsrcOut) (buf : List ℕ) (len seq i : ℕ)
    (r : Result SrtpError (Unit {0}) × ReplayProtection)
    → Kept x (protect_checked c x buf len seq i r).2
unfolding protect_checked
protect_checked-Kept c x buf len seq i (err _, s) = (refl, refl, refl)
protect_checked-Kept c x buf len seq i (ok _, s) =
    seal_rtp-Kept (record x { sent = s }) seq i (c.protect_rtp buf len i)

protect_slot-Kept :
    (c : Cipher) (x : SsrcOut) (buf : List ℕ) (len seq : ℕ) (r : Result SrtpError ℕ)
    → Kept x (protect_slot c x buf len seq r).2
unfolding protect_slot
protect_slot-Kept c x buf len seq (err _) = (refl, refl, refl)
protect_slot-Kept c x buf len seq (ok i) = protect_checked-Kept c x buf len seq i (check x.sent i)

Kept-Below : (log : List (ℕ × ℕ)) (x x' : SsrcOut) → Kept x x' → Below log x → Below log x'
unfolding Below
Kept-Below log x x' (q, l, s) b n h =
    let h' = rw q at h in let lower = b n h' in omega (arith, lower, s)

protect_found-RtcpInv :
    (o : SrtpOutbound) (log : List (ℕ × ℕ)) (buf : List ℕ) (len ssrc : ℕ) (k : Option ℕ)
    → RtcpInv o log
    → slot_of o ssrc ≡ k
    → RtcpInv (protect_found o buf len k).2 log
unfolding protect_found slot_of
protect_found-RtcpInv o log buf len ssrc none v e = v
protect_found-RtcpInv o log buf len ssrc (some k) v e =
    let (at, own) = position-some (owns ssrc) o.slots k empty e in
    let x = slot_at o k in
    let r = estimate_index x.roc (be_u16 buf 2) in
    write-RtcpInv o log k (protect_slot o.cipher x buf len (be_u16 buf 2) r).2 v (λ l.
      Kept-Below log x (protect_slot o.cipher x buf len (be_u16 buf 2) r).2
        (protect_slot-Kept o.cipher x buf len (be_u16 buf 2) r) (v.below k x at (ground arith)))

pub protect_rtp-RtcpInv :
    (o : SrtpOutbound) (log : List (ℕ × ℕ)) (buf : List ℕ) (len : ℕ)
    → RtcpInv o log
    → RtcpInv (protect_rtp o buf len).2 log
unfolding protect_rtp
protect_rtp-RtcpInv o log buf len v =
    elim (Bool-cases (ltb len rtp_header_size || ltb (length buf) len)) [
      | inl short ↦ rw short v
      | inr fits ↦
          rw fits
            (protect_found-RtcpInv o log buf len (be_u32 buf 8) (slot_of o (be_u32 buf 8)) v refl)
    ]
