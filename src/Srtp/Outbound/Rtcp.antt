-- ===== src/Srtp/Outbound/Rtcp.antt =====
-- The SRTCP indices of srtp/direction.rs, and all pairs that the calls of `SrtpOutbound` hand to the cipher.
use nexus_sfu.Base.{
  ℕ, ◌+◌, ◌≡◌, refl, sym, ap, ◌∙◌, ◌≢◌, inl, inr, true, false, ◌||◌, false≢true, Option, none, some,
  List, [], ◌∷◌, ◌++◌, arith, ltb, leb, Bool-cases, length, get_elem?, set, contains, position-some,
  Result, ok, err,
}
use nexus_sfu.Srtp.Types.{SrtpError}
use nexus_sfu.Srtp.Cipher.{Cipher, srtcp_index_mask, rtcp_header_size}
use nexus_sfu.Base.Bytes.{be_u32}
use nexus_sfu.Srtp.Outbound.{
  SsrcOut, empty, SrtpOutbound, from_keys, owns, offset_from, slot_at, slot_of, protect_rtcp,
  protect_rtcp_found, seal_rtcp, retire,
}
use nexus_sfu.Srtp.Outbound.Slots.{owners-two}
use nexus_sfu.Srtp.Outbound.Inv.{indices, Inv, from_keys-Inv, set-good}
use nexus_sfu.Srtp.Outbound.Once.{Once, indices_other, indices_self}
use nexus_sfu.Srtp.Outbound.Run.{
  Op, registers, retires, protects, protects_rtcp, step, emitted, run, step-Inv,
}
use nexus_sfu.Srtp.Outbound.RtcpIndex.{
  rtcp_pair, emitted_rtcp, run_rtcp, Below, RtcpInv, register-RtcpInv, write-RtcpInv,
  retire_found-RtcpInv, protect_rtp-RtcpInv,
}

-- One pair more, under the index of the slot, which moves on.
sealed-RtcpInv :
    (o : SrtpOutbound) (rtp log : List (ℕ × ℕ)) (k : ℕ)
    → Inv o rtp
    → RtcpInv o log
    → get_elem? o.slots k ≡ some (slot_at o k)
    → (slot_at o k).live ≡ true
    → let x = slot_at o k in
      RtcpInv
        (record o { slots = set o.slots k (record x { srtcp_index = x.srtcp_index + 1 }) })
        ((x.ssrc, x.srtcp_index) ∷ log)
unfolding Below contains
sealed-RtcpInv o rtp log k v w at on =
    let x = slot_at o k in
    let fresh_below = (v.good k x at on).registered in
    let log' : List (ℕ × ℕ) = (x.ssrc, x.srtcp_index) ∷ log in
    record {
      unused = λ s h.
          indices_other x.ssrc s x.srtcp_index log
            (λ e. absurd (omega (arith, fresh_below, h, ap (offset_from o.ssrc_base) e)))
          ∙ w.unused s h;
      below =
          set-good (Below log') o.slots k (record x { srtcp_index = x.srtcp_index + 1 })
            (λ live n h.
              let h' = rw (indices_self x.ssrc x.srtcp_index log) at h in
              ground (arith, w.below k x at on n))
            (λ i y ne e live n h.
              let other : x.ssrc ≢ y.ssrc = λ p. absurd (
                omega (
                  arith,
                  v.single y.ssrc,
                  owners-two y.ssrc o.slots i k y x ne e at (ground arith) (ground arith),
                )) in
              w.below i y e live n
                (sym (ap (contains n) (indices_other x.ssrc y.ssrc x.srtcp_index log other)) ∙ h));
    }

not_below :
    (log : List (ℕ × ℕ)) (x : SsrcOut)
    → Below log x
    → contains x.srtcp_index (indices x.ssrc log) ≡ false
unfolding Below
not_below log x b = elim (Bool-cases (contains x.srtcp_index (indices x.ssrc log))) [
  | inl old ↦ let lower = b x.srtcp_index old in absurd (omega (arith, lower))
  | inr new ↦ new
]

-- An invariant and a new log, from the result of the cipher.
seal_rtcp-RtcpInv :
    (o : SrtpOutbound) (rtp log : List (ℕ × ℕ)) (k : ℕ) (buf : List ℕ)
    (r : Result SrtpError ℕ × List ℕ)
    → Inv o rtp
    → RtcpInv o log
    → Once log
    → get_elem? o.slots k ≡ some (slot_at o k)
    → owns (be_u32 buf 4) (slot_at o k) ≡ true
    → let (out, _, x') = seal_rtcp (slot_at o k) r in
      RtcpInv (record o { slots = set o.slots k x' }) (rtcp_pair o buf (some k) out ++ log)
      × Once (rtcp_pair o buf (some k) out ++ log)
unfolding seal_rtcp rtcp_pair
seal_rtcp-RtcpInv o rtp log k buf (err _, _) v w once at own =
    (write-RtcpInv o log k (slot_at o k) w (λ l. w.below k (slot_at o k) at l), once)
seal_rtcp-RtcpInv o rtp log k buf (ok out, _) v w once at own =
    let x = slot_at o k in
    let on : x.live ≡ true = ground arith in
    let same : x.ssrc ≡ be_u32 buf 4 = ground arith in
    rw (← same) (sealed-RtcpInv o rtp log k v w at on, (not_below log x (w.below k x at on), once))

protect_rtcp_found-RtcpInv :
    (o : SrtpOutbound) (rtp log : List (ℕ × ℕ)) (buf : List ℕ) (len : ℕ) (k : Option ℕ)
    → Inv o rtp
    → RtcpInv o log
    → Once log
    → slot_of o (be_u32 buf 4) ≡ k
    → RtcpInv
        (protect_rtcp_found o buf len k).2
        (rtcp_pair o buf k (protect_rtcp_found o buf len k).0 ++ log)
      × Once (rtcp_pair o buf k (protect_rtcp_found o buf len k).0 ++ log)
unfolding protect_rtcp_found slot_of rtcp_pair
protect_rtcp_found-RtcpInv o rtp log buf len none v w once e = (w, once)
protect_rtcp_found-RtcpInv o rtp log buf len (some k) v w once e =
    let (at, own) = position-some (owns (be_u32 buf 4)) o.slots k empty e in
    let x = slot_at o k in
    elim (Bool-cases (leb srtcp_index_mask x.srtcp_index)) [
      | inl spent ↦ rw spent (w, once)
      | inr free ↦ rw free (
          seal_rtcp-RtcpInv o rtp log k buf (o.cipher.protect_rtcp buf len x.srtcp_index) v w once
            at own)
    ]

no_pair : (o : SrtpOutbound) (buf : List ℕ) (k : Option ℕ) → rtcp_pair o buf k none ≡ []
unfolding rtcp_pair
no_pair o buf none = refl
no_pair o buf (some i) = refl

protect_rtcp-RtcpInv :
    (o : SrtpOutbound) (rtp log : List (ℕ × ℕ)) (buf : List ℕ) (len : ℕ)
    → Inv o rtp
    → RtcpInv o log
    → Once log
    → let pair = rtcp_pair o buf (slot_of o (be_u32 buf 4)) (protect_rtcp o buf len).0 in
      RtcpInv (protect_rtcp o buf len).2 (pair ++ log) × Once (pair ++ log)
unfolding protect_rtcp
protect_rtcp-RtcpInv o rtp log buf len v w once =
    elim (Bool-cases (ltb len rtcp_header_size || ltb (length buf) len)) [
      | inl short ↦ rw (short, no_pair) (w, once)
      | inr fits ↦
          rw fits
            (protect_rtcp_found-RtcpInv o rtp log buf len (slot_of o (be_u32 buf 4)) v w once refl)
    ]

step-RtcpInv :
    (o : SrtpOutbound) (rtp log : List (ℕ × ℕ)) (op : Op)
    → Inv o rtp
    → RtcpInv o log
    → Once log
    → RtcpInv (step o op) (emitted_rtcp o op ++ log) × Once (emitted_rtcp o op ++ log)
unfolding step emitted_rtcp retire
step-RtcpInv o rtp log (registers ssrc) v w once = (register-RtcpInv o log ssrc w, once)
step-RtcpInv o rtp log (retires ssrc) v w once =
    (retire_found-RtcpInv o log (slot_of o ssrc) w, once)
step-RtcpInv o rtp log (protects buf len) v w once = (protect_rtp-RtcpInv o log buf len w, once)
step-RtcpInv o rtp log (protects_rtcp buf len) v w once =
    protect_rtcp-RtcpInv o rtp log buf len v w once

from_keys-RtcpInv : (c : Cipher) (base : ℕ) → RtcpInv (from_keys c base) []
unfolding Below indices from_keys contains
from_keys-RtcpInv c base = record {
  unused = λ ssrc h. refl;
  below = λ i x e l n h. absurd (false≢true h);
}

run-Once_from :
    (o : SrtpOutbound) (rtp log : List (ℕ × ℕ)) (ops : List Op)
    → Inv o rtp
    → Once rtp
    → RtcpInv o log
    → Once log
    → Once (run o rtp ops) × Once (run_rtcp o log ops)
unfolding run run_rtcp
run-Once_from o rtp log [] v once w once_rtcp = (once, once_rtcp)
run-Once_from o rtp log (op ∷ ops) v once w once_rtcp =
    let (v', once') = step-Inv o rtp op v once in
    let (w', once_rtcp') = step-RtcpInv o rtp log op v w once_rtcp in
    run-Once_from (step o op) (emitted o op ++ rtp) (emitted_rtcp o op ++ log) ops v' once' w'
      once_rtcp'

-- Whatever the calls, registrations, retirements and failures included, and whatever the cipher does: no
-- SSRC and RTP packet index is handed out twice for an RTP packet that was protected, and no SSRC and SRTCP
-- index twice for an RTCP packet that was.
pub run-Once :
    (c : Cipher) (base : ℕ) (ops : List Op)
    → Once (run (from_keys c base) [] ops) × Once (run_rtcp (from_keys c base) [] ops)
run-Once c base ops =
    run-Once_from (from_keys c base) [] [] ops (from_keys-Inv c base) tt (from_keys-RtcpInv c base)
      tt
