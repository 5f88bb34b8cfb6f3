-- ===== src/Srtp/Outbound/Run.antt =====
-- Any sequence of calls of `SrtpOutbound`, and the (SSRC, index) pairs that it hands to the cipher.
use nexus_sfu.Base.{
  ℕ, ◌≡◌, refl, sym, subst, inl, inr, true, false, ◌||◌, Option, none, some, List, [], ◌∷◌, ◌++◌,
  arith, ltb, leb, Bool-cases, length, get_elem?, set, contains, position-some, Result, ok, err,
}
use nexus_sfu.Srtp.Types.{SrtpError}
use nexus_sfu.Srtp.Index.{estimate_index}
use nexus_sfu.Srtp.Replay.Window.{Tracks}
use nexus_sfu.Srtp.Cipher.{rtp_header_size, srtcp_index_mask, rtcp_header_size}
use nexus_sfu.Base.Bytes.{be_u16, be_u32}
use nexus_sfu.Srtp.Outbound.{
  SsrcOut, empty, SrtpOutbound, owns, register, slot_at, slot_of, protect_rtp, protect_found,
  protect_slot, protect_rtcp, protect_rtcp_found, seal_rtcp, retire,
}
use nexus_sfu.Srtp.Outbound.Inv.{indices, Inv, register-Inv, retire-Inv}
use nexus_sfu.Srtp.Outbound.Once.{Once, Sealed, protect_slot-Sealed, write-idle, write-sent}

unfoldable pub pair_of : List ℕ → Result SrtpError ℕ → List (ℕ × ℕ)
pair_of buf (ok index) = (be_u32 buf 8, index) ∷ []
pair_of buf (err _) = []

-- The pair under which a packet was protected: the packet's SSRC and the estimated index.
pair_in : SrtpOutbound → List ℕ → Option ℕ → Option ℕ → List (ℕ × ℕ)
pair_in o buf none out = []
pair_in o buf (some i) none = []
pair_in o buf (some i) (some out) = pair_of buf (estimate_index (slot_at o i).roc (be_u16 buf 2))

pair_in-none : (o : SrtpOutbound) (buf : List ℕ) (k : Option ℕ) → pair_in o buf k none ≡ []
unfolding pair_in
pair_in-none o buf none = refl
pair_in-none o buf (some i) = refl

seal_rtcp_frame :
    (x : SsrcOut) (r : Result SrtpError ℕ × List ℕ)
    → let x' = (seal_rtcp x r).2 in (x'.ssrc ≡ x.ssrc) × (x'.live ≡ x.live) × (x'.sent ≡ x.sent)
unfolding seal_rtcp
seal_rtcp_frame x (err _, buf) = (refl, refl, refl)
seal_rtcp_frame x (ok out, buf) = (refl, refl, refl)

-- The pairs that one call of `protect_rtp` adds: none unless it succeeds.
unfoldable pub protected : SrtpOutbound → List ℕ → ℕ → List (ℕ × ℕ)
unfolding pair_in
protected o buf len = pair_in o buf (slot_of o (be_u32 buf 8)) (protect_rtp o buf len).0

-- A call of the context.
pub data Op : Type 0 where
  registers retires : ℕ → Op
  protects protects_rtcp : List ℕ → ℕ → Op

unfoldable pub step : SrtpOutbound → Op → SrtpOutbound
step o (registers ssrc) = (register o ssrc).1
step o (retires ssrc) = retire o ssrc
step o (protects buf len) = (protect_rtp o buf len).2
step o (protects_rtcp buf len) = (protect_rtcp o buf len).2

unfoldable pub emitted : SrtpOutbound → Op → List (ℕ × ℕ)
emitted o (protects buf len) = protected o buf len
emitted o (registers ssrc) = []
emitted o (retires ssrc) = []
emitted o (protects_rtcp buf len) = []

-- The pairs that the calls hand to the cipher, newest first, on top of those before.
unfoldable pub run : SrtpOutbound → List (ℕ × ℕ) → List Op → List (ℕ × ℕ)
run o log [] = log
run o log (op ∷ ops) = run (step o op) (emitted o op ++ log) ops

finish :
    (o : SrtpOutbound) (log : List (ℕ × ℕ)) (k index : ℕ) (buf : List ℕ)
    (r : Option ℕ × List ℕ × SsrcOut)
    → Inv o log
    → Once log
    → get_elem? o.slots k ≡ some (slot_at o k)
    → owns (be_u32 buf 8) (slot_at o k) ≡ true
    → estimate_index (slot_at o k).roc (be_u16 buf 2) ≡ ok index
    → Sealed (slot_at o k) index (indices (slot_at o k).ssrc log) r.0 r.2
    → Inv (record o { slots = set o.slots k r.2 }) (pair_in o buf (some k) r.0 ++ log)
      × Once (pair_in o buf (some k) r.0 ++ log)
unfolding pair_in pair_of
finish o log k index buf (none, _, x') v once at own est (q, l, t) =
    (write-idle o log k x' v at q l (subst (λ s. Tracks x'.sent (indices s log)) (sym q) t), once)
finish o log k index buf (some out, _, x') v once at own est (q, l, f, t) =
    let same : (slot_at o k).ssrc ≡ be_u32 buf 8 = ground arith in
    rw (est, ← same, ← q)
      (
        write-sent o log k index x' v at (ground arith) q l
            (subst (λ s. Tracks x'.sent (index ∷ indices s log)) (sym q) t),
        (subst (λ s. contains index (indices s log) ≡ false) (sym q) f, once),
      )

protect_found-Inv :
    (o : SrtpOutbound) (log : List (ℕ × ℕ)) (buf : List ℕ) (len : ℕ) (k : Option ℕ)
    → Inv o log
    → Once log
    → slot_of o (be_u32 buf 8) ≡ k
    → Inv (protect_found o buf len k).2 (pair_in o buf k (protect_found o buf len k).0 ++ log)
      × Once (pair_in o buf k (protect_found o buf len k).0 ++ log)
unfolding protect_found slot_of pair_in
protect_found-Inv o log buf len none v once e = (v, once)
protect_found-Inv o log buf len (some k) v once e =
    let (at, own) = position-some (owns (be_u32 buf 8)) o.slots k empty e in
    let x = slot_at o k in
    let est = estimate_index x.roc (be_u16 buf 2) in
    let g = v.good k x at (ground arith) in
    elim (protect_slot-Sealed o.cipher x buf len (be_u16 buf 2) (indices x.ssrc log) est g.tracks) [
      | inl (index, e', sealed) ↦
          finish o log k index buf (protect_slot o.cipher x buf len (be_u16 buf 2) est) v once at
            own e' sealed
      | inr (unsent, same) ↦ rw (unsent, same) (write-idle o log k x v at refl refl g.tracks, once)
    ]

protect_rtp-Inv :
    (o : SrtpOutbound) (log : List (ℕ × ℕ)) (buf : List ℕ) (len : ℕ)
    → Inv o log
    → Once log
    → Inv (protect_rtp o buf len).2 (protected o buf len ++ log) × Once (protected o buf len ++ log)
unfolding protect_rtp protected
protect_rtp-Inv o log buf len v once =
    elim (Bool-cases (ltb len rtp_header_size || ltb (length buf) len)) [
      | inl short ↦ rw (short, pair_in-none) (v, once)
      | inr fits ↦ rw fits (protect_found-Inv o log buf len (slot_of o (be_u32 buf 8)) v once refl)
    ]

protect_rtcp_found-Inv :
    (o : SrtpOutbound) (log : List (ℕ × ℕ)) (buf : List ℕ) (len ssrc : ℕ) (k : Option ℕ)
    → Inv o log
    → slot_of o ssrc ≡ k
    → Inv (protect_rtcp_found o buf len k).2 log
unfolding protect_rtcp_found slot_of
protect_rtcp_found-Inv o log buf len ssrc none v e = v
protect_rtcp_found-Inv o log buf len ssrc (some k) v e =
    let (at, own) = position-some (owns ssrc) o.slots k empty e in
    let x = slot_at o k in
    let g = v.good k x at (ground arith) in
    let (q, l, t) = seal_rtcp_frame x (o.cipher.protect_rtcp buf len x.srtcp_index) in
    elim (Bool-cases (leb srtcp_index_mask x.srtcp_index)) [
      | inl spent ↦ rw spent v
      | inr free ↦ rw free (write-idle o log k _ v at q l (rw (q, t) g.tracks))
    ]

protect_rtcp-Inv :
    (o : SrtpOutbound) (log : List (ℕ × ℕ)) (buf : List ℕ) (len : ℕ)
    → Inv o log
    → Inv (protect_rtcp o buf len).2 log
unfolding protect_rtcp
protect_rtcp-Inv o log buf len v =
    elim (Bool-cases (ltb len rtcp_header_size || ltb (length buf) len)) [
      | inl short ↦ rw short v
      | inr fits ↦
          rw fits
            (protect_rtcp_found-Inv o log buf len (be_u32 buf 4) (slot_of o (be_u32 buf 4)) v refl)
    ]

-- A call keeps the invariant, and its pair is new.
pub step-Inv :
    (o : SrtpOutbound) (log : List (ℕ × ℕ)) (op : Op)
    → Inv o log
    → Once log
    → Inv (step o op) (emitted o op ++ log) × Once (emitted o op ++ log)
unfolding step emitted
step-Inv o log (registers ssrc) v once = (register-Inv o log ssrc v, once)
step-Inv o log (retires ssrc) v once = (retire-Inv o log ssrc v, once)
step-Inv o log (protects buf len) v once = protect_rtp-Inv o log buf len v once
step-Inv o log (protects_rtcp buf len) v once = (protect_rtcp-Inv o log buf len v, once)
