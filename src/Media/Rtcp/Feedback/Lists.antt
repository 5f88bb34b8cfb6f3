-- ===== src/Media/Rtcp/Feedback/Lists.antt =====
-- The lists inside the feedback packets of rtcp/packet.rs, written and read back.
use nexus_sfu.Base.{
  ℕ, zero, suc, ◌+◌, ◌≤◌, ◌<◌, ◌≡◌, refl, sym, ap, ◌∙◌, List, [], ◌∷◌, ◌++◌, arith, length, get_or,
  drop, All, length-drop,
}
use nexus_sfu.Base.Bytes.{be_u32, u32_bytes, be_u32-u32_bytes}
use nexus_sfu.Base.Reads.{get_or-drop, be_u32-drop, length-rest, after}
use nexus_sfu.Media.Rtcp.Feedback.{FirEntry, fir_entries, fir_entry_bytes, remb_ssrcs, ssrc_bytes}

abbrev pub IsU32 : ℕ → Type 0
IsU32 x = x < 4294967296

abbrev pub IsFirEntry : FirEntry → Type 0
IsFirEntry e = IsU32 e.ssrc × (e.seq_nr < 256)

-- A number is read from the start of what follows the offset.
read_u32 :
    (x : ℕ) (bytes tail : List ℕ) (at : ℕ)
    → IsU32 x
    → drop at bytes ≡ u32_bytes x ++ tail
    → be_u32 bytes at ≡ x
read_u32 x bytes tail at h e =
    let here : at + 0 ≡ at = omega arith in
    sym (ap (be_u32 bytes) here)
    ∙ be_u32-drop bytes at 0
    ∙ ap (λ xs. be_u32 xs 0) e
    ∙ be_u32-u32_bytes x tail h

-- All entries are read, up to a bound on their number, from bytes that end with them.
pub fir_entries-bytes :
    (room : ℕ) (es : List FirEntry) (bytes : List ℕ) (at : ℕ)
    → All IsFirEntry es
    → length es ≤ room
    → drop at bytes ≡ fir_entry_bytes es
    → fir_entries room bytes at ≡ es
unfolding fir_entries fir_entry_bytes u32_bytes
fir_entries-bytes zero [] bytes at v few e = refl
fir_entries-bytes (suc room) [] bytes at v few e = ground (arith, length-drop at bytes, ap length e)
fir_entries-bytes zero (x ∷ es) bytes at v few e = elim few [ ]
fir_entries-bytes (suc room) (x ∷ es) bytes at ((hs, hq), vs) few e =
    let tail = x.seq_nr ∷ 0 ∷ 0 ∷ 0 ∷ fir_entry_bytes es in
    let es_ssrc = read_u32 x.ssrc bytes tail at hs e in
    let seq : get_or bytes (at + 4) 0 ≡ x.seq_nr =
      sym (get_or-drop bytes at 4 0) ∙ ap (λ xs. get_or xs 4 0) e in
    let next : drop (at + 8) bytes ≡ fir_entry_bytes es =
      after bytes (u32_bytes x.ssrc ++ (x.seq_nr ∷ 0 ∷ 0 ∷ 0 ∷ [])) (fir_entry_bytes es) at e in
    let more = fir_entries-bytes room es bytes (at + 8) vs (omega arith) next in
    let room_left = length-rest bytes (u32_bytes x.ssrc ++ tail) at e in
    rw (es_ssrc, seq, more) (ground arith)

pub remb_ssrcs-bytes :
    (ss : List ℕ) (bytes : List ℕ) (at : ℕ)
    → All IsU32 ss
    → drop at bytes ≡ ssrc_bytes ss
    → remb_ssrcs (length ss) bytes at ≡ ss
unfolding remb_ssrcs ssrc_bytes u32_bytes
remb_ssrcs-bytes [] bytes at v e = refl
remb_ssrcs-bytes (s ∷ ss) bytes at (hs, vs) e =
    let here = read_u32 s bytes (ssrc_bytes ss) at hs e in
    let next : drop (at + 4) bytes ≡ ssrc_bytes ss =
      after bytes (u32_bytes s) (ssrc_bytes ss) at e in
    let more = remb_ssrcs-bytes ss bytes (at + 4) vs next in
    let room_left = length-rest bytes (u32_bytes s ++ ssrc_bytes ss) at e in
    rw (here, more) (ground arith)
