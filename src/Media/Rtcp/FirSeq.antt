-- ===== src/Media/Rtcp/FirSeq.antt =====
-- The FIR sequence numbers of crates/nexus-media/src/rtcp/packet.rs.
pub mod Counts
use nexus_sfu.Base.{
  ℕ, ◌+◌, ◌%◌, Bool, Option, none, some, List, [], ◌∷◌, ◌++◌, ltb, ◌==◌, if◌then◌else◌, length,
  get_or, set, take, drop, position,
}
use nexus_sfu.Media.Rtcp.Feedback.{FirEntry, FirPacket, max_fir_entries}

abbrev pub max_tracked : ℕ
max_tracked = 64

-- `FirSeqTracker`: the first `len` elements of the array; the others are never read.
pub record FirSeqTracker : Type 0 where
  pub seq_nrs : List (ℕ × ℕ)

unfoldable pub new : FirSeqTracker
new = record { seq_nrs = [] }

abbrev pub is_of : ℕ → ℕ × ℕ → Bool
is_of ssrc (s, n) = s == ssrc

-- The second half of `next_seq_nr`: a new SSRC, for which the first entry makes room.
unfoldable pub add_ssrc : FirSeqTracker → ℕ → ℕ × FirSeqTracker
add_ssrc t ssrc =
    if ltb (length t.seq_nrs) max_tracked
    then (0, record { seq_nrs = t.seq_nrs ++ ((ssrc, 1) ∷ []) })
    else (0, record { seq_nrs = drop 1 t.seq_nrs ++ ((ssrc, 1) ∷ []) })

unfoldable pub next_found : FirSeqTracker → ℕ → Option ℕ → ℕ × FirSeqTracker
unfolding add_ssrc
next_found t ssrc none = add_ssrc t ssrc
next_found t ssrc (some i) =
    let n = (get_or t.seq_nrs i (ssrc, 0)).1 in
    (n, record { seq_nrs = set t.seq_nrs i (ssrc, (n + 1) % 256) })

-- `next_seq_nr`: the number, and the tracker after it.
unfoldable pub next_seq_nr : FirSeqTracker → ℕ → ℕ × FirSeqTracker
unfolding next_found
next_seq_nr t ssrc = next_found t ssrc (position (is_of ssrc) t.seq_nrs)

-- `FirSeqTracker::build_fir`
unfoldable pub number : FirSeqTracker → List ℕ → List FirEntry × FirSeqTracker
unfolding next_seq_nr
number t [] = ([], t)
number t (ssrc ∷ ssrcs) =
    let (n, t') = next_seq_nr t ssrc in
    let (es, t'') = number t' ssrcs in (record { ssrc = ssrc; seq_nr = n } ∷ es, t'')

unfoldable pub tracked_fir : FirSeqTracker → ℕ → List ℕ → FirPacket × FirSeqTracker
unfolding number
tracked_fir t sender_ssrc target_ssrcs =
    let (es, t') = number t (take max_fir_entries target_ssrcs) in
    (record { sender_ssrc = sender_ssrc; entries = es }, t')
