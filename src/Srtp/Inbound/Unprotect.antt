-- ===== src/Srtp/Inbound/Unprotect.antt =====
-- The two unprotect calls of SrtpInbound, in crates/nexus-transport/src/srtp/direction.rs.
use nexus_sfu.Base.{
  ℕ, ◌+◌, ◌-◌, bit_and, ◌||◌, Option, none, some, List, ltb, leb, ◌==◌, if◌then◌else◌, length,
  Result, ok, err,
}
use nexus_sfu.Srtp.Types.{SrtpError, packet_index}
use nexus_sfu.Srtp.Index.{estimate_index, update}
use nexus_sfu.Srtp.Replay.{ReplayProtection, check, accept}
use nexus_sfu.Srtp.Cipher.{Cipher, rtp_header_size, rtcp_header_size, srtcp_index_mask}
use nexus_sfu.Base.Bytes.{be_u16, be_u32}
use nexus_sfu.Srtp.Inbound.{
  SsrcIn, fresh, srtcp_e_flag, SrtpInbound, owns, slot_at, write_slot, slot_for,
}

-- `unprotect_rtp` after the cipher: `x` is the slot's state, or the fresh one of a new SSRC.
unfoldable pub open_rtp :
    SrtpInbound
    → ℕ
    → SsrcIn
    → ℕ
    → ℕ
    → ℕ
    → Result SrtpError ℕ × List ℕ
    → Option ℕ × List ℕ × SrtpInbound
open_rtp s k x seq i now_s (err _, buf) = (none, buf, s)
open_rtp s k x seq i now_s (ok out, buf) = (
  some out,
  buf,
  write_slot s k (record x {
    rtp_replay = accept x.rtp_replay i;
    roc = (update x.roc seq).1;
    last_seen_s = now_s;
  }),
)

-- After the window of a known SSRC.
unfoldable pub unprotect_checked :
    SrtpInbound
    → ℕ
    → SsrcIn
    → List ℕ
    → ℕ
    → ℕ
    → ℕ
    → ℕ
    → Result SrtpError (Unit {0}) × ReplayProtection
    → Option ℕ × List ℕ × SrtpInbound
unfolding open_rtp
unprotect_checked s k x buf len seq i now_s (err _, r) =
    (none, buf, write_slot s k (record x { rtp_replay = r }))
unprotect_checked s k x buf len seq i now_s (ok _, r) =
    open_rtp (write_slot s k (record x { rtp_replay = r })) k (record x { rtp_replay = r }) seq i
      now_s (s.cipher.unprotect_rtp buf len i)

unfoldable pub unprotect_known :
    SrtpInbound
    → ℕ
    → SsrcIn
    → List ℕ
    → ℕ
    → ℕ
    → ℕ
    → Result SrtpError ℕ
    → Option ℕ × List ℕ × SrtpInbound
unfolding unprotect_checked
unprotect_known s k x buf len seq now_s (err _) = (none, buf, s)
unprotect_known s k x buf len seq now_s (ok i) =
    unprotect_checked s k x buf len seq i now_s (check x.rtp_replay i)

unfoldable pub unprotect_slot :
    SrtpInbound → List ℕ → ℕ → ℕ → ℕ → ℕ → Option ℕ → Option ℕ × List ℕ × SrtpInbound
unfolding unprotect_known
unprotect_slot s buf len ssrc seq now_s none = (none, buf, s)
unprotect_slot s buf len ssrc seq now_s (some k) =
    let x = slot_at s k in
    if owns ssrc x
    then unprotect_known s k x buf len seq now_s (estimate_index x.roc seq)
    else open_rtp s k (fresh ssrc now_s) seq (packet_index 0 seq) now_s
        (s.cipher.unprotect_rtp buf len (packet_index 0 seq))

-- `unprotect_rtp`: the length, the buffer and the context after it.
unfoldable pub unprotect_rtp : SrtpInbound → List ℕ → ℕ → ℕ → Option ℕ × List ℕ × SrtpInbound
unfolding unprotect_slot
unprotect_rtp s buf len now_s =
    if ltb len rtp_header_size || ltb (length buf) len
    then (none, buf, s)
    else unprotect_slot s buf len (be_u32 buf 8) (be_u16 buf 2) now_s
        (slot_for s (be_u32 buf 8) now_s)

-- `srtcp_trailer_offset`
unfoldable pub srtcp_trailer_offset : Cipher → ℕ → Option ℕ
srtcp_trailer_offset c len =
    let trailer = if c.is_aead then 4 else c.tag_len + 4 in
    if ltb len trailer
    then none
    else (if leb rtcp_header_size (len - trailer) then some (len - trailer) else none)

unfoldable pub open_rtcp :
    SrtpInbound
    → ℕ
    → SsrcIn
    → ℕ
    → ℕ
    → Result SrtpError (ℕ × ℕ) × List ℕ
    → Option ℕ × List ℕ × SrtpInbound
open_rtcp s k x i now_s (err _, buf) = (none, buf, s)
open_rtcp s k x i now_s (ok (out, _), buf) = (
  some out,
  buf,
  write_slot s k (record x { rtcp_replay = accept x.rtcp_replay i; last_seen_s = now_s }),
)

unfoldable pub unprotect_rtcp_checked :
    SrtpInbound
    → ℕ
    → SsrcIn
    → List ℕ
    → ℕ
    → ℕ
    → ℕ
    → Result SrtpError (Unit {0}) × ReplayProtection
    → Option ℕ × List ℕ × SrtpInbound
unfolding open_rtcp
unprotect_rtcp_checked s k x buf len i now_s (err _, r) =
    (none, buf, write_slot s k (record x { rtcp_replay = r }))
unprotect_rtcp_checked s k x buf len i now_s (ok _, r) =
    open_rtcp (write_slot s k (record x { rtcp_replay = r })) k (record x { rtcp_replay = r }) i
      now_s (s.cipher.unprotect_rtcp buf len)

unfoldable pub unprotect_rtcp_slot :
    SrtpInbound → List ℕ → ℕ → ℕ → ℕ → ℕ → Option ℕ → Option ℕ × List ℕ × SrtpInbound
unfolding unprotect_rtcp_checked
unprotect_rtcp_slot s buf len ssrc i now_s none = (none, buf, s)
unprotect_rtcp_slot s buf len ssrc i now_s (some k) =
    let x = slot_at s k in
    if owns ssrc x
    then unprotect_rtcp_checked s k x buf len i now_s (check x.rtcp_replay i)
    else open_rtcp s k (fresh ssrc now_s) i now_s (s.cipher.unprotect_rtcp buf len)

-- The trailer is found, and the packet is encrypted.
unfoldable pub unprotect_rtcp_at :
    SrtpInbound → List ℕ → ℕ → ℕ → Option ℕ → Option ℕ × List ℕ × SrtpInbound
unfolding unprotect_rtcp_slot
unprotect_rtcp_at s buf len now_s none = (none, buf, s)
unprotect_rtcp_at s buf len now_s (some at) =
    if bit_and (be_u32 buf at) srtcp_e_flag == 0
    then (none, buf, s)
    else unprotect_rtcp_slot s buf len (be_u32 buf 4) (bit_and (be_u32 buf at) srtcp_index_mask)
        now_s (slot_for s (be_u32 buf 4) now_s)

-- `unprotect_rtcp`
unfoldable pub unprotect_rtcp : SrtpInbound → List ℕ → ℕ → ℕ → Option ℕ × List ℕ × SrtpInbound
unfolding unprotect_rtcp_at
unprotect_rtcp s buf len now_s =
    if ltb len rtcp_header_size || ltb (length buf) len
    then (none, buf, s)
    else unprotect_rtcp_at s buf len now_s (srtcp_trailer_offset s.cipher len)
