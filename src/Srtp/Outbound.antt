-- ===== src/Srtp/Outbound.antt =====
-- `SrtpOutbound` of srtp/direction.rs: what the SFU sends to one peer.
pub mod Slots
pub mod Inv
pub mod Once
pub mod Run
pub mod RtcpIndex
pub mod Rtcp
pub mod Register
pub mod LateStart
use nexus_sfu.Base.{
  ℕ, ◌+◌, ◌-◌, ◌%◌, ◌^◌, Bool, true, false, not, ◌&&◌, ◌||◌, Option, none, some, List, ltb, leb,
  ◌==◌, if◌then◌else◌, length, get_or, set, replicate, position, Result, ok, err,
}
use nexus_sfu.Srtp.Types.{SrtpError, invalid_ssrc, session_limit_reached}
use nexus_sfu.Srtp.Index.{RocState, estimate_index, update}
use nexus_sfu.Srtp.Index as Index
use nexus_sfu.Srtp.Replay.{ReplayProtection, check, accept}
use nexus_sfu.Srtp.Replay as Replay
use nexus_sfu.Srtp.Cipher.{Cipher, rtp_header_size, rtcp_header_size, srtcp_index_mask}
use nexus_sfu.Base.Bytes.{be_u16, be_u32}

-- `SsrcOut`
pub record SsrcOut : Type 0 where
  pub ssrc : ℕ
  pub live : Bool
  pub roc : RocState
  pub sent : ReplayProtection
  pub srtcp_index : ℕ

-- `SsrcOut::EMPTY`
abbrev pub empty : SsrcOut
empty = record { ssrc = 0; live = false; roc = Index.new; sent = Replay.new; srtcp_index = 0 }

-- `SsrcOut::fresh`
abbrev pub fresh : ℕ → SsrcOut
fresh ssrc = record empty { ssrc = ssrc; live = true }

abbrev pub outbound_ssrc_slots : ℕ
outbound_ssrc_slots = 32

-- `MAX_SSRC_OFFSET`
abbrev pub max_ssrc_offset : ℕ
max_ssrc_offset = 2147483647

-- `SrtpOutbound`
pub record SrtpOutbound : Type 0 where
  pub cipher : Cipher
  pub slots : List SsrcOut
  pub ssrc_base : ℕ
  pub next_offset : ℕ

-- `from_keys`, with the cipher that the keys give
unfoldable pub from_keys : Cipher → ℕ → SrtpOutbound
from_keys cipher base = record {
  cipher = cipher;
  slots = replicate outbound_ssrc_slots empty;
  ssrc_base = base;
  next_offset = 0;
}

-- the test `s.live && s.ssrc == ssrc`
abbrev pub owns : ℕ → SsrcOut → Bool
owns ssrc x = x.live && x.ssrc == ssrc

abbrev pub is_free : SsrcOut → Bool
is_free x = not x.live

-- `ssrc.wrapping_sub(self.ssrc_base)`
abbrev pub offset_from : ℕ → ℕ → ℕ
offset_from base ssrc = (ssrc + 2 ^ 32 - base) % 2 ^ 32

-- `slot_of`
unfoldable pub slot_of : SrtpOutbound → ℕ → Option ℕ
slot_of o ssrc = position (owns ssrc) o.slots

-- The write of `register` into the slot that it found.
unfoldable pub register_at :
    SrtpOutbound → ℕ → ℕ → Option ℕ → Result SrtpError (Unit {0}) × SrtpOutbound
register_at o ssrc offset none = (err session_limit_reached, o)
register_at o ssrc offset (some i) =
    (ok tt, record o { slots = set o.slots i (fresh ssrc); next_offset = offset + 1 })

-- `register`
unfoldable pub register : SrtpOutbound → ℕ → Result SrtpError (Unit {0}) × SrtpOutbound
unfolding register_at
register o ssrc =
    let offset = offset_from o.ssrc_base ssrc in
    if ltb offset o.next_offset || ltb max_ssrc_offset offset
    then (err invalid_ssrc, o)
    else register_at o ssrc offset (position is_free o.slots)

-- `protect_rtp` on the slot of the packet: after the cipher, after the window, and from the start.
unfoldable pub seal_rtp :
    SsrcOut → ℕ → ℕ → Result SrtpError ℕ × List ℕ → Option ℕ × List ℕ × SsrcOut
seal_rtp x seq i (err _, buf) = (none, buf, x)
seal_rtp x seq i (ok out, buf) =
    (some out, buf, record x { sent = accept x.sent i; roc = (update x.roc seq).1 })

unfoldable pub protect_checked :
    Cipher
    → SsrcOut
    → List ℕ
    → ℕ
    → ℕ
    → ℕ
    → Result SrtpError (Unit {0}) × ReplayProtection
    → Option ℕ × List ℕ × SsrcOut
unfolding seal_rtp
protect_checked c x buf len seq i (err _, sent) = (none, buf, record x { sent = sent })
protect_checked c x buf len seq i (ok _, sent) =
    seal_rtp (record x { sent = sent }) seq i (c.protect_rtp buf len i)

unfoldable pub protect_slot :
    Cipher → SsrcOut → List ℕ → ℕ → ℕ → Result SrtpError ℕ → Option ℕ × List ℕ × SsrcOut
unfolding protect_checked
protect_slot c x buf len seq (err _) = (none, buf, x)
protect_slot c x buf len seq (ok i) = protect_checked c x buf len seq i (check x.sent i)

-- The slot as it is read, at an index that `slot_of` found.
abbrev pub slot_at : SrtpOutbound → ℕ → SsrcOut
slot_at o i = get_or o.slots i empty

unfoldable pub protect_found :
    SrtpOutbound → List ℕ → ℕ → Option ℕ → Option ℕ × List ℕ × SrtpOutbound
unfolding protect_slot
protect_found o buf len none = (none, buf, o)
protect_found o buf len (some i) =
    let x = slot_at o i in
    let seq = be_u16 buf 2 in
    let (out, buf', x') = protect_slot o.cipher x buf len seq (estimate_index x.roc seq) in
    (out, buf', record o { slots = set o.slots i x' })

-- `protect_rtp`: the length, the buffer and the context after it.
unfoldable pub protect_rtp : SrtpOutbound → List ℕ → ℕ → Option ℕ × List ℕ × SrtpOutbound
unfolding protect_found slot_of
protect_rtp o buf len =
    if ltb len rtp_header_size || ltb (length buf) len
    then (none, buf, o)
    else protect_found o buf len (slot_of o (be_u32 buf 8))

unfoldable pub seal_rtcp : SsrcOut → Result SrtpError ℕ × List ℕ → Option ℕ × List ℕ × SsrcOut
seal_rtcp x (err _, buf) = (none, buf, x)
seal_rtcp x (ok out, buf) = (some out, buf, record x { srtcp_index = x.srtcp_index + 1 })

unfoldable pub protect_rtcp_found :
    SrtpOutbound → List ℕ → ℕ → Option ℕ → Option ℕ × List ℕ × SrtpOutbound
unfolding seal_rtcp
protect_rtcp_found o buf len none = (none, buf, o)
protect_rtcp_found o buf len (some i) =
    let x = slot_at o i in
    if leb srtcp_index_mask x.srtcp_index
    then (none, buf, o)
    else (let (out, buf', x') = seal_rtcp x (o.cipher.protect_rtcp buf len x.srtcp_index) in
        (out, buf', record o { slots = set o.slots i x' }))

-- `protect_rtcp`
unfoldable pub protect_rtcp : SrtpOutbound → List ℕ → ℕ → Option ℕ × List ℕ × SrtpOutbound
unfolding protect_rtcp_found slot_of
protect_rtcp o buf len =
    if ltb len rtcp_header_size || ltb (length buf) len
    then (none, buf, o)
    else protect_rtcp_found o buf len (slot_of o (be_u32 buf 4))

unfoldable pub retire_found : SrtpOutbound → Option ℕ → SrtpOutbound
retire_found o none = o
retire_found o (some i) = record o { slots = set o.slots i (record (slot_at o i) { live = false }) }

-- `retire`
unfoldable pub retire : SrtpOutbound → ℕ → SrtpOutbound
unfolding retire_found slot_of
retire o ssrc = retire_found o (slot_of o ssrc)
