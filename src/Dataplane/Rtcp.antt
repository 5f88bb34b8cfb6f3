-- ===== src/Dataplane/Rtcp.antt =====
-- crates/nexus-dataplane/src/rtcp.rs, and what shard/rtcp.rs reads from a compound and writes as a report.
-- A writer returns how many bytes it wrote and the buffer after it, or `none` if the buffer is too short.
pub mod Answered
use nexus_sfu.Base.{
  ℕ, zero, suc, ◌+◌, ◌-◌, ◌*◌, ◌/◌, ◌%◌, bit_or, Bool, Option, none, some, List, [], ◌∷◌, ◌++◌, ltb,
  ◌==◌, if◌then◌else◌, length, set, take, drop, replicate, position, count, ok, err,
}
use nexus_sfu.Base.Bytes.{be_u32, u16_bytes, u32_bytes, u64_bytes}
use nexus_sfu.Media.Rtcp.{
  RtcpType, sender_report, receiver_report, source_description, goodbye, application_defined,
  transport_feedback, payload_feedback, extended_reports, unknown, RtcpError, Parsed,
}
use nexus_sfu.Media.Rtcp.Compound.{CompoundEntry, demux_compound}
use nexus_sfu.Media.Rtcp.Reports.{SenderReport, parse_sender_report}
use nexus_sfu.Media.Rtcp.Feedback.{PliPacket, parse_pli}

-- `SrInfo`
pub record SrInfo : Type 0 where
  pub ntp : ℕ
  pub rtp : ℕ

-- `header`
unfoldable pub block_header : ℕ → ℕ → ℕ → List ℕ
unfolding u16_bytes
block_header count pt len = bit_or 128 count ∷ pt ∷ u16_bytes ((len / 4 - 1) % 65536)

-- What a writer does with its bytes.
unfoldable pub write_front : List ℕ → List ℕ → Option (ℕ × List ℕ)
write_front dst bytes =
    if ltb (length dst) (length bytes)
    then none
    else some (length bytes, bytes ++ drop (length bytes) dst)

unfoldable pub sr_bytes : ℕ → SrInfo → ℕ → ℕ → List ℕ
unfolding block_header u32_bytes u64_bytes
sr_bytes ssrc sr packets octets =
    block_header 0 200 28
    ++ (u32_bytes ssrc
        ++ (u64_bytes sr.ntp ++ (u32_bytes sr.rtp ++ (u32_bytes packets ++ u32_bytes octets))))

-- `write_sr`
unfoldable pub write_sr : List ℕ → ℕ → SrInfo → ℕ → ℕ → Option (ℕ × List ℕ)
unfolding write_front sr_bytes
write_sr dst ssrc sr packets octets = write_front dst (sr_bytes ssrc sr packets octets)

-- `(4 + 4 + 2 + name.len() + 1).div_ceil(4) * 4`
abbrev pub sdes_len : ℕ → ℕ
sdes_len n = (4 + 4 + 2 + n + 1 + 3) / 4 * 4

unfoldable pub sdes_bytes : ℕ → List ℕ → List ℕ
unfolding block_header u32_bytes
sdes_bytes ssrc name =
    let n = length name in
    block_header 1 202 (sdes_len n)
    ++ (u32_bytes ssrc ++ (1 ∷ n % 256 ∷ (name ++ replicate (sdes_len n - (10 + n)) 0)))

-- `write_sdes_cname`
unfoldable pub write_sdes_cname : List ℕ → ℕ → List ℕ → Option (ℕ × List ℕ)
unfolding write_front sdes_bytes
write_sdes_cname dst ssrc name = write_front dst (sdes_bytes ssrc name)

unfoldable pub pli_bytes : ℕ → ℕ → List ℕ
unfolding block_header u32_bytes
pli_bytes sender_ssrc media_ssrc =
    block_header 1 206 12 ++ (u32_bytes sender_ssrc ++ u32_bytes media_ssrc)

-- `write_pli`
unfoldable pub write_pli : List ℕ → ℕ → ℕ → Option (ℕ × List ℕ)
unfolding write_front pli_bytes
write_pli dst sender_ssrc media_ssrc = write_front dst (pli_bytes sender_ssrc media_ssrc)

-- `fir_targets`: the entries of eight bytes, with the room for them.
unfoldable pub targets : ℕ → List ℕ → List ℕ
unfolding be_u32
targets zero fci = []
targets (suc room) fci =
    let rest = targets room (drop 8 fci) in if ltb (length fci) 8 then [] else be_u32 fci 0 ∷ rest

unfoldable pub fir_targets : List ℕ → List ℕ
unfolding targets
fir_targets packet = targets 16 (drop 12 packet)

-- `translate_sr`: the report and the CNAME, one after the other, before protection.
unfoldable pub append_cname : ℕ → List ℕ → Option (ℕ × List ℕ) → Option (ℕ × List ℕ)
append_cname n dst none = none
append_cname n dst (some (m, tail)) = some (n + m, take n dst ++ tail)

unfoldable pub cname_after : ℕ → List ℕ → Option (ℕ × List ℕ) → Option (ℕ × List ℕ)
unfolding append_cname write_sdes_cname
cname_after ssrc name none = none
cname_after ssrc name (some (n, dst)) = append_cname n dst (write_sdes_cname (drop n dst) ssrc name)

unfoldable pub translated : List ℕ → ℕ → SrInfo → ℕ → ℕ → ℕ → List ℕ → Option (ℕ × List ℕ)
unfolding cname_after write_sr
translated dst ssrc sr ts_offset packets octets name =
    cname_after ssrc name
      (write_sr dst ssrc (record sr { rtp = (sr.rtp + ts_offset) % 4294967296 }) packets octets)

-- `Requests`, and the blocks that were ignored.
pub record Requests : Type 0 where
  pub srs : List (ℕ × SrInfo)
  pub keyframes : List ℕ
  pub ignored : ℕ

-- `push` of a list of fixed capacity.
unfoldable pub push {ℓ} : {A : Type ℓ} → ℕ → List A → A → List A
push capacity xs x = if length xs == capacity then xs else xs ++ (x ∷ [])

-- The last report of an SSRC replaces the one before.
unfoldable pub put_sr : List (ℕ × SrInfo) → ℕ → SrInfo → Option ℕ → List (ℕ × SrInfo)
unfolding push
put_sr srs ssrc info none = push 16 srs (ssrc, info)
put_sr srs ssrc info (some i) = set srs i (ssrc, info)

abbrev pub is_about : ℕ → ℕ × SrInfo → Bool
is_about ssrc (s, info) = s == ssrc

unfoldable pub read_sr : Requests → Parsed SenderReport → Option Requests
unfolding put_sr
read_sr r (err e) = none
read_sr r (ok sr) = some (record r {
  srs =
      put_sr r.srs sr.ssrc (record { ntp = sr.ntp_timestamp; rtp = sr.rtp_timestamp })
        (position (is_about sr.ssrc) r.srs);
})

unfoldable pub read_pli : Requests → Parsed PliPacket → Option Requests
unfolding push
read_pli r (err e) = none
read_pli r (ok pli) = some (record r { keyframes = push 32 r.keyframes pli.media_ssrc })

unfoldable pub push_all : List ℕ → List ℕ → List ℕ
unfolding push
push_all keyframes [] = keyframes
push_all keyframes (ssrc ∷ ssrcs) = push_all (push 32 keyframes ssrc) ssrcs

abbrev pub ignore : Requests → Requests
ignore r = record r { ignored = r.ignored + 1 }

-- One block, by its type and count.
unfoldable pub read_block : Requests → RtcpType → ℕ → List ℕ → Option Requests
unfolding read_sr read_pli push_all fir_targets parse_sender_report parse_pli
read_block r sender_report count bytes = read_sr r (parse_sender_report bytes)
read_block r payload_feedback count bytes =
    if count == 1
    then read_pli r (parse_pli bytes)
    else (if count == 4
        then some (record r { keyframes = push_all r.keyframes (fir_targets bytes) })
        else some (ignore r))
read_block r receiver_report count bytes = some (ignore r)
read_block r source_description count bytes = some (ignore r)
read_block r goodbye count bytes = some (ignore r)
read_block r application_defined count bytes = some (ignore r)
read_block r transport_feedback count bytes = some (ignore r)
read_block r extended_reports count bytes = some (ignore r)
read_block r (unknown pt) count bytes = some (ignore r)

unfoldable pub read_blocks : Option Requests → List CompoundEntry → Option Requests
unfolding read_block
read_blocks none es = none
read_blocks (some r) [] = some r
read_blocks (some r) (e ∷ es) =
    read_blocks (read_block r e.header.packet_type e.header.count e.bytes) es

unfoldable pub total_len : List CompoundEntry → ℕ
total_len [] = 0
total_len (e ∷ es) = length e.bytes + total_len es

-- `read_compound`
unfoldable pub read_split : ℕ → Parsed (List CompoundEntry) → Option Requests
unfolding read_blocks total_len
read_split len (err e) = none
read_split len (ok es) =
    if total_len es == len
    then read_blocks (some (record { srs = []; keyframes = []; ignored = 0 })) es
    else none

unfoldable pub read_compound : List ℕ → Option Requests
unfolding read_split demux_compound
read_compound data_bytes = read_split (length data_bytes) (demux_compound data_bytes)
