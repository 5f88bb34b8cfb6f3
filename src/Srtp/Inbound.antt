-- ===== src/Srtp/Inbound.antt =====
-- `SrtpInbound` of srtp/direction.rs: what one peer sends. The seconds are u32 numbers.
pub mod Unprotect
pub mod Table
pub mod Sound
pub mod Control
pub mod Pinned
pub mod Delivery
pub mod Replayed
pub mod Tracked
pub mod History
pub mod Refused
mod Tests
use nexus_sfu.Base.{
  ℕ, ◌+◌, ◌-◌, bit_and, Bool, true, false, not, ◌&&◌, ◌||◌, Option, none, some, List, [], ◌∷◌, ltb,
  leb, ◌==◌, if◌then◌else◌, length, get_or, set, replicate, position, count, Result, ok, err,
}
use nexus_sfu.Srtp.Types.{SrtpError, session_limit_reached, packet_index}
use nexus_sfu.Srtp.Index.{RocState, estimate_index, update}
use nexus_sfu.Srtp.Index as Index
use nexus_sfu.Srtp.Replay.{ReplayProtection, check, accept}
use nexus_sfu.Srtp.Replay as Replay
use nexus_sfu.Srtp.Cipher.{Cipher, rtp_header_size, rtcp_header_size, srtcp_index_mask}
use nexus_sfu.Base.Bytes.{be_u16, be_u32}

-- `SsrcIn`
pub record SsrcIn : Type 0 where
  pub ssrc : ℕ
  pub live : Bool
  pub pinned : Bool
  pub roc : RocState
  pub rtp_replay : ReplayProtection
  pub rtcp_replay : ReplayProtection
  pub last_seen_s : ℕ

-- `SsrcIn::EMPTY`
abbrev pub empty : SsrcIn
empty = record {
  ssrc = 0;
  live = false;
  pinned = false;
  roc = Index.new;
  rtp_replay = Replay.new;
  rtcp_replay = Replay.new;
  last_seen_s = 0;
}

-- `SsrcIn::fresh`
abbrev pub fresh : ℕ → ℕ → SsrcIn
fresh ssrc now_s = record empty { ssrc = ssrc; live = true; last_seen_s = now_s }

abbrev pub inbound_ssrc_slots : ℕ
inbound_ssrc_slots = 16

abbrev pub inbound_pinned_max : ℕ
inbound_pinned_max = 12

abbrev pub inbound_idle_evict_s : ℕ
inbound_idle_evict_s = 30

-- `SRTCP_E_FLAG`
abbrev pub srtcp_e_flag : ℕ
srtcp_e_flag = 0x8000_0000

-- `SrtpInbound`
pub record SrtpInbound : Type 0 where
  pub cipher : Cipher
  pub slots : List SsrcIn

-- `from_keys`, with the cipher that the keys give
unfoldable pub from_keys : Cipher → SrtpInbound
from_keys cipher = record { cipher = cipher; slots = replicate inbound_ssrc_slots empty }

-- the test `s.live && s.ssrc == ssrc`
abbrev pub owns : ℕ → SsrcIn → Bool
owns ssrc x = x.live && x.ssrc == ssrc

abbrev pub is_live : SsrcIn → Bool
is_live x = x.live

abbrev pub is_free : SsrcIn → Bool
is_free x = not x.live

abbrev pub is_pinned : SsrcIn → Bool
is_pinned x = x.live && x.pinned

-- `ssrc_count` and `pinned_count`
unfoldable pub ssrc_count : SrtpInbound → ℕ
ssrc_count s = count is_live s.slots

unfoldable pub pinned_count : SrtpInbound → ℕ
pinned_count s = count is_pinned s.slots

abbrev pub slot_at : SrtpInbound → ℕ → SsrcIn
slot_at s k = get_or s.slots k empty

abbrev pub write_slot : SrtpInbound → ℕ → SsrcIn → SrtpInbound
write_slot s k x = record s { slots = set s.slots k x }

-- The first of the unpinned slots that were seen longest ago, from slot `i` on: its index and time.
unfoldable pub older : ℕ → SsrcIn → Option (ℕ × ℕ) → Option (ℕ × ℕ)
older i x none = some (i, x.last_seen_s)
older i x (some (j, t)) = if ltb t x.last_seen_s then some (j, t) else some (i, x.last_seen_s)

unfoldable pub oldest : ℕ → List SsrcIn → Option (ℕ × ℕ)
unfolding older
oldest i [] = none
oldest i (x ∷ xs) = let rest = oldest (i + 1) xs in if x.pinned then rest else older i x rest

abbrev pub first_of {ℓ κ} : {A : Type ℓ} {B : Type κ} → Option (A × B) → Option A
first_of none = none
first_of (some (a, b)) = some a

-- `Option::or`
abbrev pub or_else {ℓ} : {A : Type ℓ} → Option A → Option A → Option A
or_else none b = b
or_else (some a) b = some a

-- `slot_to_replace`
unfoldable pub slot_to_replace : SrtpInbound → Option ℕ
unfolding oldest
slot_to_replace s = or_else (position is_free s.slots) (first_of (oldest 0 s.slots))

-- The last step of `pin`: the slot found is pinned.
unfoldable pub pin_slot : SrtpInbound → ℕ → SrtpInbound
pin_slot s k = write_slot s k (record (slot_at s k) { pinned = true })

unfoldable pub pin_new : SrtpInbound → ℕ → Option ℕ → Result SrtpError (Unit {0}) × SrtpInbound
unfolding pin_slot
pin_new s ssrc none = (err session_limit_reached, s)
pin_new s ssrc (some k) = (ok tt, pin_slot (write_slot s k (fresh ssrc 0)) k)

unfoldable pub pin_found : SrtpInbound → ℕ → Option ℕ → Result SrtpError (Unit {0}) × SrtpInbound
unfolding pin_new pin_slot pinned_count slot_to_replace
pin_found s ssrc none =
    if leb inbound_pinned_max (pinned_count s)
    then (err session_limit_reached, s)
    else pin_new s ssrc (slot_to_replace s)
pin_found s ssrc (some k) =
    if (slot_at s k).pinned
    then (ok tt, s)
    else (if leb inbound_pinned_max (pinned_count s)
        then (err session_limit_reached, s)
        else (ok tt, pin_slot s k))

-- `pin`
unfoldable pub pin : SrtpInbound → ℕ → Result SrtpError (Unit {0}) × SrtpInbound
unfolding pin_found
pin s ssrc = pin_found s ssrc (position (owns ssrc) s.slots)

unfoldable pub unpin_found : SrtpInbound → Option ℕ → SrtpInbound
unpin_found s none = s
unpin_found s (some k) = write_slot s k (record (slot_at s k) { pinned = false })

-- `unpin`
unfoldable pub unpin : SrtpInbound → ℕ → SrtpInbound
unfolding unpin_found
unpin s ssrc = unpin_found s (position (owns ssrc) s.slots)

-- One round of `slot_for`: the idlest slot so far; `saturating_sub` is the subtraction of ℕ.
unfoldable pub idler : ℕ → ℕ → SsrcIn → Option (ℕ × ℕ) → Option (ℕ × ℕ)
idler now_s i x none = some (i, now_s - x.last_seen_s)
idler now_s i x (some (j, most)) =
    if ltb most (now_s - x.last_seen_s) then some (i, now_s - x.last_seen_s) else some (j, most)

-- `filter(|&(_, idle)| idle > INBOUND_IDLE_EVICT_S)`
unfoldable pub evictable : Option (ℕ × ℕ) → Option ℕ
evictable none = none
evictable (some (i, idle)) = if ltb inbound_idle_evict_s idle then some i else none

-- The loop of `slot_for` from slot `i` on.
unfoldable pub scan : ℕ → ℕ → ℕ → Option ℕ → Option (ℕ × ℕ) → List SsrcIn → Option ℕ
unfolding idler evictable
scan ssrc now_s i free idlest [] = or_else free (evictable idlest)
scan ssrc now_s i free idlest (x ∷ xs) =
    let free' = if x.live then free else or_else free (some i) in
    let idlest' = if x.live && not x.pinned then idler now_s i x idlest else idlest in
    let rest = scan ssrc now_s (i + 1) free' idlest' xs in if owns ssrc x then some i else rest

-- `slot_for`
unfoldable pub slot_for : SrtpInbound → ℕ → ℕ → Option ℕ
unfolding scan
slot_for s ssrc now_s = scan ssrc now_s 0 none none s.slots

-- `evict_idle`: the slots and how many were freed.
abbrev pub is_idle : ℕ → ℕ → SsrcIn → Bool
is_idle now_s idle_s x = x.live && not x.pinned && ltb idle_s (now_s - x.last_seen_s)

unfoldable pub evict_slots : ℕ → ℕ → List SsrcIn → ℕ × List SsrcIn
evict_slots now_s idle_s [] = (0, [])
evict_slots now_s idle_s (x ∷ xs) =
    let (n, xs') = evict_slots now_s idle_s xs in
    if is_idle now_s idle_s x then (n + 1, record x { live = false } ∷ xs') else (n, x ∷ xs')

unfoldable pub evict_idle : SrtpInbound → ℕ → ℕ → ℕ × SrtpInbound
unfolding evict_slots
evict_idle s now_s idle_s =
    let (n, slots) = evict_slots now_s idle_s s.slots in (n, record s { slots = slots })
