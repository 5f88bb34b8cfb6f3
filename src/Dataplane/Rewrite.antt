-- ===== src/Dataplane/Rewrite.antt =====
-- crates/nexus-dataplane/src/rewrite.rs: the header rewrite of a packet into a send buffer.
-- What a refused packet leaves in the buffer is not modelled: the caller drops the buffer.
pub mod Numbering
pub mod Stream
pub mod Write
pub mod Layout
pub mod Block
pub mod Output
pub mod Total
pub mod Readback
pub mod Parsed
pub mod Expected
pub mod Received
use nexus_sfu.Base.{
  ℕ, ◌+◌, ◌-◌, ◌*◌, ◌/◌, ◌%◌, ◌^◌, min, max, Bool, true, false, not, ◌&&◌, ◌||◌, Option, none, some,
  ltb, leb, if◌then◌else◌,
}
use nexus_sfu.Base.Bytes.{u16_bytes, u32_bytes, write_at}
use nexus_sfu.Media.RtpHeader.{RtpHeader}
use nexus_sfu.Dataplane.Ext.{Element, all_elements, max_one_byte_len}
use nexus_sfu.Dataplane.Subscription.{RewriteState, Subscription, ExtMap, map_pt, next_u64}

abbrev pub rebase_gap : ℕ
rebase_gap = 16384

abbrev pub reorder_limit : ℕ
reorder_limit = 64

-- `REBASE_IDLE` in nanoseconds
abbrev pub rebase_idle : ℕ
rebase_idle = 5000000000

-- `RewriteError`
pub data RewriteError : Type 0 where
  unmapped_pt too_large : RewriteError

-- `Advance`
pub record Advance : Type 0 where
  pub seq_offset : ℕ
  pub ts_offset : ℕ
  pub in_seq : ℕ
  pub out_seq : ℕ
  pub out_ts : ℕ
  pub rebased : Bool

-- `wrapping_add` and `wrapping_sub` on u16 and u32.
abbrev pub add_16 : ℕ → ℕ → ℕ
add_16 a b = (a + b) % 2 ^ 16

abbrev pub sub_16 : ℕ → ℕ → ℕ
sub_16 a b = (a + 2 ^ 16 - b) % 2 ^ 16

abbrev pub add_32 : ℕ → ℕ → ℕ
add_32 a b = (a + b) % 2 ^ 32

abbrev pub sub_32 : ℕ → ℕ → ℕ
sub_32 a b = (a + 2 ^ 32 - b) % 2 ^ 32

-- `d as i16` lies in `-REORDER_LIMIT..=REBASE_GAP`, for a u16 `d`.
abbrev pub in_step : ℕ → Bool
in_step d = leb d rebase_gap || leb (2 ^ 16 - reorder_limit) d

-- `d as i16 > 0`, for a u16 `d`.
abbrev pub is_ahead : ℕ → Bool
is_ahead d = ltb 0 d && ltb d (2 ^ 15)

-- `last_out_at.is_some_and(|at| now.saturating_duration_since(at) >= REBASE_IDLE)`
abbrev pub is_idle : Option ℕ → ℕ → Bool
is_idle none now = false
is_idle (some at) now = leb rebase_idle (now - at)

-- the milliseconds since the last packet
abbrev pub elapsed_ms : Option ℕ → ℕ → ℕ
elapsed_ms none now = 0
elapsed_ms (some at) now = (now - at) / 1000000

-- `offsets`: the offsets, whether they are rebased, and the generator after it.
unfoldable pub offsets : RewriteState → RtpHeader → ℕ → ℕ → ℕ → ℕ × ℕ × Bool × ℕ
offsets state hdr clock_rate rng now =
    if state.started
    then (let delta = sub_16 hdr.sequence_number state.last_in_seq in
        if in_step delta && not (is_idle state.last_out_at now)
        then (state.seq_offset, state.ts_offset, false, rng)
        else (let elapsed = elapsed_ms state.last_out_at now in
            let step = min (elapsed % 2 ^ 64 * clock_rate) (2 ^ 64 - 1) / 1000 in
            (
              sub_16 (add_16 state.last_out_seq 1) hdr.sequence_number,
              sub_32 (add_32 state.last_out_ts (max step 1 % 2 ^ 32)) hdr.timestamp,
              true,
              rng,
            )))
    else (let (r, rng') = next_u64 rng in
        (
          sub_16 (r % 2 ^ 16) hdr.sequence_number,
          sub_32 (r / 2 ^ 32 % 2 ^ 32) hdr.timestamp,
          false,
          rng',
        ))

-- `commit`
unfoldable pub commit : RewriteState → Advance → ℕ → RewriteState
commit state advance now =
    let newer =
      not state.started
      || advance.rebased
      || is_ahead (sub_16 advance.out_seq state.last_out_seq) in
    let state' : RewriteState = record state {
      seq_offset = advance.seq_offset;
      ts_offset = advance.ts_offset;
      started = true;
    } in
    if newer
    then record state' {
      last_out_seq = advance.out_seq;
      last_out_ts = advance.out_ts;
      last_out_at = some now;
      last_in_seq = advance.in_seq;
    }
    else state'
