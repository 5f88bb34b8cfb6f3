-- ===== src/Srtp/Replay.antt =====
-- srtp/replay.rs: replay protection by a 64-bit sliding window. `1u64 << delta` and the shift of
-- the window are taken below 64 only; `Window.check_delta-lt` is the assertion of
-- `check_window_bit`.
pub mod Window
pub mod Safety
use nexus_sfu.Base.{
  ℕ, ◌+◌, ◌-◌, ◌*◌, ◌%◌, ◌^◌, bit_and, bit_or, Bool, true, false, ◌&&◌, ltb, leb, ◌==◌,
  if◌then◌else◌, Result, ok, err,
}
use nexus_sfu.Srtp.Types.{SrtpError, replay_detected}

-- `ReplayProtection`; every number is a u64.
pub record ReplayProtection : Type 0 where
  pub highest : ℕ
  pub window : ℕ
  pub window_size : ℕ
  pub enabled : Bool
  pub packets_checked : ℕ
  pub replays_detected : ℕ

abbrev pub default_window_size : ℕ
default_window_size = 64

-- `with_window_size`: the size is clamped to the bitmap's.
unfoldable pub with_window_size : ℕ → ReplayProtection
with_window_size size = record {
  highest = 0;
  window = 0;
  window_size = if ltb 64 size then 64 else size;
  enabled = true;
  packets_checked = 0;
  replays_detected = 0;
}

-- `new`
abbrev pub new : ReplayProtection
new = record {
  highest = 0;
  window = 0;
  window_size = default_window_size;
  enabled = true;
  packets_checked = 0;
  replays_detected = 0;
}

-- `disabled`
abbrev pub disabled : ReplayProtection
disabled = record new { enabled = false }

unfoldable pub is_first_packet : ReplayProtection → Bool
is_first_packet s = s.highest == 0 && s.window == 0

-- the failure branch of `validate_index` and `check_window_bit`
unfoldable pub detect : ReplayProtection → Result SrtpError (Unit {0}) × ReplayProtection
detect s = (err replay_detected, record s { replays_detected = (s.replays_detected + 1) % 2 ^ 64 })

unfoldable pub check_window_bit :
    ReplayProtection → ℕ → Result SrtpError (Unit {0}) × ReplayProtection
unfolding detect
check_window_bit s delta = if bit_and s.window (2 ^ delta) == 0 then (ok tt, s) else detect s

unfoldable pub validate_index :
    ReplayProtection → ℕ → Result SrtpError (Unit {0}) × ReplayProtection
unfolding detect check_window_bit
validate_index s index =
    if ltb s.highest index
    then (ok tt, s)
    else (if leb s.window_size (s.highest - index)
        then detect s
        else check_window_bit s (s.highest - index))

-- `check`: the result, and the state after it.
unfoldable pub check : ReplayProtection → ℕ → Result SrtpError (Unit {0}) × ReplayProtection
unfolding is_first_packet validate_index
check s index =
    let s' : ReplayProtection = record s { packets_checked = (s.packets_checked + 1) % 2 ^ 64 } in
    if s'.enabled
    then (if is_first_packet s' then (ok tt, s') else validate_index s' index)
    else (ok tt, s')

unfoldable pub accept_first_packet : ReplayProtection → ℕ → ReplayProtection
accept_first_packet s index = record s { highest = index; window = 1 }

unfoldable pub accept_newer_packet : ReplayProtection → ℕ → ReplayProtection
accept_newer_packet s index =
    let shift : ℕ = index - s.highest in
    record s {
      highest = index;
      window = if leb 64 shift then 1 else bit_or (s.window * 2 ^ shift % 2 ^ 64) 1;
    }

unfoldable pub accept_older_packet : ReplayProtection → ℕ → ReplayProtection
accept_older_packet s index =
    let delta : ℕ = s.highest - index in
    if ltb delta 64 then record s { window = bit_or s.window (2 ^ delta) } else s

-- `accept`
unfoldable pub accept : ReplayProtection → ℕ → ReplayProtection
unfolding is_first_packet accept_first_packet accept_newer_packet accept_older_packet
accept s index =
    if s.enabled
    then (if is_first_packet s
        then accept_first_packet s index
        else (if ltb s.highest index
            then accept_newer_packet s index
            else accept_older_packet s index))
    else s

-- the rest of `check_and_accept` once `check` has answered: `?` returns an error at once
unfoldable pub accept_checked :
    ℕ
    → Result SrtpError (Unit {0}) × ReplayProtection
    → Result SrtpError (Unit {0}) × ReplayProtection
accept_checked index (ok _, s) = (ok tt, accept s index)
accept_checked index (err e, s) = (err e, s)

-- `check_and_accept`
unfoldable pub check_and_accept :
    ReplayProtection → ℕ → Result SrtpError (Unit {0}) × ReplayProtection
unfolding accept_checked
check_and_accept s index = accept_checked index (check s index)

-- `reset`
unfoldable pub reset : ReplayProtection → ReplayProtection
reset s = record s { highest = 0; window = 0; packets_checked = 0; replays_detected = 0 }
