-- ===== src/Srtp/Index.antt =====
-- srtp/index.rs: the rollover counter of one SSRC and the estimate of a packet's index.
pub mod Estimate
use nexus_sfu.Base.{
  ℕ, ◌+◌, ◌-◌, ◌%◌, Bool, true, false, ◌&&◌, ltb, leb, ◌==◌, if◌then◌else◌, Result, ok, err,
}
use nexus_sfu.Srtp.Types.{SrtpError, roc_overflow, packet_index}

-- `RocState`; the counter is a u32, the sequence number a u16.
pub record RocState : Type 0 where
  pub roc : ℕ
  pub highest_seq : ℕ
  pub initialized : Bool

abbrev pub u32_max : ℕ
u32_max = 4294967295

-- `RocState::new`
abbrev pub new : RocState
new = record { roc = 0; highest_seq = 0; initialized = false }

-- `estimate_index`. `saturating_sub` is the subtraction of ℕ.
unfoldable pub estimate_index : RocState → ℕ → Result SrtpError ℕ
estimate_index s seq =
    if s.initialized
    then (if ltb s.highest_seq 32768
        then (if ltb s.highest_seq seq && ltb 32768 (seq - s.highest_seq)
            then ok (packet_index (s.roc - 1) seq)
            else ok (packet_index s.roc seq))
        else (if ltb seq (s.highest_seq - 32768)
            then (if s.roc == u32_max then err roc_overflow else ok (packet_index (s.roc + 1) seq))
            else ok (packet_index s.roc seq)))
    else ok (packet_index 0 seq)

-- `update`: the result, and the state after it.
unfoldable pub update : RocState → ℕ → Result SrtpError (Unit {0}) × RocState
update s seq =
    if s.initialized
    then (if ltb s.highest_seq 32768
        then (if leb ((seq + 65536 - s.highest_seq) % 65536) 32768 && ltb s.highest_seq seq
            then (ok tt, record s { highest_seq = seq })
            else (ok tt, s))
        else (if ltb seq (s.highest_seq - 32768)
            then (if s.roc == u32_max
                then (err roc_overflow, s)
                else (ok tt, record s { roc = s.roc + 1; highest_seq = seq }))
            else (if ltb s.highest_seq seq
                then (ok tt, record s { highest_seq = seq })
                else (ok tt, s))))
    else (ok tt, record s { highest_seq = seq; initialized = true })
