-- ===== src/State/Gossip/Updates/Valid.antt =====
-- The updates that the decoders of gossip/types.rs accept.
use nexus_sfu.Base.{ℕ, ◌<◌}
use nexus_sfu.State.Orswot.{Dot}
use nexus_sfu.State.Gossip.Peers.{max_actors}
use nexus_sfu.State.Gossip.Updates.{
  TrackInfo, StateUpdate, participant_added, participant_removed, track_updated, subscription_added,
  subscription_removed, relay_subscribe, relay_unsubscribe,
}

abbrev pub IsU64 : ℕ → Type 0
IsU64 x = x < 18446744073709551616

abbrev pub IsDot : Dot → Type 0
IsDot d = (d.actor_id < max_actors) × (0 < d.clock) × IsU64 d.clock

pub record IsTrackInfo (i : TrackInfo) : Type 0 where
  pub type_fits : i.track_type < 256
  pub content_fits : i.content_type < 256
  pub codec_fits : i.codec < 4294967296
  pub bitrate_fits : i.bitrate_kbps < 4294967296
  pub owner_fits : IsU64 i.owner_node

-- What a room, a track or a relay may be.
abbrev pub IsValid : StateUpdate → Type 0
IsValid (participant_added r p d) = (0 < r) × (r < 2147483648) × (0 < p) × IsU64 p × IsDot d
IsValid (participant_removed r p d) = (0 < r) × (r < 2147483648) × (0 < p) × IsU64 p × IsDot d
IsValid (track_updated t i time actor) =
    (0 < t)
    × (t < 9223372036854775808)
    × IsTrackInfo i
    × (0 < time)
    × IsU64 time
    × (actor < max_actors)
IsValid (subscription_added t p d) =
    (0 < t) × (t < 9223372036854775808) × (0 < p) × IsU64 p × IsDot d
IsValid (subscription_removed t p d) =
    (0 < t) × (t < 9223372036854775808) × (0 < p) × IsU64 p × IsDot d
IsValid (relay_subscribe t n) = (0 < t) × IsU64 t × (0 < n) × IsU64 n
IsValid (relay_unsubscribe t n) = (0 < t) × IsU64 t × (0 < n) × IsU64 n
