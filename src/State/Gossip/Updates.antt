-- ===== src/State/Gossip/Updates.antt =====
-- The state updates of crates/nexus-state/src/gossip/types.rs and their bytes. A byte is a number below
-- 256; `none` is the `None` of a decoder, or the failed assertion of an encoder.
pub mod RoundTrip
pub mod Valid
pub mod Accepted
pub mod Checked
use nexus_sfu.Base.{
  ℕ, ◌+◌, Bool, true, false, ◌||◌, Option, none, some, List, [], ◌∷◌, ◌++◌, ltb, leb, ◌==◌,
  if◌then◌else◌, length, get_or, drop,
}
use nexus_sfu.Base.Bytes.{be_u16, be_u32, be_u64, u16_bytes, u32_bytes, u64_bytes}
use nexus_sfu.State.Orswot.{Dot}
use nexus_sfu.State.Gossip.Peers.{
  SocketAddr, v4, v6, max_actors, PeerInfo, PeerState, state_byte, state_from_byte,
}

-- `TrackInfo`
pub record TrackInfo : Type 0 where
  pub track_type : ℕ
  pub content_type : ℕ
  pub codec : ℕ
  pub bitrate_kbps : ℕ
  pub owner_node : ℕ

-- `StateUpdate`
pub data StateUpdate : Type 0 where
  participant_added participant_removed : ℕ → ℕ → Dot → StateUpdate
  track_updated : ℕ → TrackInfo → ℕ → ℕ → StateUpdate
  subscription_added subscription_removed : ℕ → ℕ → Dot → StateUpdate
  relay_subscribe relay_unsubscribe : ℕ → ℕ → StateUpdate

abbrev pub max_state_update_size : ℕ
max_state_update_size = 64

-- `dot.actor_id().to_be_bytes()` and `dot.clock().to_be_bytes()`
unfoldable pub dot_bytes : Dot → List ℕ
unfolding u64_bytes
dot_bytes d = u64_bytes d.actor_id ++ u64_bytes d.clock

-- The bytes that `TrackInfo::encode` writes; `length` of them is what it returns.
unfoldable pub track_info_bytes : TrackInfo → List ℕ
unfolding u32_bytes u64_bytes
track_info_bytes i =
    i.track_type
    ∷ i.content_type
    ∷ (u32_bytes i.codec ++ (u32_bytes i.bitrate_kbps ++ u64_bytes i.owner_node))

-- The bytes that `StateUpdate::encode` writes.
unfoldable pub room_bytes : ℕ → ℕ → ℕ → Dot → List ℕ
unfolding u32_bytes u64_bytes dot_bytes
room_bytes kind room_id participant_id d =
    kind ∷ (u32_bytes room_id ++ (u64_bytes participant_id ++ dot_bytes d))

unfoldable pub subscription_bytes : ℕ → ℕ → ℕ → Dot → List ℕ
unfolding u64_bytes dot_bytes
subscription_bytes kind track_id participant_id d =
    kind ∷ (u64_bytes track_id ++ (u64_bytes participant_id ++ dot_bytes d))

unfoldable pub relay_bytes : ℕ → ℕ → ℕ → List ℕ
unfolding u64_bytes
relay_bytes kind track_id requester_node = kind ∷ (u64_bytes track_id ++ u64_bytes requester_node)

unfoldable pub update_bytes : StateUpdate → List ℕ
unfolding room_bytes subscription_bytes relay_bytes track_info_bytes u64_bytes
update_bytes (participant_added r p d) = room_bytes 0 r p d
update_bytes (participant_removed r p d) = room_bytes 1 r p d
update_bytes (track_updated track_id info timestamp actor) =
    2 ∷ (u64_bytes track_id ++ (track_info_bytes info ++ (u64_bytes timestamp ++ u64_bytes actor)))
update_bytes (subscription_added t p d) = subscription_bytes 3 t p d
update_bytes (subscription_removed t p d) = subscription_bytes 4 t p d
update_bytes (relay_subscribe t n) = relay_bytes 5 t n
update_bytes (relay_unsubscribe t n) = relay_bytes 6 t n

-- `StateUpdate::encode`: the length, and the buffer after it.
unfoldable pub encode_update : StateUpdate → List ℕ → Option (ℕ × List ℕ)
unfolding update_bytes
encode_update u buffer =
    if ltb (length buffer) max_state_update_size
    then none
    else (let bytes = update_bytes u in some (length bytes, bytes ++ drop (length bytes) buffer))

-- `read_u64_at`
unfoldable pub read_u64_at : List ℕ → ℕ → Option ℕ
unfolding be_u64
read_u64_at bytes offset =
    if ltb (length bytes) (offset + 8) then none else some (be_u64 bytes offset)

-- `decode_dot_at`
unfoldable pub checked_dot : Option ℕ → Option ℕ → Option Dot
checked_dot none clock = none
checked_dot (some actor_id) none = none
checked_dot (some actor_id) (some clock) =
    if leb max_actors actor_id
    then none
    else (if clock == 0 then none else some (record { actor_id = actor_id; clock = clock }))

unfoldable pub decode_dot_at : List ℕ → ℕ → Option Dot
unfolding checked_dot read_u64_at
decode_dot_at bytes offset = checked_dot (read_u64_at bytes offset) (read_u64_at bytes (offset + 8))

-- `decode_participant_update`, with what it makes of the fields.
unfoldable pub participant_update : Bool → ℕ → ℕ → Option Dot → Option (StateUpdate × ℕ)
participant_update is_add room_id participant_id none = none
participant_update is_add room_id participant_id (some d) =
    if room_id == 0 || ltb 2147483647 room_id || participant_id == 0
    then none
    else some (
      (if is_add
          then participant_added room_id participant_id d
          else participant_removed room_id participant_id d),
      29,
    )

unfoldable pub decode_participant_update : List ℕ → Bool → Option (StateUpdate × ℕ)
unfolding participant_update decode_dot_at be_u32 be_u64
decode_participant_update bytes is_add =
    if ltb (length bytes) 29
    then none
    else participant_update is_add (be_u32 bytes 1) (be_u64 bytes 5) (decode_dot_at bytes 13)

-- `decode_subscription_update`; the length is tested first, so the two ids are read.
unfoldable pub subscription_update : Bool → ℕ → ℕ → Option Dot → Option (StateUpdate × ℕ)
subscription_update is_add track_id participant_id none = none
subscription_update is_add track_id participant_id (some d) =
    if track_id == 0 || ltb 9223372036854775807 track_id || participant_id == 0
    then none
    else some (
      (if is_add
          then subscription_added track_id participant_id d
          else subscription_removed track_id participant_id d),
      33,
    )

unfoldable pub decode_subscription_update : List ℕ → Bool → Option (StateUpdate × ℕ)
unfolding subscription_update decode_dot_at be_u64
decode_subscription_update bytes is_add =
    if ltb (length bytes) 33
    then none
    else subscription_update is_add (be_u64 bytes 1) (be_u64 bytes 9) (decode_dot_at bytes 17)

-- `decode_relay_update`
unfoldable pub decode_relay_update : List ℕ → Bool → Option (StateUpdate × ℕ)
unfolding be_u64
decode_relay_update bytes is_subscribe =
    if ltb (length bytes) 17
    then none
    else (let track_id = be_u64 bytes 1 in
        let requester_node = be_u64 bytes 9 in
        if track_id == 0 || requester_node == 0
        then none
        else some (
          (if is_subscribe
              then relay_subscribe track_id requester_node
              else relay_unsubscribe track_id requester_node),
          17,
        ))

-- `TrackInfo::decode`
unfoldable pub decode_track_info : List ℕ → Option (TrackInfo × ℕ)
unfolding be_u32 be_u64
decode_track_info bytes =
    if ltb (length bytes) 18
    then none
    else some (
      record {
        track_type = get_or bytes 0 0;
        content_type = get_or bytes 1 0;
        codec = be_u32 bytes 2;
        bitrate_kbps = be_u32 bytes 6;
        owner_node = be_u64 bytes 10;
      },
      18,
    )

-- `decode_track_update`
unfoldable pub track_update : List ℕ → Option (TrackInfo × ℕ) → Option (StateUpdate × ℕ)
unfolding be_u64
track_update bytes none = none
track_update bytes (some (info, info_len)) =
    let track_id = be_u64 bytes 1 in
    let offset = 9 + info_len in
    let timestamp = be_u64 bytes offset in
    let actor = be_u64 bytes (offset + 8) in
    if ltb (length bytes) (offset + 16)
    then none
    else (if leb max_actors actor
        then none
        else (if track_id == 0 || ltb 9223372036854775807 track_id || timestamp == 0
            then none
            else some (track_updated track_id info timestamp actor, offset + 16)))

unfoldable pub decode_track_update : List ℕ → Option (StateUpdate × ℕ)
unfolding track_update decode_track_info
decode_track_update bytes =
    if ltb (length bytes) 30 then none else track_update bytes (decode_track_info (drop 9 bytes))

-- `StateUpdate::decode`
unfoldable pub decode_kind : ℕ → List ℕ → Option (StateUpdate × ℕ)
unfolding decode_participant_update decode_track_update decode_subscription_update
    decode_relay_update
decode_kind kind bytes =
    if kind == 0
    then decode_participant_update bytes true
    else (if kind == 1
        then decode_participant_update bytes false
        else (if kind == 2
            then decode_track_update bytes
            else (if kind == 3
                then decode_subscription_update bytes true
                else (if kind == 4
                    then decode_subscription_update bytes false
                    else (if kind == 5
                        then decode_relay_update bytes true
                        else (if kind == 6 then decode_relay_update bytes false else none))))))

unfoldable pub decode_update : List ℕ → Option (StateUpdate × ℕ)
unfolding decode_kind
decode_update [] = none
decode_update (kind ∷ bytes) = decode_kind kind (kind ∷ bytes)
