-- ===== src/State/Gossip/Updates/Checked.antt =====
-- What the decoder of gossip/types.rs lets through.
use nexus_sfu.Base.{
  ℕ, ◌/◌, ◌≡◌, sym, ap, ◌∙◌, ◌↔◌, some, List, [], ◌∷◌, ◌++◌, append-nil, arith, length,
}
use nexus_sfu.Base.Bytes.{IsBytes, u32_bytes, u64_bytes}
use nexus_sfu.State.Gossip.Updates.{
  TrackInfo, StateUpdate, participant_added, participant_removed, track_updated, subscription_added,
  subscription_removed, relay_subscribe, relay_unsubscribe, decode_update, update_bytes, room_bytes,
  subscription_bytes, relay_bytes, track_info_bytes, dot_bytes,
}
use nexus_sfu.State.Gossip.Updates.RoundTrip.{decode_update-update_bytes}
use nexus_sfu.State.Gossip.Updates.Valid.{IsTrackInfo, IsValid}
use nexus_sfu.State.Gossip.Updates.Accepted.{decode_update-IsValid}

append-IsBytes : (xs ys : List ℕ) → IsBytes xs → IsBytes ys → IsBytes (xs ++ ys)
append-IsBytes [] ys h g = g
append-IsBytes (x ∷ xs) ys (hx, h) g = (hx, append-IsBytes xs ys h g)

u32_bytes-IsBytes : (x : ℕ) → IsBytes (u32_bytes x)
unfolding u32_bytes
u32_bytes-IsBytes x = (omega arith, (omega arith, (omega arith, (omega arith, tt))))

u64_bytes-IsBytes : (x : ℕ) → IsBytes (u64_bytes x)
unfolding u64_bytes
u64_bytes-IsBytes x =
    append-IsBytes (u32_bytes (x / 4294967296)) (u32_bytes x) (u32_bytes-IsBytes (x / 4294967296))
      (u32_bytes-IsBytes x)

u64s-IsBytes : (x : ℕ) (rest : List ℕ) → IsBytes rest → IsBytes (u64_bytes x ++ rest)
u64s-IsBytes x rest h = append-IsBytes (u64_bytes x) rest (u64_bytes-IsBytes x) h

track_info_bytes-IsBytes : (i : TrackInfo) → IsTrackInfo i → IsBytes (track_info_bytes i)
unfolding track_info_bytes
track_info_bytes-IsBytes i h = (
  h.type_fits,
  (
    h.content_fits,
    append-IsBytes (u32_bytes i.codec) (u32_bytes i.bitrate_kbps ++ u64_bytes i.owner_node)
        (u32_bytes-IsBytes i.codec)
        (append-IsBytes (u32_bytes i.bitrate_kbps) (u64_bytes i.owner_node)
          (u32_bytes-IsBytes i.bitrate_kbps) (u64_bytes-IsBytes i.owner_node)),
  ),
)

update_bytes-IsBytes : (u : StateUpdate) → IsValid u → IsBytes (update_bytes u)
unfolding update_bytes room_bytes subscription_bytes relay_bytes dot_bytes
update_bytes-IsBytes (participant_added r p d) v = (
  omega arith,
  append-IsBytes (u32_bytes r) (u64_bytes p ++ dot_bytes d) (u32_bytes-IsBytes r) (
      u64s-IsBytes p (dot_bytes d)
        (u64s-IsBytes d.actor_id (u64_bytes d.clock) (u64_bytes-IsBytes d.clock))),
)
update_bytes-IsBytes (participant_removed r p d) v = (
  omega arith,
  append-IsBytes (u32_bytes r) (u64_bytes p ++ dot_bytes d) (u32_bytes-IsBytes r) (
      u64s-IsBytes p (dot_bytes d)
        (u64s-IsBytes d.actor_id (u64_bytes d.clock) (u64_bytes-IsBytes d.clock))),
)
update_bytes-IsBytes (track_updated t i time actor) (ht, hm, hi, hs, hn, ha) = (
  omega arith,
  u64s-IsBytes t (track_info_bytes i ++ (u64_bytes time ++ u64_bytes actor)) (
      append-IsBytes (track_info_bytes i) (u64_bytes time ++ u64_bytes actor)
        (track_info_bytes-IsBytes i hi)
        (u64s-IsBytes time (u64_bytes actor) (u64_bytes-IsBytes actor))),
)
update_bytes-IsBytes (subscription_added t p d) v = (
  omega arith,
  u64s-IsBytes t (u64_bytes p ++ dot_bytes d) (
      u64s-IsBytes p (dot_bytes d)
        (u64s-IsBytes d.actor_id (u64_bytes d.clock) (u64_bytes-IsBytes d.clock))),
)
update_bytes-IsBytes (subscription_removed t p d) v = (
  omega arith,
  u64s-IsBytes t (u64_bytes p ++ dot_bytes d) (
      u64s-IsBytes p (dot_bytes d)
        (u64s-IsBytes d.actor_id (u64_bytes d.clock) (u64_bytes-IsBytes d.clock))),
)
update_bytes-IsBytes (relay_subscribe t n) v =
    (omega arith, u64s-IsBytes t (u64_bytes n) (u64_bytes-IsBytes n))
update_bytes-IsBytes (relay_unsubscribe t n) v =
    (omega arith, u64s-IsBytes t (u64_bytes n) (u64_bytes-IsBytes n))

-- The updates that are accepted, from some bytes, are exactly those with a room in 1 to 2^31 - 1, a track
-- in 1 to 2^63 - 1, or for a relay any positive one of 64 bits, a positive participant and relay node, a dot
-- with an actor below 256 and a positive clock, and, for a track, a positive time and an actor below 256:
-- neither a relay's node nor the owner of a track need be an actor.
pub accepted-IsValid :
    (u : StateUpdate)
    → ((bytes : List ℕ) × (n : ℕ) × IsBytes bytes × (decode_update bytes ≡ some (u, n))) ↔ IsValid u
accepted-IsValid u = (
  λ h. let (bytes, n, v, e) = h in decode_update-IsValid bytes u n v e,
  λ v. (
    update_bytes u,
    length (update_bytes u),
    update_bytes-IsBytes u v,
    ap decode_update (sym (append-nil (update_bytes u))) ∙ decode_update-update_bytes u [] v,
  ),
)
