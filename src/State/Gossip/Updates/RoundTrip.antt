-- ===== src/State/Gossip/Updates/RoundTrip.antt =====
-- The updates of gossip/types.rs, written and read back.
use nexus_sfu.Base.{
  ℕ, ◌+◌, ◌≤◌, ◌<◌, ◌≡◌, refl, ap, Bool, true, false, Option, none, some, List, ◌++◌, arith, ltb,
  if◌then◌else◌, length, some_eq,
}
use nexus_sfu.Base.Bytes.{be_u32, be_u64, u32_bytes, u64_bytes, be_u32-u32_bytes, be_u64-u64_bytes}
use nexus_sfu.State.Orswot.{Dot}
use nexus_sfu.State.Gossip.Peers.{max_actors}
use nexus_sfu.State.Gossip.Updates.{
  TrackInfo, StateUpdate, participant_added, participant_removed, track_updated, subscription_added,
  subscription_removed, relay_subscribe, relay_unsubscribe, dot_bytes, track_info_bytes, room_bytes,
  subscription_bytes, relay_bytes, update_bytes, read_u64_at, checked_dot, decode_dot_at,
  participant_update, decode_participant_update, subscription_update, decode_subscription_update,
  decode_relay_update, decode_track_info, track_update, decode_track_update, decode_update,
}
use nexus_sfu.State.Gossip.Updates.Valid.{IsU64, IsDot, IsTrackInfo, IsValid}

-- The dot's checks pass.
decode_dot_at-ok :
    (bytes : List ℕ) (offset : ℕ) (d : Dot)
    → offset + 16 ≤ length bytes
    → be_u64 bytes offset ≡ d.actor_id
    → be_u64 bytes (offset + 8) ≡ d.clock
    → IsDot d
    → decode_dot_at bytes offset ≡ some d
unfolding decode_dot_at checked_dot read_u64_at
decode_dot_at-ok bytes offset d room ea ec h = ground arith

-- The length test passes.
pub passes {ℓ} :
    {A : Type ℓ} (n m k : ℕ) (x y : Option A)
    → n ≡ m + k
    → x ≡ y
    → (if ltb n m then none else x) ≡ y
passes n m k x y h e = rw e (ground arith)

participant_update-ok :
    (is_add : Bool) (r p rr pp : ℕ) (d : Dot) (dd : Option Dot)
    → rr ≡ r
    → pp ≡ p
    → dd ≡ some d
    → (0 < r) × (r < 2147483648) × (0 < p)
    → participant_update is_add rr pp dd
      ≡ some ((if is_add then participant_added r p d else participant_removed r p d), 29)
unfolding participant_update
participant_update-ok is_add r p rr pp d none er ep ed h = cc
participant_update-ok is_add r p rr pp d (some dd) er ep ed h = ground arith

decode-room_bytes :
    (kind r p : ℕ) (d : Dot) (rest : List ℕ) (is_add : Bool)
    → (0 < r) × (r < 2147483648) × (0 < p) × IsU64 p × IsDot d
    → decode_participant_update (room_bytes kind r p d ++ rest) is_add
      ≡ some ((if is_add then participant_added r p d else participant_removed r p d), 29)
unfolding decode_participant_update room_bytes dot_bytes u32_bytes u64_bytes be_u32 be_u64
decode-room_bytes kind r p d rest is_add (r0, r1, p0, p1, hd) =
    let bytes = room_bytes kind r p d ++ rest in
    let dot =
      decode_dot_at-ok bytes 13 d (omega arith)
        (be_u64-u64_bytes d.actor_id (u64_bytes d.clock ++ rest) (omega arith))
        (be_u64-u64_bytes d.clock rest hd.2) hd in
    passes (length bytes) 29 (length rest) _ _ (omega arith) (
      participant_update-ok is_add r p _ _ d _
        (be_u32-u32_bytes r (u64_bytes p ++ (dot_bytes d ++ rest)) (omega arith))
        (be_u64-u64_bytes p (dot_bytes d ++ rest) p1) dot (r0, r1, p0))

subscription_update-ok :
    (is_add : Bool) (r p rr pp : ℕ) (d : Dot) (dd : Option Dot)
    → rr ≡ r
    → pp ≡ p
    → dd ≡ some d
    → (0 < r) × (r < 9223372036854775808) × (0 < p)
    → subscription_update is_add rr pp dd
      ≡ some ((if is_add then subscription_added r p d else subscription_removed r p d), 33)
unfolding subscription_update
subscription_update-ok is_add r p rr pp d none er ep ed h = cc
subscription_update-ok is_add r p rr pp d (some dd) er ep ed h = ground arith

decode-subscription_bytes :
    (kind r p : ℕ) (d : Dot) (rest : List ℕ) (is_add : Bool)
    → (0 < r) × (r < 9223372036854775808) × (0 < p) × IsU64 p × IsDot d
    → decode_subscription_update (subscription_bytes kind r p d ++ rest) is_add
      ≡ some ((if is_add then subscription_added r p d else subscription_removed r p d), 33)
unfolding decode_subscription_update subscription_bytes dot_bytes u32_bytes u64_bytes be_u32 be_u64
decode-subscription_bytes kind r p d rest is_add (r0, r1, p0, p1, hd) =
    let bytes = subscription_bytes kind r p d ++ rest in
    let dot =
      decode_dot_at-ok bytes 17 d (omega arith)
        (be_u64-u64_bytes d.actor_id (u64_bytes d.clock ++ rest) (omega arith))
        (be_u64-u64_bytes d.clock rest hd.2) hd in
    passes (length bytes) 33 (length rest) _ _ (omega arith) (
      subscription_update-ok is_add r p _ _ d _
        (be_u64-u64_bytes r (u64_bytes p ++ (dot_bytes d ++ rest)) (omega arith))
        (be_u64-u64_bytes p (dot_bytes d ++ rest) p1) dot (r0, r1, p0))

decode-relay_bytes :
    (kind t n : ℕ) (rest : List ℕ) (is_subscribe : Bool)
    → (0 < t) × IsU64 t × (0 < n) × IsU64 n
    → decode_relay_update (relay_bytes kind t n ++ rest) is_subscribe
      ≡ some ((if is_subscribe then relay_subscribe t n else relay_unsubscribe t n), 17)
unfolding decode_relay_update relay_bytes u32_bytes u64_bytes be_u32 be_u64
decode-relay_bytes kind t n rest is_subscribe (t0, t1, n0, n1) =
    let bytes = relay_bytes kind t n ++ rest in
    let et = be_u64-u64_bytes t (u64_bytes n ++ rest) t1 in
    let en = be_u64-u64_bytes n rest n1 in
    passes (length bytes) 17 (length rest) _ _ (omega arith) (rw (et, en) (ground arith))

decode-track_info_bytes :
    (i : TrackInfo) (rest : List ℕ)
    → IsTrackInfo i
    → decode_track_info (track_info_bytes i ++ rest) ≡ some (i, 18)
unfolding decode_track_info track_info_bytes u32_bytes u64_bytes be_u32 be_u64
decode-track_info_bytes i rest h =
    let bytes = track_info_bytes i ++ rest in
    let ec =
      be_u32-u32_bytes i.codec (u32_bytes i.bitrate_kbps ++ (u64_bytes i.owner_node ++ rest))
        h.codec_fits in
    let eb = be_u32-u32_bytes i.bitrate_kbps (u64_bytes i.owner_node ++ rest) h.bitrate_fits in
    let eo = be_u64-u64_bytes i.owner_node rest h.owner_fits in
    passes (length bytes) 18 (length rest) _ _ (omega arith) (rw (ec, eb, eo) refl)

track_update-ok :
    (bytes : List ℕ) (t time actor : ℕ) (i : TrackInfo) (found : Option (TrackInfo × ℕ))
    → found ≡ some (i, 18)
    → 43 ≤ length bytes
    → be_u64 bytes 1 ≡ t
    → be_u64 bytes 27 ≡ time
    → be_u64 bytes 35 ≡ actor
    → (0 < t) × (t < 9223372036854775808) × (0 < time) × (actor < max_actors)
    → track_update bytes found ≡ some (track_updated t i time actor, 43)
unfolding track_update
track_update-ok bytes t time actor i none e room et em ea h = cc
track_update-ok bytes t time actor i (some (j, n)) e room et em ea h =
    let same = some_eq e in
    let info : j ≡ i = ap (λ p. p.0) same in
    let size : n ≡ 18 = ap (λ p. p.1) same in rw (info, size) (ground arith)

decode-track_bytes :
    (t time actor : ℕ) (i : TrackInfo) (rest : List ℕ)
    → IsValid (track_updated t i time actor)
    → decode_track_update (update_bytes (track_updated t i time actor) ++ rest)
      ≡ some (track_updated t i time actor, 43)
unfolding decode_track_update update_bytes track_info_bytes u32_bytes u64_bytes be_u32 be_u64
decode-track_bytes t time actor i rest (t0, t1, hi, m0, m1, ha) =
    let bytes = update_bytes (track_updated t i time actor) ++ rest in
    let after = u64_bytes time ++ (u64_bytes actor ++ rest) in
    passes (length bytes) 30 (13 + length rest) _ _ (omega arith) (
      track_update-ok bytes t time actor i _ (decode-track_info_bytes i after hi) (omega arith)
        (be_u64-u64_bytes t (track_info_bytes i ++ after) (omega arith))
        (be_u64-u64_bytes time (u64_bytes actor ++ rest) m1)
        (be_u64-u64_bytes actor rest (omega arith)) (t0, t1, m0, ha))

-- Every valid update is read back from its bytes, and from no more of them, whatever comes after.
pub decode_update-update_bytes :
    (u : StateUpdate) (rest : List ℕ)
    → IsValid u
    → decode_update (update_bytes u ++ rest) ≡ some (u, length (update_bytes u))
unfolding decode_update update_bytes
decode_update-update_bytes (participant_added r p d) rest v = decode-room_bytes 0 r p d rest true v
decode_update-update_bytes (participant_removed r p d) rest v =
    decode-room_bytes 1 r p d rest false v
decode_update-update_bytes (track_updated t i time actor) rest v =
    decode-track_bytes t time actor i rest v
decode_update-update_bytes (subscription_added t p d) rest v =
    decode-subscription_bytes 3 t p d rest true v
decode_update-update_bytes (subscription_removed t p d) rest v =
    decode-subscription_bytes 4 t p d rest false v
decode_update-update_bytes (relay_subscribe t n) rest v = decode-relay_bytes 5 t n rest true v
decode_update-update_bytes (relay_unsubscribe t n) rest v = decode-relay_bytes 6 t n rest false v

-- No update takes more than 43 bytes, `MAX_ENCODED_UPDATE_LEN`.
pub length-update_bytes : (u : StateUpdate) → length (update_bytes u) ≤ 43
unfolding update_bytes
length-update_bytes (participant_added r p d) = omega arith
length-update_bytes (participant_removed r p d) = omega arith
length-update_bytes (track_updated t i time actor) = omega arith
length-update_bytes (subscription_added t p d) = omega arith
length-update_bytes (subscription_removed t p d) = omega arith
length-update_bytes (relay_subscribe t n) = omega arith
length-update_bytes (relay_unsubscribe t n) = omega arith
