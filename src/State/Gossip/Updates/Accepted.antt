-- ===== src/State/Gossip/Updates/Accepted.antt =====
-- What the decoder of gossip/types.rs lets through.
use nexus_sfu.Base.{
  ℕ, zero, suc, ◌+◌, ◌<◌, ◌≡◌, refl, ap, subst, Bool, true, false, ◌||◌, Option, none, some, List,
  [], ◌∷◌, arith, ltb, leb, ◌==◌, if◌then◌else◌, length, drop, some_eq,
}
use nexus_sfu.Base.Bytes.{be_u32, be_u64, IsBytes, get_or-lt}
use nexus_sfu.State.Orswot.{Dot}
use nexus_sfu.State.Gossip.Peers.{max_actors}
use nexus_sfu.State.Gossip.Updates.{
  TrackInfo, StateUpdate, participant_added, participant_removed, track_updated, subscription_added,
  subscription_removed, relay_subscribe, relay_unsubscribe, read_u64_at, checked_dot, decode_dot_at,
  participant_update, decode_participant_update, subscription_update, decode_subscription_update,
  decode_relay_update, decode_track_info, track_update, decode_track_update, decode_kind,
  decode_update,
}
use nexus_sfu.State.Gossip.Updates.Valid.{IsU64, IsDot, IsTrackInfo, IsValid}

be_u32-lt : (bytes : List ℕ) (at : ℕ) → IsBytes bytes → be_u32 bytes at < 4294967296
unfolding be_u32
be_u32-lt bytes at h = omega (
  arith,
  get_or-lt bytes at h,
  get_or-lt bytes (at + 1) h,
  get_or-lt bytes (at + 2) h,
  get_or-lt bytes (at + 3) h,
)

be_u64-lt : (bytes : List ℕ) (at : ℕ) → IsBytes bytes → IsU64 (be_u64 bytes at)
unfolding be_u64
be_u64-lt bytes at h = omega (arith, be_u32-lt bytes at h, be_u32-lt bytes (at + 4) h)

drop-IsBytes : (n : ℕ) (bytes : List ℕ) → IsBytes bytes → IsBytes (drop n bytes)
drop-IsBytes zero bytes h = h
drop-IsBytes (suc n) [] h = tt
drop-IsBytes (suc n) (b ∷ bytes) h = drop-IsBytes n bytes h.1

decode_dot_at-IsDot :
    (bytes : List ℕ) (offset : ℕ) (d : Dot)
    → IsBytes bytes
    → decode_dot_at bytes offset ≡ some d
    → IsDot d
unfolding decode_dot_at checked_dot read_u64_at
decode_dot_at-IsDot bytes offset d v h = ground (arith, be_u64-lt bytes (offset + 8) v)

-- An update is let through by its test.
accepted :
    (test : Bool) (x y : StateUpdate × ℕ)
    → (if test then none else some x) ≡ some y
    → (test ≡ false) × (x.0 ≡ y.0)
accepted true x y h = cc
accepted false x y h = (refl, ap (λ p. p.0) (some_eq h))

-- The length test is passed.
past {ℓ} :
    {A : Type ℓ} (test : Bool) (x : Option A) (y : A)
    → (if test then none else x) ≡ some y
    → x ≡ some y
past true x y h = cc
past false x y h = h

participant_update-IsValid :
    (is_add : Bool) (r p : ℕ) (dd : Option Dot) (u : StateUpdate) (n : ℕ)
    → IsU64 p
    → ((d : Dot) → dd ≡ some d → IsDot d)
    → participant_update is_add r p dd ≡ some (u, n)
    → IsValid u
unfolding participant_update
participant_update-IsValid is_add r p none u n hp hd h = cc
participant_update-IsValid true r p (some d) u n hp hd h =
    let (test, e) =
      accepted (r == 0 || ltb 2147483647 r || p == 0) (participant_added r p d, 29) (u, n) h in
    subst IsValid e (ground arith, ground arith, ground arith, hp, hd d refl)
participant_update-IsValid false r p (some d) u n hp hd h =
    let (test, e) =
      accepted (r == 0 || ltb 2147483647 r || p == 0) (participant_removed r p d, 29) (u, n) h in
    subst IsValid e (ground arith, ground arith, ground arith, hp, hd d refl)

subscription_update-IsValid :
    (is_add : Bool) (r p : ℕ) (dd : Option Dot) (u : StateUpdate) (n : ℕ)
    → IsU64 p
    → ((d : Dot) → dd ≡ some d → IsDot d)
    → subscription_update is_add r p dd ≡ some (u, n)
    → IsValid u
unfolding subscription_update
subscription_update-IsValid is_add r p none u n hp hd h = cc
subscription_update-IsValid true r p (some d) u n hp hd h =
    let (test, e) =
      accepted (r == 0 || ltb 9223372036854775807 r || p == 0) (subscription_added r p d, 33) (u, n)
        h in
    subst IsValid e (ground arith, ground arith, ground arith, hp, hd d refl)
subscription_update-IsValid false r p (some d) u n hp hd h =
    let (test, e) =
      accepted (r == 0 || ltb 9223372036854775807 r || p == 0) (subscription_removed r p d, 33)
        (u, n) h in
    subst IsValid e (ground arith, ground arith, ground arith, hp, hd d refl)

relay_update-IsValid :
    (bytes : List ℕ) (is_subscribe : Bool) (u : StateUpdate) (n : ℕ)
    → IsBytes bytes
    → decode_relay_update bytes is_subscribe ≡ some (u, n)
    → IsValid u
unfolding decode_relay_update
relay_update-IsValid bytes true u n v h =
    let t = be_u64 bytes 1 in
    let node = be_u64 bytes 9 in
    let (test, e) =
      accepted (t == 0 || node == 0) (relay_subscribe t node, 17) (u, n)
        (past (ltb (length bytes) 17) _ (u, n) h) in
    subst IsValid e (ground arith, be_u64-lt bytes 1 v, ground arith, be_u64-lt bytes 9 v)
relay_update-IsValid bytes false u n v h =
    let t = be_u64 bytes 1 in
    let node = be_u64 bytes 9 in
    let (test, e) =
      accepted (t == 0 || node == 0) (relay_unsubscribe t node, 17) (u, n)
        (past (ltb (length bytes) 17) _ (u, n) h) in
    subst IsValid e (ground arith, be_u64-lt bytes 1 v, ground arith, be_u64-lt bytes 9 v)

decode_track_info-IsTrackInfo :
    (bytes : List ℕ) (i : TrackInfo) (n : ℕ)
    → IsBytes bytes
    → decode_track_info bytes ≡ some (i, n)
    → IsTrackInfo i
unfolding decode_track_info
decode_track_info-IsTrackInfo bytes i n v h =
    subst IsTrackInfo (ap (λ p. p.0) (some_eq (past (ltb (length bytes) 18) _ (i, n) h))) (record {
      type_fits = get_or-lt bytes 0 v;
      content_fits = get_or-lt bytes 1 v;
      codec_fits = be_u32-lt bytes 2 v;
      bitrate_fits = be_u32-lt bytes 6 v;
      owner_fits = be_u64-lt bytes 10 v;
    })

track_update-IsValid :
    (bytes : List ℕ) (found : Option (TrackInfo × ℕ)) (u : StateUpdate) (n : ℕ)
    → IsBytes bytes
    → ((i : TrackInfo) (k : ℕ) → found ≡ some (i, k) → IsTrackInfo i)
    → track_update bytes found ≡ some (u, n)
    → IsValid u
unfolding track_update
track_update-IsValid bytes none u n v hi h = cc
track_update-IsValid bytes (some (i, k)) u n v hi h =
    let t = be_u64 bytes 1 in
    let time = be_u64 bytes (9 + k) in
    let actor = be_u64 bytes (9 + k + 8) in
    let inner = past (ltb (length bytes) (9 + k + 16)) _ (u, n) h in
    let (test, e) =
      accepted (t == 0 || ltb 9223372036854775807 t || time == 0)
        (track_updated t i time actor, 9 + k + 16) (u, n)
        (past (leb max_actors actor) _ (u, n) inner) in
    let small : actor < max_actors = ground arith in
    subst IsValid e
      (ground arith, ground arith, hi i k refl, ground arith, be_u64-lt bytes (9 + k) v, small)

either :
    (test : Bool) (x y : Option (StateUpdate × ℕ)) (u : StateUpdate) (n : ℕ)
    → (x ≡ some (u, n) → IsValid u)
    → (y ≡ some (u, n) → IsValid u)
    → (if test then x else y) ≡ some (u, n)
    → IsValid u
either true x y u n f g h = f h
either false x y u n f g h = g h

participant-IsValid :
    (bytes : List ℕ) (is_add : Bool) (u : StateUpdate) (n : ℕ)
    → IsBytes bytes
    → decode_participant_update bytes is_add ≡ some (u, n)
    → IsValid u
unfolding decode_participant_update
participant-IsValid bytes is_add u n v h =
    participant_update-IsValid is_add (be_u32 bytes 1) (be_u64 bytes 5) (decode_dot_at bytes 13) u n
      (be_u64-lt bytes 5 v) (λ d. decode_dot_at-IsDot bytes 13 d v)
      (past (ltb (length bytes) 29) _ (u, n) h)

subscription-IsValid :
    (bytes : List ℕ) (is_add : Bool) (u : StateUpdate) (n : ℕ)
    → IsBytes bytes
    → decode_subscription_update bytes is_add ≡ some (u, n)
    → IsValid u
unfolding decode_subscription_update
subscription-IsValid bytes is_add u n v h =
    subscription_update-IsValid is_add (be_u64 bytes 1) (be_u64 bytes 9) (decode_dot_at bytes 17) u
      n (be_u64-lt bytes 9 v) (λ d. decode_dot_at-IsDot bytes 17 d v)
      (past (ltb (length bytes) 33) _ (u, n) h)

track-IsValid :
    (bytes : List ℕ) (u : StateUpdate) (n : ℕ)
    → IsBytes bytes
    → decode_track_update bytes ≡ some (u, n)
    → IsValid u
unfolding decode_track_update
track-IsValid bytes u n v h =
    track_update-IsValid bytes (decode_track_info (drop 9 bytes)) u n v
      (λ i k. decode_track_info-IsTrackInfo (drop 9 bytes) i k (drop-IsBytes 9 bytes v))
      (past (ltb (length bytes) 30) _ (u, n) h)

decode_kind-IsValid :
    (kind : ℕ) (bytes : List ℕ) (u : StateUpdate) (n : ℕ)
    → IsBytes bytes
    → decode_kind kind bytes ≡ some (u, n)
    → IsValid u
unfolding decode_kind
decode_kind-IsValid kind bytes u n v =
    either (kind == 0) _ _ u n (participant-IsValid bytes true u n v) (
      either (kind == 1) _ _ u n (participant-IsValid bytes false u n v) (
        either (kind == 2) _ _ u n (track-IsValid bytes u n v) (
          either (kind == 3) _ _ u n (subscription-IsValid bytes true u n v) (
            either (kind == 4) _ _ u n (subscription-IsValid bytes false u n v) (
              either (kind == 5) _ _ u n (relay_update-IsValid bytes true u n v)
                (either (kind == 6) _ _ u n (relay_update-IsValid bytes false u n v) (λ h. cc)))))))

pub decode_update-IsValid :
    (bytes : List ℕ) (u : StateUpdate) (n : ℕ)
    → IsBytes bytes
    → decode_update bytes ≡ some (u, n)
    → IsValid u
unfolding decode_update
decode_update-IsValid [] u n v h = cc
decode_update-IsValid (kind ∷ bytes) u n v h = decode_kind-IsValid kind (kind ∷ bytes) u n v h
