-- ===== src/Dataplane/Subscription.antt =====
-- The subscription of crates/nexus-dataplane/src/subscription.rs, the maps of command.rs that it
-- holds, and the generator of rng.rs.
use nexus_sfu.Base.{
  ℕ, ◌+◌, ◌*◌, ◌/◌, ◌%◌, ◌^◌, bit_xor, Bool, true, false, ◌||◌, Option, none, some, List, [], ◌∷◌,
  ◌++◌, ltb, ◌==◌, if◌then◌else◌, length,
}

-- `PtMap`: the first `len` pairs, at most two.
pub record PtMap : Type 0 where
  pub pairs : List (ℕ × ℕ)

abbrev pub pt_map_capacity : ℕ
pt_map_capacity = 2

unfoldable pub find_pt : List (ℕ × ℕ) → ℕ → Option ℕ
find_pt [] pt = none
find_pt ((from, to) ∷ pairs) pt = if from == pt then some to else find_pt pairs pt

-- `PtMap::map`
unfoldable pub map_pt : PtMap → ℕ → Option ℕ
unfolding find_pt
map_pt m pt = find_pt m.pairs pt

abbrev pub is_some {ℓ} : {A : Type ℓ} → Option A → Bool
is_some none = false
is_some (some a) = true

-- The loop of `PtMap::new`, over the pairs that are left.
unfoldable pub add_pairs : PtMap → List (ℕ × ℕ) → Option PtMap
unfolding map_pt
add_pairs m [] = some m
add_pairs m ((from, to) ∷ pairs) =
    let rest = add_pairs (record { pairs = m.pairs ++ ((from, to) ∷ []) }) pairs in
    if ltb 127 from || ltb 127 to || is_some (map_pt m from) then none else rest

-- `PtMap::new`
unfoldable pub new_pt_map : List (ℕ × ℕ) → Option PtMap
unfolding add_pairs
new_pt_map pairs =
    if ltb pt_map_capacity (length pairs) then none else add_pairs (record { pairs = [] }) pairs

-- `ExtMap`: `map` has 15 entries.
pub record ExtMap : Type 0 where
  pub map : List ℕ
  pub mid : ℕ

-- `RewriteState`; an instant is a number of nanoseconds.
pub record RewriteState : Type 0 where
  pub out_ssrc : ℕ
  pub seq_offset : ℕ
  pub ts_offset : ℕ
  pub started : Bool
  pub last_out_seq : ℕ
  pub last_out_ts : ℕ
  pub last_out_at : Option ℕ
  pub last_in_seq : ℕ
  pub layer : ℕ

-- `RewriteState::new`
abbrev pub new_rewrite_state : ℕ → RewriteState
new_rewrite_state out_ssrc = record {
  out_ssrc = out_ssrc;
  seq_offset = 0;
  ts_offset = 0;
  started = false;
  last_out_seq = 0;
  last_out_ts = 0;
  last_out_at = none;
  last_in_seq = 0;
  layer = 0;
}

-- `Subscription`
pub record Subscription : Type 0 where
  pub id : ℕ
  pub session : ℕ
  pub track : ℕ
  pub rewrite : RewriteState
  pub ext_map : ExtMap
  pub pub_mid : ℕ
  pub clock_rate : ℕ
  pub pt_map : PtMap
  pub mid : List ℕ
  pub sent_packets : ℕ
  pub sent_octets : ℕ

-- `Rng::next_u64`: SplitMix64, the number and the state after it.
unfoldable pub next_u64 : ℕ → ℕ × ℕ
next_u64 seed =
    let s = (seed + 0x9E37_79B9_7F4A_7C15) % 2 ^ 64 in
    let z = bit_xor s (s / 2 ^ 30) * 0xBF58_476D_1CE4_E5B9 % 2 ^ 64 in
    let y = bit_xor z (z / 2 ^ 27) * 0x94D0_49BB_1331_11EB % 2 ^ 64 in (bit_xor y (y / 2 ^ 31), s)
