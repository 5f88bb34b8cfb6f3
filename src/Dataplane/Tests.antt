-- ===== src/Dataplane/Tests.antt =====
-- The data plane's rewrite on concrete packets, and its theorems there.
mod Buffers
mod Reports
use nexus_sfu.Base.{
  ℕ, zero, suc, ◌+◌, ◌≤◌, ◌<◌, ◌≡◌, refl, subst, true, false, some, List, [], ◌∷◌, ◌++◌, map, arith,
  length, get_or, replicate, some_eq, position, ok,
}
use nexus_sfu.Media.RtpHeader.{RtpHeader, parse, extension_end}
use nexus_sfu.Dataplane.Ext.{
  Element, start, elements, all_elements, collect, next, skip_padding, max_elements,
}
use nexus_sfu.Dataplane.Ext.Encode.{encode, elements-encode}
use nexus_sfu.Dataplane.Ext.Total.{collect-enough}
use nexus_sfu.Dataplane.Subscription.{
  Subscription, RewriteState, new_rewrite_state, map_pt, next_u64,
}
use nexus_sfu.Dataplane.Rewrite.{offsets}
use nexus_sfu.Dataplane.Rewrite.Write.{Rewritten, rewrite, target_id, fixed_bytes}
use nexus_sfu.Dataplane.Rewrite.Numbering.{IsAligned, advance_of, commit-IsAligned, Commits}
use nexus_sfu.Dataplane.Rewrite.Stream.{
  Forwarded, forward, forward-received, first_number, later_numbers, indices,
}
use nexus_sfu.Dataplane.Rewrite.Output.{packet_for}
use nexus_sfu.Dataplane.Rewrite.Block.{extension_bytes}
use nexus_sfu.Dataplane.Rewrite.Readback.{mapped, IsExtMap}
use nexus_sfu.Dataplane.Rewrite.Expected.{assigned_type}
use nexus_sfu.Dataplane.Rewrite.Received.{Delivers, rewrite-Delivers, rewritten-elements}
use nexus_sfu.Base.Bytes.{be_u16, be_u32, IsBytes, write_at, u16_bytes, u32_bytes}
use nexus_sfu.Srtp.Index.{new}
use nexus_sfu.Srtp.Index.Estimate.{receive}

-- A packet with a mid (id 1), an audio level (id 2) and an orientation (id 3).
abbrev packet : List ℕ
packet =
    0x90 ∷ 111 ∷ 0 ∷ 9 ∷ 0 ∷ 0 ∷ 1 ∷ 0 ∷ 0x11 ∷ 0x11 ∷ 0x22 ∷ 0x22 ∷ 0xBE ∷ 0xDE ∷ 0 ∷ 2 ∷ 0x10 ∷ 97
    ∷ 0x20 ∷ 0x85 ∷ 0x31 ∷ 7 ∷ 8 ∷ 0 ∷ 42 ∷ 43 ∷ []

abbrev header : RtpHeader
header = record {
  version = 2;
  padding = false;
  extension = true;
  csrc_count = 0;
  marker = false;
  payload_type = 111;
  sequence_number = 9;
  timestamp = 256;
  ssrc = 286335522;
  header_len_bytes = 24;
  padding_len = 0;
}

-- A stream that last forwarded input 8 as output 508.
abbrev state : RewriteState
state = record (new_rewrite_state 0xABCD0001) {
  seq_offset = 500;
  started = true;
  last_out_seq = 508;
  last_in_seq = 8;
}

-- A subscription that maps the audio level to 5 and has its mid under id 1.
abbrev sub : Subscription
sub = record {
  id = 1;
  session = 0;
  track = 0;
  rewrite = state;
  ext_map = record { map = 0 ∷ 0 ∷ 5 ∷ 0 ∷ []; mid = 1 };
  pub_mid = 1;
  clock_rate = 48000;
  pt_map = record { pairs = (111, 100) ∷ [] };
  mid = 115 ∷ 48 ∷ [];
  sent_packets = 0;
  sent_octets = 0;
}

state-IsAligned : IsAligned state
state-IsAligned = record {
  started = refl;
  in_fits = omega arith;
  out_fits = omega arith;
  offset_fits = omega arith;
  aligned = refl;
}

-- Input numbers 9, 10 and, after a jump, 40000.
abbrev first_packet : Forwarded
first_packet = record { hdr = header; clock_rate = 48000; rng = 1; now = 0 }

abbrev later_packets : List Forwarded
later_packets =
    record first_packet { hdr = record header { sequence_number = 10 } }
    ∷ record first_packet { hdr = record header { sequence_number = 40000 } }
    ∷ []

forward-received_example :
    receive new (forward (new_rewrite_state 7) (first_packet ∷ later_packets))
    ≡ map ok (
        first_number 7 first_packet
        ∷ indices (first_number 7 first_packet) (later_numbers 7 first_packet later_packets))
unfolding advance_of offsets next_u64
forward-received_example =
    forward-received 7 first_packet later_packets (omega arith, (omega arith, (omega arith, tt)))
      (omega arith) (omega arith)

short_ids : (i : ℕ) → get_or sub.ext_map.map i 0 < 15
short_ids zero = omega arith
short_ids (suc zero) = omega arith
short_ids (suc (suc zero)) = omega arith
short_ids (suc (suc (suc zero))) = omega arith
short_ids (suc (suc (suc (suc i)))) = omega arith

sub-IsExtMap : IsExtMap sub
sub-IsExtMap = record {
  ids = short_ids;
  mid_fits = omega arith;
  mid_some = omega arith;
  mid_short = omega arith;
}

header-parsed : parse packet ≡ ok header
unfolding parse extension_end be_u16 be_u32
header-parsed = refl

packet-IsBytes : IsBytes packet
packet-IsBytes = ground arith

few_elements : length (mapped sub (all_elements packet header)) ≤ 16
unfolding mapped target_id all_elements elements next collect skip_padding be_u16
few_elements = omega arith

small_type : (to : ℕ) → assigned_type sub 111 ≡ some to → to < 128
unfolding position
small_type to h = subst (λ n. n < 128) (some_eq h) (omega arith)

rewrite-Delivers_example :
    Delivers packet header sub 1 0
      (replicate 30 0)
      (assigned_type sub 111)
      (rewrite packet header sub 1 0 (replicate 30 0))
rewrite-Delivers_example =
    rewrite-Delivers packet header sub 1 0 (replicate 30 0) packet-IsBytes header-parsed
      sub-IsExtMap few_elements (omega arith) small_type

-- The output and its header.
abbrev packet_bytes : List ℕ
packet_bytes =
    0x90 ∷ 100 ∷ 1 ∷ 0xFD ∷ 0 ∷ 0 ∷ 1 ∷ 0 ∷ 0xAB ∷ 0xCD ∷ 0 ∷ 1 ∷ 0xBE ∷ 0xDE ∷ 0 ∷ 2 ∷ 0x50 ∷ 0x85
    ∷ 0x11 ∷ 115 ∷ 48 ∷ 0 ∷ 0 ∷ 0 ∷ 42 ∷ 43 ∷ []

packet_out :
    packet_for sub packet header 100 (advance_of sub.rewrite header 48000 1 0) ≡ packet_bytes
unfolding packet_for extension_bytes advance_of offsets target_id fixed_bytes all_elements elements
    next collect skip_padding be_u16 u16_bytes u32_bytes
packet_out = refl

abbrev rewritten : Rewritten
rewritten = record {
  out_len = 26;
  advance = advance_of sub.rewrite header 48000 1 0;
  dst = packet_bytes ++ (0 ∷ 0 ∷ 0 ∷ 0 ∷ []);
  rng = 1;
}

abbrev header_out : RtpHeader
header_out = record header { payload_type = 100; sequence_number = 509; ssrc = 2882338817 }

rewritten-elements_example :
    all_elements packet_bytes header_out ≡ mapped sub (all_elements packet header)
unfolding rewrite position map_pt advance_of offsets parse extension_end all_elements elements next
    collect skip_padding be_u16 be_u32 u16_bytes u32_bytes target_id write_at
rewritten-elements_example =
    rewritten-elements packet header sub 1 0 (replicate 30 0) packet-IsBytes header-parsed
      sub-IsExtMap few_elements (omega arith) 100 rewritten header_out (omega arith) refl refl refl

abbrev two_elements : List Element
two_elements = record { id = 5; bytes = 0x85 ∷ [] } ∷ record { id = 1; bytes = 115 ∷ 48 ∷ [] } ∷ []

collect-enough_example :
    collect (16 + 5) (start (0x10 ∷ 97 ∷ 0x20 ∷ []) false)
    ≡ collect 16 (start (0x10 ∷ 97 ∷ 0x20 ∷ []) false)
collect-enough_example =
    collect-enough 16 5 (start (0x10 ∷ 97 ∷ 0x20 ∷ []) false) (omega arith) (omega arith)
