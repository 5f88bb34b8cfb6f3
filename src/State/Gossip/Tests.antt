-- ===== src/State/Gossip/Tests.antt =====
-- The theorems on the gossip at concrete lists and messages.
use nexus_sfu.Base.{ℕ, ◌≡◌, refl, ◌↔◌, none, some, List, [], ◌∷◌, arith, replicate, position, ok}
use nexus_sfu.State.Gossip.Peers.{
  PeerState, suspect, SocketAddr, v4, PeerInfo, max_peers, same_addr, new_peer,
}
use nexus_sfu.State.Gossip.Membership.{
  MembershipList, new, find_peer, find_at, add_peer, has_actor, add_found, insert_peer,
}
use nexus_sfu.State.Gossip.Membership.Sound.{IsSound}
use nexus_sfu.State.Gossip.Membership.Calls.{Call, step, Reached, start, called, reached-IsSound}
use nexus_sfu.State.Gossip.Membership.Room.{add_peer-ok}
use nexus_sfu.State.Gossip.Membership.Readdress.{add_peer-revives}
use nexus_sfu.State.Gossip.Updates.{StateUpdate, participant_added, decode_update}
use nexus_sfu.State.Gossip.Updates.Valid.{IsValid}
use nexus_sfu.State.Gossip.Updates.Checked.{accepted-IsValid}
use nexus_sfu.Base.Bytes.{IsBytes}
use nexus_sfu.State.Gossip.Messages.{ping, encode}
use nexus_sfu.State.Gossip.Messages.Decode.{decode}
use nexus_sfu.State.Gossip.Messages.RoundTrip.{decode-encode}

abbrev empty_list : MembershipList
empty_list = record {
  local_actor = 0;
  peers = replicate max_peers none;
  peer_count = 0;
  incarnation = 1;
}

abbrev home : SocketAddr
home = v4 167772161 7946

abbrev away : SocketAddr
away = v4 167772162 7946

abbrev suspected_peer : PeerInfo
suspected_peer = record {
  actor_id = 3;
  addr = home;
  state = suspect;
  incarnation = 4;
  last_seen_ns = 100;
}

-- A list with one peer, which is suspected.
abbrev list : MembershipList
list = record {
  local_actor = 0;
  peers = some suspected_peer ∷ replicate 255 none;
  peer_count = 1;
  incarnation = 1;
}

reached_empty : Reached 0 empty_list
unfolding new
reached_empty = start empty_list refl

-- The list after a peer was added.
abbrev joined_list : MembershipList
joined_list = record empty_list {
  peers = some (new_peer 3 home 0 50) ∷ replicate 255 none;
  peer_count = 1;
}

reached_joined : Reached 0 joined_list
unfolding step add_peer add_found insert_peer position has_actor
reached_joined = called 50 empty_list joined_list (Call.add 3 home) reached_empty refl

reached-IsSound_example : IsSound joined_list
reached-IsSound_example = reached-IsSound 0 joined_list reached_joined

add_peer-ok_example :
    (after : MembershipList) × (add_peer 60 joined_list 4 away ≡ some (ok tt, after))
add_peer-ok_example =
    add_peer-ok 60 0 joined_list 4 away reached_joined (omega arith)
      (λ e. absurd (omega (arith, e)))

-- A suspected peer is reported dead under the incarnation it has.
abbrev dead_list : MembershipList
dead_list = record list {
  peers =
      some (record suspected_peer { state = PeerState.dead; last_seen_ns = 900 })
      ∷ replicate 255 none;
}

add_peer-revives_example :
    (after : MembershipList) × (add_peer 900 list 3 away ≡ some (ok tt, after))
    × (find_peer after 3 ≡ some (record suspected_peer { addr = away; state = PeerState.alive }))
unfolding find_peer find_at same_addr position has_actor
add_peer-revives_example =
    add_peer-revives 900 list 3 away suspected_peer (omega arith) (λ e. absurd (omega (arith, e)))
      refl refl

abbrev joined : StateUpdate
joined = participant_added 5 77 (record { actor_id = 2; clock = 9 })

accepted-IsValid_example :
    ((bytes : List ℕ) × (n : ℕ) × IsBytes bytes × (decode_update bytes ≡ some (joined, n)))
    ↔ IsValid joined
accepted-IsValid_example = accepted-IsValid joined

decode-encode_example :
    (bytes : List ℕ) × (encode (ping 4 6 (joined ∷ [])) ≡ some bytes)
    × (decode bytes ≡ ok (ping 4 6 (joined ∷ [])))
decode-encode_example = decode-encode (ping 4 6 (joined ∷ [])) (
    (
      (omega arith, omega arith),
      (
        (
          omega arith,
          omega arith,
          omega arith,
          omega arith,
          (omega arith, omega arith, omega arith),
        ),
        tt,
      ),
    ))
