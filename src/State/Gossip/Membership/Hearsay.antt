-- ===== src/State/Gossip/Membership/Hearsay.antt =====
-- What the calls of membership.rs on known peers do to them.
use nexus_sfu.Base.{ℕ, zero, suc, ◌≡◌, refl, sym, Bool, true, false, Option, none, [], ◌∷◌, map}
use nexus_sfu.State.Gossip.Peers.{PeerInfo}
use nexus_sfu.State.Gossip.Membership.{MembershipList, peer_at, find_peer, expire}
use nexus_sfu.State.Gossip.Membership.Sound.{Peers}
use nexus_sfu.State.Gossip.Membership.Calls.{Call, add, remove, set_state}
use nexus_sfu.State.Gossip.Membership.Transitions.{Below}

-- The calls but those that add and remove peers.
abbrev pub keeps_peers : Call → Bool
keeps_peers (add id addr) = false
keeps_peers (remove id) = false
keeps_peers _ = true

-- `update_state` takes any incarnation for a death: here it is not below the one the peer has.
abbrev pub IsCareful : MembershipList → Call → Type 0
IsCareful m (set_state id state n) = Below (find_peer m id) state n
IsCareful m _ = Unit {0}

pub peer_at-map :
    (f : Option PeerInfo → Option PeerInfo) (peers : Peers) (j : ℕ)
    → f none ≡ none
    → peer_at (map f peers) j ≡ f (peer_at peers j)
peer_at-map f [] j h = sym h
peer_at-map f (p ∷ ps) zero h = refl
peer_at-map f (p ∷ ps) (suc j) h = peer_at-map f ps j h

pub expire-none : (now : ℕ) → expire now none ≡ none
unfolding expire
expire-none now = refl
