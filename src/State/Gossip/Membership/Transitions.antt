-- ===== src/State/Gossip/Membership/Transitions.antt =====
-- The peers' states and incarnations in membership.rs.
use nexus_sfu.Base.{
  ℕ, zero, suc, ◌≤◌, ◌<◌, ◌≡◌, refl, sym, subst, ◌≢◌, inl, inr, true, Option, none, some, [], ◌∷◌,
  arith, Bool-cases, set,
}
use nexus_sfu.State.Gossip.Peers.{PeerState, alive, suspect, dead, PeerInfo}
use nexus_sfu.State.Gossip.Membership.{
  MembershipList, peer_at, find_at, validate_transition, update_peer, update_found, incarnation_of,
}
use nexus_sfu.State.Gossip.Membership.Sound.{Peers}

-- The state machine of the module's documentation, with the incarnations before and after.
pub data Moves : PeerState → ℕ → PeerState → ℕ → Type 0 where
  kept : (s : PeerState) (i j : ℕ) → i ≤ j → Moves s i s j
  suspected : (i j : ℕ) → i ≤ j → Moves alive i suspect j
  refuted : (i j : ℕ) → i < j → Moves suspect i alive j
  resurrected : (i j : ℕ) → i < j → Moves dead i alive j
  died : (s : PeerState) (i j : ℕ) → i ≤ j → Moves s i dead j

-- A slot keeps its peer, which moves as the state machine says.
abbrev pub Evolves : Option PeerInfo → Option PeerInfo → Type 0
Evolves none none = Unit {0}
Evolves (some p) (some q) =
    (q.actor_id ≡ p.actor_id)
    × (q.addr ≡ p.addr)
    × Moves p.state p.incarnation q.state q.incarnation
Evolves none (some q) = ⊥
Evolves (some p) none = ⊥

pub Evolves-refl : (p : Option PeerInfo) → Evolves p p
Evolves-refl none = tt
Evolves-refl (some p) = (refl, refl, kept p.state p.incarnation p.incarnation (omega arith))

-- `validate_transition` lets the moves through, when a death does not lower the incarnation.
validate-Moves :
    (s t : PeerState) (i j : ℕ)
    → validate_transition s t i j ≡ true
    → (t ≡ dead → i ≤ j)
    → Moves s i t j
unfolding validate_transition
validate-Moves alive alive i j h d = kept alive i j (ground arith)
validate-Moves alive suspect i j h d = suspected i j (ground arith)
validate-Moves alive dead i j h d = died alive i j (d refl)
validate-Moves suspect alive i j h d = refuted i j (ground arith)
validate-Moves suspect suspect i j h d = kept suspect i j (ground arith)
validate-Moves suspect dead i j h d = died suspect i j (d refl)
validate-Moves dead alive i j h d = resurrected i j (ground arith)
validate-Moves dead suspect i j h d = cc
validate-Moves dead dead i j h d = kept dead i j (ground arith)

-- A write to one slot.
pub set-Evolves :
    (peers : Peers) (i j : ℕ) (new : Option PeerInfo)
    → Evolves (peer_at peers i) new
    → Evolves (peer_at peers j) (peer_at (set peers i new) j)
set-Evolves [] i j new h = tt
set-Evolves (p ∷ ps) zero zero new h = h
set-Evolves (p ∷ ps) zero (suc j) new h = Evolves-refl (peer_at ps j)
set-Evolves (p ∷ ps) (suc i) zero new h = Evolves-refl p
set-Evolves (p ∷ ps) (suc i) (suc j) new h = set-Evolves ps i j new h

-- What a death asks of the slot's peer.
abbrev pub Below : Option PeerInfo → PeerState → ℕ → Type 0
Below none state n = Unit {0}
Below (some p) state n = state ≡ dead → p.incarnation ≤ n

update_peer-Evolves :
    (now : ℕ) (m : MembershipList) (id i j : ℕ) (state : PeerState) (n : ℕ) (old : Option PeerInfo)
    → peer_at m.peers i ≡ old
    → Below old state n
    → Evolves (peer_at m.peers j) (peer_at (update_peer now m id i state n old).1.peers j)
unfolding update_peer
update_peer-Evolves now m id i j state n none e d = Evolves-refl (peer_at m.peers j)
update_peer-Evolves now m id i j state n (some p) e d =
    let entry : PeerInfo = record p { state = state; incarnation = n; last_seen_ns = now } in
    elim (Bool-cases (validate_transition p.state state p.incarnation n)) [
      | inl fine ↦
          let moved : Evolves (peer_at m.peers i) (some entry) =
            subst (λ o. Evolves o (some entry)) (sym e)
              (refl, refl, validate-Moves p.state state p.incarnation n fine d) in
          rw fine (set-Evolves m.peers i j (some entry) moved)
      | inr bad ↦ rw bad (Evolves-refl (peer_at m.peers j))
    ]

pub update_found-Evolves :
    (now : ℕ) (m : MembershipList) (id j : ℕ) (state : PeerState) (n : ℕ) (slot : Option ℕ)
    → Below (find_at m.peers slot) state n
    → Evolves (peer_at m.peers j) (peer_at (update_found now m id state n slot).1.peers j)
unfolding update_found find_at
update_found-Evolves now m id j state n none d = Evolves-refl (peer_at m.peers j)
update_found-Evolves now m id j state n (some i) d =
    update_peer-Evolves now m id i j state n (peer_at m.peers i) refl d

-- A peer's own incarnation, and any for another state than dead, will do.
pub own-Below : (o : Option PeerInfo) → Below o dead (incarnation_of o)
unfolding incarnation_of
own-Below none = tt
own-Below (some p) = λ e. omega arith

pub other-Below : (o : Option PeerInfo) (state : PeerState) (n : ℕ) → state ≢ dead → Below o state n
other-Below none state n h = tt
other-Below (some p) state n h = λ e. absurd (h e)
