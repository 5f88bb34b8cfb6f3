-- ===== src/State/Gossip/Membership/Selection.antt =====
-- The choice of peers to probe, in membership.rs. The random numbers are arguments, one per draw.
use nexus_sfu.Base.{
  ℕ, zero, suc, ◌+◌, ◌-◌, ◌%◌, ◌<◌, min, ◌≡◌, refl, sym, ap, ◌∙◌, inl, inr, Bool, true, not, ◌&&◌,
  Option, none, some, List, [], ◌∷◌, arith, ◌==◌, if◌then◌else◌, Bool-cases, length, get_elem?, set,
  take, some_eq, count,
}
use native.Mathlib.Nat.{mod-lt}
use nexus_sfu.State.Gossip.Peers.{PeerState, alive, PeerInfo, max_peers, same_state}
use nexus_sfu.State.Gossip.Membership.{MembershipList}
use nexus_sfu.State.Gossip.Membership.Sound.{Peers}

-- `get_all_peers`
unfoldable pub listed_peers : Peers → List PeerInfo
listed_peers [] = []
listed_peers (none ∷ ps) = listed_peers ps
listed_peers (some p ∷ ps) = p ∷ listed_peers ps

-- The loop that collects the peers that pass a test.
unfoldable pub keep : (PeerInfo → Bool) → List PeerInfo → List PeerInfo
keep test [] = []
keep test (p ∷ ps) = let rest = keep test ps in if test p then p ∷ rest else rest

unfoldable pub is_alive : PeerInfo → Bool
is_alive p = same_state p.state alive

-- `get_alive_peers`
unfoldable pub alive_peers : MembershipList → List PeerInfo
unfolding listed_peers keep is_alive same_state
alive_peers m = keep is_alive (listed_peers m.peers)

-- `get_random_alive_peer`
unfoldable pub random_alive_peer : ℕ → MembershipList → Option PeerInfo
unfolding alive_peers
random_alive_peer random m =
    let n = length (alive_peers m) in
    if n == 0 then none else get_elem? (alive_peers m) (random % n)

unfoldable pub is_eligible : ℕ → PeerInfo → Bool
unfolding is_alive
is_eligible exclude p = is_alive p && not (p.actor_id == exclude)

-- `swap`; the indices of the shuffle are in range.
unfoldable pub swap_with : List PeerInfo → ℕ → ℕ → Option PeerInfo → Option PeerInfo → List PeerInfo
swap_with ps i j none q = ps
swap_with ps i j (some p) none = ps
swap_with ps i j (some p) (some q) = set (set ps i q) j p

unfoldable pub swap : List PeerInfo → ℕ → ℕ → List PeerInfo
unfolding swap_with
swap ps i j = swap_with ps i j (get_elem? ps i) (get_elem? ps j)

-- The loop `for i in (1..len).rev()`, from the index given down.
unfoldable pub shuffle : ℕ → (ℕ → ℕ) → List PeerInfo → List PeerInfo
unfolding swap
shuffle zero random ps = ps
shuffle (suc i) random ps = shuffle i random (swap ps (suc i) (random (suc i) % (suc i + 1)))

-- `get_random_alive_peers`
unfoldable pub random_alive_peers : (ℕ → ℕ) → MembershipList → ℕ → ℕ → List PeerInfo
unfolding listed_peers keep is_eligible shuffle
random_alive_peers random m limit exclude =
    let found = keep (is_eligible exclude) (listed_peers m.peers) in
    take (min limit max_peers) (shuffle (length found - 1) random found)

length-keep : (test : PeerInfo → Bool) (ps : List PeerInfo) → length (keep test ps) ≡ count test ps
unfolding keep count
length-keep test [] = refl
length-keep test (p ∷ ps) = ground (arith, length-keep test ps)

get_elem?-some :
    (ps : List PeerInfo) (i : ℕ) → i < length ps → (p : PeerInfo) × (get_elem? ps i ≡ some p)
get_elem?-some [] i h = elim h [ ]
get_elem?-some (p ∷ ps) zero h = (p, refl)
get_elem?-some (p ∷ ps) (suc i) h = get_elem?-some ps i (omega arith)

state_alive : (s : PeerState) → same_state s alive ≡ true → s ≡ alive
unfolding same_state
state_alive PeerState.alive h = refl
state_alive PeerState.suspect h = cc
state_alive PeerState.dead h = cc

keep-test :
    (test : PeerInfo → Bool) (ps : List PeerInfo) (i : ℕ) (p : PeerInfo)
    → get_elem? (keep test ps) i ≡ some p
    → test p ≡ true
unfolding keep
keep-test test [] i p h = cc
keep-test test (q ∷ ps) zero p h = elim (Bool-cases (test q)) [
  | inl yes_q ↦ let same : some q ≡ some p = ground arith in ap test (sym (some_eq same)) ∙ yes_q
  | inr no_q ↦ keep-test test ps zero p (ground arith)
]
keep-test test (q ∷ ps) (suc i) p h = elim (Bool-cases (test q)) [
  | inl yes_q ↦ keep-test test ps i p (ground arith)
  | inr no_q ↦ keep-test test ps (suc i) p (ground arith)
]

-- If a peer is alive, the random peer is one that is alive.
pub random_alive_peer-alive :
    (random : ℕ) (m : MembershipList)
    → 0 < count is_alive (listed_peers m.peers)
    → (p : PeerInfo) × (random_alive_peer random m ≡ some p) × (p.state ≡ alive)
unfolding random_alive_peer alive_peers is_alive same_state
random_alive_peer-alive random m h =
    let some_alive = length-keep is_alive (listed_peers m.peers) in
    let n = length (alive_peers m) in
    let fits : random % n < n = mod-lt random (omega arith) in
    let (p, at) = get_elem?-some (alive_peers m) (random % n) fits in
    (
      p,
      ground arith,
      state_alive p.state (keep-test is_alive (listed_peers m.peers) (random % n) p at),
    )
