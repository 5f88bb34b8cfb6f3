-- ===== src/Srtp/Inbound/Control.antt =====
-- The control path of `SrtpInbound`, and all its operations in any order.
use nexus_sfu.Base.{
  ℕ, zero, suc, ◌≤◌, ◌<◌, ◌≡◌, refl, sym, ap, ◌∙◌, ◌⊎◌, inl, inr, Bool, true, false, false≢true,
  Option, none, some, List, [], ◌∷◌, arith, leb, Bool-cases, get_elem?, replicate,
  get_elem?-set_self, get_elem?_lt, get_or-get_elem?, some_eq, position, position-some,
  position-none, count, count-set, count-none,
}
use nexus_sfu.Srtp.Cipher.{Cipher}
use nexus_sfu.Srtp.Inbound.{
  SsrcIn, empty, fresh, SrtpInbound, from_keys, owns, is_pinned, pinned_count, slot_at, write_slot,
  slot_to_replace, pin_slot, pin_new, pin_found, pin, unpin_found, unpin, is_idle, evict_slots,
  evict_idle,
}
use nexus_sfu.Srtp.Inbound.Unprotect.{unprotect_rtp, unprotect_rtcp}
use nexus_sfu.Srtp.Inbound.Table.{Takes, slot_to_replace-Takes}
use nexus_sfu.Srtp.Inbound.Sound.{
  Sound, set-Sound, fresh-Sound, unprotect_rtp-Sound, unprotect_rtcp-Sound,
}

-- A live slot is pinned while there is room.
pin_slot-Sound :
    (s : SrtpInbound) (k : ℕ) (x : SsrcIn)
    → Sound s.slots
    → get_elem? s.slots k ≡ some x
    → x.live ≡ true
    → count is_pinned s.slots < 12
    → Sound (pin_slot s k).slots
unfolding pin_slot
pin_slot-Sound s k x v at live room = rw (get_or-get_elem? s.slots k x empty at) (
    set-Sound s.slots k x (record x { pinned = true }) v at (λ ssrc. ground (arith, v.single ssrc))
      (λ h. live) (ground arith))

pin_new-Sound :
    (s : SrtpInbound) (ssrc : ℕ) (k : Option ℕ)
    → Sound s.slots
    → Takes s.slots k
    → count (owns ssrc) s.slots ≡ 0
    → count is_pinned s.slots < 12
    → Sound (pin_new s ssrc k).1.slots
unfolding pin_new
pin_new-Sound s ssrc none v t nobody room = v
pin_new-Sound s ssrc (some k) v (x, at, free) nobody room =
    pin_slot-Sound (write_slot s k (fresh ssrc 0)) k (fresh ssrc 0)
      (fresh-Sound s.slots k x (fresh ssrc 0) ssrc 0 v at nobody (refl, refl, refl))
      (get_elem?-set_self s.slots k (fresh ssrc 0) (get_elem?_lt s.slots k x at)) refl
      (ground (arith, count-set is_pinned s.slots k x (fresh ssrc 0) at))

pin_found-Sound :
    (s : SrtpInbound) (ssrc : ℕ) (k : Option ℕ)
    → Sound s.slots
    → position (owns ssrc) s.slots ≡ k
    → Sound (pin_found s ssrc k).1.slots
unfolding pin_found pinned_count
pin_found-Sound s ssrc none v e = elim (Bool-cases (leb 12 (count is_pinned s.slots))) [
  | inl full ↦ rw full v
  | inr room ↦ rw room (
      pin_new-Sound s ssrc (slot_to_replace s) v (slot_to_replace-Takes s)
        (count-none (owns ssrc) s.slots (λ i x at. position-none (owns ssrc) s.slots i x e at))
        (ground arith))
]
pin_found-Sound s ssrc (some k) v e =
    let (at, own) = position-some (owns ssrc) s.slots k empty e in
    elim (Bool-cases (slot_at s k).pinned) [
      | inl already ↦ rw already v
      | inr not_yet ↦ rw not_yet (elim (Bool-cases (leb 12 (count is_pinned s.slots))) [
        | inl full ↦ rw full v
        | inr room ↦ rw room (pin_slot-Sound s k (slot_at s k) v at (ground arith) (ground arith))
      ])
    ]

pub pin-Sound : (s : SrtpInbound) (ssrc : ℕ) → Sound s.slots → Sound (pin s ssrc).1.slots
unfolding pin
pin-Sound s ssrc v = pin_found-Sound s ssrc (position (owns ssrc) s.slots) v refl

unpin_found-Sound :
    (s : SrtpInbound) (ssrc : ℕ) (k : Option ℕ)
    → Sound s.slots
    → position (owns ssrc) s.slots ≡ k
    → Sound (unpin_found s k).slots
unfolding unpin_found
unpin_found-Sound s ssrc none v e = v
unpin_found-Sound s ssrc (some k) v e =
    let (at, own) = position-some (owns ssrc) s.slots k empty e in
    set-Sound s.slots k (slot_at s k) (record (slot_at s k) { pinned = false }) v at
      (λ n. ground (arith, v.single n)) (λ h. absurd (false≢true h)) (ground (arith, v.few_pinned))

pub unpin-Sound : (s : SrtpInbound) (ssrc : ℕ) → Sound s.slots → Sound (unpin s ssrc).slots
unfolding unpin
unpin-Sound s ssrc v = unpin_found-Sound s ssrc (position (owns ssrc) s.slots) v refl

-- Eviction takes slots away from SSRCs, and no pinned one.
evict_slots-count :
    (now_s idle_s ssrc : ℕ) (xs : List SsrcIn)
    → count (owns ssrc) (evict_slots now_s idle_s xs).1 ≤ count (owns ssrc) xs
unfolding evict_slots count
evict_slots-count now_s idle_s ssrc [] = omega arith
evict_slots-count now_s idle_s ssrc (x ∷ xs) = elim (Bool-cases (is_idle now_s idle_s x)) [
  | inl e ↦ rw e (ground (arith, evict_slots-count now_s idle_s ssrc xs))
  | inr e ↦ rw e (ground (arith, evict_slots-count now_s idle_s ssrc xs))
]

evict_slots-pinned :
    (now_s idle_s : ℕ) (xs : List SsrcIn)
    → count is_pinned (evict_slots now_s idle_s xs).1 ≡ count is_pinned xs
unfolding evict_slots count
evict_slots-pinned now_s idle_s [] = refl
evict_slots-pinned now_s idle_s (x ∷ xs) = elim (Bool-cases (is_idle now_s idle_s x)) [
  | inl e ↦ rw e (ground (arith, evict_slots-pinned now_s idle_s xs))
  | inr e ↦ rw e (ground (arith, evict_slots-pinned now_s idle_s xs))
]

head_before :
    (y z : SsrcIn) (xs ys : List SsrcIn) (i : ℕ) (x : SsrcIn)
    → x.pinned ≡ true
    → (z ≡ y) ⊎ ((z.pinned ≡ y.pinned) × (y.pinned ≡ false))
    → ((j : ℕ) → get_elem? ys j ≡ some x → get_elem? xs j ≡ some x)
    → get_elem? (z ∷ ys) i ≡ some x
    → get_elem? (y ∷ xs) i ≡ some x
head_before y z xs ys zero x p (inl same) back h = ap some (sym same) ∙ h
head_before y z xs ys zero x p (inr (same, free)) back h =
    absurd (false≢true (sym (sym (ap (λ (w : SsrcIn). w.pinned) (some_eq h)) ∙ same ∙ free) ∙ p))
head_before y z xs ys (suc i) x p t back h = back i h

-- A pinned slot after eviction is the same slot before it, and the other way round.
pub evict_slots-before :
    (now_s idle_s : ℕ) (xs : List SsrcIn) (i : ℕ) (x : SsrcIn)
    → x.pinned ≡ true
    → get_elem? (evict_slots now_s idle_s xs).1 i ≡ some x
    → get_elem? xs i ≡ some x
unfolding evict_slots
evict_slots-before now_s idle_s [] i x p h = h
evict_slots-before now_s idle_s (y ∷ xs) i x p h = elim (Bool-cases (is_idle now_s idle_s y)) [
  | inl e ↦
      let h' = rw e at h in
      head_before y (record y { live = false }) xs (evict_slots now_s idle_s xs).1 i x p
        (inr (refl, ground arith)) (λ j. evict_slots-before now_s idle_s xs j x p) h'
  | inr e ↦
      let h' = rw e at h in
      head_before y y xs (evict_slots now_s idle_s xs).1 i x p (inl refl)
        (λ j. evict_slots-before now_s idle_s xs j x p) h'
]

pub evict_slots-after :
    (now_s idle_s : ℕ) (xs : List SsrcIn) (i : ℕ) (x : SsrcIn)
    → x.pinned ≡ true
    → get_elem? xs i ≡ some x
    → get_elem? (evict_slots now_s idle_s xs).1 i ≡ some x
unfolding evict_slots
evict_slots-after now_s idle_s [] i x p h = h
evict_slots-after now_s idle_s (y ∷ xs) zero x p h =
    let same : y ≡ x = some_eq h in
    let kept : is_idle now_s idle_s y ≡ false =
      ground (arith, ap (λ (z : SsrcIn). z.pinned) same) in
    rw kept h
evict_slots-after now_s idle_s (y ∷ xs) (suc i) x p h = elim (Bool-cases (is_idle now_s idle_s y)) [
  | inl e ↦ rw e (evict_slots-after now_s idle_s xs i x p h)
  | inr e ↦ rw e (evict_slots-after now_s idle_s xs i x p h)
]

evict_idle-Sound :
    (s : SrtpInbound) (now_s idle_s : ℕ) → Sound s.slots → Sound (evict_idle s now_s idle_s).1.slots
unfolding evict_idle
evict_idle-Sound s now_s idle_s v = record {
  single = λ ssrc. omega (arith, v.single ssrc, evict_slots-count now_s idle_s ssrc s.slots);
  pinned_live = λ i x e p. v.pinned_live i x (evict_slots-before now_s idle_s s.slots i x p e) p;
  few_pinned = omega (arith, v.few_pinned, evict_slots-pinned now_s idle_s s.slots);
}

-- A call of the context.
pub data Op : Type 0 where
  pins unpins : ℕ → Op
  receives_rtp receives_rtcp : List ℕ → ℕ → ℕ → Op
  evicts : ℕ → ℕ → Op

unfoldable pub step : SrtpInbound → Op → SrtpInbound
step s (pins ssrc) = (pin s ssrc).1
step s (unpins ssrc) = unpin s ssrc
step s (receives_rtp buf len now_s) = (unprotect_rtp s buf len now_s).2
step s (receives_rtcp buf len now_s) = (unprotect_rtcp s buf len now_s).2
step s (evicts now_s idle_s) = (evict_idle s now_s idle_s).1

unfoldable pub run : SrtpInbound → List Op → SrtpInbound
run s [] = s
run s (o ∷ os) = run (step s o) os

pub step-Sound : (s : SrtpInbound) (o : Op) → Sound s.slots → Sound (step s o).slots
unfolding step
step-Sound s (pins ssrc) v = pin-Sound s ssrc v
step-Sound s (unpins ssrc) v = unpin-Sound s ssrc v
step-Sound s (receives_rtp buf len now_s) v = unprotect_rtp-Sound s buf len now_s v
step-Sound s (receives_rtcp buf len now_s) v = unprotect_rtcp-Sound s buf len now_s v
step-Sound s (evicts now_s idle_s) v = evict_idle-Sound s now_s idle_s v

run_from-Sound : (s : SrtpInbound) (os : List Op) → Sound s.slots → Sound (run s os).slots
unfolding run
run_from-Sound s [] v = v
run_from-Sound s (o ∷ os) v = run_from-Sound (step s o) os (step-Sound s o v)

empty-count : (p : SsrcIn → Bool) (n : ℕ) → p empty ≡ false → count p (replicate n empty) ≡ 0
unfolding count
empty-count p zero e = refl
empty-count p (suc n) e = rw e (empty-count p n e)

replicate-pinned :
    (n i : ℕ) (x : SsrcIn) → get_elem? (replicate n empty) i ≡ some x → x.pinned ≡ false
replicate-pinned zero i x e = cc
replicate-pinned (suc n) zero x e = ground arith
replicate-pinned (suc n) (suc i) x e = replicate-pinned n i x e

pub from_keys-Sound : (c : Cipher) → Sound (from_keys c).slots
unfolding from_keys
from_keys-Sound c = record {
  single = λ ssrc. omega (arith, empty-count (owns ssrc) 16 refl);
  pinned_live = λ i x e p. absurd (false≢true (sym (replicate-pinned 16 i x e) ∙ p));
  few_pinned = omega (arith, empty-count is_pinned 16 refl);
}

-- After any calls in any order, whatever the packets and whatever the cipher answers: no SSRC has
-- two slots, only live slots are pinned, and at most 12 are.
pub run-Sound : (c : Cipher) (os : List Op) → Sound (run (from_keys c) os).slots
run-Sound c os = run_from-Sound (from_keys c) os (from_keys-Sound c)
