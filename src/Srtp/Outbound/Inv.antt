-- ===== src/Srtp/Outbound/Inv.antt =====
-- The invariant behind the nonce rule of srtp/direction.rs: the windows of the live slots hold
-- exactly the indices that were protected under their SSRC.
use nexus_sfu.Base.{
  ℕ, zero, suc, ◌+◌, ◌≤◌, ◌<◌, ◌≡◌, refl, sym, ap, subst, ◌∙◌, ◌≢◌, inl, inr, true, false, ◌||◌,
  false≢true, Option, none, some, List, [], ◌∷◌, arith, ℕ_discrete, ltb, ◌==◌, if◌then◌else◌,
  Bool-cases, get_elem?, set, replicate, get_elem?-set_ne, get_elem?-set_eq, position,
  position-some,
}
use nexus_sfu.Srtp.Replay.Window.{Tracks, new-Tracks}
use nexus_sfu.Srtp.Outbound.{
  SsrcOut, empty, fresh, SrtpOutbound, from_keys, owns, offset_from, outbound_ssrc_slots, register,
  register_at, is_free, slot_at, slot_of, max_ssrc_offset, retire, retire_found,
}
use nexus_sfu.Srtp.Outbound.Slots.{owners, owners-set, owners-replicate, owners-none}

-- The indices of one SSRC in a log of (SSRC, index) pairs.
unfoldable pub indices : ℕ → List (ℕ × ℕ) → List ℕ
indices ssrc [] = []
indices ssrc ((s, i) ∷ log) = if s == ssrc then i ∷ indices ssrc log else indices ssrc log

-- What a live slot owes to the log.
pub record Good (base next : ℕ) (log : List (ℕ × ℕ)) (x : SsrcOut) : Type 0 where
  pub registered : offset_from base x.ssrc < next
  pub tracks : Tracks x.sent (indices x.ssrc log)

pub record Inv (o : SrtpOutbound) (log : List (ℕ × ℕ)) : Type 0 where
  pub single : (ssrc : ℕ) → owners ssrc o.slots ≤ 1
  pub unused : (ssrc : ℕ) → o.next_offset ≤ offset_from o.ssrc_base ssrc → indices ssrc log ≡ []
  pub good :
      (i : ℕ) (x : SsrcOut)
      → get_elem? o.slots i ≡ some x
      → x.live ≡ true
      → Good o.ssrc_base o.next_offset log x

replicate-elem : (n i : ℕ) (x : SsrcOut) → get_elem? (replicate n empty) i ≡ some x → x.live ≡ false
replicate-elem zero i x e = cc
replicate-elem (suc n) zero x e = ground arith
replicate-elem (suc n) (suc i) x e = replicate-elem n i x e

pub from_keys-Inv : (c : _) (base : ℕ) → Inv (from_keys c base) []
unfolding from_keys indices
from_keys-Inv c base = record {
  single = λ ssrc. omega (arith, owners-replicate ssrc outbound_ssrc_slots);
  unused = λ ssrc h. refl;
  good = λ i x e l. absurd (false≢true (sym (replicate-elem outbound_ssrc_slots i x e) ∙ l));
}

-- A write to slot `i` keeps `good` if the new slot owes what it must.
pub set-good :
    (P : SsrcOut → Type 0) (xs : List SsrcOut) (k : ℕ) (new : SsrcOut)
    → (new.live ≡ true → P new)
    → ((i : ℕ) (x : SsrcOut) → i ≢ k → get_elem? xs i ≡ some x → x.live ≡ true → P x)
    → (i : ℕ) (x : SsrcOut) → get_elem? (set xs k new) i ≡ some x
    → x.live ≡ true
    → P x
set-good P xs k new here there i x e l = elim (ℕ_discrete i k) [
  | yes same ↦
      let q : x ≡ new =
        get_elem?-set_eq xs k new x (subst (λ j. get_elem? (set xs k new) j ≡ some x) same e) in
      subst P (sym q) (here (subst (λ y. y.live ≡ true) q l))
  | no other ↦ there i x other (sym (get_elem?-set_ne xs k i new (λ q. other (sym q))) ∙ e) l
]

-- An SSRC past every registered one has no live slot.
pub unregistered :
    (o : SrtpOutbound) (log : List (ℕ × ℕ)) (ssrc : ℕ)
    → Inv o log
    → o.next_offset ≤ offset_from o.ssrc_base ssrc
    → owners ssrc o.slots ≡ 0
unregistered o log ssrc v h = owners-none ssrc o.slots λ i x e. elim (Bool-cases (owns ssrc x)) [
  | inl own ↦
      let live : x.live ≡ true = ground arith in
      let same : x.ssrc ≡ ssrc = ground arith in
      let below = (v.good i x e live).registered in
      absurd (omega (arith, below, h, ap (offset_from o.ssrc_base) same))
  | inr other ↦ other
]

register_at-Inv :
    (o : SrtpOutbound) (log : List (ℕ × ℕ)) (ssrc : ℕ) (k : Option ℕ)
    → Inv o log
    → o.next_offset ≤ offset_from o.ssrc_base ssrc
    → position is_free o.slots ≡ k
    → Inv (register_at o ssrc (offset_from o.ssrc_base ssrc) k).1 log
unfolding register_at
register_at-Inv o log ssrc none v h e = v
register_at-Inv o log ssrc (some k) v h e =
    let (at, free) = position-some is_free o.slots k empty e in
    record {
      single = λ s. ground (
        arith,
        owners-set s o.slots k (slot_at o k) (fresh ssrc) at,
        unregistered o log ssrc v h,
        v.single s,
      );
      unused = λ s h'. v.unused s (omega (arith, h'));
      good =
          set-good (Good o.ssrc_base (offset_from o.ssrc_base ssrc + 1) log) o.slots k (fresh ssrc)
            (λ _. record { registered = omega arith; tracks = rw (v.unused ssrc h) new-Tracks })
            (λ i x ne q l. record {
              registered = omega (arith, (v.good i x q l).registered);
              tracks = (v.good i x q l).tracks;
            });
    }

-- `register` keeps the invariant.
pub register-Inv :
    (o : SrtpOutbound) (log : List (ℕ × ℕ)) (ssrc : ℕ) → Inv o log → Inv (register o ssrc).1 log
unfolding register
register-Inv o log ssrc v =
    elim (Bool-cases (
      ltb (offset_from o.ssrc_base ssrc) o.next_offset
      || ltb max_ssrc_offset (offset_from o.ssrc_base ssrc))) [
        | inl refused ↦ rw refused v
        | inr new ↦
            rw new (register_at-Inv o log ssrc (position is_free o.slots) v (ground arith) refl)
      ]

retire_found-Inv :
    (o : SrtpOutbound) (log : List (ℕ × ℕ)) (ssrc : ℕ) (k : Option ℕ)
    → Inv o log
    → slot_of o ssrc ≡ k
    → Inv (retire_found o k) log
unfolding retire_found slot_of
retire_found-Inv o log ssrc none v e = v
retire_found-Inv o log ssrc (some k) v e =
    let (at, own) = position-some (owns ssrc) o.slots k empty e in
    record {
      single = λ s. ground (
        arith,
        owners-set s o.slots k (slot_at o k) (record (slot_at o k) { live = false }) at,
        v.single s,
      );
      unused = v.unused;
      good =
          set-good (Good o.ssrc_base o.next_offset log) o.slots k
            (record (slot_at o k) { live = false }) (λ l. absurd (false≢true l))
            (λ i x ne q l. v.good i x q l);
    }

-- `retire` keeps the invariant.
pub retire-Inv :
    (o : SrtpOutbound) (log : List (ℕ × ℕ)) (ssrc : ℕ) → Inv o log → Inv (retire o ssrc) log
unfolding retire
retire-Inv o log ssrc v = retire_found-Inv o log ssrc (slot_of o ssrc) v refl
