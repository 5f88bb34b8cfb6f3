-- ===== src/State/Orswot/Sound.antt =====
-- What every operation of the set in crdt/orswot.rs keeps.
use nexus_sfu.Base.{
  ℕ, ◌+◌, ◌-◌, ◌≤◌, ◌<◌, ◌≡◌, refl, inl, inr, true, none, some, [], ◌∷◌, arith, ltb, if◌then◌else◌,
  Bool-cases, length, get_elem?, get_or, set, length-append, length-set, count, count-set,
  count-pos,
}
use nexus_sfu.State.Orswot.{
  Dot, Entry, Orswot, with_capacity, holds, is_filled, has_tombstone, add_tombstone, no_entry,
  clear,
}

-- The count is that of the filled entries, no element has two, and both lists keep their limits.
pub record Sound (s : Orswot) : Type 0 where
  pub counted : s.len ≡ count is_filled s.entries
  pub single : (x : ℕ) → count (holds x) s.entries ≤ 1
  pub room : length s.entries ≤ s.max_elements
  pub ring : length s.tombstones ≤ s.max_tombstones
  pub next_fits : s.next_tombstone < s.max_tombstones
  pub buried : s.tombstone_count ≡ length s.tombstones

pub with_capacity-Sound : (n : ℕ) → 0 < n → Sound (with_capacity n)
unfolding with_capacity count
with_capacity-Sound n h = record {
  counted = refl;
  single = λ x. omega arith;
  room = omega arith;
  ring = omega arith;
  next_fits = omega arith;
  buried = refl;
}

pub add_tombstone-Sound : (s : Orswot) (d : Dot) → Sound s → Sound (add_tombstone s d)
unfolding add_tombstone
add_tombstone-Sound s d v = elim (Bool-cases (has_tombstone s d)) [
  | inl e ↦ rw e v
  | inr e ↦ rw e (elim (Bool-cases (ltb (length s.tombstones) s.max_tombstones)) [
    | inl r ↦ rw r (record {
      counted = v.counted;
      single = v.single;
      room = v.room;
      ring = ground (arith, length-append s.tombstones (d ∷ []));
      next_fits = v.next_fits;
      buried = omega (arith, v.buried, length-append s.tombstones (d ∷ []));
    })
    | inr r ↦ rw r (record {
      counted = v.counted;
      single = v.single;
      room = v.room;
      ring = omega (arith, v.ring, length-set s.tombstones s.next_tombstone d);
      next_fits = omega (arith, v.next_fits);
      buried = omega (arith, v.buried, length-set s.tombstones s.next_tombstone d);
    })
  ])
]

-- One entry is replaced.
pub set-Sound :
    (s : Orswot) (i : ℕ) (old new : Entry) (n : ℕ)
    → Sound s
    → get_elem? s.entries i ≡ some old
    → n + (if is_filled old then 1 else 0) ≡ s.len + (if is_filled new then 1 else 0)
    → ((x : ℕ)
        → (if holds x new then 1 else 0) + count (holds x) s.entries
          ≤ (if holds x old then 1 else 0) + 1)
    → Sound (record s { entries = set s.entries i new; len = n })
set-Sound s i old new n v at len one = record {
  counted = omega (arith, v.counted, len, count-set is_filled s.entries i old new at);
  single = λ x. omega (arith, one x, count-set (holds x) s.entries i old new at);
  room = omega (arith, v.room, length-set s.entries i new);
  ring = v.ring;
  next_fits = v.next_fits;
  buried = v.buried;
}

pub clear-Sound :
    (s : Orswot) (i : ℕ)
    → Sound s
    → get_elem? s.entries i ≡ some (get_or s.entries i no_entry)
    → is_filled (get_or s.entries i no_entry) ≡ true
    → Sound (clear s i)
unfolding clear
clear-Sound s i v at filled =
    let e = get_or s.entries i no_entry in
    set-Sound s i e (record e { element = none }) (s.len - 1) v at
      (ground (arith, v.counted, count-pos is_filled s.entries i e at filled))
      (λ x. ground (arith, v.single x))
