-- ===== src/State/Orswot/Additions.antt =====
-- What an addition to the set in crdt/orswot.rs keeps.
use nexus_sfu.Base.{
  ℕ, ◌+◌, ◌<◌, ◌≡◌, refl, ap, inl, inr, Bool, true, false, Option, none, some, List, [], ◌∷◌, arith,
  ℕ_discrete, leb, ◌==◌, if◌then◌else◌, Bool-cases, length, get_or, length-append, position,
  position-some, position-none, count, count-none, count-append, count-all,
}
use nexus_sfu.State.Orswot.{
  Dot, Entry, Orswot, holds, holds_at, is_filled, is_filled_at, is_vacant, is_tombstoned, no_entry,
  place, add_at, add, dot_less, max_actors,
}
use nexus_sfu.State.Orswot.Sound.{Sound, set-Sound}

pub holds-filled : (x : ℕ) (o : Option ℕ) → holds_at x o ≡ true → is_filled_at o ≡ true
holds-filled x none h = h
holds-filled x (some y) h = refl

pub vacant-holds : (x : ℕ) (o : Option ℕ) → is_filled_at o ≡ false → holds_at x o ≡ false
vacant-holds x none h = refl
vacant-holds x (some y) h = cc

count-one : (p : Entry → Bool) (e : Entry) → count p (e ∷ []) ≡ (if p e then 1 else 0)
unfolding count
count-one p e = refl

all_filled : (es : List Entry) → position is_vacant es ≡ none → count is_filled es ≡ length es
all_filled es e =
    count-all is_filled es (λ i x q. ground (arith, position-none is_vacant es i x e q))

pub place-Sound :
    (s : Orswot) (x : ℕ) (d : Dot) (i : Option ℕ)
    → Sound s
    → position (holds x) s.entries ≡ none
    → s.len < s.max_elements
    → position is_vacant s.entries ≡ i
    → Sound (place s (record { element = some x; dot = d }) i)
unfolding place
place-Sound s x d (some i) v new room e =
    let (at, vacant) = position-some is_vacant s.entries i no_entry e in
    let old = get_or s.entries i no_entry in
    let empty : is_filled old ≡ false = ground arith in
    let nobody =
      count-none (holds x) s.entries (λ j y q. position-none (holds x) s.entries j y new q) in
    set-Sound s i old (record { element = some x; dot = d }) (s.len + 1) v at (ground arith)
      (λ y. elim (ℕ_discrete x y) [
        | yes same ↦ ground (
          arith,
          nobody,
          ap (λ n. count (holds n) s.entries) same,
          vacant-holds y old.element empty,
        )
        | no other ↦ ground (arith, v.single y, vacant-holds y old.element empty)
      ])
place-Sound s x d none v new room e =
    let added : Entry = record { element = some x; dot = d } in
    let full = all_filled s.entries e in
    let nobody =
      count-none (holds x) s.entries (λ j y q. position-none (holds x) s.entries j y new q) in
    let size = length-append s.entries (added ∷ []) in
    record {
      counted = omega (
        arith,
        v.counted,
        count-append is_filled s.entries (added ∷ []),
        count-one is_filled added,
      );
      single = λ y. elim (ℕ_discrete x y) [
        | yes same ↦ ground (
          arith,
          nobody,
          ap (λ n. count (holds n) s.entries) same,
          count-append (holds y) s.entries (added ∷ []),
          count-one (holds y) added,
        )
        | no other ↦ ground (
          arith,
          v.single y,
          count-append (holds y) s.entries (added ∷ []),
          count-one (holds y) added,
        )
      ];
      room = omega (arith, v.counted, full, room, size);
      ring = v.ring;
      next_fits = v.next_fits;
      buried = v.buried;
    }

-- Where a new slot is needed there is room for one: the assertion of `add` holds.
pub add-room :
    (s : Orswot)
    → Sound s
    → s.len < s.max_elements
    → position is_vacant s.entries ≡ none
    → length s.entries < s.max_elements
add-room s v room e = omega (arith, v.counted, all_filled s.entries e)

pub add_at-Sound :
    (s : Orswot) (x : ℕ) (d : Dot) (i : Option ℕ)
    → Sound s
    → position (holds x) s.entries ≡ i
    → Sound (add_at s x d i).1
unfolding add_at
add_at-Sound s x d (some i) v e =
    let (at, own) = position-some (holds x) s.entries i no_entry e in
    let old = get_or s.entries i no_entry in
    elim (Bool-cases (dot_less old.dot d)) [
      | inl newer ↦ rw newer (
          set-Sound s i old (record old { dot = d }) s.len v at refl
            (λ y. ground (arith, v.single y)))
      | inr older ↦ rw older v
    ]
add_at-Sound s x d none v e = elim (Bool-cases (leb s.max_elements s.len)) [
  | inl full ↦ rw full v
  | inr room ↦ rw room (place-Sound s x d (position is_vacant s.entries) v e (ground arith) refl)
]

pub add-Sound : (s : Orswot) (x : ℕ) (d : Dot) → Sound s → Sound (add s x d).1
unfolding add
add-Sound s x d v = elim (Bool-cases (leb max_actors d.actor_id)) [
  | inl a ↦ rw a v
  | inr a ↦ rw a (elim (Bool-cases (d.clock == 0)) [
    | inl z ↦ rw z v
    | inr z ↦ rw z (elim (Bool-cases (is_tombstoned s d)) [
      | inl t ↦ rw t v
      | inr t ↦ rw t (add_at-Sound s x d (position (holds x) s.entries) v refl)
    ])
  ])
]
