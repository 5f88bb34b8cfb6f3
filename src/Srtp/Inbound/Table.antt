-- ===== src/Srtp/Inbound/Table.antt =====
-- The slots that `slot_for` and `slot_to_replace` of srtp/direction.rs find.
use nexus_sfu.Base.{
  ℕ, zero, suc, ◌+◌, ◌-◌, ◌<◌, ◌≡◌, refl, ap, ◌∙◌, ◌⊎◌, inl, inr, true, false, not, ◌&&◌, Option,
  none, some, List, [], ◌∷◌, arith, ltb, if◌then◌else◌, Bool-cases, get_elem?, get_or, position,
  position-some,
}
use nexus_sfu.Srtp.Inbound.{
  SsrcIn, empty, SrtpInbound, owns, is_free, or_else, first_of, older, oldest, slot_to_replace,
  idler, evictable, scan, slot_for, inbound_idle_evict_s,
}

-- Slot `k` exists and its state has the property.
abbrev pub At : List SsrcIn → ℕ → (SsrcIn → Type 0) → Type 0
At xs k P = (x : SsrcIn) × (get_elem? xs k ≡ some x) × P x

-- A slot that a new SSRC may take.
abbrev pub Replaceable : ℕ → SsrcIn → Type 0
Replaceable now_s x =
    (x.live ≡ false) ⊎ ((x.pinned ≡ false) × (inbound_idle_evict_s < now_s - x.last_seen_s))

abbrev FreeOk : List SsrcIn → Option ℕ → Type 0
FreeOk all none = Unit {0}
FreeOk all (some k) = At all k (λ x. x.live ≡ false)

abbrev IdleOk : List SsrcIn → ℕ → Option (ℕ × ℕ) → Type 0
IdleOk all now_s none = Unit {0}
IdleOk all now_s (some (k, idle)) =
    At all k (λ x. (x.pinned ≡ false) × (idle ≡ now_s - x.last_seen_s))

abbrev Nobody : ℕ → List SsrcIn → Type 0
Nobody ssrc xs = (j : ℕ) (x : SsrcIn) → get_elem? xs j ≡ some x → owns ssrc x ≡ false

-- The slot found holds the SSRC, or no slot does and it may be taken.
abbrev pub Found : List SsrcIn → ℕ → ℕ → List SsrcIn → Option ℕ → Type 0
Found all ssrc now_s xs none = Unit {0}
Found all ssrc now_s xs (some k) =
    At all k (λ x. owns ssrc x ≡ true) ⊎ (Nobody ssrc xs × At all k (Replaceable now_s))

scan_end :
    (all : List SsrcIn) (ssrc now_s : ℕ) (free : Option ℕ) (idlest : Option (ℕ × ℕ))
    → FreeOk all free
    → IdleOk all now_s idlest
    → Found all ssrc now_s [] (or_else free (evictable idlest))
unfolding evictable
scan_end all ssrc now_s (some k) idlest (x, e, dead) i = inr (λ j y h. cc, (x, e, inl dead))
scan_end all ssrc now_s none none f i = tt
scan_end all ssrc now_s none (some (k, idle)) f (x, e, (unpinned, same)) =
    elim (Bool-cases (ltb inbound_idle_evict_s idle)) [
      | inl h ↦ rw h (inr (λ j y h. cc, (x, e, inr (unpinned, ground arith))))
      | inr h ↦ rw h tt
    ]

or_else-FreeOk :
    (all : List SsrcIn) (i : ℕ) (x : SsrcIn) (free : Option ℕ)
    → get_elem? all i ≡ some x
    → x.live ≡ false
    → FreeOk all free
    → FreeOk all (or_else free (some i))
or_else-FreeOk all i x none here dead f = (x, here, dead)
or_else-FreeOk all i x (some k) here dead f = f

idler-IdleOk :
    (all : List SsrcIn) (now_s i : ℕ) (x : SsrcIn) (idlest : Option (ℕ × ℕ))
    → get_elem? all i ≡ some x
    → x.pinned ≡ false
    → IdleOk all now_s idlest
    → IdleOk all now_s (idler now_s i x idlest)
unfolding idler
idler-IdleOk all now_s i x none here unpinned f = (x, here, (unpinned, refl))
idler-IdleOk all now_s i x (some (k, most)) here unpinned f =
    elim (Bool-cases (ltb most (now_s - x.last_seen_s))) [
      | inl h ↦ rw h (x, here, (unpinned, refl))
      | inr h ↦ rw h f
    ]

Nobody-cons :
    (ssrc : ℕ) (x : SsrcIn) (xs : List SsrcIn)
    → owns ssrc x ≡ false
    → Nobody ssrc xs
    → Nobody ssrc (x ∷ xs)
Nobody-cons ssrc x xs other nobody zero y e = ground arith
Nobody-cons ssrc x xs other nobody (suc j) y e = nobody j y e

free_next :
    (all : List SsrcIn) (i : ℕ) (x : SsrcIn) (free : Option ℕ)
    → get_elem? all i ≡ some x
    → FreeOk all free
    → FreeOk all (if x.live then free else or_else free (some i))
free_next all i x free here f = elim (Bool-cases x.live) [
  | inl e ↦ rw e f
  | inr e ↦ rw e (or_else-FreeOk all i x free here e f)
]

idle_next :
    (all : List SsrcIn) (now_s i : ℕ) (x : SsrcIn) (idlest : Option (ℕ × ℕ))
    → get_elem? all i ≡ some x
    → IdleOk all now_s idlest
    → IdleOk all now_s (if x.live && not x.pinned then idler now_s i x idlest else idlest)
idle_next all now_s i x idlest here d = elim (Bool-cases (x.live && not x.pinned)) [
  | inl e ↦ rw e (idler-IdleOk all now_s i x idlest here (ground arith) d)
  | inr e ↦ rw e d
]

Found-cons :
    (all : List SsrcIn) (ssrc now_s : ℕ) (x : SsrcIn) (xs : List SsrcIn) (r : Option ℕ)
    → owns ssrc x ≡ false
    → Found all ssrc now_s xs r
    → Found all ssrc now_s (x ∷ xs) r
Found-cons all ssrc now_s x xs none other f = tt
Found-cons all ssrc now_s x xs (some k) other (inl at) = inl at
Found-cons all ssrc now_s x xs (some k) other (inr (nobody, at)) =
    inr (Nobody-cons ssrc x xs other nobody, at)

scan-Found :
    (all : List SsrcIn) (ssrc now_s i : ℕ) (free : Option ℕ) (idlest : Option (ℕ × ℕ))
    (xs : List SsrcIn)
    → ((j : ℕ) → get_elem? all (i + j) ≡ get_elem? xs j)
    → FreeOk all free
    → IdleOk all now_s idlest
    → Found all ssrc now_s xs (scan ssrc now_s i free idlest xs)
unfolding scan
scan-Found all ssrc now_s i free idlest [] link f d = scan_end all ssrc now_s free idlest f d
scan-Found all ssrc now_s i free idlest (x ∷ xs) link f d =
    let here : get_elem? all i ≡ some x = ap (get_elem? all) (omega arith) ∙ link 0 in
    let link' : (j : ℕ) → get_elem? all (i + 1 + j) ≡ get_elem? xs j =
      λ j. ap (get_elem? all) (omega arith) ∙ link (suc j) in
    elim (Bool-cases (owns ssrc x)) [
      | inl e ↦ rw e (inl (x, here, e))
      | inr e ↦ rw e (
          Found-cons all ssrc now_s x xs
            (scan ssrc now_s (i + 1) (if x.live then free else or_else free (some i))
              (if x.live && not x.pinned then idler now_s i x idlest else idlest) xs)
            e
            (scan-Found all ssrc now_s (i + 1) (if x.live then free else or_else free (some i))
              (if x.live && not x.pinned then idler now_s i x idlest else idlest) xs link'
              (free_next all i x free here f) (idle_next all now_s i x idlest here d)))
    ]

pub slot_for-Found :
    (s : SrtpInbound) (ssrc now_s : ℕ) → Found s.slots ssrc now_s s.slots (slot_for s ssrc now_s)
unfolding slot_for
slot_for-Found s ssrc now_s =
    scan-Found s.slots ssrc now_s 0 none none s.slots (λ j. ap (get_elem? s.slots) (omega arith)) tt
      tt

-- The slot that `pin` takes for a new SSRC is free or not pinned.
abbrev pub Takes : List SsrcIn → Option ℕ → Type 0
Takes all none = Unit {0}
Takes all (some k) = At all k (λ x. (x.live ≡ false) ⊎ (x.pinned ≡ false))

older-Takes :
    (all : List SsrcIn) (i : ℕ) (x : SsrcIn) (r : Option (ℕ × ℕ))
    → get_elem? all i ≡ some x
    → x.pinned ≡ false
    → Takes all (first_of r)
    → Takes all (first_of (older i x r))
unfolding older
older-Takes all i x none here e t = (x, here, inr e)
older-Takes all i x (some (j, time)) here e t = elim (Bool-cases (ltb time x.last_seen_s)) [
  | inl h ↦ rw h t
  | inr h ↦ rw h (x, here, inr e)
]

oldest-Takes :
    (all : List SsrcIn) (i : ℕ) (xs : List SsrcIn)
    → ((j : ℕ) → get_elem? all (i + j) ≡ get_elem? xs j)
    → Takes all (first_of (oldest i xs))
unfolding oldest
oldest-Takes all i [] link = tt
oldest-Takes all i (x ∷ xs) link =
    let here : get_elem? all i ≡ some x = ap (get_elem? all) (omega arith) ∙ link 0 in
    let link' : (j : ℕ) → get_elem? all (i + 1 + j) ≡ get_elem? xs j =
      λ j. ap (get_elem? all) (omega arith) ∙ link (suc j) in
    elim (Bool-cases x.pinned) [
      | inl e ↦ rw e (oldest-Takes all (i + 1) xs link')
      | inr e ↦
          rw e (older-Takes all i x (oldest (i + 1) xs) here e (oldest-Takes all (i + 1) xs link'))
    ]

or_else-Takes :
    (all : List SsrcIn) (a b : Option ℕ) → Takes all a → Takes all b → Takes all (or_else a b)
or_else-Takes all none b s t = t
or_else-Takes all (some k) b s t = s

free-Takes : (all : List SsrcIn) (r : Option ℕ) → position is_free all ≡ r → Takes all r
free-Takes all none e = tt
free-Takes all (some k) e =
    let (at, free) = position-some is_free all k empty e in
    (get_or all k empty, at, inl (ground arith))

pub slot_to_replace-Takes : (s : SrtpInbound) → Takes s.slots (slot_to_replace s)
unfolding slot_to_replace
slot_to_replace-Takes s =
    or_else-Takes s.slots (position is_free s.slots) (first_of (oldest 0 s.slots))
      (free-Takes s.slots (position is_free s.slots) refl)
      (oldest-Takes s.slots 0 s.slots (λ j. ap (get_elem? s.slots) (omega arith)))
