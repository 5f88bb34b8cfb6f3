-- ===== src/Media/Rtcp/Nack/Grouping.antt =====
-- What the entries of `encode_fci_entries` in rtcp/packet.rs name: the packets that were given, if there is
-- room for their entries.
use nexus_sfu.Base.{
  ℕ, zero, suc, ◌+◌, ◌-◌, ◌%◌, ◌^◌, ◌≤◌, ◌<◌, ◌≡◌, refl, ap, ◌∙◌, inl, inr, Bool, true, false, ◌&&◌,
  ◌||◌, List, [], ◌∷◌, arith, ℕ_discrete, ltb, leb, ◌==◌, Bool-cases, or_assoc, length, take, All,
  contains,
}
use nexus_sfu.Base.Slices.{take-whole}
use nexus_sfu.Base.Bits.{pow_mono, bit_or-lt}
use nexus_sfu.Media.Rtcp.Nack.{
  max_nack_packets, insert_sorted, sort, ahead, gather, group, encode_fci_entries, extend,
  max_fci_entries,
}
use nexus_sfu.Media.Rtcp.Nack.Masks.{
  names, ones, within, names-zero, ones-zero, names-set, ones-set,
}

abbrev pub IsSeq : ℕ → Type 0
IsSeq x = x < 65536

-- An entry is a packet and a mask of 16 bits.
abbrev pub IsEntry : ℕ × ℕ → Type 0
IsEntry (pid, blp) = (pid < 65536) × (blp < 65536)

-- Some entry names the packet.
unfoldable pub covers : List (ℕ × ℕ) → ℕ → Bool
covers [] seq = false
covers ((pid, blp) ∷ es) seq = (seq == pid || names 16 0 pid blp seq) || covers es seq

-- How many packets the entries name.
unfoldable pub pushes : List (ℕ × ℕ) → ℕ
pushes [] = 0
pushes ((pid, blp) ∷ es) = 1 + ones 16 0 blp + pushes es

contains-insert_sorted :
    (seq x : ℕ) (xs : List ℕ) → contains seq (insert_sorted x xs) ≡ (seq == x || contains seq xs)
unfolding contains insert_sorted
contains-insert_sorted seq x [] = refl
contains-insert_sorted seq x (y ∷ ys) = ground (arith, contains-insert_sorted seq x ys)

contains-sort : (seq : ℕ) (xs : List ℕ) → contains seq (sort xs) ≡ contains seq xs
unfolding contains sort
contains-sort seq [] = refl
contains-sort seq (x ∷ xs) =
    contains-insert_sorted seq x (sort xs) ∙ ap (λ b. seq == x || b) (contains-sort seq xs)

length-insert_sorted : (x : ℕ) (xs : List ℕ) → length (insert_sorted x xs) ≡ suc (length xs)
unfolding insert_sorted
length-insert_sorted x [] = refl
length-insert_sorted x (y ∷ ys) = ground (arith, length-insert_sorted x ys)

length-sort : (xs : List ℕ) → length (sort xs) ≡ length xs
unfolding sort
length-sort [] = refl
length-sort (x ∷ xs) = omega (arith, length-insert_sorted x (sort xs), length-sort xs)

All-insert_sorted : (x : ℕ) (xs : List ℕ) → IsSeq x → All IsSeq xs → All IsSeq (insert_sorted x xs)
unfolding insert_sorted
All-insert_sorted x [] hx v = (hx, tt)
All-insert_sorted x (y ∷ ys) hx (hy, v) =
    let rest = All-insert_sorted x ys hx v in
    elim (Bool-cases (leb x y)) [ inl e ↦ rw e (hx, (hy, v)) | inr e ↦ rw e (hy, rest) ]

All-sort : (xs : List ℕ) → All IsSeq xs → All IsSeq (sort xs)
unfolding sort
All-sort [] v = tt
All-sort (x ∷ xs) (hx, v) = All-insert_sorted x (sort xs) hx (All-sort xs v)

-- What a mask and the packets that are left name, besides the entry's own.
abbrev named_by : ℕ → ℕ × List ℕ → ℕ → Bool
named_by pid (blp, seqs) seq = seq == pid || (names 16 0 pid blp seq || contains seq seqs)

abbrev Gathers : ℕ → ℕ × List ℕ → ℕ × List ℕ → ℕ → Type 0
Gathers pid from to seq =
    (named_by pid to seq ≡ named_by pid from seq)
    × ((ones 16 0 to.0 + length to.1 ≤ ones 16 0 from.0 + length from.1)
        × ((length to.1 ≤ length from.1) × ((to.0 < 65536) × All IsSeq to.1)))

or_moved : (p n x c : Bool) → (p || ((n || x) || c)) ≡ (p || (n || (x || c)))
or_moved true n x c = refl
or_moved false true x c = refl
or_moved false false x c = refl

or_twice : (p n c : Bool) → (p || (n || c)) ≡ (p || (n || (p || c)))
or_twice true n c = refl
or_twice false n c = refl

extend-named_by :
    (pid blp x : ℕ) (xs : List ℕ) (seq : ℕ)
    → pid < 65536
    → x < 65536
    → ahead pid x ≤ 16
    → named_by pid (extend pid blp x, xs) seq ≡ named_by pid (blp, x ∷ xs) seq
unfolding contains extend
extend-named_by pid blp x xs seq hp hx near = elim (ℕ_discrete (ahead pid x) 0) [
  | yes e ↦
      let same : x ≡ pid = omega (arith, e) in
      let off : (leb 1 (ahead pid x) && leb (ahead pid x) 16) ≡ false = ground arith in
      rw (off, same) (or_twice (seq == pid) (names 16 0 pid blp seq) (contains seq xs))
  | no ne ↦
      let d = ahead pid x in
      let on : (leb 1 d && leb d 16) ≡ true = ground arith in
      let in_mask : within 0 16 (d - 1) ≡ true = ground arith in
      let back : (pid + (d - 1 + 1)) % 65536 ≡ x = omega (arith, ne) in
      rw (on, names-set 16 0 pid blp (d - 1) seq, in_mask, back)
        (or_moved (seq == pid) (names 16 0 pid blp seq) (seq == x) (contains seq xs))
]

extend-lt : (pid blp x : ℕ) → blp < 65536 → extend pid blp x < 65536
unfolding extend
extend-lt pid blp x h =
    let d = ahead pid x in
    elim (Bool-cases (leb 1 d && leb d 16)) [
      | inl e ↦ rw e (bit_or-lt 16 blp (2 ^ (d - 1)) h (pow_mono (d - 1) 16 (ground arith)))
      | inr e ↦ rw e h
    ]

ones-extend : (pid blp x : ℕ) → ones 16 0 (extend pid blp x) ≤ ones 16 0 blp + 1
unfolding extend
ones-extend pid blp x =
    let d = ahead pid x in
    let more = ones-set 16 0 blp (d - 1) in
    elim (Bool-cases (leb 1 d && leb d 16)) [
      | inl e ↦ rw e (ground (arith, more))
      | inr e ↦ rw e (omega arith)
    ]

gather-Gathers :
    (pid blp : ℕ) (xs : List ℕ) (seq : ℕ)
    → pid < 65536
    → blp < 65536
    → All IsSeq xs
    → Gathers pid (blp, xs) (gather pid blp xs) seq
unfolding gather
gather-Gathers pid blp [] seq hp hb v = (refl, (omega arith, (omega arith, (hb, tt))))
gather-Gathers pid blp (x ∷ xs) seq hp hb (hx, v) =
    let (named, (fewer, (shorter, (mask, v')))) =
      gather-Gathers pid (extend pid blp x) xs seq hp (extend-lt pid blp x hb) v in
    elim (Bool-cases (ltb 16 (ahead pid x))) [
      | inl e ↦ rw e (refl, (omega arith, (omega arith, (hb, (hx, v)))))
      | inr e ↦
          let near : ahead pid x ≤ 16 = ground arith in
          rw e (
            named ∙ extend-named_by pid blp x xs seq hp hx near,
            (omega (arith, fewer, ones-extend pid blp x), (omega (arith, shorter), (mask, v'))),
          )
    ]

-- Entries with room for all the packets name just these, and no more of them than there are.
abbrev pub Groups : List (ℕ × ℕ) → List ℕ → ℕ → Type 0
Groups es xs seq =
    (covers es seq ≡ contains seq xs)
    × ((pushes es ≤ length xs) × ((length es ≤ length xs) × All IsEntry es))

group-Groups :
    (room : ℕ) (xs : List ℕ) (seq : ℕ)
    → All IsSeq xs
    → length xs ≤ room
    → Groups (group room xs) xs seq
unfolding group covers pushes contains
group-Groups zero [] seq v few = (refl, (omega arith, (omega arith, tt)))
group-Groups zero (x ∷ xs) seq v few = elim few [ ]
group-Groups (suc room) [] seq v few = (refl, (omega arith, (omega arith, tt)))
group-Groups (suc room) (pid ∷ xs) seq (hp, v) few =
    let g = gather pid 0 xs in
    let (named, (fewer, (shorter, (mask, v')))) = gather-Gathers pid 0 xs seq hp (omega arith) v in
    let (c, (p, (l, w))) = group-Groups room g.1 seq v' (omega (arith, shorter)) in
    let plain = names-zero 16 0 pid seq in
    (
      or_assoc (seq == pid) (names 16 0 pid g.0 seq) (covers (group room g.1) seq)
          ∙ rw c (named ∙ rw plain refl),
      (omega (arith, fewer, p, ones-zero 16 0), (omega (arith, l, shorter), ((hp, mask), w))),
    )

grouped-Groups :
    (cap room : ℕ) (lost : List ℕ) (seq : ℕ)
    → All IsSeq lost
    → length lost ≤ cap
    → length lost ≤ room
    → Groups (group room (sort (take cap lost))) lost seq
grouped-Groups cap room lost seq v fits few =
    let (c, (p, (l, w))) =
      group-Groups room (sort lost) seq (All-sort lost v) (omega (arith, few, length-sort lost)) in
    let same = length-sort lost in
    rw (take-whole cap lost fits)
      (c ∙ contains-sort seq lost, (omega (arith, same, p), (omega (arith, same, l), w)))

-- At most 32 losses are all named, and nothing else is.
pub encode_fci_entries-Groups :
    (lost : List ℕ) (seq : ℕ)
    → All IsSeq lost
    → length lost ≤ max_fci_entries
    → Groups (encode_fci_entries lost) lost seq
unfolding encode_fci_entries
encode_fci_entries-Groups lost seq v few =
    grouped-Groups max_nack_packets max_fci_entries lost seq v (omega arith) few
