-- ===== src/Dataplane/Ext/Total.antt =====
-- The iterator of ext.rs ends: it gives at most 16 elements, on any bytes.
use nexus_sfu.Base.{
  ℕ, zero, suc, ◌+◌, ◌≤◌, ◌≡◌, refl, sym, ap, ◌∙◌, inl, inr, Option, none, some, List, [], ◌∷◌,
  arith, ◌==◌, Bool-cases, get_elem?, drop,
}
use nexus_sfu.Dataplane.Ext.{
  Element, Elements, skip_padding, element_head, take_slice, take_element, next_at, next,
  collect_next, collect, slice?, max_elements,
}

-- A step ends the iteration, or gives an element and counts it.
abbrev Steps : Elements → Option Element × Elements → Type 0
Steps it (none, it') = Unit {0}
Steps it (some e, it') = it'.seen ≡ it.seen + 1

take_slice-Steps :
    (it : Elements) (id end : ℕ) (r : Option (List ℕ)) → Steps it (take_slice it id end r)
unfolding take_slice
take_slice-Steps it id end none = tt
take_slice-Steps it id end (some bytes) = refl

take_element-Steps : (it : Elements) (r : Option (ℕ × ℕ × ℕ)) → Steps it (take_element it r)
unfolding take_element
take_element-Steps it none = tt
take_element-Steps it (some (id, len, data_at)) =
    take_slice-Steps it id (data_at + len) (slice? it.block data_at len)

next_at-Steps : (it : Elements) (r : Option ℕ) → Steps it (next_at it r)
unfolding next_at
next_at-Steps it none = tt
next_at-Steps it (some first) =
    take_element-Steps it (element_head it.block it.two_byte it.at first)

next-Steps : (it : Elements) → Steps it (next it)
unfolding next
next-Steps it = elim (Bool-cases (it.seen == max_elements)) [
  | inl e ↦ rw e tt
  | inr e ↦
      let it' : Elements = record it {
        at = skip_padding it.two_byte (drop it.at it.block) it.at;
      } in
      rw e (next_at-Steps it' (get_elem? it'.block it'.at))
]

next-last : (it : Elements) → it.seen ≡ 16 → next it ≡ (none, it)
unfolding next
next-last it e = rw e refl

collect-last : (it : Elements) (fuel : ℕ) → it.seen ≡ 16 → collect fuel it ≡ []
unfolding collect
collect-last it zero e = refl
collect-last it (suc fuel) e = rw (next-last it e) refl

more_rounds :
    (it : Elements) (r : Option Element × Elements) (f g : Elements → List Element)
    → Steps it r
    → ((it' : Elements) → it'.seen ≡ it.seen + 1 → f it' ≡ g it')
    → collect_next f r ≡ collect_next g r
unfolding collect_next
more_rounds it (none, it') f g h same = refl
more_rounds it (some e, it') f g h same = ap (λ xs. e ∷ xs) (same it' h)

-- Once `fuel` covers the elements that may still come, more rounds change nothing, on any bytes:
-- the loop over the iterator has ended by itself.
pub collect-enough :
    (fuel more : ℕ) (it : Elements)
    → it.seen ≤ 16
    → 16 ≤ it.seen + fuel
    → collect (fuel + more) it ≡ collect fuel it
unfolding collect
collect-enough zero more it h enough = collect-last it (0 + more) (omega arith)
collect-enough (suc fuel) more it h enough = elim (Bool-cases (it.seen == 16)) [
  | inl e ↦
      collect-last it (suc fuel + more) (ground arith)
      ∙ sym (collect-last it (suc fuel) (ground arith))
  | inr e ↦
      let same : suc fuel + more ≡ suc (fuel + more) = omega arith in
      ap (λ n. collect n it) same
      ∙ more_rounds it (next it) (collect (fuel + more)) (collect fuel) (next-Steps it)
          (λ it' s. collect-enough fuel more it' (ground arith) (ground arith))
]
