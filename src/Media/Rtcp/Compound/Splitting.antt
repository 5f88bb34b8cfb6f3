-- ===== src/Media/Rtcp/Compound/Splitting.antt =====
-- What the demultiplexer of rtcp/compound.rs finds.
use nexus_sfu.Base.{
  ℕ, zero, suc, ◌+◌, ◌-◌, ◌≤◌, ◌<◌, ◌≡◌, refl, sym, ap, subst, ◌∙◌, ◌↔◌, inl, inr, Bool, true,
  false, ◌&&◌, List, [], ◌∷◌, ◌++◌, arith, leb, ◌==◌, Bool-cases, length, take, drop, length-append,
  length-take, length-drop, ok, err,
}
use nexus_sfu.Base.Slices.{take-append, drop-append, drop-drop}
use nexus_sfu.Media.Rtcp.{
  RtcpError, too_short, invalid_version, Parsed, ◌>>=◌, ◌>>◌, ensure, RtcpHeader, parse_header,
  packet_len_bytes, version_of, rtcp_version, rtcp_header_min_size_bytes,
}
use nexus_sfu.Media.Rtcp.Compound.{CompoundEntry, max_compound_packets, demux_from, demux_compound}

-- A datagram is its packets, one after the other, each as long as its header says, up to a rest that is
-- too short for a header or comes after so many packets.
pub data Splits : ℕ → List ℕ → List CompoundEntry → Type 0 where
  no_more :
      (room : ℕ) (bytes : List ℕ)
      → length bytes < rtcp_header_min_size_bytes
      → Splits (suc room) bytes []
  no_room : (bytes : List ℕ) → Splits zero bytes []
  packet :
      (room : ℕ) (h : RtcpHeader) (all bytes rest : List ℕ) (es : List CompoundEntry)
      → all ≡ bytes ++ rest
      → rtcp_header_min_size_bytes ≤ length all
      → parse_header all ≡ ok h
      → length bytes ≡ packet_len_bytes h
      → Splits room rest es
      → Splits (suc room) all (record { header = h; bytes = bytes } ∷ es)

take-drop : (n : ℕ) (xs : List ℕ) → take n xs ++ drop n xs ≡ xs
take-drop zero xs = refl
take-drop (suc n) [] = refl
take-drop (suc n) (x ∷ xs) = ap (λ ys. x ∷ ys) (take-drop n xs)

-- A successful bind.
bind-ok :
    {A : Type 0} (m : Parsed A) (f : A → Parsed (List CompoundEntry)) (es : List CompoundEntry)
    → (m >>= f) ≡ ok es
    → (a : A) × (m ≡ ok a) × (f a ≡ ok es)
bind-ok (ok a) f es h = (a, refl, h)
bind-ok (err e) f es h = cc

ensured :
    (test : Bool) (e : RtcpError) (f : Parsed (List CompoundEntry)) (es : List CompoundEntry)
    → (ensure test e >> f) ≡ ok es
    → (test ≡ true) × (f ≡ ok es)
ensured true e f es h = (refl, h)
ensured false e f es h = cc

ok_eq : {A : Type 0} {a b : A} → ◌≡◌ {A = Parsed A} (ok a) (ok b) → a ≡ b
ok_eq h = cc

demux_from-Splits :
    (room : ℕ) (datagram : List ℕ) (offset : ℕ) (es : List CompoundEntry)
    → demux_from room datagram offset ≡ ok es
    → Splits room (drop offset datagram) es
unfolding demux_from
demux_from-Splits zero datagram offset es h =
    subst (Splits zero (drop offset datagram)) (ok_eq h) (no_room (drop offset datagram))
demux_from-Splits (suc room) datagram offset es h =
    elim (Bool-cases (leb (offset + 8) (length datagram))) [
      | inl more ↦
          let here = drop offset datagram in
          let body = rw more at h in
          let (version, rest1) =
            ensured (version_of here == rtcp_version) (invalid_version (version_of here)) _ es
              body in
          let (header, parsed, rest2) = bind-ok (parse_header here) _ es rest1 in
          let n = packet_len_bytes header in
          let (fits, rest3) =
            ensured (leb 4 n && leb (offset + n) (length datagram))
              (too_short (length datagram - offset) n) _ es rest2 in
          let (tail, found, done) = bind-ok (demux_from room datagram (offset + n)) _ es rest3 in
          let later = demux_from-Splits room datagram (offset + n) tail found in
          subst (Splits (suc room) here) (ok_eq done) (
            packet room header here (take n here) (drop (offset + n) datagram) tail
              (sym (take-drop n here) ∙ ap (λ xs. take n here ++ xs) (drop-drop offset n datagram))
              (ground (arith, length-drop offset datagram)) parsed
              (ground (arith, length-take n here, length-drop offset datagram)) later)
      | inr done ↦
          let nothing = rw done at h in
          subst (Splits (suc room) (drop offset datagram)) (ok_eq nothing)
            (no_more room (drop offset datagram) (ground (arith, length-drop offset datagram)))
    ]

header_version :
    (bytes : List ℕ) (h : RtcpHeader)
    → parse_header bytes ≡ ok h
    → (version_of bytes == rtcp_version) ≡ true
unfolding parse_header
header_version bytes h e = elim (Bool-cases (version_of bytes == rtcp_version)) [
  | inl good ↦ good
  | inr bad ↦ ground arith
]

packet_len_pos : (h : RtcpHeader) → 4 ≤ packet_len_bytes h
unfolding packet_len_bytes
packet_len_pos h = omega arith

Splits-demux_from :
    (room : ℕ) (datagram here : List ℕ) (offset : ℕ) (es : List CompoundEntry)
    → drop offset datagram ≡ here
    → Splits room here es
    → demux_from room datagram offset ≡ ok es
unfolding demux_from
Splits-demux_from zero datagram here offset es e (no_room bytes) = refl
Splits-demux_from (suc room) datagram here offset es e (no_more r bytes short) =
    ground (arith, length-drop offset datagram, ap length e)
Splits-demux_from (suc room) datagram here offset es e
      (packet r h all bytes rest tail split long parsed size later) =
    let n = packet_len_bytes h in
    let more : leb (offset + 8) (length datagram) ≡ true =
      ground (arith, length-drop offset datagram, ap length e) in
    let fits : (leb 4 n && leb (offset + n) (length datagram)) ≡ true = ground (
      arith,
      packet_len_pos h,
      length-drop offset datagram,
      ap length e,
      ap length split,
      length-append bytes rest,
    ) in
    let after : drop (offset + n) datagram ≡ rest =
      sym (drop-drop offset n datagram)
      ∙ ap (drop n) (e ∙ split)
      ∙ ap (λ k. drop k (bytes ++ rest)) (sym size)
      ∙ drop-append bytes rest in
    let own : take n all ≡ bytes =
      ap (take n) split ∙ ap (λ k. take k (bytes ++ rest)) (sym size) ∙ take-append bytes rest in
    let found = Splits-demux_from room datagram rest (offset + n) tail after later in
    rw (more, e, header_version all h parsed, parsed, fits, found, own) refl

-- The demultiplexer succeeds with just those packets that the datagram is split into.
pub demux_compound-Splits :
    (datagram : List ℕ) (es : List CompoundEntry)
    → (demux_compound datagram ≡ ok es) ↔ Splits max_compound_packets datagram es
unfolding demux_compound
demux_compound-Splits datagram es = (
  demux_from-Splits max_compound_packets datagram 0 es,
  Splits-demux_from max_compound_packets datagram datagram 0 es refl,
)
