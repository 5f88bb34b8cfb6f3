-- ===== src/Media/Rtcp/Nack/Overrun.antt =====
-- How many packets `NackPacket::parse` of rtcp/packet.rs reports.
use nexus_sfu.Base.{
  ℕ, zero, suc, ◌+◌, ◌%◌, ◌≤◌, ◌<◌, min, ◌≡◌, ap, ◌↔◌, inl, inr, true, ◌&&◌, List, [], ◌∷◌, ◌++◌,
  arith, ℕ_discrete, ltb, leb, Bool-cases, length, length-snoc, ok, err,
}
use nexus_sfu.Base.Bytes.{be_u16, be_u32}
use nexus_sfu.Base.Bits.{bit-lt}
use nexus_sfu.Media.Rtcp.{Parsed, ◌>>◌, check_start, check_fmt}
use nexus_sfu.Media.Rtcp.Nack.{
  max_nack_packets, is_set, push_bits, push_entry, fci_loop, NackPacket, parse_nack, rtcp_rtpfb_pt,
}
use nexus_sfu.Media.Rtcp.Nack.Masks.{ones}

-- Below the bound the loop over the mask stops there.
length-push_bits :
    (n k pid blp : ℕ) (lost : List ℕ)
    → length lost < 64
    → length (push_bits n k pid blp lost) ≡ min (length lost + ones n k blp) 64
unfolding push_bits ones
length-push_bits zero k pid blp lost h = omega arith
length-push_bits (suc n) k pid blp lost h =
    let new = (pid + (k + 1)) % 65536 in
    elim (Bool-cases (is_set blp k)) [
      | inl e ↦ elim (Bool-cases (leb 64 (length (lost ++ (new ∷ []))))) [
        | inl full ↦ rw (e, full) (ground (arith, length-snoc lost new))
        | inr more ↦
            rw (e, more)
              (ground (
                arith,
                length-snoc lost new,
                length-push_bits n (k + 1) pid blp (lost ++ (new ∷ [])),
              ))
      ]
      | inr e ↦ rw e (ground (arith, bit-lt blp k, length-push_bits n (k + 1) pid blp lost h))
    ]

-- At the bound it pushes one more.
length-push_bits_full :
    (n k pid blp : ℕ) (lost : List ℕ)
    → length lost ≡ 64
    → length (push_bits n k pid blp lost) ≡ 64 + min (ones n k blp) 1
unfolding push_bits ones
length-push_bits_full zero k pid blp lost h = omega arith
length-push_bits_full (suc n) k pid blp lost h =
    let new = (pid + (k + 1)) % 65536 in
    elim (Bool-cases (is_set blp k)) [
      | inl e ↦
          let full : leb 64 (length (lost ++ (new ∷ []))) ≡ true =
            ground (arith, length-snoc lost new) in
          rw (e, full) (ground (arith, length-snoc lost new))
      | inr e ↦ rw e (ground (arith, bit-lt blp k, length-push_bits_full n (k + 1) pid blp lost h))
    ]

-- An entry takes the list above the bound exactly if it starts with 63 packets and has a bit in its mask.
pub push_entry-overruns :
    (pid blp : ℕ) (lost : List ℕ)
    → length lost < max_nack_packets
    → (max_nack_packets < length (push_entry pid blp lost))
      ↔ ((length lost ≡ 63) × (0 < ones 16 0 blp))
unfolding push_entry
push_entry-overruns pid blp lost h = elim (ℕ_discrete (length lost) 63) [
  | yes e ↦
      let l =
        length-push_bits_full 16 0 pid blp (lost ++ (pid ∷ []))
          (omega (arith, e, length-snoc lost pid)) in
      ((λ m. (e, omega (arith, l, m))), (λ m. omega (arith, l, m)))
  | no ne ↦
      let l =
        length-push_bits 16 0 pid blp (lost ++ (pid ∷ []))
          (omega (arith, ne, length-snoc lost pid)) in
      ((λ m. absurd (omega (arith, l, m))), (λ m. absurd (ne m.0)))
]

length-push_entry :
    (pid blp : ℕ) (lost : List ℕ) → length lost < 64 → length (push_entry pid blp lost) ≤ 65
unfolding push_entry
length-push_entry pid blp lost h = elim (ℕ_discrete (length lost) 63) [
  | yes e ↦ omega (
    arith,
    length-push_bits_full 16 0 pid blp (lost ++ (pid ∷ []))
        (omega (arith, e, length-snoc lost pid)),
  )
  | no ne ↦ omega (
    arith,
    length-push_bits 16 0 pid blp (lost ++ (pid ∷ [])) (omega (arith, ne, length-snoc lost pid)),
  )
]

length-fci_loop :
    (fuel : ℕ) (bytes : List ℕ) (offset : ℕ) (lost : List ℕ)
    → length lost ≤ 65
    → length (fci_loop fuel bytes offset lost) ≤ 65
unfolding fci_loop
length-fci_loop zero bytes offset lost h = h
length-fci_loop (suc fuel) bytes offset lost h =
    let pid = be_u16 bytes offset in
    let blp = be_u16 bytes (offset + 2) in
    elim (Bool-cases (leb (offset + 4) (length bytes) && ltb (length lost) max_nack_packets)) [
      | inl e ↦ rw e (
          length-fci_loop fuel bytes (offset + 4) (push_entry pid blp lost)
            (length-push_entry pid blp lost (ground arith)))
      | inr e ↦ rw e h
    ]

passed :
    (m : Parsed (Unit {0})) (k : Parsed NackPacket) (p : NackPacket) → (m >> k) ≡ ok p → k ≡ ok p
passed (ok u) k p h = h
passed (err e) k p h = cc

-- A parsed NACK has at most 65 packets.
pub length-parse_nack :
    (bytes : List ℕ) (p : NackPacket) → parse_nack bytes ≡ ok p → length p.lost_packets ≤ 65
unfolding parse_nack
length-parse_nack bytes p h =
    let lost = fci_loop max_nack_packets bytes 12 [] in
    let body : NackPacket = record {
      sender_ssrc = be_u32 bytes 4;
      media_ssrc = be_u32 bytes 8;
      lost_packets = lost;
    } in
    let e : ok body ≡ ok p =
      passed (check_fmt 1 bytes) (ok body) p
        (passed (check_start 12 rtcp_rtpfb_pt bytes) (check_fmt 1 bytes >> ok body) p h) in
    let same : lost ≡ p.lost_packets = cc in
    omega (arith, ap length same, length-fci_loop max_nack_packets bytes 12 [] (omega arith))
