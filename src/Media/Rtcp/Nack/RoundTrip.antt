-- ===== src/Media/Rtcp/Nack/RoundTrip.antt =====
-- The NACK of rtcp/packet.rs, built and parsed.
use nexus_sfu.Base.{
  ℕ, zero, suc, ◌+◌, ◌*◌, ◌%◌, ◌≤◌, ◌<◌, ◌≡◌, refl, ap, ◌∙◌, inl, inr, Bool, true, false, ◌&&◌,
  ◌||◌, List, [], ◌∷◌, ◌++◌, arith, ltb, leb, ◌==◌, le→leb, Bool-cases, or_assoc, length, drop, All,
  length-drop, contains, length-snoc, ok,
}
use nexus_sfu.Base.Bytes.{be_u16, be_u32, u16_bytes, u32_bytes, be_u16-u16_bytes, be_u32-u32_bytes}
use nexus_sfu.Base.Reads.{be_u16-drop, length-rest, after}
use nexus_sfu.Base.Bits.{bit, bit-lt}
use nexus_sfu.Media.Rtcp.{check_start, check_fmt}
use nexus_sfu.Media.Rtcp.Feedback.Lists.{IsU32}
use nexus_sfu.Media.Rtcp.Nack.{
  max_nack_packets, max_fci_entries, is_set, push_bits, push_entry, fci_loop, NackPacket,
  parse_nack, encode_fci_entries, fci_bytes, build_nack,
}
use nexus_sfu.Media.Rtcp.Nack.Masks.{names, ones}
use nexus_sfu.Media.Rtcp.Nack.Grouping.{IsSeq, IsEntry, covers, pushes, encode_fci_entries-Groups}

contains-append :
    (seq : ℕ) (xs ys : List ℕ) → contains seq (xs ++ ys) ≡ (contains seq xs || contains seq ys)
unfolding contains
contains-append seq [] ys = refl
contains-append seq (x ∷ xs) ys = ground (arith, contains-append seq xs ys)

contains-snoc :
    (seq : ℕ) (xs : List ℕ) (x : ℕ) → contains seq (xs ++ (x ∷ [])) ≡ (contains seq xs || seq == x)
unfolding contains
contains-snoc seq xs x = contains-append seq xs (x ∷ []) ∙ ground arith

-- While the bound is not reached, the mask adds just the packets that it names.
Pushed : ℕ → List ℕ → List ℕ → Bool → ℕ → Type 0
Pushed seq lost after_it named more =
    (contains seq after_it ≡ (contains seq lost || named)) × (length after_it ≡ length lost + more)

push_bits-Pushed :
    (n k pid blp : ℕ) (lost : List ℕ) (seq : ℕ)
    → length lost + ones n k blp < 64
    → Pushed seq lost (push_bits n k pid blp lost) (names n k pid blp seq) (ones n k blp)
unfolding Pushed push_bits ones names
push_bits-Pushed zero k pid blp lost seq h = (ground arith, omega arith)
push_bits-Pushed (suc n) k pid blp lost seq h =
    let new = (pid + (k + 1)) % 65536 in
    elim (Bool-cases (is_set blp k)) [
      | inl e ↦
          let one : bit blp k ≡ 1 = ground arith in
          let (c, l) =
            push_bits-Pushed n (k + 1) pid blp (lost ++ (new ∷ [])) seq
              (omega (arith, one, h, length-snoc lost new)) in
          let below : leb 64 (length (lost ++ (new ∷ []))) ≡ false =
            ground (arith, length-snoc lost new) in
          rw (e, below)
            (
              c
                  ∙ ap (λ b. b || names n (k + 1) pid blp seq) (contains-snoc seq lost new)
                  ∙ or_assoc (contains seq lost) (seq == new) (names n (k + 1) pid blp seq),
              omega (arith, l, one, length-snoc lost new),
            )
      | inr e ↦
          let none_set : bit blp k ≡ 0 = ground (arith, bit-lt blp k) in
          let (c, l) = push_bits-Pushed n (k + 1) pid blp lost seq (omega (arith, none_set, h)) in
          rw e (c, omega (arith, l, none_set))
    ]

push_entry-Pushed :
    (pid blp : ℕ) (lost : List ℕ) (seq : ℕ)
    → length lost + (1 + ones 16 0 blp) < 64
    → Pushed seq lost
        (push_entry pid blp lost)
        (seq == pid || names 16 0 pid blp seq)
        (1 + ones 16 0 blp)
unfolding Pushed push_entry
push_entry-Pushed pid blp lost seq h =
    let (c, l) =
      push_bits-Pushed 16 0 pid blp (lost ++ (pid ∷ [])) seq
        (omega (arith, h, length-snoc lost pid)) in
    (
      c
          ∙ ap (λ b. b || names 16 0 pid blp seq) (contains-snoc seq lost pid)
          ∙ or_assoc (contains seq lost) (seq == pid) (names 16 0 pid blp seq),
      omega (arith, l, length-snoc lost pid),
    )

-- The entries are read back from bytes that end with them.
contains-fci_loop :
    (fuel : ℕ) (es : List (ℕ × ℕ)) (bytes : List ℕ) (at : ℕ) (lost : List ℕ) (seq : ℕ)
    → All IsEntry es
    → length es ≤ fuel
    → length lost + pushes es < 64
    → drop at bytes ≡ fci_bytes es
    → contains seq (fci_loop fuel bytes at lost) ≡ (contains seq lost || covers es seq)
unfolding fci_loop fci_bytes pushes covers u16_bytes Pushed
contains-fci_loop zero [] bytes at lost seq v few h e = ground arith
contains-fci_loop (suc fuel) [] bytes at lost seq v few h e =
    let short : leb (at + 4) (length bytes) ≡ false =
      ground (arith, length-drop at bytes, ap length e) in
    rw short (ground arith)
contains-fci_loop zero (x ∷ es) bytes at lost seq v few h e = elim few [ ]
contains-fci_loop (suc fuel) ((pid, blp) ∷ es) bytes at lost seq ((hp, hb), v) few h e =
    let tail = u16_bytes blp ++ fci_bytes es in
    let e_pid : be_u16 bytes at ≡ pid =
      be_u16-drop bytes at ∙ ap (λ xs. be_u16 xs 0) e ∙ be_u16-u16_bytes pid tail hp in
    let mid : drop (at + 2) bytes ≡ tail = after bytes (u16_bytes pid) tail at e in
    let e_blp : be_u16 bytes (at + 2) ≡ blp =
      be_u16-drop bytes (at + 2)
      ∙ ap (λ xs. be_u16 xs 0) mid
      ∙ be_u16-u16_bytes blp (fci_bytes es) hb in
    let next : drop (at + 4) bytes ≡ fci_bytes es =
      after bytes (u16_bytes pid ++ u16_bytes blp) (fci_bytes es) at e in
    let room = length-rest bytes (u16_bytes pid ++ tail) at e in
    let on : (leb (at + 4) (length bytes) && ltb (length lost) 64) ≡ true = ground arith in
    let (c, l) = push_entry-Pushed pid blp lost seq (omega (arith, h)) in
    let more =
      contains-fci_loop fuel es bytes (at + 4) (push_entry pid blp lost) seq v (omega arith)
        (omega (arith, l, h)) next in
    rw (on, e_pid, e_blp)
      (more
        ∙ ap (λ b. b || covers es seq) c
        ∙ or_assoc (contains seq lost) (seq == pid || names 16 0 pid blp seq) (covers es seq))

length-fci_bytes : (es : List (ℕ × ℕ)) → length (fci_bytes es) ≡ 4 * length es
unfolding fci_bytes u16_bytes
length-fci_bytes [] = refl
length-fci_bytes (e ∷ es) = omega (arith, length-fci_bytes es)

-- A NACK of at most 32 lost packets, in any order and also repeated, whose SSRCs have 32 bits and whose
-- sequence numbers have 16, is parsed back with its SSRCs, and names the packets that it was built from,
-- each of them and no other.
pub parse_nack-build_nack :
    (p : NackPacket) (seq : ℕ)
    → IsU32 p.sender_ssrc
    → IsU32 p.media_ssrc
    → All IsSeq p.lost_packets
    → length p.lost_packets ≤ max_fci_entries
    → (q : NackPacket) × (parse_nack (build_nack p) ≡ ok q)
      × ((q.sender_ssrc ≡ p.sender_ssrc)
          × ((q.media_ssrc ≡ p.media_ssrc)
              × (contains seq q.lost_packets ≡ contains seq p.lost_packets)))
unfolding parse_nack build_nack check_start check_fmt u32_bytes be_u32 covers contains
parse_nack-build_nack p seq hs hm v few =
    let es = encode_fci_entries p.lost_packets in
    let (named, (fewer, (short, w))) = encode_fci_entries-Groups p.lost_packets seq v few in
    let lost = fci_loop max_nack_packets (build_nack p) 12 [] in
    let back =
      contains-fci_loop max_nack_packets es (build_nack p) 12 [] seq w (omega arith) (omega arith)
        refl in
    let e_s = be_u32-u32_bytes p.sender_ssrc (u32_bytes p.media_ssrc ++ fci_bytes es) hs in
    let e_m = be_u32-u32_bytes p.media_ssrc (fci_bytes es) hm in
    let long = le→leb 12 (length (build_nack p)) (omega (arith, length-fci_bytes es)) in
    (
      record {
        sender_ssrc = be_u32 (build_nack p) 4;
        media_ssrc = be_u32 (build_nack p) 8;
        lost_packets = lost;
      },
      rw long refl,
      (e_s, (e_m, back ∙ named)),
    )
