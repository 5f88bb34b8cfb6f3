-- ===== src/Srtp/Outbound/Register.antt =====
-- The registration rule of srtp/direction.rs: offsets from the SSRC base strictly increase.
use nexus_sfu.Base.{
  ℕ, ◌+◌, ◌≤◌, ◌<◌, ◌≡◌, refl, ap, ◌∙◌, inl, inr, ◌||◌, Option, none, some, List, [], ◌∷◌, arith,
  ltb, leb, Bool-cases, length, position, position-some, ok, err,
}
use nexus_sfu.Srtp.Types.{invalid_ssrc}
use nexus_sfu.Srtp.Outbound.{
  empty, fresh, SrtpOutbound, offset_from, register, register_at, is_free, slot_at, slot_of,
  protect_rtp, protect_found, protect_rtcp, protect_rtcp_found, retire, retire_found,
  max_ssrc_offset, srtcp_index_mask, rtp_header_size, be_u32, rtcp_header_size,
}
use nexus_sfu.Srtp.Outbound.Slots.{owners, owners-set}
use nexus_sfu.Srtp.Outbound.Inv.{Inv, unregistered}
use nexus_sfu.Srtp.Outbound.Run.{Op, registers, retires, protects, protects_rtcp, step}

-- The context keeps its base, and its next offset does not fall.
abbrev Grows : SrtpOutbound → SrtpOutbound → Type 0
Grows o o' = (o'.ssrc_base ≡ o.ssrc_base) × (o.next_offset ≤ o'.next_offset)

register_at-Grows :
    (o : SrtpOutbound) (ssrc offset : ℕ) (k : Option ℕ)
    → o.next_offset ≤ offset
    → Grows o (register_at o ssrc offset k).1
unfolding register_at
register_at-Grows o ssrc offset none h = (refl, omega arith)
register_at-Grows o ssrc offset (some k) h = (refl, omega arith)

register-Grows : (o : SrtpOutbound) (ssrc : ℕ) → Grows o (register o ssrc).1
unfolding register
register-Grows o ssrc =
    let offset = offset_from o.ssrc_base ssrc in
    elim (Bool-cases (ltb offset o.next_offset || ltb max_ssrc_offset offset)) [
      | inl refused ↦ rw refused (refl, omega arith)
      | inr new ↦ rw new (register_at-Grows o ssrc offset (position is_free o.slots) (ground arith))
    ]

retire_found-Grows : (o : SrtpOutbound) (k : Option ℕ) → Grows o (retire_found o k)
unfolding retire_found
retire_found-Grows o none = (refl, omega arith)
retire_found-Grows o (some k) = (refl, omega arith)

protect_found-Grows :
    (o : SrtpOutbound) (buf : List ℕ) (len : ℕ) (k : Option ℕ)
    → Grows o (protect_found o buf len k).2
unfolding protect_found
protect_found-Grows o buf len none = (refl, omega arith)
protect_found-Grows o buf len (some k) = (refl, omega arith)

protect_rtcp_found-Grows :
    (o : SrtpOutbound) (buf : List ℕ) (len : ℕ) (k : Option ℕ)
    → Grows o (protect_rtcp_found o buf len k).2
unfolding protect_rtcp_found
protect_rtcp_found-Grows o buf len none = (refl, omega arith)
protect_rtcp_found-Grows o buf len (some k) =
    elim (Bool-cases (leb srtcp_index_mask (slot_at o k).srtcp_index)) [
      | inl spent ↦ rw spent (refl, omega arith)
      | inr free ↦ rw free (refl, omega arith)
    ]

protect_rtp-Grows : (o : SrtpOutbound) (buf : List ℕ) (len : ℕ) → Grows o (protect_rtp o buf len).2
unfolding protect_rtp
protect_rtp-Grows o buf len = elim (Bool-cases (ltb len rtp_header_size || ltb (length buf) len)) [
  | inl short ↦ rw short (refl, omega arith)
  | inr fits ↦ rw fits (protect_found-Grows o buf len (slot_of o (be_u32 buf 8)))
]

protect_rtcp-Grows :
    (o : SrtpOutbound) (buf : List ℕ) (len : ℕ) → Grows o (protect_rtcp o buf len).2
unfolding protect_rtcp
protect_rtcp-Grows o buf len =
    elim (Bool-cases (ltb len rtcp_header_size || ltb (length buf) len)) [
      | inl short ↦ rw short (refl, omega arith)
      | inr fits ↦ rw fits (protect_rtcp_found-Grows o buf len (slot_of o (be_u32 buf 4)))
    ]

step-Grows : (o : SrtpOutbound) (op : Op) → Grows o (step o op)
unfolding step retire
step-Grows o (registers ssrc) = register-Grows o ssrc
step-Grows o (retires ssrc) = retire_found-Grows o (slot_of o ssrc)
step-Grows o (protects buf len) = protect_rtp-Grows o buf len
step-Grows o (protects_rtcp buf len) = protect_rtcp-Grows o buf len

-- The context after a sequence of calls.
pub after : SrtpOutbound → List Op → SrtpOutbound
after o [] = o
after o (op ∷ ops) = after (step o op) ops

after-Grows : (o : SrtpOutbound) (ops : List Op) → Grows o (after o ops)
unfolding after
after-Grows o [] = (refl, omega arith)
after-Grows o (op ∷ ops) =
    let (b, n) = step-Grows o op in
    let (b', n') = after-Grows (step o op) ops in (b' ∙ b, omega (arith, n, n'))

register_at-ok :
    (o : SrtpOutbound) (log : List (ℕ × ℕ)) (ssrc offset : ℕ) (k : Option ℕ)
    → Inv o log
    → o.next_offset ≤ offset_from o.ssrc_base ssrc
    → position is_free o.slots ≡ k
    → (register_at o ssrc offset k).0 ≡ ok tt
    → ((register_at o ssrc offset k).1.next_offset ≡ offset + 1)
      × (owners ssrc (register_at o ssrc offset k).1.slots ≡ 1)
unfolding register_at
register_at-ok o log ssrc offset none v new e h = cc
register_at-ok o log ssrc offset (some k) v new e h =
    let (at, free) = position-some is_free o.slots k empty e in
    (
      refl,
      ground (
        arith,
        owners-set ssrc o.slots k (slot_at o k) (fresh ssrc) at,
        unregistered o log ssrc v new,
      ),
    )

-- A registration that succeeded: the SSRC's offset was new and in range, exactly one live slot has
-- the SSRC afterwards (the assertion at the end of `register`), and the next offset is past it.
pub register-ok :
    (o : SrtpOutbound) (log : List (ℕ × ℕ)) (ssrc : ℕ)
    → Inv o log
    → (register o ssrc).0 ≡ ok tt
    → let offset = offset_from o.ssrc_base ssrc in
      (o.next_offset ≤ offset)
      × (offset ≤ max_ssrc_offset)
      × ((register o ssrc).1.next_offset ≡ offset + 1)
      × (owners ssrc (register o ssrc).1.slots ≡ 1)
unfolding register
register-ok o log ssrc v h =
    let offset = offset_from o.ssrc_base ssrc in
    elim (Bool-cases (ltb offset o.next_offset || ltb max_ssrc_offset offset)) [
      | inl refused ↦ let h' = rw refused at h in cc
      | inr new ↦
          let (next, one) =
            register_at-ok o log ssrc offset (position is_free o.slots) v (ground arith) refl
              (rw new at h) in
          (ground arith, ground arith, rw new next, rw new one)
    ]

register-below :
    (o : SrtpOutbound) (ssrc : ℕ)
    → offset_from o.ssrc_base ssrc < o.next_offset
    → register o ssrc ≡ (err invalid_ssrc, o)
unfolding register
register-below o ssrc h = ground arith

-- An SSRC that was registered once is refused for ever after, retired or not.
pub register_again :
    (o : SrtpOutbound) (log : List (ℕ × ℕ)) (ssrc : ℕ) (ops : List Op)
    → Inv o log
    → (register o ssrc).0 ≡ ok tt
    → let o' = after (register o ssrc).1 ops in register o' ssrc ≡ (err invalid_ssrc, o')
register_again o log ssrc ops v h =
    let (b, n) = after-Grows (register o ssrc).1 ops in
    let (b', _) = register-Grows o ssrc in
    let (_, _, next, _) = register-ok o log ssrc v h in
    register-below (after (register o ssrc).1 ops) ssrc
      (omega (arith, n, next, ap (λ c. offset_from c ssrc) (b ∙ b')))
