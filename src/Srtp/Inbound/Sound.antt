-- ===== src/Srtp/Inbound/Sound.antt =====
-- The slot table of `SrtpInbound`: what every operation keeps.
use nexus_sfu.Base.{
  ℕ, ◌+◌, ◌≤◌, bit_and, ◌≡◌, refl, sym, ap, subst, ◌∙◌, inl, inr, true, ◌||◌, Option, none, some,
  List, arith, ℕ_discrete, ltb, ◌==◌, if◌then◌else◌, Bool-cases, length, get_elem?, set,
  get_elem?-set_self, get_elem?-set_ne, get_elem?_lt, get_elem?-set_eq, get_or-get_elem?, count,
  count-set, count-none, Result, ok, err,
}
use nexus_sfu.Srtp.Types.{SrtpError, packet_index}
use nexus_sfu.Srtp.Replay.{ReplayProtection, check}
use nexus_sfu.Srtp.Index.{estimate_index}
use nexus_sfu.Srtp.Cipher.{srtcp_index_mask}
use nexus_sfu.Base.Bytes.{be_u16, be_u32}
use nexus_sfu.Srtp.Inbound.{
  SsrcIn, empty, fresh, SrtpInbound, owns, is_pinned, write_slot, slot_for, srtcp_e_flag,
}
use nexus_sfu.Srtp.Inbound.Unprotect.{
  open_rtp, unprotect_checked, unprotect_known, unprotect_slot, unprotect_rtp, open_rtcp,
  unprotect_rtcp_checked, unprotect_rtcp_slot, unprotect_rtcp_at, unprotect_rtcp,
  srtcp_trailer_offset,
}
use nexus_sfu.Srtp.Inbound.Table.{Found, slot_for-Found}

-- No SSRC has two slots, only live slots are pinned, and at most 12 are.
pub record Sound (xs : List SsrcIn) : Type 0 where
  pub single : (ssrc : ℕ) → count (owns ssrc) xs ≤ 1
  pub pinned_live : (i : ℕ) (x : SsrcIn) → get_elem? xs i ≡ some x → x.pinned ≡ true → x.live ≡ true
  pub few_pinned : count is_pinned xs ≤ 12

-- A write that keeps the SSRC and both flags keeps all of it.
abbrev pub Keeps : SsrcIn → SsrcIn → Type 0
Keeps x y = (y.ssrc ≡ x.ssrc) × (y.live ≡ x.live) × (y.pinned ≡ x.pinned)

-- The facts of a single write.
pub set-Sound :
    (xs : List SsrcIn) (k : ℕ) (x y : SsrcIn)
    → Sound xs
    → get_elem? xs k ≡ some x
    → ((ssrc : ℕ)
        → (if owns ssrc y then 1 else 0) + count (owns ssrc) xs
          ≤ (if owns ssrc x then 1 else 0) + 1)
    → (y.pinned ≡ true → y.live ≡ true)
    → (if is_pinned y then 1 else 0) + count is_pinned xs ≤ (if is_pinned x then 1 else 0) + 12
    → Sound (set xs k y)
set-Sound xs k x y v at own live few = record {
  single = λ ssrc. omega (arith, own ssrc, count-set (owns ssrc) xs k x y at);
  pinned_live = λ i z e p. elim (ℕ_discrete i k) [
    | yes same ↦
        let q : z ≡ y =
          get_elem?-set_eq xs k y z (subst (λ j. get_elem? (set xs k y) j ≡ some z) same e) in
        subst (λ z. z.live ≡ true) (sym q) (live (subst (λ z. z.pinned ≡ true) q p))
    | no other ↦ v.pinned_live i z (sym (get_elem?-set_ne xs k i y (λ q. other (sym q))) ∙ e) p
  ];
  few_pinned = omega (arith, few, count-set is_pinned xs k x y at);
}

pub keep-Sound :
    (xs : List SsrcIn) (k : ℕ) (x y : SsrcIn)
    → Sound xs
    → get_elem? xs k ≡ some x
    → Keeps x y
    → Sound (set xs k y)
keep-Sound xs k x y v at (e, l, p) =
    set-Sound xs k x y v at (λ ssrc. ground (arith, v.single ssrc))
      (λ h. l ∙ v.pinned_live k x at (sym p ∙ h)) (ground (arith, v.few_pinned))

-- A new SSRC, not pinned yet, in a slot that it may take.
pub fresh-Sound :
    (xs : List SsrcIn) (k : ℕ) (x y : SsrcIn) (ssrc now_s : ℕ)
    → Sound xs
    → get_elem? xs k ≡ some x
    → count (owns ssrc) xs ≡ 0
    → Keeps (fresh ssrc now_s) y
    → Sound (set xs k y)
fresh-Sound xs k x y ssrc now_s v at none_yet (e, l, p) =
    set-Sound xs k x y v at
      (λ ssrc'. elim (ℕ_discrete ssrc ssrc') [
        | yes same ↦ ground (arith, none_yet, ap (λ n. count (owns n) xs) same)
        | no other ↦ ground (arith, v.single ssrc')
      ])
      (λ h. l) (ground (arith, v.few_pinned))

-- After the cipher: the result is sound if the slot may hold a state with these flags.
abbrev Ready : SrtpInbound → ℕ → SsrcIn → Type 0
Ready s k x = (y : SsrcIn) → Keeps x y → Sound (set s.slots k y)

open_rtp-Sound :
    (s : SrtpInbound) (k : ℕ) (x : SsrcIn) (seq i now_s : ℕ) (r : Result SrtpError ℕ × List ℕ)
    → Sound s.slots
    → Ready s k x
    → Sound (open_rtp s k x seq i now_s r).2.slots
unfolding open_rtp
open_rtp-Sound s k x seq i now_s (err _, buf) v ready = v
open_rtp-Sound s k x seq i now_s (ok out, buf) v ready = ready _ (refl, refl, refl)

open_rtcp-Sound :
    (s : SrtpInbound) (k : ℕ) (x : SsrcIn) (i now_s : ℕ) (r : Result SrtpError (ℕ × ℕ) × List ℕ)
    → Sound s.slots
    → Ready s k x
    → Sound (open_rtcp s k x i now_s r).2.slots
unfolding open_rtcp
open_rtcp-Sound s k x i now_s (err _, buf) v ready = v
open_rtcp-Sound s k x i now_s (ok (out, _), buf) v ready = ready _ (refl, refl, refl)

-- A known slot whose window was consulted.
kept_slot :
    (s : SrtpInbound) (k : ℕ) (x y : SsrcIn)
    → Sound s.slots
    → get_elem? s.slots k ≡ some x
    → Keeps x y
    → Sound (write_slot s k y).slots × Ready (write_slot s k y) k y
kept_slot s k x y v at keeps =
    let v' = keep-Sound s.slots k x y v at keeps in
    (
      v',
      λ z keeps'.
          keep-Sound (set s.slots k y) k y z v'
            (get_elem?-set_self s.slots k y (get_elem?_lt s.slots k x at)) keeps',
    )

unprotect_checked-Sound :
    (s : SrtpInbound) (k : ℕ) (x : SsrcIn) (buf : List ℕ) (len seq i now_s : ℕ)
    (r : Result SrtpError (Unit {0}) × ReplayProtection)
    → Sound s.slots
    → get_elem? s.slots k ≡ some x
    → Sound (unprotect_checked s k x buf len seq i now_s r).2.slots
unfolding unprotect_checked
unprotect_checked-Sound s k x buf len seq i now_s (err _, r) v at =
    keep-Sound s.slots k x _ v at (refl, refl, refl)
unprotect_checked-Sound s k x buf len seq i now_s (ok _, r) v at =
    let x' : SsrcIn = record x { rtp_replay = r } in
    let (v', ready) = kept_slot s k x x' v at (refl, refl, refl) in
    open_rtp-Sound (write_slot s k x') k x' seq i now_s (s.cipher.unprotect_rtp buf len i) v' ready

unprotect_rtcp_checked-Sound :
    (s : SrtpInbound) (k : ℕ) (x : SsrcIn) (buf : List ℕ) (len i now_s : ℕ)
    (r : Result SrtpError (Unit {0}) × ReplayProtection)
    → Sound s.slots
    → get_elem? s.slots k ≡ some x
    → Sound (unprotect_rtcp_checked s k x buf len i now_s r).2.slots
unfolding unprotect_rtcp_checked
unprotect_rtcp_checked-Sound s k x buf len i now_s (err _, r) v at =
    keep-Sound s.slots k x _ v at (refl, refl, refl)
unprotect_rtcp_checked-Sound s k x buf len i now_s (ok _, r) v at =
    let x' : SsrcIn = record x { rtcp_replay = r } in
    let (v', ready) = kept_slot s k x x' v at (refl, refl, refl) in
    open_rtcp-Sound (write_slot s k x') k x' i now_s (s.cipher.unprotect_rtcp buf len) v' ready

unprotect_known-Sound :
    (s : SrtpInbound) (k : ℕ) (x : SsrcIn) (buf : List ℕ) (len seq now_s : ℕ)
    (r : Result SrtpError ℕ)
    → Sound s.slots
    → get_elem? s.slots k ≡ some x
    → Sound (unprotect_known s k x buf len seq now_s r).2.slots
unfolding unprotect_known
unprotect_known-Sound s k x buf len seq now_s (err _) v at = v
unprotect_known-Sound s k x buf len seq now_s (ok i) v at =
    unprotect_checked-Sound s k x buf len seq i now_s (check x.rtp_replay i) v at

unprotect_slot-Sound :
    (s : SrtpInbound) (buf : List ℕ) (len ssrc seq now_s : ℕ) (k : Option ℕ)
    → Sound s.slots
    → Found s.slots ssrc now_s s.slots k
    → Sound (unprotect_slot s buf len ssrc seq now_s k).2.slots
unfolding unprotect_slot
unprotect_slot-Sound s buf len ssrc seq now_s none v f = v
unprotect_slot-Sound s buf len ssrc seq now_s (some k) v (inl (x, at, own)) =
    rw (get_or-get_elem? s.slots k x empty at)
      (rw own (unprotect_known-Sound s k x buf len seq now_s (estimate_index x.roc seq) v at))
unprotect_slot-Sound s buf len ssrc seq now_s (some k) v (inr (nobody, (x, at, free))) =
    rw (get_or-get_elem? s.slots k x empty at) (
      rw (nobody k x at) (
        open_rtp-Sound s k (fresh ssrc now_s) seq (packet_index 0 seq) now_s
          (s.cipher.unprotect_rtp buf len (packet_index 0 seq)) v
          (λ y keeps.
            fresh-Sound s.slots k x y ssrc now_s v at (count-none (owns ssrc) s.slots nobody)
              keeps)))

pub unprotect_rtp-Sound :
    (s : SrtpInbound) (buf : List ℕ) (len now_s : ℕ)
    → Sound s.slots
    → Sound (unprotect_rtp s buf len now_s).2.slots
unfolding unprotect_rtp
unprotect_rtp-Sound s buf len now_s v = elim (Bool-cases (ltb len 12 || ltb (length buf) len)) [
  | inl e ↦ rw e v
  | inr e ↦ rw e (
      unprotect_slot-Sound s buf len (be_u32 buf 8) (be_u16 buf 2) now_s
        (slot_for s (be_u32 buf 8) now_s) v (slot_for-Found s (be_u32 buf 8) now_s))
]

unprotect_rtcp_slot-Sound :
    (s : SrtpInbound) (buf : List ℕ) (len ssrc i now_s : ℕ) (k : Option ℕ)
    → Sound s.slots
    → Found s.slots ssrc now_s s.slots k
    → Sound (unprotect_rtcp_slot s buf len ssrc i now_s k).2.slots
unfolding unprotect_rtcp_slot
unprotect_rtcp_slot-Sound s buf len ssrc i now_s none v f = v
unprotect_rtcp_slot-Sound s buf len ssrc i now_s (some k) v (inl (x, at, own)) =
    rw (get_or-get_elem? s.slots k x empty at)
      (rw own (unprotect_rtcp_checked-Sound s k x buf len i now_s (check x.rtcp_replay i) v at))
unprotect_rtcp_slot-Sound s buf len ssrc i now_s (some k) v (inr (nobody, (x, at, free))) =
    rw (get_or-get_elem? s.slots k x empty at) (
      rw (nobody k x at) (
        open_rtcp-Sound s k (fresh ssrc now_s) i now_s (s.cipher.unprotect_rtcp buf len) v
          (λ y keeps.
            fresh-Sound s.slots k x y ssrc now_s v at (count-none (owns ssrc) s.slots nobody)
              keeps)))

unprotect_rtcp_at-Sound :
    (s : SrtpInbound) (buf : List ℕ) (len now_s : ℕ) (at : Option ℕ)
    → Sound s.slots
    → Sound (unprotect_rtcp_at s buf len now_s at).2.slots
unfolding unprotect_rtcp_at
unprotect_rtcp_at-Sound s buf len now_s none v = v
unprotect_rtcp_at-Sound s buf len now_s (some at) v =
    elim (Bool-cases (bit_and (be_u32 buf at) srtcp_e_flag == 0)) [
      | inl e ↦ rw e v
      | inr e ↦ rw e (
          unprotect_rtcp_slot-Sound s buf len (be_u32 buf 4)
            (bit_and (be_u32 buf at) srtcp_index_mask) now_s (slot_for s (be_u32 buf 4) now_s) v
            (slot_for-Found s (be_u32 buf 4) now_s))
    ]

pub unprotect_rtcp-Sound :
    (s : SrtpInbound) (buf : List ℕ) (len now_s : ℕ)
    → Sound s.slots
    → Sound (unprotect_rtcp s buf len now_s).2.slots
unfolding unprotect_rtcp
unprotect_rtcp-Sound s buf len now_s v = elim (Bool-cases (ltb len 8 || ltb (length buf) len)) [
  | inl e ↦ rw e v
  | inr e ↦ rw e (unprotect_rtcp_at-Sound s buf len now_s (srtcp_trailer_offset s.cipher len) v)
]
