-- ===== src/Dataplane/Rewrite/Output.antt =====
-- The packet that `rewrite` of rewrite.rs leaves in the buffer, as one list of bytes.
use nexus_sfu.Base.{
  ℕ, ◌+◌, ◌*◌, ◌≤◌, ◌<◌, ◌≡◌, refl, sym, ap, ap₂, subst, ◌∙◌, inl, inr, Bool, List, ◌++◌, arith,
  ltb, Bool-cases, length, take, drop, length-append, Result, ok, err,
}
use nexus_sfu.Base.Bytes.{u16_bytes, u32_bytes, write_at}
use nexus_sfu.Base.Slices.{
  slice, slice-add, length-write_at, slice-write_at_before, slice-write_at_self,
  slice-write_at_after,
}
use nexus_sfu.Media.RtpHeader.{RtpHeader}
use nexus_sfu.Dataplane.Ext.{all_elements}
use nexus_sfu.Dataplane.Subscription.{Subscription}
use nexus_sfu.Dataplane.Rewrite.{RewriteError, too_large, Advance, offsets}
use nexus_sfu.Dataplane.Rewrite.Write.{Cursor, Rewritten, fixed_bytes, rewrite_payload}
use nexus_sfu.Dataplane.Rewrite.Layout.{Fills}
use nexus_sfu.Dataplane.Rewrite.Block.{extension_bytes}
use nexus_sfu.Dataplane.Rewrite.Numbering.{advance_of}

-- The packet for a subscriber: the new fixed header, the CSRCs, the mapped extensions and the
-- payload.
unfoldable pub packet_for : Subscription → List ℕ → RtpHeader → ℕ → Advance → List ℕ
unfolding fixed_bytes
packet_for sub src hdr pt a =
    let ext = extension_bytes sub (all_elements src hdr) in
    fixed_bytes src hdr sub pt (ltb 0 (length ext)) a.out_seq a.out_ts
    ++ (slice 12 (4 * hdr.csrc_count) src ++ (ext ++ drop hdr.header_len_bytes src))

-- The buffer of size `n` starts with the packet, or the packet is too long for it.
abbrev pub Writes : List ℕ → ℕ → Advance → Result RewriteError Rewritten → Type 0
Writes packet n a (ok r) =
    (r.out_len ≡ length packet)
    × (length packet ≤ n)
    × (take r.out_len r.dst ≡ packet)
    × (length r.dst ≡ n)
    × (r.advance ≡ a)
Writes packet n a (err e) = (e ≡ too_large) × (n < length packet)

pub length-fixed_bytes :
    (src : List ℕ) (hdr : RtpHeader) (sub : Subscription) (pt : ℕ) (extended : Bool) (seq ts : ℕ)
    → length (fixed_bytes src hdr sub pt extended seq ts) ≡ 12
unfolding fixed_bytes u16_bytes u32_bytes
length-fixed_bytes src hdr sub pt extended seq ts = refl

-- The payload behind a written header, and the fixed header in front.
module _ (dst ext payload csrcs fixed : List ℕ) (twelve : length fixed ≡ 12)
    (fits : 12 + length csrcs + length ext + length payload ≤ length dst)
    (holds : slice (12 + length csrcs) (length ext) dst ≡ ext)
    (before : slice 12 (length csrcs) dst ≡ csrcs) where
  d₁ : List ℕ
  d₁ = write_at dst (12 + length csrcs + length ext) payload

  whole : List ℕ
  whole = write_at d₁ 0 fixed

  same₁ : length d₁ ≡ length dst
  unfolding d₁
  same₁ = length-write_at dst (12 + length csrcs + length ext) payload fits

  length-whole : length whole ≡ length dst
  unfolding whole
  length-whole = length-write_at d₁ 0 fixed (omega (arith, same₁)) ∙ same₁

  whole_after : (j k : ℕ) → 12 ≤ j → slice j k whole ≡ slice j k d₁
  unfolding whole
  whole_after j k h = slice-write_at_after d₁ 0 fixed (omega (arith, same₁)) j k (omega arith)

  whole_fixed : slice 0 12 whole ≡ fixed
  unfolding whole
  whole_fixed =
      ap (λ n. slice 0 n whole) (sym twelve) ∙ slice-write_at_self d₁ 0 fixed (omega (arith, same₁))

  whole_part :
      (j k : ℕ) → 12 ≤ j → j + k ≤ 12 + length csrcs + length ext → slice j k whole ≡ slice j k dst
  unfolding d₁
  whole_part j k h h' =
      whole_after j k h
      ∙ slice-write_at_before dst (12 + length csrcs + length ext) payload fits j k h'

  whole_payload : slice (12 + length csrcs + length ext) (length payload) whole ≡ payload
  unfolding d₁
  whole_payload =
      whole_after (12 + length csrcs + length ext) (length payload) (omega arith)
      ∙ slice-write_at_self dst (12 + length csrcs + length ext) payload fits

  whole_bytes :
      slice 0 (12 + (length csrcs + (length ext + length payload))) whole
      ≡ fixed ++ (csrcs ++ (ext ++ payload))
  whole_bytes =
      slice-add 0 12 (length csrcs + (length ext + length payload)) whole
      ∙ ap₂ ◌++◌ whole_fixed (
          slice-add 12 (length csrcs) (length ext + length payload) whole
          ∙ ap₂ ◌++◌ (whole_part 12 (length csrcs) (omega arith) (omega arith) ∙ before) (
              slice-add (12 + length csrcs) (length ext) (length payload) whole
              ∙ ap₂ ◌++◌
                  (whole_part (12 + length csrcs) (length ext) (omega arith) (omega arith) ∙ holds)
                  whole_payload))

  whole-Writes :
      (r : Rewritten) (n : ℕ)
      → r.out_len ≡ 12 + length csrcs + length ext + length payload
      → r.dst ≡ whole
      → length dst ≡ n
      → Writes (fixed ++ (csrcs ++ (ext ++ payload))) n r.advance (ok r)
  whole-Writes r n len same size =
      let total : length (fixed ++ (csrcs ++ (ext ++ payload)))
          ≡ 12 + (length csrcs + (length ext + length payload)) =
        omega (
          arith,
          twelve,
          length-append fixed (csrcs ++ (ext ++ payload)),
          length-append csrcs (ext ++ payload),
          length-append ext payload,
        ) in
      (
        omega (arith, total, len),
        omega (arith, total, size),
        rw same (ap (λ m. take m whole) (omega (arith, len)) ∙ whole_bytes),
        rw same (length-whole ∙ size),
        refl,
      )

length-packet :
    (fixed csrcs ext payload : List ℕ)
    → length fixed ≡ 12
    → length (fixed ++ (csrcs ++ (ext ++ payload)))
      ≡ 12 + length csrcs + length ext + length payload
length-packet fixed csrcs ext payload twelve = omega (
  arith,
  twelve,
  length-append fixed (csrcs ++ (ext ++ payload)),
  length-append csrcs (ext ++ payload),
  length-append ext payload,
)

-- The same where the length of the CSRCs is computed.
whole_at-Writes :
    (dst ext payload csrcs fixed : List ℕ) (c : ℕ) (a : Advance) (rng : ℕ)
    → length csrcs ≡ c
    → length fixed ≡ 12
    → 12 + c + length ext + length payload ≤ length dst
    → slice (12 + c) (length ext) dst ≡ ext
    → slice 12 c dst ≡ csrcs
    → Writes (fixed ++ (csrcs ++ (ext ++ payload))) (length dst) a (
        ok (record {
          out_len = 12 + c + length ext + length payload;
          advance = a;
          dst = write_at (write_at dst (12 + c + length ext) payload) 0 fixed;
          rng = rng;
        }))
unfolding d₁ whole
whole_at-Writes dst ext payload csrcs fixed c a rng len twelve =
    subst
      (λ c.
        12 + c + length ext + length payload ≤ length dst
        → slice (12 + c) (length ext) dst ≡ ext
        → slice 12 c dst ≡ csrcs
        → Writes (fixed ++ (csrcs ++ (ext ++ payload))) (length dst) a (
            ok (record {
              out_len = 12 + c + length ext + length payload;
              advance = a;
              dst = write_at (write_at dst (12 + c + length ext) payload) 0 fixed;
              rng = rng;
            })))
      len
      (λ fits holds before.
        whole-Writes dst ext payload csrcs fixed twelve fits holds before
          (record {
            out_len = 12 + length csrcs + length ext + length payload;
            advance = a;
            dst = write_at (write_at dst (12 + length csrcs + length ext) payload) 0 fixed;
            rng = rng;
          })
          (length dst) refl refl refl)

module _ (src : List ℕ) (hdr : RtpHeader) (sub : Subscription) (rng now pt : ℕ) where
  abbrev pub csrcs_of : List ℕ
  csrcs_of = slice 12 (4 * hdr.csrc_count) src

  abbrev pub numbers_of : Advance
  numbers_of = advance_of sub.rewrite hdr sub.clock_rate rng now

  -- The packet with given extensions.
  abbrev pub packet_of : List ℕ → List ℕ
  packet_of ext =
      fixed_bytes src hdr sub pt (ltb 0 (length ext)) numbers_of.out_seq numbers_of.out_ts
      ++ (csrcs_of ++ (ext ++ drop hdr.header_len_bytes src))

  pub length-packet_of :
      (ext : List ℕ)
      → length (packet_of ext)
        ≡ 12 + length csrcs_of + length ext + length (drop hdr.header_len_bytes src)
  length-packet_of ext =
      length-packet
        (fixed_bytes src hdr sub pt (ltb 0 (length ext)) numbers_of.out_seq numbers_of.out_ts)
        csrcs_of ext (drop hdr.header_len_bytes src)
        (length-fixed_bytes src hdr sub pt (ltb 0 (length ext)) numbers_of.out_seq
          numbers_of.out_ts)

  -- `rewrite_payload` behind a block of extensions whose end is written out.
  payload-Writes :
      (dst ext buf : List ℕ)
      → length csrcs_of ≡ 4 * hdr.csrc_count
      → slice 12 (4 * hdr.csrc_count) buf ≡ csrcs_of
      → length buf ≡ length dst
      → slice (12 + 4 * hdr.csrc_count) (length ext) buf ≡ ext
      → Writes
          (packet_of ext)
          (length dst)
          numbers_of
          (rewrite_payload src hdr sub rng now pt (ok (12 + 4 * hdr.csrc_count + length ext, buf)))
  unfolding rewrite_payload advance_of
  payload-Writes dst ext buf four before same holds =
      let payload = drop hdr.header_len_bytes src in
      let extended : ltb (12 + 4 * hdr.csrc_count) (12 + 4 * hdr.csrc_count + length ext)
          ≡ ltb 0 (length ext) =
        ground arith in
      let fixed =
        fixed_bytes src hdr sub pt (ltb 0 (length ext)) numbers_of.out_seq numbers_of.out_ts in
      let len : length (packet_of ext) ≡ 12 + length csrcs_of + length ext + length payload =
        length-packet_of ext in
      elim (Bool-cases (ltb (length buf) (12 + 4 * hdr.csrc_count + length ext + length payload))) [
        | inl e ↦ rw e (refl, ground (arith, len, four, same))
        | inr e ↦ rw extended (
            rw e (
              subst
                (λ n. Writes (packet_of ext) n numbers_of (
                  ok (record {
                    out_len = 12 + 4 * hdr.csrc_count + length ext + length payload;
                    advance = numbers_of;
                    dst =
                        write_at (write_at buf (12 + 4 * hdr.csrc_count + length ext) payload) 0
                          fixed;
                    rng = (offsets sub.rewrite hdr sub.clock_rate rng now).3;
                  })))
                same
                (whole_at-Writes buf ext payload csrcs_of fixed (4 * hdr.csrc_count) numbers_of
                  (offsets sub.rewrite hdr sub.clock_rate rng now).3 four
                  (length-fixed_bytes src hdr sub pt (ltb 0 (length ext)) numbers_of.out_seq
                    numbers_of.out_ts)
                  (ground arith) holds before)))
      ]

  pub rewrite_payload-Writes :
      (dst ext : List ℕ) (r : Result RewriteError Cursor)
      → length csrcs_of ≡ 4 * hdr.csrc_count
      → slice 12 (4 * hdr.csrc_count) dst ≡ csrcs_of
      → Fills dst (12 + 4 * hdr.csrc_count) ext r
      → Writes (packet_of ext) (length dst) numbers_of (rewrite_payload src hdr sub rng now pt r)
  unfolding rewrite_payload
  rewrite_payload-Writes dst ext (err e) four before (is_large, some_data, h) =
      (is_large, omega (arith, four, h, length-packet_of ext))
  rewrite_payload-Writes dst ext (ok (end, buf)) four before (at_end, room, same, holds, frame) =
      subst
        (λ n.
          Writes (packet_of ext) (length dst) numbers_of
            (rewrite_payload src hdr sub rng now pt (ok (n, buf))))
        (sym at_end)
        (payload-Writes dst ext buf four (frame 12 (4 * hdr.csrc_count) (omega arith) ∙ before) same
          holds)
