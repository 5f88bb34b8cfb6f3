-- ===== src/Dataplane/Rewrite/Total.antt =====
-- `rewrite` of rewrite.rs on every branch.
use nexus_sfu.Base.{
  ℕ, ◌+◌, ◌-◌, ◌*◌, ◌≤◌, ◌≡◌, refl, sym, ap, subst, ◌∙◌, inl, inr, Option, none, some, List, arith,
  ltb, Bool-cases, length, drop, length-take, length-drop, Result, err,
}
use nexus_sfu.Base.Bytes.{write_at}
use nexus_sfu.Base.Slices.{slice, length-write_at, slice-write_at_self}
use nexus_sfu.Media.RtpHeader.{RtpHeader}
use nexus_sfu.Dataplane.Ext.{all_elements}
use nexus_sfu.Dataplane.Subscription.{Subscription, map_pt}
use nexus_sfu.Dataplane.Rewrite.{RewriteError, unmapped_pt}
use nexus_sfu.Dataplane.Rewrite.Write.{
  Rewritten, rewrite_mapped, rewrite, write_extensions, rewrite_payload,
}
use nexus_sfu.Dataplane.Rewrite.Block.{extension_bytes, write_extensions-Fills}
use nexus_sfu.Dataplane.Rewrite.Numbering.{advance_of}
use nexus_sfu.Dataplane.Rewrite.Output.{
  Writes, packet_for, packet_of, length-packet_of, rewrite_payload-Writes,
}

module _ (src : List ℕ) (hdr : RtpHeader) (sub : Subscription) (rng now : ℕ) (dst : List ℕ) where
  -- What `rewrite` answers, by the subscriber's payload type.
  abbrev pub Answers : Option ℕ → Result RewriteError Rewritten → Type 0
  Answers none r = r ≡ err unmapped_pt
  Answers (some pt) r =
      let a = advance_of sub.rewrite hdr sub.clock_rate rng now in
      Writes (packet_for sub src hdr pt a) (length dst) a r

  rewrite_mapped-Answers :
      (pt : Option ℕ)
      → 12 + 4 * hdr.csrc_count ≤ length src
      → Answers pt (rewrite_mapped src hdr sub rng now dst pt)
  unfolding rewrite_mapped packet_for
  rewrite_mapped-Answers none h = refl
  rewrite_mapped-Answers (some pt) h =
      let csrcs = slice 12 (4 * hdr.csrc_count) src in
      let ext = extension_bytes sub (all_elements src hdr) in
      let four : length csrcs ≡ 4 * hdr.csrc_count =
        omega (arith, length-take (4 * hdr.csrc_count) (drop 12 src), length-drop 12 src) in
      let count : 12 + 4 * hdr.csrc_count - 12 ≡ 4 * hdr.csrc_count = omega arith in
      elim (Bool-cases (ltb (length dst) (12 + 4 * hdr.csrc_count))) [
        | inl e ↦ rw e (refl, ground (arith, length-packet_of src hdr sub rng now pt ext, four))
        | inr e ↦
            let fits : 12 + length csrcs ≤ length dst = ground (arith, four) in
            rw e (
              rw count (
                subst
                  (λ n.
                    Writes (packet_of src hdr sub rng now pt ext) n
                      (advance_of sub.rewrite hdr sub.clock_rate rng now)
                      (rewrite_payload src hdr sub rng now pt (
                        write_extensions sub (all_elements src hdr) (write_at dst 12 csrcs)
                          (12 + 4 * hdr.csrc_count))))
                  (length-write_at dst 12 csrcs fits)
                  (rewrite_payload-Writes src hdr sub rng now pt (write_at dst 12 csrcs) ext
                    (write_extensions sub (all_elements src hdr) (write_at dst 12 csrcs)
                      (12 + 4 * hdr.csrc_count))
                    four
                    (ap (λ n. slice 12 n (write_at dst 12 csrcs)) (sym four)
                      ∙ slice-write_at_self dst 12 csrcs fits)
                    (write_extensions-Fills sub (all_elements src hdr) (write_at dst 12 csrcs)
                      (12 + 4 * hdr.csrc_count)))))
      ]

  -- For a packet that holds its CSRCs: without a mapped payload type, `rewrite` fails with
  -- `unmapped_pt`. With one, it succeeds exactly if the rewritten packet fits the buffer, and the
  -- buffer then starts with that packet: the new fixed header, the CSRCs, the mapped extensions
  -- and the payload; the numbers are those of `offsets`.
  pub rewrite-Answers :
      12 + 4 * hdr.csrc_count ≤ length src
      → Answers (map_pt sub.pt_map hdr.payload_type) (rewrite src hdr sub rng now dst)
  unfolding rewrite
  rewrite-Answers h = rewrite_mapped-Answers (map_pt sub.pt_map hdr.payload_type) h
