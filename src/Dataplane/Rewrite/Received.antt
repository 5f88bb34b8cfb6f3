-- ===== src/Dataplane/Rewrite/Received.antt =====
-- What a subscriber's receiver finds in the packets of rewrite.rs.
use nexus_sfu.Base.{
  ℕ, ◌+◌, ◌-◌, ◌*◌, ◌≤◌, ◌<◌, ◌≡◌, refl, sym, ap, ap₂, subst, ◌∙◌, Option, none, some, List, arith,
  ltb, length, take, drop, length-take, length-drop, Result, ok, err,
}
use nexus_sfu.Base.Bytes.{IsBytes}
use nexus_sfu.Base.Slices.{slice}
use nexus_sfu.Media.RtpHeader.{RtpHeader, parse}
use nexus_sfu.Media.RtpHeader.Bounds.{parse-Fits}
use nexus_sfu.Dataplane.Ext.{all_elements}
use nexus_sfu.Dataplane.Subscription.{Subscription, map_pt}
use nexus_sfu.Dataplane.Rewrite.{RewriteError, unmapped_pt, too_large, Advance}
use nexus_sfu.Dataplane.Rewrite.Write.{Rewritten, rewrite}
use nexus_sfu.Dataplane.Rewrite.Block.{extension_bytes}
use nexus_sfu.Dataplane.Rewrite.Numbering.{advance_of}
use nexus_sfu.Dataplane.Rewrite.Output.{packet_for, length-packet_of}
use nexus_sfu.Dataplane.Rewrite.Total.{Answers, rewrite-Answers}
use nexus_sfu.Dataplane.Rewrite.Readback.{
  mapped, extension_bytes-encode, IsExtMap, IsHeaderOf, packet_for-elements,
}
use nexus_sfu.Dataplane.Rewrite.Parsed.{
  block_size, has_elements, has_elements-block, length-block_bytes, header_for, parse-packet_for,
  payload-packet_for, csrcs-packet_for,
}
use nexus_sfu.Dataplane.Rewrite.Expected.{
  numbers, assigned_type, find_pt-assigned, advance_of-numbers, advance_of-small,
}

module _ (src : List ℕ) (hdr : RtpHeader) (sub : Subscription) (rng now : ℕ) (dst : List ℕ) where
  -- The length of the packet for the subscriber.
  abbrev pub packet_size : ℕ
  packet_size =
      12
      + 4 * hdr.csrc_count
      + block_size (mapped sub (all_elements src hdr))
      + (length src - hdr.header_len_bytes)

  -- The receiver's header, and what is behind it: of the publisher's packet the padding, the CSRCs, the
  -- marker and the payload, and the subscriber's payload type, SSRC, number and time.
  pub record IsReceived (pt : ℕ) (packet : List ℕ) (out : RtpHeader) : Type 0 where
    pub same_padding : (out.padding ≡ hdr.padding) × (out.padding_len ≡ hdr.padding_len)
    pub extended : out.extension ≡ has_elements (mapped sub (all_elements src hdr))
    pub same_count : out.csrc_count ≡ hdr.csrc_count
    pub same_marker : out.marker ≡ hdr.marker
    pub type_mapped : out.payload_type ≡ pt
    pub numbered :
        (out.sequence_number ≡ (numbers sub.rewrite hdr sub.clock_rate rng now).0)
        × (out.timestamp ≡ (numbers sub.rewrite hdr sub.clock_rate rng now).1)
    pub own_ssrc : out.ssrc ≡ sub.rewrite.out_ssrc
    pub same_csrcs : slice 12 (4 * hdr.csrc_count) packet ≡ slice 12 (4 * hdr.csrc_count) src
    pub same_payload : drop out.header_len_bytes packet ≡ drop hdr.header_len_bytes src

  -- What `rewrite` answers, by the subscriber's payload type.
  abbrev pub Delivers : Option ℕ → Result RewriteError Rewritten → Type 0
  Delivers none r = r ≡ err unmapped_pt
  Delivers (some pt) (err e) = (e ≡ too_large) × (length dst < packet_size)
  Delivers (some pt) (ok r) =
      (packet_size ≤ length dst)
      × (r.out_len ≡ packet_size)
      × ((out : RtpHeader) × (parse (take r.out_len r.dst) ≡ ok out)
          × IsReceived pt (take r.out_len r.dst) out)

  module _ (bytes : IsBytes src) (parsed : parse src ≡ ok hdr) (ids : IsExtMap sub)
      (few : length (mapped sub (all_elements src hdr)) ≤ 16)
      (ssrc_fits : sub.rewrite.out_ssrc < 4294967296) where
    abbrev a : Advance
    a = advance_of sub.rewrite hdr sub.clock_rate rng now

    length-packet_for : (pt : ℕ) → length (packet_for sub src hdr pt a) ≡ packet_size
    unfolding packet_for
    length-packet_for pt =
        let v = parse-Fits src hdr bytes parsed in
        let ext = extension_bytes sub (all_elements src hdr) in
        let block : length ext ≡ block_size (mapped sub (all_elements src hdr)) =
          ap length (extension_bytes-encode sub (all_elements src hdr))
          ∙ length-block_bytes (mapped sub (all_elements src hdr)) in
        length-packet_of src hdr sub rng now pt ext
        ∙ omega (
          arith,
          block,
          v.csrcs_inside,
          v.padding_inside,
          length-take (4 * hdr.csrc_count) (drop 12 src),
          length-drop 12 src,
          length-drop hdr.header_len_bytes src,
        )

    header_for-IsReceived :
        (pt : ℕ)
        → pt < 128
        → IsReceived pt
            (packet_for sub src hdr pt a)
            (header_for sub hdr pt a (mapped sub (all_elements src hdr)))
    header_for-IsReceived pt small =
        let v = parse-Fits src hdr bytes parsed in
        let (seq_fits, ts_fits) = advance_of-small sub.rewrite hdr sub.clock_rate rng now in
        record {
          same_padding = (refl, refl);
          extended = refl;
          same_count = refl;
          same_marker = refl;
          type_mapped = refl;
          numbered =
              advance_of-numbers sub.rewrite hdr sub.clock_rate rng now v.seq_fits v.timestamp_fits;
          own_ssrc = refl;
          same_csrcs =
              csrcs-packet_for sub src hdr pt a parsed bytes ids few small seq_fits ts_fits
                ssrc_fits;
          same_payload =
              payload-packet_for sub src hdr pt a parsed bytes ids few small seq_fits ts_fits
                ssrc_fits;
        }

    Answers-Delivers :
        (pt : Option ℕ) (r : Result RewriteError Rewritten)
        → ((to : ℕ) → pt ≡ some to → to < 128)
        → Answers src hdr sub rng now dst pt r
        → Delivers pt r
    Answers-Delivers none r small h = h
    Answers-Delivers (some pt) (err e) small (large, short) =
        (large, subst (λ n. length dst < n) (length-packet_for pt) short)
    Answers-Delivers (some pt) (ok r) small (len, fits, same, _, _) =
        let (seq_fits, ts_fits) = advance_of-small sub.rewrite hdr sub.clock_rate rng now in
        let out = header_for sub hdr pt a (mapped sub (all_elements src hdr)) in
        (
          subst (λ n. n ≤ length dst) (length-packet_for pt) fits,
          len ∙ length-packet_for pt,
          (
            out,
            ap parse same
                ∙ parse-packet_for sub src hdr pt a parsed bytes ids few (small pt refl) seq_fits
                    ts_fits ssrc_fits,
            subst (λ xs. IsReceived pt xs out) (sym same)
                (header_for-IsReceived pt (small pt refl)),
          ),
        )

    map_pt-assigned : map_pt sub.pt_map hdr.payload_type ≡ assigned_type sub hdr.payload_type
    unfolding map_pt
    map_pt-assigned = find_pt-assigned sub.pt_map.pairs hdr.payload_type

    -- For the bytes of a packet and its parsed header, a subscription with ids and a mid of the one-byte
    -- form, an SSRC of 32 bits and a payload type of 7 bits, and at most 16 elements for it: without an
    -- assigned payload type `rewrite` fails with `unmapped_pt`, and with one it fails, with `too_large`,
    -- exactly if the packet is longer than the buffer. Else the output is parsed to a header with the assigned
    -- payload type, the subscriber's SSRC, number and time and the publisher's marker and padding, and the
    -- CSRCs and the payload are the publisher's.
    pub rewrite-Delivers :
        ((to : ℕ) → assigned_type sub hdr.payload_type ≡ some to → to < 128)
        → Delivers (assigned_type sub hdr.payload_type) (rewrite src hdr sub rng now dst)
    rewrite-Delivers small =
        let v = parse-Fits src hdr bytes parsed in
        Answers-Delivers (assigned_type sub hdr.payload_type) (rewrite src hdr sub rng now dst)
          small
          (subst (λ t. Answers src hdr sub rng now dst t (rewrite src hdr sub rng now dst))
            map_pt-assigned
            (rewrite-Answers src hdr sub rng now dst
              (omega (arith, v.csrcs_inside, v.padding_inside))))

    header_for-IsHeaderOf :
        (pt : ℕ)
        → IsHeaderOf sub hdr
            (all_elements src hdr)
            (header_for sub hdr pt a (mapped sub (all_elements src hdr)))
    header_for-IsHeaderOf pt =
        let es = all_elements src hdr in
        let same = extension_bytes-encode sub es in
        record {
          same_count = refl;
          flagged = sym (ap (λ xs. ltb 0 (length xs)) same ∙ has_elements-block (mapped sub es));
          len = omega (arith, ap length same ∙ length-block_bytes (mapped sub es));
        }

    elements-Answers :
        (pt : ℕ) (r : Rewritten) (out : RtpHeader)
        → pt < 128
        → Answers src hdr sub rng now dst (some pt) (ok r)
        → parse (take r.out_len r.dst) ≡ ok out
        → all_elements (take r.out_len r.dst) out ≡ mapped sub (all_elements src hdr)
    elements-Answers pt r out small (len, fits, same, _, _) e =
        let v = parse-Fits src hdr bytes parsed in
        let (seq_fits, ts_fits) = advance_of-small sub.rewrite hdr sub.clock_rate rng now in
        let made =
          parse-packet_for sub src hdr pt a parsed bytes ids few small seq_fits ts_fits ssrc_fits in
        let both : ok out ≡ ok (header_for sub hdr pt a (mapped sub (all_elements src hdr))) =
          sym e ∙ ap parse same ∙ made in
        let is_out : out ≡ header_for sub hdr pt a (mapped sub (all_elements src hdr)) = cc in
        ap₂ all_elements same is_out
        ∙ packet_for-elements sub src hdr pt a
            (header_for sub hdr pt a (mapped sub (all_elements src hdr))) ids
            (header_for-IsHeaderOf pt) (omega (arith, v.csrcs_inside, v.padding_inside)) few

    -- For such a packet and subscription, if `rewrite` succeeds and its output is parsed, the iterator finds in
    -- the output exactly the elements that are wanted, under the subscriber's ids and in order, and then its mid:
    -- wanted is what is not the publisher's mid, has an id that the subscriber maps, and has 1 to 16 bytes.
    pub rewritten-elements :
        (pt : ℕ) (r : Rewritten) (out : RtpHeader)
        → pt < 128
        → assigned_type sub hdr.payload_type ≡ some pt
        → rewrite src hdr sub rng now dst ≡ ok r
        → parse (take r.out_len r.dst) ≡ ok out
        → all_elements (take r.out_len r.dst) out ≡ mapped sub (all_elements src hdr)
    rewritten-elements pt r out small to done e =
        let v = parse-Fits src hdr bytes parsed in
        let answers =
          rewrite-Answers src hdr sub rng now dst
            (omega (arith, v.csrcs_inside, v.padding_inside)) in
        elements-Answers pt r out small
          (subst (λ x. Answers src hdr sub rng now dst x (ok r)) (map_pt-assigned ∙ to)
            (subst (Answers src hdr sub rng now dst (map_pt sub.pt_map hdr.payload_type)) done
              answers))
          e
