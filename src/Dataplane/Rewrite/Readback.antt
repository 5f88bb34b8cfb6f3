-- ===== src/Dataplane/Rewrite/Readback.antt =====
-- The extension elements that rewrite.rs writes, read back by the iterator of ext.rs.
use nexus_sfu.Base.{
  ℕ, suc, ◌+◌, ◌-◌, ◌*◌, ◌/◌, ◌≤◌, ◌<◌, ◌≡◌, refl, sym, ap, ap₂, ◌∙◌, inl, inr, Bool, true, false,
  not, ◌&&◌, ◌||◌, Option, none, some, List, [], ◌∷◌, ◌++◌, append_assoc, append-nil, arith, ltb,
  leb, ◌==◌, if◌then◌else◌, Bool-cases, length, get_or, drop, replicate, length-append, length-take,
  length-drop,
}
use nexus_sfu.Base.Bytes.{be_u16, u16_bytes}
use nexus_sfu.Base.Slices.{slice, take-append, drop-append, drop-drop}
use nexus_sfu.Media.RtpHeader.{RtpHeader}
use nexus_sfu.Dataplane.Ext.{Element, elements, collect, start, all_elements}
use nexus_sfu.Dataplane.Ext.Encode.{encode, encode_element, IsOneByte, AreOneByte, elements-encode}
use nexus_sfu.Dataplane.Subscription.{Subscription}
use nexus_sfu.Dataplane.Rewrite.{Advance}
use nexus_sfu.Dataplane.Rewrite.Write.{target_id, fixed_bytes}
use nexus_sfu.Dataplane.Rewrite.Layout.{encode_kept, encode_mid, block_bytes}
use nexus_sfu.Dataplane.Rewrite.Block.{extension_bytes}
use nexus_sfu.Dataplane.Rewrite.Output.{packet_for, length-fixed_bytes}

-- An element is for the subscriber if it is not the publisher's mid, has an id that the subscriber maps to
-- one of its own, and fits the one-byte form.
abbrev pub is_wanted : Subscription → Element → Bool
is_wanted sub e =
    not (e.id == sub.pub_mid)
    && (ltb e.id (length sub.ext_map.map)
        && (ltb 0 (get_or sub.ext_map.map e.id 0)
            && (ltb 0 (length e.bytes) && leb (length e.bytes) 16)))

-- The elements that a subscriber gets: those it wants, under its ids, and its mid.
unfoldable pub kept : Subscription → List Element → List Element
kept sub [] = []
kept sub (e ∷ es) =
    let rest = kept sub es in
    if is_wanted sub e then record e { id = get_or sub.ext_map.map e.id 0 } ∷ rest else rest

unfoldable pub mid_element : Subscription → List Element
mid_element sub =
    if sub.ext_map.mid == 0 then [] else record { id = sub.ext_map.mid; bytes = sub.mid } ∷ []

unfoldable pub mapped : Subscription → List Element → List Element
unfolding kept mid_element
mapped sub es = kept sub es ++ mid_element sub

encode-append : (xs ys : List Element) → encode (xs ++ ys) ≡ encode xs ++ encode ys
unfolding encode
encode-append [] ys = refl
encode-append (x ∷ xs) ys =
    ap (λ zs. encode_element x.id x.bytes ++ zs) (encode-append xs ys)
    ∙ sym (append_assoc (encode_element x.id x.bytes) (encode xs) (encode ys))

target_id-wanted :
    (sub : Subscription) (e : Element)
    → target_id sub e ≡ (if is_wanted sub e then some (get_or sub.ext_map.map e.id 0) else none)
unfolding target_id
target_id-wanted sub e = ground arith

kept_if-encode :
    (wanted : Bool) (to : ℕ) (e : Element) (bytes : List ℕ) (rest : List Element)
    → bytes ≡ encode rest
    → (elim (if wanted then some to else none) [
      | none ↦ bytes
      | some to ↦ encode_element to e.bytes ++ bytes
    ])
      ≡ encode (if wanted then record e { id = to } ∷ rest else rest)
unfolding encode
kept_if-encode true to e bytes rest h = ap (λ zs. encode_element to e.bytes ++ zs) h
kept_if-encode false to e bytes rest h = h

encode-kept : (sub : Subscription) (es : List Element) → encode_kept sub es ≡ encode (kept sub es)
unfolding encode_kept kept encode
encode-kept sub [] = refl
encode-kept sub (e ∷ es) =
    let bytes = encode_kept sub es in
    ap (λ (id : Option ℕ). elim id [ none ↦ bytes | some to ↦ encode_element to e.bytes ++ bytes ])
      (target_id-wanted sub e)
    ∙ kept_if-encode (is_wanted sub e) (get_or sub.ext_map.map e.id 0) e bytes (kept sub es)
        (encode-kept sub es)

encode-mid : (sub : Subscription) → encode_mid sub ≡ encode (mid_element sub)
unfolding encode_mid mid_element encode
encode-mid sub = elim (Bool-cases (sub.ext_map.mid == 0)) [
  | inl e ↦ rw e refl
  | inr e ↦ rw e (sym (append-nil (encode_element sub.ext_map.mid sub.mid)))
]

-- The block that `write_extensions` writes holds the encoded elements.
pub extension_bytes-encode :
    (sub : Subscription) (es : List Element)
    → extension_bytes sub es ≡ block_bytes (encode (mapped sub es))
unfolding extension_bytes mapped
extension_bytes-encode sub es = ap block_bytes (
    ap₂ ◌++◌ (encode-kept sub es) (encode-mid sub)
    ∙ sym (encode-append (kept sub es) (mid_element sub)))

-- The subscriber's ids have the one-byte form: what `ExtMap` and the mid are made with.
pub record IsExtMap (sub : Subscription) : Type 0 where
  pub ids : (i : ℕ) → get_or sub.ext_map.map i 0 < 15
  pub mid_fits : sub.ext_map.mid < 15
  pub mid_some : 0 < length sub.mid
  pub mid_short : length sub.mid ≤ 16

wanted-IsOneByte :
    (sub : Subscription) (e : Element)
    → IsExtMap sub
    → is_wanted sub e ≡ true
    → IsOneByte (record e { id = get_or sub.ext_map.map e.id 0 })
wanted-IsOneByte sub e v h = ground (arith, v.ids e.id)

kept-AreOneByte : (sub : Subscription) (es : List Element) → IsExtMap sub → AreOneByte (kept sub es)
unfolding kept
kept-AreOneByte sub [] v = tt
kept-AreOneByte sub (e ∷ es) v =
    let rest = kept-AreOneByte sub es v in
    elim (Bool-cases (is_wanted sub e)) [
      | inl wants ↦ rw wants (wanted-IsOneByte sub e v wants, rest)
      | inr other ↦ rw other rest
    ]

append-AreOneByte : (xs ys : List Element) → AreOneByte xs → AreOneByte ys → AreOneByte (xs ++ ys)
append-AreOneByte [] ys h g = g
append-AreOneByte (x ∷ xs) ys (one, h) g = (one, append-AreOneByte xs ys h g)

mid_element-AreOneByte : (sub : Subscription) → IsExtMap sub → AreOneByte (mid_element sub)
unfolding mid_element
mid_element-AreOneByte sub v = elim (Bool-cases (sub.ext_map.mid == 0)) [
  | inl e ↦ rw e tt
  | inr e ↦ rw e ((ground arith, v.mid_fits, v.mid_some, v.mid_short), tt)
]

pub mapped-AreOneByte :
    (sub : Subscription) (es : List Element) → IsExtMap sub → AreOneByte (mapped sub es)
unfolding mapped
mapped-AreOneByte sub es v =
    append-AreOneByte (kept sub es) (mid_element sub) (kept-AreOneByte sub es v)
      (mid_element-AreOneByte sub v)

-- A header of the rewritten packet, as far as the extensions are concerned.
pub record IsHeaderOf (sub : Subscription) (hdr : RtpHeader) (es : List Element) (out : RtpHeader)
    : Type 0 where
  pub same_count : out.csrc_count ≡ hdr.csrc_count
  pub flagged : out.extension ≡ ltb 0 (length (extension_bytes sub es))
  pub len : out.header_len_bytes ≡ 12 + 4 * hdr.csrc_count + length (extension_bytes sub es)

get_or-append_after :
    (xs ys : List ℕ) (i d : ℕ) → get_or (xs ++ ys) (length xs + i) d ≡ get_or ys i d
get_or-append_after [] ys i d = ap (λ n. get_or ys n d) (omega arith)
get_or-append_after (x ∷ xs) ys i d =
    let e : suc (length xs) + i ≡ suc (length xs + i) = omega arith in
    rw e (get_or-append_after xs ys i d)

-- The reader, on a packet whose extension block stands behind `front` and before `payload`.
elements_behind :
    (front body payload : List ℕ) (words : ℕ) (out : RtpHeader)
    → length front ≡ 12 + 4 * out.csrc_count
    → out.extension ≡ true
    → out.header_len_bytes ≡ length front + (4 + length body)
    → elements (front ++ ((u16_bytes 0xBEDE ++ (u16_bytes words ++ body)) ++ payload)) out
      ≡ start body false
unfolding elements be_u16 u16_bytes
elements_behind front body payload words out first on len =
    let rest : List ℕ = (u16_bytes 0xBEDE ++ (u16_bytes words ++ body)) ++ payload in
    let total : length (front ++ rest) ≡ length front + (4 + (length body + length payload)) =
      omega (arith, length-append front rest, length-append body payload) in
    let inside : (ltb out.header_len_bytes (length front + 4)
          || ltb (length (front ++ rest)) out.header_len_bytes)
        ≡ false =
      ground (arith, total, len) in
    let high : get_or (front ++ rest) (length front) 0 ≡ 0xBE =
      ap (λ n. get_or (front ++ rest) n 0) (omega arith) ∙ get_or-append_after front rest 0 0 in
    let low : get_or (front ++ rest) (length front + 1) 0 ≡ 0xDE =
      get_or-append_after front rest 1 0 in
    let behind : drop (length front + 4) (front ++ rest) ≡ body ++ payload =
      sym (drop-drop (length front) 4 (front ++ rest)) ∙ ap (drop 4) (drop-append front rest) in
    let size : out.header_len_bytes - (length front + 4) ≡ length body = omega (arith, len) in
    rw on (
      rw (sym first)
        (rw inside (rw high (rw low (rw size (rw behind (rw (take-append body payload) refl)))))))

positive : (n : ℕ) → ltb 0 (suc n) ≡ true
positive n = ground arith

all_elements_behind :
    (front payload : List ℕ) (ms : List Element) (out : RtpHeader)
    → length front ≡ 12 + 4 * out.csrc_count
    → out.extension ≡ ltb 0 (length (block_bytes (encode ms)))
    → out.header_len_bytes ≡ length front + length (block_bytes (encode ms))
    → AreOneByte ms
    → length ms ≤ 16
    → all_elements (front ++ (block_bytes (encode ms) ++ payload)) out ≡ ms
unfolding all_elements elements block_bytes encode encode_element u16_bytes
all_elements_behind front payload [] out first flag len valid few =
    rw flag (elements-encode [] 0 tt (omega arith))
all_elements_behind front payload (m ∷ ms) out first flag len valid few =
    let enc : List ℕ = encode (m ∷ ms) in
    let pad : ℕ = (length enc + 3) / 4 * 4 - length enc in
    ap (collect 16) (
      elements_behind front (enc ++ replicate pad 0) payload ((length enc + 3) / 4) out first
        (flag ∙ positive _) (omega (arith, len)))
    ∙ elements-encode (m ∷ ms) pad valid few

-- With a header that has the packet's CSRC count, extension flag and length, the elements are read back.
pub packet_for-elements :
    (sub : Subscription) (src : List ℕ) (hdr : RtpHeader) (pt : ℕ) (a : Advance) (out : RtpHeader)
    → IsExtMap sub
    → IsHeaderOf sub hdr (all_elements src hdr) out
    → 12 + 4 * hdr.csrc_count ≤ length src
    → length (mapped sub (all_elements src hdr)) ≤ 16
    → all_elements (packet_for sub src hdr pt a) out ≡ mapped sub (all_elements src hdr)
unfolding packet_for
packet_for-elements sub src hdr pt a out v h room few =
    let es = all_elements src hdr in
    let ext = extension_bytes sub es in
    let payload = drop hdr.header_len_bytes src in
    let fixed = fixed_bytes src hdr sub pt (ltb 0 (length ext)) a.out_seq a.out_ts in
    let csrcs = slice 12 (4 * hdr.csrc_count) src in
    let same : ext ≡ block_bytes (encode (mapped sub es)) = extension_bytes-encode sub es in
    let size : length (fixed ++ csrcs) ≡ 12 + 4 * hdr.csrc_count = omega (
      arith,
      length-append fixed csrcs,
      length-fixed_bytes src hdr sub pt (ltb 0 (length ext)) a.out_seq a.out_ts,
      length-take (4 * hdr.csrc_count) (drop 12 src),
      length-drop 12 src,
    ) in
    ap (λ xs. all_elements xs out)
      (sym (append_assoc fixed csrcs (ext ++ payload))
        ∙ ap (λ xs. (fixed ++ csrcs) ++ (xs ++ payload)) same)
    ∙ all_elements_behind (fixed ++ csrcs) payload (mapped sub es) out
        (size ∙ ap (λ n. 12 + 4 * n) (sym h.same_count))
        (h.flagged ∙ ap (λ xs. ltb 0 (length xs)) same) (omega (arith, h.len, size, ap length same))
        (mapped-AreOneByte sub es v) few
