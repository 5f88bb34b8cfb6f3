-- ===== src/State/Gossip/Messages/Parts.antt =====
-- The lists inside the messages of gossip/types.rs, written and read back.
use nexus_sfu.Base.{
  ℕ, suc, ◌+◌, ◌*◌, ◌≤◌, ◌<◌, ◌≡◌, refl, sym, ap, ◌∙◌, some, List, [], ◌∷◌, ◌++◌, append_assoc,
  append-nil, arith, length, get_or, take, drop, All, length-append, ok,
}
use nexus_sfu.Base.Bytes.{
  be_u16, be_u32, be_u64, u16_bytes, u32_bytes, u64_bytes, be_u16-u16_bytes, be_u32-u32_bytes,
  be_u64-u64_bytes,
}
use nexus_sfu.Base.Slices.{take-append}
use nexus_sfu.Base.Reads.{get_or-drop, be_u16-drop, be_u64-drop, length-rest, after}
use nexus_sfu.State.Gossip.Peers.{SocketAddr, v4, v6, max_actors}
use nexus_sfu.State.Gossip.Updates.{StateUpdate, update_bytes, decode_update}
use nexus_sfu.State.Gossip.Updates.Valid.{IsU64, IsValid}
use nexus_sfu.State.Gossip.Updates.RoundTrip.{
  passes, decode_update-update_bytes, length-update_bytes,
}
use nexus_sfu.State.Gossip.Messages.{Member, addr_bytes, member_bytes, members_loop, String}
use nexus_sfu.State.Gossip.Messages.Decode.{
  decode_addr_kind, decode_socket_addr, add_update, decode_updates, add_member, decode_members,
}
use nexus_sfu.State.Gossip.Messages.Size.{frames}

pub decode_updates-frames :
    (no_length no_update : String) (us : List StateUpdate) (bytes rest : List ℕ) (at : ℕ)
    → All IsValid us
    → drop at bytes ≡ frames us ++ rest
    → decode_updates no_length no_update (length us) bytes at ≡ ok us
unfolding decode_updates frames add_update u16_bytes
decode_updates-frames no_length no_update [] bytes rest at v e = refl
decode_updates-frames no_length no_update (u ∷ us) bytes rest at (vu, vs) e =
    let n = length (update_bytes u) in
    let tail = frames us ++ rest in
    let split : drop at bytes ≡ u16_bytes n ++ (update_bytes u ++ tail) =
      e ∙ ap (λ xs. u16_bytes n ++ xs) (append_assoc (update_bytes u) (frames us) rest) in
    let size : be_u16 bytes at ≡ n =
      be_u16-drop bytes at
      ∙ ap (λ xs. be_u16 xs 0) split
      ∙ be_u16-u16_bytes n (update_bytes u ++ tail) (omega (arith, length-update_bytes u)) in
    let body : drop (at + 2) bytes ≡ update_bytes u ++ tail =
      after bytes (u16_bytes n) (update_bytes u ++ tail) at split in
    let next : drop (at + 2 + n) bytes ≡ tail = after bytes (update_bytes u) tail (at + 2) body in
    let one : decode_update (take n (drop (at + 2) bytes)) ≡ some (u, n) =
      ap decode_update
        (ap (take n) body ∙ take-append (update_bytes u) tail ∙ sym (append-nil (update_bytes u)))
      ∙ decode_update-update_bytes u [] vu in
    let room = length-rest bytes (u16_bytes n ++ (update_bytes u ++ tail)) at split in
    let room2 = length-append (update_bytes u) tail in
    let more = decode_updates-frames no_length no_update us bytes rest (at + 2 + n) vs next in
    rw (size, one, more) (ground arith)

-- The fields of an address fit the bytes they are written in.
abbrev pub IsAddr : SocketAddr → Type 0
IsAddr (v4 ip port) = (ip < 4294967296) × (port < 65536)
IsAddr (v6 high low port flowinfo scope_id) =
    IsU64 high × IsU64 low × (port < 65536) × (flowinfo < 4294967296) × (scope_id < 4294967296)

-- What of an address is read back: the flow information and the scope of an IPv6 address are dropped.
abbrev pub received_addr : SocketAddr → SocketAddr
received_addr (v4 ip port) = v4 ip port
received_addr (v6 high low port flowinfo scope_id) = v6 high low port 0 0

pub decode-addr_bytes :
    (a : SocketAddr) (rest : List ℕ)
    → IsAddr a
    → decode_socket_addr (addr_bytes a ++ rest) ≡ some (received_addr a, length (addr_bytes a))
unfolding decode_socket_addr decode_addr_kind addr_bytes be_u16 be_u32 be_u64 u16_bytes u32_bytes
    u64_bytes
decode-addr_bytes (v4 ip port) rest (hi, hp) =
    let ei = be_u32-u32_bytes ip (u16_bytes port ++ rest) hi in
    let ep = be_u16-u16_bytes port rest hp in
    passes (length (addr_bytes (v4 ip port) ++ rest)) 7 (length rest) _ _ (omega arith)
      (rw (ei, ep) refl)
decode-addr_bytes (v6 high low port flowinfo scope_id) rest (hh, hl, hp, hf, hs) =
    let tail = u32_bytes flowinfo ++ (u32_bytes scope_id ++ rest) in
    let eh = be_u64-u64_bytes high (u64_bytes low ++ (u16_bytes port ++ tail)) hh in
    let el = be_u64-u64_bytes low (u16_bytes port ++ tail) hl in
    let ep = be_u16-u16_bytes port tail hp in
    passes (length (addr_bytes (v6 high low port flowinfo scope_id) ++ rest)) 27 (length rest) _ _
      (omega arith) (rw (eh, el, ep) (ground arith))

abbrev pub IsMember : Member → Type 0
IsMember m = (m.actor_id < max_actors) × IsU64 m.incarnation × (m.state ≤ 2)

-- A member is read from the start of what follows the offset.
read-member_bytes :
    (m : Member) (bytes tail : List ℕ) (at : ℕ)
    → IsMember m
    → drop at bytes ≡ member_bytes m ++ tail
    → (be_u64 bytes at ≡ m.actor_id)
      × (be_u64 bytes (at + 8) ≡ m.incarnation)
      × (get_or bytes (at + 16) 0 ≡ m.state)
unfolding member_bytes u64_bytes u32_bytes be_u64 be_u32
read-member_bytes m bytes tail at (ha, hi, hs) e =
    let first = u64_bytes m.incarnation ++ (m.state ∷ tail) in
    let here : at + 0 ≡ at = omega arith in
    (
      sym (ap (be_u64 bytes) here)
          ∙ be_u64-drop bytes at 0
          ∙ ap (λ xs. be_u64 xs 0) e
          ∙ be_u64-u64_bytes m.actor_id first (omega arith),
      be_u64-drop bytes at 8
          ∙ ap (λ xs. be_u64 xs 8) e
          ∙ be_u64-u64_bytes m.incarnation (m.state ∷ tail) hi,
      sym (get_or-drop bytes at 16 0) ∙ ap (λ xs. get_or xs 16 0) e,
    )

pub decode_members-members_loop :
    (ms : List Member) (bytes rest : List ℕ) (at : ℕ)
    → All IsMember ms
    → drop at bytes ≡ members_loop ms ++ rest
    → decode_members (length ms) bytes at ≡ ok (ms, at + 17 * length ms)
unfolding decode_members members_loop add_member member_bytes u64_bytes u32_bytes
decode_members-members_loop [] bytes rest at v e =
    let here : at ≡ at + 17 * 0 = omega arith in ap (λ n. ok ([], n)) here
decode_members-members_loop (m ∷ ms) bytes rest at (vm, vs) e =
    let tail = members_loop ms ++ rest in
    let (ea, ei, es) = read-member_bytes m bytes tail at vm e in
    let next : drop (at + 17) bytes ≡ tail = after bytes (member_bytes m) tail at e in
    let room = length-rest bytes (member_bytes m ++ tail) at e in
    let more = decode_members-members_loop ms bytes rest (at + 17) vs next in
    let size : at + 17 + 17 * length ms ≡ at + 17 * suc (length ms) = omega arith in
    rw (ea, ei, es, more) (ground arith)
