-- ===== src/Lib.antt =====
-- Verification of nexus-sfu, a WebRTC selective forwarding unit in Rust.
--
-- The program. A publisher's datagrams reach a shard of the data plane (crates/nexus-dataplane).
-- It authenticates and decrypts a packet with the inbound SRTP context of the publisher's session
-- (crates/nexus-transport/src/srtp), parses its RTP header (crates/nexus-media), rewrites the
-- header for each subscriber into a buffer of its pool, encrypts the result with the outbound
-- SRTP context of the subscriber's session, and commits the rewrite once the packet is protected.
-- An RTCP datagram is split into its packets, and a publisher's report is translated for each
-- subscriber. The control plane keeps the rooms of a cluster in replicated types (crates/nexus-state),
-- whose updates the nodes send each other with their gossip messages, over a list of the members.
--
-- How the parts are modelled. Every part is a shallow embedding: a struct is a record, an enum a
-- data type, a method a function from the state to the result and the new state. Bytes are numbers
-- below 256 and buffers are lists of them; a machine word is a native number, and where the source
-- wraps, the definition has the remainder. An access that would panic is guarded by the tests of
-- the source.
-- A long method is a chain of functions by clauses, one for each early return.
--
-- Srtp, crates/nexus-transport/src/srtp:
--   Srtp/Index.antt is index.rs (RocState), with its estimate in Index/Estimate.antt.
--   Srtp/Replay.antt is replay.rs (ReplayProtection); Replay/Window.antt relates the bitmap to the
--   history of accepted indices, Replay/Safety.antt compares the code with a specification on the
--   history alone.
--   Srtp/Outbound.antt is SrtpOutbound of direction.rs; Outbound/Slots, Inv, Once, Run, RtcpIndex,
--   Rtcp and Register hold its invariant and runs, Outbound/LateStart.antt a corner of its sequence numbers.
--   Srtp/Inbound.antt is SrtpInbound of direction.rs, with its two unprotect calls in
--   Inbound/Unprotect.antt; Inbound/Table.antt is about the slots that its
--   searches find, Inbound/Sound.antt and Control.antt about the table, Inbound/Pinned, Delivery,
--   Replayed, Tracked and History about pinned SSRCs, Inbound/Refused.antt about refused packets.
--   Srtp/Cipher.antt is the parameter for crypto.rs, which calls the ring and RustCrypto packages.
--   No law of a cipher is assumed.
-- Media, crates/nexus-media/src:
--   Media/RtpHeader.antt is rtp/header.rs: the parser, the writer and the payload length; RtpHeader/Simd.antt the
--   two vector parsers, with a register as the list of its 16 bytes.
--   Media/Rtcp.antt is rtcp/header.rs with the checks that the parsers of rtcp/packet.rs begin with;
--   Rtcp/Kinds.antt is about the packet types. Rtcp/Compound.antt is rtcp/compound.rs, and
--   Compound/Splitting.antt says what it splits. Rtcp/Reports.antt has the sender and receiver
--   reports of rtcp/packet.rs (Reports/Sent, Reports/Blocks), Rtcp/Feedback.antt its PLI, FIR, REMB
--   and Transport-CC packets (Feedback/Lists, Bitrate, RoundTrip), Rtcp/Twcc.antt the
--   Transport-CC builder (Twcc/Symbols, Chunks, Reader), Rtcp/Nack.antt its NACK (Nack/Masks,
--   Grouping, RoundTrip, Overrun), and Rtcp/FirSeq.antt the FIR sequence numbers (FirSeq/Counts).
-- Dataplane, crates/nexus-dataplane/src:
--   Dataplane/Ext.antt is ext.rs, the iterator over extension elements; Dataplane/Subscription.antt
--   has subscription.rs, the maps of command.rs and the generator of rng.rs.
--   Dataplane/Rewrite.antt and Rewrite/Write.antt are rewrite.rs: the numbers and the bytes.
--   Rewrite/Numbering and Stream are about the numbers, Rewrite/Layout, Block, Output and Total about
--   the bytes, Rewrite/Expected, Readback, Parsed and Received about what a receiver reads of them.
--   Dataplane/Slab.antt and Dataplane/Pool.antt are slab.rs and pool.rs in a release build.
--   Slab/Vacant and Slab/Sound are about the free list, Slab/Lookup and Slab/Reuse about the slab as a map of keys,
--   Slab/Keys about its readers; Pool/Held is about the buffers that are out.
--   Dataplane/Rtcp.antt is rtcp.rs, and of shard/rtcp.rs what is read from a compound and the compound
--   that is sent for a report; Rtcp/Answered.antt reads the one as the other.
-- State, crates/nexus-state/src/crdt and crates/nexus-state/src/gossip:
--   State/GCounter.antt, State/LwwReg.antt and State/Orswot.antt are the replicated types.
--   Orswot/Sound, Additions, Merging and Runs are about the invariant of the set, Orswot/Removal, Buried
--   and Gone about removed elements.
--   State/Gossip, of gossip/membership.rs and gossip/types.rs: Gossip/Peers.antt has the peers and
--   their addresses, Gossip/Membership.antt the list and its calls. Membership/Sound, Keeps, Calls and
--   Room are about the list after any calls, Transitions, Hearsay, Timeouts and Readdress about the
--   peers' states and incarnations, Selection about the random choice of peers. Gossip/Updates.antt
--   and Gossip/Messages.antt with Messages/Decode.antt are the bytes of updates and messages, and
--   Messages/PeerBytes.antt those of a peer; their
--   modules RoundTrip, Accepted, Checked, Valid, Size and Parts are about what is read from them.
-- Base has lists over native numbers, parts of lists, big-endian words, reads at an offset and the
-- bits of numbers.
-- The module Tests of each part has concrete runs and the theorems at concrete inputs.
--
-- Bounds and fuel. The run through the extension elements of a packet has fuel for 16 rounds: the
-- source's own limit, MAX_ELEMENTS, counts the elements, and the iterator gives none past it. The loop
-- over the entries of a NACK has fuel for 64 rounds: each pushes a packet, and the loop ends at 64. The status
-- chunks of the Transport-CC builder have as many rounds as packets, of which each takes one or more. The
-- loops of the RTCP demultiplexer, the FIR parser, the NACK encoder and the REMB bitrate recurse on the
-- room that the source's own bound leaves: 16 packets, 31 entries, 32 entries, an exponent of 63. All
-- other loops are structural.
--
-- Not modelled. The clock and the random seed are arguments. The calls of a replicated type
-- are taken one at a time, not the atomic accesses within them. What a refused packet leaves in a send buffer is left
-- out: the caller drops the buffer. Debug assertions are not part of the definitions. The sockets,
-- threads and queues of the shard, DTLS, ICE, SDP, signaling, the orchestrator, bandwidth estimation, the gossip
-- protocol and its sockets, configuration, the REST API, metrics and the load test are not modelled.
-- The incarnation and the count of a membership list are plain numbers, since every call borrows the
-- list mutably or is taken alone. The clock is an argument also of the RTCP reports, and the random
-- numbers of the choice of peers are a function. The loss percentage of a report block, which is floating-point arithmetic, is left out.
pub mod Base
pub mod Dataplane
pub mod Media
pub mod Srtp
pub mod State
