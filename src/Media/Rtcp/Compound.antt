-- ===== src/Media/Rtcp/Compound.antt =====
-- crates/nexus-media/src/rtcp/compound.rs: the packets of a datagram.
pub mod Splitting
use nexus_sfu.Base.{
  ℕ, zero, suc, ◌+◌, ◌-◌, ◌&&◌, List, [], ◌∷◌, leb, ◌==◌, if◌then◌else◌, length, take, drop, ok,
}
use nexus_sfu.Media.Rtcp.{
  RtcpError, too_short, invalid_version, Parsed, ◌>>=◌, ◌>>◌, ensure, RtcpHeader, parse_header,
  packet_len_bytes, version_of, rtcp_version, rtcp_header_min_size_bytes,
}

abbrev pub max_compound_packets : ℕ
max_compound_packets = 16

-- `CompoundEntry`
pub record CompoundEntry : Type 0 where
  pub header : RtcpHeader
  pub bytes : List ℕ

-- The loop of `demux_compound`: the packets that still have room, the datagram and the offset.
unfoldable pub demux_from : ℕ → List ℕ → ℕ → Parsed (List CompoundEntry)
demux_from zero datagram offset = ok []
demux_from (suc room) datagram offset =
    let packets = (do
      let here = drop offset datagram
      ensure (version_of here == rtcp_version) (invalid_version (version_of here))
      header ← parse_header here
      let n = packet_len_bytes header
      ensure (leb 4 n && leb (offset + n) (length datagram))
          (too_short (length datagram - offset) n)
      rest ← demux_from room datagram (offset + n)
      ok (record { header = header; bytes = take n here } ∷ rest)) in
    if leb (offset + rtcp_header_min_size_bytes) (length datagram) then packets else ok []

-- `demux_compound`
unfoldable pub demux_compound : List ℕ → Parsed (List CompoundEntry)
unfolding demux_from
demux_compound datagram = demux_from max_compound_packets datagram 0
