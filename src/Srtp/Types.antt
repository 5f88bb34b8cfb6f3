-- ===== src/Srtp/Types.antt =====
-- srtp/error.rs and the packet index of srtp/types.rs.
use nexus_sfu.Base.{ℕ, ◌+◌, ◌*◌, ◌/◌, ◌%◌, ◌^◌, ◌<◌, bit_or, ◌≡◌}
use nexus_sfu.Base.Bits.{bit_or_fields}

-- `SrtpError`
pub data SrtpError : Type 0 where
  packet_too_short packet_too_large invalid_rtp_header invalid_rtcp_header : SrtpError
  authentication_failed encryption_failed decryption_failed replay_detected : SrtpError
  key_derivation_failed invalid_key_material not_initialized buffer_too_small : SrtpError
  invalid_ssrc roc_overflow srtcp_index_overflow unsupported_cipher_suite : SrtpError
  invalid_profile session_limit_reached duplicate_session invalid_buffer_length : SrtpError
  nonce_generation_failed : SrtpError

-- `PacketIndex::new`: `(roc << 16) | seq`.
unfoldable pub packet_index : ℕ → ℕ → ℕ
packet_index roc seq = bit_or (roc * 2 ^ 16) seq

-- `PacketIndex::roc` and `PacketIndex::seq`, with the casts to `u32` and `u16`.
unfoldable pub index_roc : ℕ → ℕ
index_roc i = i / 2 ^ 16 % 2 ^ 32

unfoldable pub index_seq : ℕ → ℕ
index_seq i = i % 2 ^ 16

pub packet_index_sum : (roc seq : ℕ) → seq < 65536 → packet_index roc seq ≡ roc * 65536 + seq
unfolding packet_index
packet_index_sum roc seq h = bit_or_fields 16 roc seq h
