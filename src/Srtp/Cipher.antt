-- ===== src/Srtp/Cipher.antt =====
-- The packet transforms of srtp/crypto.rs as a parameter: they call the `ring` and RustCrypto
-- packages. A transform returns its result beside the buffer that it leaves.
use nexus_sfu.Base.{ℕ, Bool, List, Result}
use nexus_sfu.Srtp.Types.{SrtpError}

-- `SrtpCipher`, with the packet's index as the transforms take it.
pub record Cipher : Type 0 where
  pub is_aead : Bool
  pub tag_len : ℕ
  pub protect_rtp : List ℕ → ℕ → ℕ → Result SrtpError ℕ × List ℕ
  pub unprotect_rtp : List ℕ → ℕ → ℕ → Result SrtpError ℕ × List ℕ
  pub protect_rtcp : List ℕ → ℕ → ℕ → Result SrtpError ℕ × List ℕ
  pub unprotect_rtcp : List ℕ → ℕ → Result SrtpError (ℕ × ℕ) × List ℕ

abbrev pub rtp_header_size : ℕ
rtp_header_size = 12

abbrev pub rtcp_header_size : ℕ
rtcp_header_size = 8

-- `SRTCP_INDEX_MASK`
abbrev pub srtcp_index_mask : ℕ
srtcp_index_mask = 0x7fff_ffff
