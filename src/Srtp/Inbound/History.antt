-- ===== src/Srtp/Inbound/History.antt =====
-- All that `SrtpInbound` delivers of an SSRC from its pinning on.
use nexus_sfu.Base.{ℕ, List}
use nexus_sfu.Srtp.Cipher.{Cipher}
use nexus_sfu.Srtp.Replay.Safety.{Distinct}
use nexus_sfu.Srtp.Inbound.{SsrcIn, SrtpInbound}
use nexus_sfu.Srtp.Inbound.Sound.{Sound}
use nexus_sfu.Srtp.Inbound.Pinned.{Guards}

-- What `pin` leaves: a pinned slot, with what it let through before.
abbrev Starts : SrtpInbound → ℕ → Type 0
Starts s p = (h : List ℕ) × Distinct h × ((k : ℕ) × (x : SsrcIn) × Guards s.slots k p h x)
