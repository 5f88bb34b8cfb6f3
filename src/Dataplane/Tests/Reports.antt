-- ===== src/Dataplane/Tests/Reports.antt =====
-- The reports of the shard at concrete values.
use nexus_sfu.Base.{ℕ, ◌≡◌, refl, some, List, [], ◌∷◌, arith, take, replicate}
use nexus_sfu.Media.Rtcp.{parse_header, packet_len_bytes}
use nexus_sfu.Dataplane.Rtcp.{SrInfo, translated, read_compound, pli_bytes}
use nexus_sfu.Dataplane.Rtcp.Answered.{read_compound-translated}

abbrev published : SrInfo
published = record { ntp = 16000000000000000000; rtp = 4294967000 }

-- The RTP time wraps.
read_compound-translated_example :
    (out : List ℕ) × (translated (replicate 100 7) 9 published 1000 12 3400 (99 ∷ 110 ∷ [])
      ≡ some (44, out))
    × (read_compound (take 44 out)
        ≡ some (record {
          srs = (9, record { ntp = 16000000000000000000; rtp = 704 }) ∷ [];
          keyframes = [];
          ignored = 1;
        }))
read_compound-translated_example =
    read_compound-translated (replicate 100 7) 9 published 1000 12 3400 (99 ∷ 110 ∷ [])
      (omega arith, (omega arith, (omega arith, (omega arith, omega arith)))) (omega arith)
      (omega arith)

-- A PLI asks for a keyframe of its media source.
keyframe :
    read_compound (pli_bytes 3 77) ≡ some (record { srs = []; keyframes = 77 ∷ []; ignored = 0 })
unfolding read_compound pli_bytes parse_header packet_len_bytes
keyframe = refl
