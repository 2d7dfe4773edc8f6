-- ===== src/Tests/RateLimits.antt =====
-- The default limit of calls: ten tokens, ten more each minute.
use three_pillars_voip.Base.{ℕ, ◌+◌, ◌*◌, ◌≤◌, ◌≡◌, refl, List, [], ◌∷◌, arith}
use three_pillars_voip.Base.Maps.{StringMap, lookup}
use three_pillars_voip.Signaling.RateLimit.{default, check_map, cleanup_map}
use three_pillars_voip.Signaling.RateLimit.Buckets.{
  Bucket, new_bucket, new_bucket-IsValid, try_consume,
}
use three_pillars_voip.Signaling.RateLimit.Rate.{passed, intervals, passed-le}
use three_pillars_voip.Signaling.RateLimit.Cleanup.{decision, check_map-cleanup_map}

-- A burst of a dozen requests at once.
abbrev burst : List ℕ
burst = 5 ∷ 5 ∷ 5 ∷ 5 ∷ 5 ∷ 5 ∷ 5 ∷ 5 ∷ 5 ∷ 5 ∷ 5 ∷ 5 ∷ []

passed-le_example :
    passed (new_bucket default.calls 0) burst ≤ 10 + 10 * intervals default.calls 0 7
passed-le_example = passed-le default.calls 0 7 burst (omega arith) (ground arith)

passed_ten : passed (new_bucket default.calls 0) burst ≡ 10
unfolding passed try_consume
passed_ten = refl

abbrev peers : StringMap Bucket
peers = ("alice", new_bucket default.calls 0) ∷ []

check_map-cleanup_map_example :
    decision "alice"
      (check_map default.calls 200000000000 "alice" (cleanup_map 190000000000 50000 peers))
    ≡ decision "alice" (check_map default.calls 200000000000 "alice" peers)
unfolding lookup
check_map-cleanup_map_example =
    check_map-cleanup_map default.calls 190000000000 200000000000 50000 "alice" peers (omega arith)
      (omega arith) (omega arith) (omega arith) (omega arith)
      (new_bucket-IsValid default.calls 0, tt) (refl, tt) (omega arith)
