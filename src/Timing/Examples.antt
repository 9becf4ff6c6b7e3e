-- ===== src/Timing/Examples.antt =====
-- Records of the probes of src/timing.rs.
use minde.Base.{ℕ, ◌≡◌, refl, List, [], ◌∷◌, arith}
use minde.Timing.{stats_default, position, bucket_limits_us}
use minde.Timing.Tally.{record_all, tally, Greatest, record_all-tally}

-- The limits belong to their buckets.
bucket_of_limit : position bucket_limits_us 100 ≡ 0
unfolding position
bucket_of_limit = refl

bucket_of_slow : position bucket_limits_us 16601 ≡ 4
unfolding position
bucket_of_slow = refl

abbrev times : List ℕ
times = 90 ∷ 16601 ∷ 100 ∷ []

record_all-tally_example :
    ((record_all times stats_default).count ≡ 3)
    × ((record_all times stats_default).total_us ≡ 16791)
    × Greatest 0 times (record_all times stats_default).max_us
    × ((i : ℕ) → (record_all times stats_default).buckets i ≡ tally i times)
record_all-tally_example = record_all-tally times (omega arith) (omega arith)
