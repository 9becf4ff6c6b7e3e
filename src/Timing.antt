-- ===== src/Timing.antt =====
-- src/timing.rs: the probes of the hot paths.
pub mod Tally
mod Examples
use minde.Base.{ℕ, ◌+◌, ◌%◌, List, [], ◌∷◌, ltb, leb, ◌==◌, if◌then◌else◌, word64}

-- The index of the first limit that is not below the time, or of the open bucket.
pub position : List ℕ → ℕ → ℕ
position [] elapsed = 0
position (limit ∷ limits) elapsed =
    let rest = position limits elapsed in if leb elapsed limit then 0 else rest + 1

abbrev pub bucket_limits_us : List ℕ
bucket_limits_us = 100 ∷ 1000 ∷ 4000 ∷ 16600 ∷ []

-- The statistics of one probe; the histogram is a function of the bucket's index.
pub record Stats : Type 0 where
  pub count : ℕ
  pub total_us : ℕ
  pub max_us : ℕ
  pub buckets : ℕ → ℕ

abbrev pub stats_default : Stats
stats_default = record { count = 0; total_us = 0; max_us = 0; buckets = λ i. 0 }

-- The microseconds as a `u64`.
abbrev pub clamp_us : ℕ → ℕ
clamp_us micros = if ltb micros word64 then micros else 18446744073709551615

abbrev pub fetch_max : ℕ → ℕ → ℕ
fetch_max old new = if ltb old new then new else old

-- `record`, of the probe's statistics.
unfoldable pub record_time : ℕ → Stats → Stats
unfolding position
record_time micros s =
    let elapsed = clamp_us micros in
    record {
      count = (s.count + 1) % word64;
      total_us = (s.total_us + elapsed) % word64;
      max_us = fetch_max s.max_us elapsed;
      buckets = λ i.
          if i == position bucket_limits_us elapsed
          then (s.buckets i + 1) % word64
          else s.buckets i;
    }
