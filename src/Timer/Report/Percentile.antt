-- ===== src/Timer/Report/Percentile.antt =====
-- GetPercentileDurationNsec of src/timer/timer_enable.cc.
use cris_core.Prelude.{ℕ, ◌+◌, ◌/◌, ◌≤◌, ◌<◌, ◌≡◌, List, [], ◌∷◌, ◌++◌}
use cris_core.Timer.Stat.{Bucket}
use cris_core.Timer.Report.{Answer, duration}

-- The hits of buckets, uncut.
unfoldable pub hits_of : List Bucket → ℕ
hits_of [] = 0
hits_of (b ∷ bs) = b.hits + hits_of bs

-- The bucket that has the `target`-th hit, and its average.
pub record HasTarget (bs : List Bucket) (target : ℕ) (answer : Answer) : Type 0 where
  pub before : List Bucket
  pub bucket : Bucket
  pub after : List Bucket
  pub split : bs ≡ before ++ bucket ∷ after
  pub above : hits_of before < target
  pub within : target ≤ hits_of before + bucket.hits
  pub result : answer ≡ duration (bucket.total_duration_ns / bucket.hits)
