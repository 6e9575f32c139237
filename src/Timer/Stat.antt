-- ===== src/Timer/Stat.antt =====
-- src/timer/timer.h and timer_enable.cc: a TimerStatEntryBucket, the limits of the buckets, and
-- TimerStatCollector::Report. An array is a function from its indices. Counters are 64 bits wide and
-- wrap; a duration that is summed is the bit pattern of a signed word (C++ leaves its overflow
-- undefined, the model wraps).
pub mod Limits
use cris_core.Prelude.{
  ℕ, zero, suc, ◌+◌, ◌*◌, ◌%◌, max, ◌≡◌, Bool, true, false, ltb, leb, ◌==◌, if◌then◌else◌, ℤ, pos,
  negsuc,
}

abbrev pub word : ℕ
word = 18446744073709551616

-- std::numeric_limits<cr_duration_nsec_t>::max()
abbrev pub duration_max : ℕ
duration_max = 9223372036854775807

abbrev pub bucket_num : ℕ
bucket_num = 32

-- TimerSection::kMaxCapacity
abbrev pub collector_size : ℕ
collector_size = 8192

pub record Bucket : Type 0 where
  pub hits : ℕ
  pub total_duration_ns : ℕ

unfoldable pub merge_bucket : Bucket → Bucket → Bucket
merge_bucket b another = record {
  hits = (b.hits + another.hits) % word;
  total_duration_ns = (b.total_duration_ns + another.total_duration_ns) % word;
}

abbrev pub clear_bucket : Bucket
clear_bucket = record { hits = 0; total_duration_ns = 0 }

-- `result *= 2`, idx times.
unfoldable pub doubled : ℕ → ℕ → ℕ
doubled zero result = result
doubled (suc i) result = doubled i (result * 2)

-- The default base_nsec is ten microseconds.
unfoldable pub upper_nsec_of_bucket : ℕ → ℕ
upper_nsec_of_bucket idx = if leb 31 idx then duration_max else doubled idx 10000

-- The scan of Report: `left` buckets from `i` on, with the last one that was looked at.
unfoldable pub bucket_scan : ℕ → ℕ → ℕ → ℕ → ℕ
bucket_scan zero i bucket_idx duration = bucket_idx
bucket_scan (suc left) i bucket_idx duration =
    let rest = bucket_scan left (suc i) i duration in
    if ltb duration (upper_nsec_of_bucket i) then i else rest

unfoldable pub bucket_of : ℕ → ℕ
bucket_of duration = bucket_scan bucket_num 0 0 duration

pub record Entry : Type 0 where
  pub buckets : ℕ → Bucket
  pub max_duration_ns : ℕ

pub record Collector : Type 0 where
  pub last_clear_time : ℕ
  pub last_merge_time : ℕ
  pub entries : ℕ → Entry

abbrev pub hit : ℕ → Bucket → Bucket
hit duration b = record {
  hits = (b.hits + 1) % word;
  total_duration_ns = (b.total_duration_ns + duration) % word;
}

unfoldable pub hit_entry : ℕ → Entry → Entry
hit_entry duration entry = record {
  buckets =
      λ i. if i == bucket_of duration then hit duration (entry.buckets i) else entry.buckets i;
  max_duration_ns = max entry.max_duration_ns duration;
}

-- `try_lock` is whether the collector's mutex is got at once.
unfoldable pub report : Collector → ℕ → ℤ → Bool → Collector
report c index (negsuc n) try_lock = c
report c index (pos duration) try_lock =
    if leb collector_size index
    then c
    else (if try_lock
        then record c {
          entries = λ i. if i == index then hit_entry duration (c.entries i) else c.entries i;
        }
        else c)

abbrev pub clear_entry : Entry
clear_entry = record { buckets = λ i. clear_bucket; max_duration_ns = 0 }

-- The constructor reads the clock.
unfoldable pub new : ℕ → Collector
new now = record { last_clear_time = now; last_merge_time = now; entries = λ i. clear_entry }
