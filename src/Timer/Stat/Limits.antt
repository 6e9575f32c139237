-- ===== src/Timer/Stat/Limits.antt =====
-- The bucket that TimerStatCollector::Report in src/timer/timer_enable.cc chooses for a duration.
use cris_core.Prelude.{
  ℕ, zero, suc, ◌+◌, ◌*◌, ◌^◌, ◌≤◌, ◌<◌, ◌≡◌, refl, ◌⊎◌, inl, inr, false, ltb, leb, Bool-cases,
  arith,
}
use native.Mathlib.Nat.{pow-succ', mul_assoc}
use cris_core.Timer.Stat.{
  duration_max, bucket_num, doubled, upper_nsec_of_bucket, bucket_scan, bucket_of,
}

-- What the scan promises of its answer `b` for the buckets from `i` on.
abbrev Fits : ℕ → ℕ → ℕ → Type 0
Fits i b duration =
    ((duration < upper_nsec_of_bucket b) ⊎ (b ≡ 31))
    × ((k : ℕ) → i ≤ k → k < b → upper_nsec_of_bucket k ≤ duration)

bucket_scan-Fits :
    (left i last duration : ℕ)
    → i + left ≡ 32
    → 0 < left
    → Fits i (bucket_scan left i last duration) duration
      × (i ≤ bucket_scan left i last duration)
      × (bucket_scan left i last duration < 32)
unfolding bucket_scan
bucket_scan-Fits zero i last duration e h = elim h [ ]
bucket_scan-Fits (suc zero) i last duration e h = ground arith
bucket_scan-Fits (suc (suc left)) i last duration e h =
    let rest = bucket_scan-Fits (suc left) (suc i) i duration (omega arith) (omega arith) in
    ground arith

doubled-pow : (i r : ℕ) → doubled i r ≡ r * 2 ^ i
unfolding doubled
doubled-pow zero r = omega arith
doubled-pow (suc i) r = cc (doubled-pow i (r * 2), pow-succ' 2 i, mul_assoc r 2 (2 ^ i))

leb_31 : (k : ℕ) → k < 31 → leb 31 k ≡ false
leb_31 k h = ground arith

upper_nsec_of_bucket-pow : (k : ℕ) → k < 31 → upper_nsec_of_bucket k ≡ 10000 * 2 ^ k
unfolding upper_nsec_of_bucket
upper_nsec_of_bucket-pow k h = rw (leb_31 k h) (doubled-pow k 10000)

upper_nsec_of_bucket_last : upper_nsec_of_bucket 31 ≡ duration_max
unfolding upper_nsec_of_bucket
upper_nsec_of_bucket_last = refl

-- A duration goes to one of the thirty-two buckets: every bucket before it ends, at ten
-- microseconds times a power of two, at or below the duration, and its own (exclusive) end is above
-- the duration, save for the greatest duration of all, which goes to the last bucket.
pub bucket_of_lem :
    (duration : ℕ)
    → duration ≤ duration_max
    → (bucket_of duration < bucket_num)
      × ((k : ℕ) → k < bucket_of duration → 10000 * 2 ^ k ≤ duration)
      × ((duration < upper_nsec_of_bucket (bucket_of duration))
          ⊎ ((duration ≡ duration_max) × (bucket_of duration ≡ 31)))
unfolding bucket_of
bucket_of_lem duration h =
    let fits = bucket_scan-Fits 32 0 0 duration refl (omega arith) in
    (
      fits.2,
      λ k l. ground (arith, upper_nsec_of_bucket-pow k (omega arith), fits.0.1 k (omega arith) l),
      elim fits.0.0 [
        | inl l ↦ inl l
        | inr e ↦ elim (Bool-cases (ltb duration duration_max)) [
          | inl l ↦ inl (ground (arith, upper_nsec_of_bucket_last))
          | inr l ↦ inr (ground arith, e)
        ]
      ],
    )
