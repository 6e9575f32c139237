-- ===== src/Timer/Tests.antt =====
-- Runs and examples of the timer of src/timer.
use cris_core.Prelude.{
  ℕ, ◌+◌, ◌^◌, ◌≤◌, ◌<◌, ◌≡◌, refl, ◌&&◌, leb, ltb, if◌then◌else◌, true, false, List, [], ◌∷◌, pos,
  arith,
}
use cris_core.Timer.Stat.{
  bucket_of, bucket_scan, upper_nsec_of_bucket, doubled, clear_bucket, Collector, collector_size,
  report, new,
}
use cris_core.Timer.Collect.{Op, reports, exits, get_report, all_reports, run, start}
use cris_core.Timer.Collect.Held.{noted, note}
use cris_core.Timer.Collect.Conservation.{all_reports-noted}
use cris_core.Timer.Report.{
  Header, duration, get_percentile_duration_nsec, get_average_duration_nsec, get_total_hits,
  sum_hits, sum_durations, percentile_loop, Sections, section, no_sections, and_section,
}
use cris_core.Timer.Report.Tree.{AreDistinct, Lacks}
use cris_core.Timer.Section as Registry
use cris_core.Timer.Section.Indices.{sections_distinct, times, keyed}

bucket_of_seen : bucket_of 25000 ≡ 2
unfolding bucket_of bucket_scan upper_nsec_of_bucket doubled
bucket_of_seen = refl

limits_seen : (upper_nsec_of_bucket 4 ≡ 160000) × (upper_nsec_of_bucket 6 ≡ 640000)
unfolding upper_nsec_of_bucket doubled
limits_seen = (refl, refl)

abbrev ticks : ℕ → ℕ
ticks i = 100 + i

abbrev calls : List Op
calls =
    reports 1 3 (pos 25000) true 10
    ∷ reports 2 3 (pos 30000) true 11
    ∷ get_report ticks
    ∷ reports 2 3 (pos 21000) false 12
    ∷ reports 2 3 (pos 21000) true 13
    ∷ exits 2 ticks
    ∷ []

noted_seen : noted 3 2 clear_bucket calls ≡ record { hits = 3; total_duration_ns = 76000 }
unfolding noted note bucket_of bucket_scan upper_nsec_of_bucket doubled
noted_seen = refl

all_reports-noted_example :
    (((all_reports (run (start 5) calls) true ticks 300).0.entries 3).buckets 2)
    ≡ noted 3 2 clear_bucket calls
all_reports-noted_example = all_reports-noted 5 calls true ticks 300 3 2

abbrev report_header : Header
report_header = record {
  has_data = true;
  section_name = 7;
  timing_duration = pos 1000;
  report_buckets =
      record { hits = 3; total_duration_ns = 9000 }
      ∷ record { hits = 0; total_duration_ns = 0 }
      ∷ record { hits = 1; total_duration_ns = 30000 }
      ∷ [];
  max_duration_ns = 30000;
}

percentile_seen :
    (get_percentile_duration_nsec report_header (pos 50) ≡ duration 3000)
    × (get_percentile_duration_nsec report_header (pos 90) ≡ duration 30000)
    × (get_average_duration_nsec report_header.report_buckets ≡ 9750)
unfolding get_percentile_duration_nsec get_total_hits sum_hits percentile_loop
    get_average_duration_nsec sum_durations
percentile_seen = (refl, refl, refl)

abbrev some_hits : Collector
some_hits = report (new 0) 4 (pos 12000) true

abbrev leaves : Sections
leaves = and_section (section 11 3 no_sections) (and_section (section 12 4 no_sections) no_sections)

leaves-AreDistinct : AreDistinct leaves
unfolding AreDistinct Lacks
leaves-AreDistinct = ((refl, tt), (tt, tt))

abbrev waiting_item : Registry.Item
waiting_item = record { parent = 1; name = 5; collector_index = 2 }

abbrev one_waits : Registry.Sections
one_waits = record { count = 3; subsections = []; waiting = waiting_item ∷ [] }

one_waits_Reach : Registry.Reach one_waits
unfolding Registry.start Registry.find
one_waits_Reach = Registry.next Registry.here (Registry.misses 1 5 refl refl)

abbrev one_made : Registry.Sections
one_made = record { count = 3; subsections = waiting_item ∷ []; waiting = [] }

one_made_Reach : Registry.Reach one_made
unfolding Registry.insert Registry.emplace Registry.find
one_made_Reach = Registry.next one_waits_Reach (Registry.inserts [] [] waiting_item refl refl)

one_made_small : Registry.Indices.given_out one_made_Reach + 3 < 2 ^ 64
unfolding one_made_Reach one_waits_Reach
one_made_small = omega arith

sections_distinct_example :
    ((i : ℕ) → times i one_made.subsections ≤ (if leb 2 i && ltb i collector_size then 1 else 0))
    × ((p n : ℕ) → keyed p n one_made.subsections ≤ 1)
sections_distinct_example = sections_distinct one_made_Reach one_made_small
