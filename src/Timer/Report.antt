-- ===== src/Timer/Report.antt =====
-- src/timer/timer.h and timer_enable.cc: the TimerReport that TimerStatCollector::GetReport reads
-- for a section and its subsections, and what a report answers. The doubles of
-- GetPercentileDurationNsec are exact while hits times percent stay below 2 ^ 53; the model
-- rounds that quotient exactly. The names of a section and its place among its siblings are a number
-- and a list in the order of the std::map.
pub mod Percentile
pub mod Tree
use cris_core.Prelude.{
  ℕ, zero, suc, ◌+◌, ◌-◌, ◌*◌, ◌/◌, ◌%◌, Bool, true, false, not, ◌||◌, List, [], ◌∷◌, ◌++◌, ltb,
  leb, ◌==◌, if◌then◌else◌, ℤ, pos, negsuc, sub_ℕ,
}
use cris_core.Timer.Stat.{word, bucket_num, Bucket, Entry, Collector}

mutual
  pub data Section : Type 0 where
    section : (name collector_index : ℕ) → (subsections : Sections) → Section

  pub data Sections : Type 0 where
    no_sections : Sections
    and_section : Section → Sections → Sections

pub record Header : Type 0 where
  pub has_data : Bool
  pub section_name : ℕ
  pub timing_duration : ℤ
  pub report_buckets : List Bucket
  pub max_duration_ns : ℕ

mutual
  pub data Report : Type 0 where
    report : Header → Reports → Report

  pub data Reports : Type 0 where
    no_reports : Reports
    and_report : Report → Reports → Reports

abbrev pub header : Report → Header
header (report h subsections) = h

abbrev pub subsections : Report → Reports
subsections (report h rs) = rs

-- The loop over the buckets, `left` of them from `i` on.
unfoldable pub read_buckets : (ℕ → Bucket) → ℕ → ℕ → List Bucket
read_buckets buckets zero i = []
read_buckets buckets (suc left) i = buckets i ∷ read_buckets buckets left (suc i)

unfoldable pub any_hits : List Bucket → Bool
any_hits [] = false
any_hits (b ∷ bs) = not (b.hits == 0) || any_hits bs

unfoldable pub section_header : Collector → ℕ → ℕ → Header
section_header c name index =
    let bucks = read_buckets (c.entries index).buckets bucket_num 0 in
    record {
      has_data = any_hits bucks;
      section_name = name;
      timing_duration = sub_ℕ c.last_merge_time c.last_clear_time;
      report_buckets = bucks;
      max_duration_ns = (c.entries index).max_duration_ns;
    }

-- AddSubsection: std::map::emplace keeps the report that has the name already.
unfoldable pub has_name : Reports → ℕ → Bool
has_name no_reports name = false
has_name (and_report r rs) name = (header r).section_name == name || has_name rs name

unfoldable pub add_last : Reports → Report → Reports
add_last no_reports r = and_report r no_reports
add_last (and_report q rs) r = and_report q (add_last rs r)

unfoldable pub add_subsection : Report → Report → Report
add_subsection (report h rs) sub =
    if has_name rs (header sub).section_name then report h rs else report h (add_last rs sub)

abbrev pub join_data : Bool → Report → Report
join_data b (report h rs) = report (record h { has_data = h.has_data || b }) rs

unfoldable mutual
  pub get_report : Collector → Section → Bool → Report
  get_report c (section name index subs) false = report (section_header c name index) no_reports
  get_report c (section name index subs) true =
      add_all c (report (section_header c name index) no_reports) subs

  pub add_all : Collector → Report → Sections → Report
  add_all c r no_sections = r
  add_all c r (and_section s rest) =
      let sub = get_report c s true in
      add_all c (add_subsection (join_data (header sub).has_data r) sub) rest

unfoldable pub sum_hits : List Bucket → ℕ → ℕ
sum_hits [] total_hits = total_hits
sum_hits (b ∷ bs) total_hits = sum_hits bs ((total_hits + b.hits) % word)

unfoldable pub get_total_hits : List Bucket → ℕ
get_total_hits bucks = sum_hits bucks 0

unfoldable pub sum_durations : List Bucket → ℕ → ℕ
sum_durations [] total = total
sum_durations (b ∷ bs) total = sum_durations bs ((total + b.total_duration_ns) % word)

-- A signed word is negative from 2 ^ 63 on.
unfoldable pub get_average_duration_nsec : List Bucket → ℕ
get_average_duration_nsec bucks =
    let hits = get_total_hits bucks in
    let total = sum_durations bucks 0 in
    if leb 9223372036854775808 total || hits == 0 then 0 else total / hits

-- A duration, a division by zero, or the line that should never be reached.
pub data Answer : Type 0 where
  duration : ℕ → Answer
  divided_by_zero : Answer
  never_reach_here : Answer

-- std::round of hits * percent / 100: halves go up. The doubles of the code are exact while the
-- product is below 2 ^ 53.
abbrev pub rounded : ℕ → ℕ → ℕ
rounded hits percent = (hits * percent + 50) / 100

abbrev pub bucket_average : Bucket → Answer
bucket_average b = if b.hits == 0 then divided_by_zero else duration (b.total_duration_ns / b.hits)

unfoldable pub percentile_loop : List Bucket → ℕ → ℕ → Answer
percentile_loop [] target_hits current_hits = never_reach_here
percentile_loop (b ∷ bs) target_hits current_hits =
    let rest = percentile_loop bs target_hits ((current_hits + b.hits) % word) in
    if leb target_hits ((current_hits + b.hits) % word) then bucket_average b else rest

abbrev pub clamp : ℤ → ℕ
clamp (negsuc n) = 0
clamp (pos n) = if ltb 100 n then 100 else n

abbrev pub below_100 : Header → ℕ → Answer
below_100 h percent =
    let target_hits = rounded (get_total_hits h.report_buckets) percent in
    if target_hits == 0 then duration 0 else percentile_loop h.report_buckets target_hits 0

unfoldable pub get_percentile_duration_nsec : Header → ℤ → Answer
get_percentile_duration_nsec h percent =
    if clamp percent == 100 then duration h.max_duration_ns else below_100 h (clamp percent)
