-- ===== src/Timer/Collect.antt =====
-- src/timer/timer_enable.cc: Merge, UnsafeClear and Collect of TimerStatCollector, and the collectors
-- of all threads with the totals (GetCollector, FlushCollectedStats, GetReport, GetAllReports). A
-- thread is known by a number; its collector is made at its first report and merged into the
-- totals when it exits. A clock is the function that gives its readings in turn.
pub mod Held
pub mod Conservation
use cris_core.Prelude.{
  ℕ, zero, suc, ◌+◌, max, Bool, true, false, List, [], ◌∷◌, ◌==◌, if◌then◌else◌, ℤ, pos, negsuc,
}
use cris_core.Timer.Stat.{Bucket, merge_bucket, Entry, Collector, report, clear_entry, new}

unfoldable pub merge_entry : Entry → Entry → Entry
merge_entry e another = record {
  buckets = λ i. merge_bucket (e.buckets i) (another.buckets i);
  max_duration_ns = max e.max_duration_ns another.max_duration_ns;
}

unfoldable pub merge : Collector → Collector → ℕ → Collector
merge c another now = record {
  last_clear_time = c.last_clear_time;
  last_merge_time = now;
  entries = λ i. merge_entry (c.entries i) (another.entries i);
}

unfoldable pub unsafe_clear : Collector → ℕ → Collector
unsafe_clear c now = record {
  last_clear_time = now;
  last_merge_time = now;
  entries = λ i. clear_entry;
}

-- What is collected, and the collector afterwards.
unfoldable pub collect : Collector → Bool → ℕ → Collector × Collector
collect c clear now = (c, if clear then unsafe_clear c now else c)

pub record Stats : Type 0 where
  pub total : Collector
  pub threads : List (ℕ × Collector)

unfoldable pub flush_loop :
    Collector → List (ℕ × Collector) → (ℕ → ℕ) → ℕ → Collector × List (ℕ × Collector)
flush_loop total [] clock i = (total, [])
flush_loop total ((t, c) ∷ rest) clock i =
    let r =
      flush_loop (merge total (collect c true (clock i)).0 (clock (suc i))) rest clock
        (suc (suc i)) in
    (r.0, (t, (collect c true (clock i)).1) ∷ r.1)

unfoldable pub flush_collected_stats : Stats → (ℕ → ℕ) → Stats
flush_collected_stats s clock =
    let r = flush_loop s.total s.threads clock 0 in record { total = r.0; threads = r.1 }

-- GetCollector().Report(index, duration) on a thread.
unfoldable pub report_on : List (ℕ × Collector) → ℕ → ℕ → ℤ → Bool → ℕ → List (ℕ × Collector)
report_on [] thread index duration try_lock now =
    (thread, report (new now) index duration try_lock) ∷ []
report_on ((t, c) ∷ rest) thread index duration try_lock now =
    let others = report_on rest thread index duration try_lock now in
    if t == thread then (t, report c index duration try_lock) ∷ rest else (t, c) ∷ others

-- The deleter of a thread's collector: merge it into the totals, and drop it.
unfoldable pub exit_loop :
    Collector → List (ℕ × Collector) → ℕ → (ℕ → ℕ) → Collector × List (ℕ × Collector)
exit_loop total [] thread clock = (total, [])
exit_loop total ((t, c) ∷ rest) thread clock =
    let others = exit_loop total rest thread clock in
    if t == thread
    then (merge total (collect c true (clock 0)).0 (clock 1), rest)
    else (others.0, (t, c) ∷ others.1)

pub data Op : Type 0 where
  reports : (thread index : ℕ) → ℤ → (try_lock : Bool) → (now : ℕ) → Op
  exits : (thread : ℕ) → (clock : ℕ → ℕ) → Op
  get_report : (clock : ℕ → ℕ) → Op
  get_all_reports : (clear : Bool) → (clock : ℕ → ℕ) → (now : ℕ) → Op

-- GetAllReports flushes the collectors and collects the totals.
unfoldable pub all_reports : Stats → Bool → (ℕ → ℕ) → ℕ → Collector × Stats
all_reports s clear clock now =
    let flushed = flush_collected_stats s clock in
    let collected = collect flushed.total clear now in
    (collected.0, record flushed { total = collected.1 })

unfoldable pub step : Stats → Op → Stats
step s (reports thread index duration try_lock now) = record s {
  threads = report_on s.threads thread index duration try_lock now;
}
step s (exits thread clock) =
    let r = exit_loop s.total s.threads thread clock in record { total = r.0; threads = r.1 }
step s (get_report clock) = flush_collected_stats s clock
step s (get_all_reports clear clock now) = (all_reports s clear clock now).1

unfoldable pub run : Stats → List Op → Stats
run s [] = s
run s (op ∷ ops) = run (step s op) ops

unfoldable pub start : ℕ → Stats
start now = record { total = new now; threads = [] }
