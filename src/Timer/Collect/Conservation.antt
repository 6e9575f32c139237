-- ===== src/Timer/Collect/Conservation.antt =====
-- No accepted report of src/timer/timer_enable.cc is lost or counted twice by the collection.
use cris_core.Prelude.{
  ℕ, ◌+◌, ◌%◌, ◌<◌, ◌≡◌, Bool, true, false, List, [], ◌∷◌, ◌==◌, inl, inr, Bool-cases, arith,
}
use cris_core.Timer.Stat.{word, Bucket, clear_bucket, Collector, new}
use cris_core.Timer.Collect.{
  collect, Stats, flush_collected_stats, exit_loop, Op, reports, exits, get_report, get_all_reports,
  all_reports, step, run, start,
}
use cris_core.Timer.Collect.Held.{
  at, note, noted, field, field-clear, held, report_on-held, collect_cleared, collect_data,
  merge-field, exit_loop-held, flush_loop-held,
}

-- The totals and the threads together hold, modulo the word, what was noted.
record Holds (k : Bool) (i b : ℕ) (s : Stats) (acc : Bucket) : Type 0 where
  small : field k (at s.total i b) < word
  sum : (field k (at s.total i b) + held k s.threads i b) % word ≡ field k acc

exit_loop-small :
    (k : Bool) (cs : List (ℕ × Collector)) (total : Collector) (i b t : ℕ) (clock : ℕ → ℕ)
    → field k (at total i b) < word
    → field k (at (exit_loop total cs t clock).0 i b) < word
unfolding exit_loop
exit_loop-small k [] total i b t clock h = h
exit_loop-small k ((u, c) ∷ rest) total i b t clock h = elim (Bool-cases (u == t)) [
  | inl e ↦
      rw (e, collect_data c true (clock 0)) (omega (arith, merge-field k total c (clock 1) i b))
  | inr e ↦ rw e (exit_loop-small k rest total i b t clock h)
]

flush-Holds :
    (k : Bool) (s : Stats) (acc : Bucket) (clock : ℕ → ℕ) (i b : ℕ)
    → Holds k i b s acc
    → Holds k i b (flush_collected_stats s clock) acc
      × (field k (at (flush_collected_stats s clock).total i b) ≡ field k acc)
      × (held k (flush_collected_stats s clock).threads i b ≡ 0)
unfolding flush_collected_stats
flush-Holds k s acc clock i b h =
    let lem = flush_loop-held k s.threads s.total clock 0 i b h.small in
    let sum = h.sum in (record { small = omega arith; sum = omega arith }, omega arith, lem.1)

flush_kept-Holds :
    (k : Bool) (s : Stats) (acc : Bucket) (clock : ℕ → ℕ) (now i b : ℕ)
    → Holds k i b s acc
    → Holds k i b (all_reports s false clock now).1 acc
unfolding all_reports collect
flush_kept-Holds k s acc clock now i b h = (flush-Holds k s acc clock i b h).0

all_reports-Holds :
    (k : Bool) (s : Stats) (acc : Bucket) (clear : Bool) (clock : ℕ → ℕ) (now i b : ℕ)
    → Holds k i b s acc
    → Holds k i b (all_reports s clear clock now).1 (note i b acc (get_all_reports clear clock now))
unfolding all_reports note
all_reports-Holds k s acc true clock now i b h =
    let lem = flush-Holds k s acc clock i b h in
    let clears = collect_cleared (flush_collected_stats s clock).total now i b in
    record {
      small = rw (clears, field-clear k) (omega arith);
      sum = rw (clears, field-clear k) (omega arith);
    }
all_reports-Holds k s acc false clock now i b h = flush_kept-Holds k s acc clock now i b h

step-Holds :
    (k : Bool) (s : Stats) (acc : Bucket) (op : Op) (i b : ℕ)
    → Holds k i b s acc
    → Holds k i b (step s op) (note i b acc op)
unfolding step note
step-Holds k s acc (reports t index d l now) i b h = record {
  small = h.small;
  sum = report_on-held k s.threads acc i b (field k (at s.total i b)) t index d l now h.sum;
}
step-Holds k s acc (exits t clock) i b h =
    let sum = h.sum in
    record {
      small = exit_loop-small k s.threads s.total i b t clock h.small;
      sum = omega (arith, exit_loop-held k s.threads s.total i b t clock);
    }
step-Holds k s acc (get_report clock) i b h = (flush-Holds k s acc clock i b h).0
step-Holds k s acc (get_all_reports clear clock now) i b h =
    all_reports-Holds k s acc clear clock now i b h

run-Holds :
    (k : Bool) (ops : List Op) (s : Stats) (acc : Bucket) (i b : ℕ)
    → Holds k i b s acc
    → Holds k i b (run s ops) (noted i b acc ops)
unfolding run noted
run-Holds k [] s acc i b h = h
run-Holds k (op ∷ ops) s acc i b h =
    run-Holds k ops (step s op) (note i b acc op) i b (step-Holds k s acc op i b h)

start-Holds : (k : Bool) (now i b : ℕ) → Holds k i b (start now) clear_bucket
unfolding start held new
start-Holds true now i b = record { small = ground arith; sum = ground arith }
start-Holds false now i b = record { small = ground arith; sum = ground arith }

bucket_eq : (x y : Bucket) → field true x ≡ field true y → field false x ≡ field false y → x ≡ y
bucket_eq x y e f = cc

-- Whatever threads report, exit, flush and clear from the start on, in any order, the report that
-- GetAllReports then collects has, in every bucket of every section, the hits and the summed
-- duration, modulo the word, of the reports that were accepted for that bucket since the last
-- clearing, each once.
pub all_reports-noted :
    (now : ℕ) (ops : List Op) (clear : Bool) (clock : ℕ → ℕ) (later i b : ℕ)
    → (((all_reports (run (start now) ops) clear clock later).0.entries i).buckets b)
      ≡ noted i b clear_bucket ops
unfolding all_reports collect
all_reports-noted now ops clear clock later i b =
    let s = run (start now) ops in
    let acc = noted i b clear_bucket ops in
    let hits =
      flush-Holds true s acc clock i b
        (run-Holds true ops (start now) clear_bucket i b (start-Holds true now i b)) in
    let sums =
      flush-Holds false s acc clock i b
        (run-Holds false ops (start now) clear_bucket i b (start-Holds false now i b)) in
    bucket_eq (at (flush_collected_stats s clock).total i b) acc hits.1 sums.1
