-- ===== src/Sched/Runner/Shutdown.antt =====
-- How a JobRunner ends: Stop, Join and the destructor of src/sched/job_runner.cc, beside the loops of
-- its `n` workers, which share the count of active workers. The constructor makes every worker, so
-- that none of the unique_ptrs is null. A step is one access to the count or to a flag: the test under
-- the lock and the wait are one, since Stop takes that lock, and stopped_flag_, which nothing reads, is
-- set with the last fetch_sub. The workers are a function from their indices.
pub mod Counting
pub mod Ending
mod Tests
use cris_core.Prelude.{ℕ, ◌+◌, ◌<◌, ◌≡◌, Bool, true, false, Option, none, some, ◌==◌, if◌then◌else◌}
use cris_core.Sched.Worker.{fetch_add_one, fetch_sub_one}

-- Where a worker's thread is in WorkerLoop: before the loop, at the loop's test, in the body, behind
-- the body's fetch_sub and before the lock, in the wait, behind the loop (by the test, or by the
-- `break`), and at the end of the thread.
pub data Place : Type 0 where
  starting at_test in_turn off_duty waiting : Place
  leaving left : Bool → Place

pub record Thread : Type 0 where
  pub place : Place
  pub shutdown_flag : Bool
  pub stopped_flag : Bool
  pub is_joinable : Bool

-- The destructor's place: not called, in the loop of Stop or of Join at a worker, or returned.
pub data Caller : Type 0 where
  alive : Caller
  stopping joining : ℕ → Caller
  returned : Caller

pub record System : Type 0 where
  pub ready_for_stealing : Bool
  pub active_workers_num : ℕ
  pub threads : ℕ → Thread
  pub caller : Caller

-- WorkerLoop from one access to the next: the place and the count of active workers after it. In the
-- body the worker `tires` where it finds no job and its active time is over, and else it continues.
pub advance : Bool → Bool → Place → ℕ → Option (Place × ℕ)
advance tires shutdown starting n = some (at_test, fetch_add_one n)
advance tires shutdown at_test n = some (if shutdown then leaving false else in_turn, n)
advance tires shutdown in_turn n =
    some (if tires then (off_duty, fetch_sub_one n) else (at_test, n))
advance tires shutdown off_duty n = some (if shutdown then leaving true else waiting, n)
advance tires shutdown waiting n = some (at_test, fetch_add_one n)
advance tires shutdown (leaving by_break) n = some (left by_break, fetch_sub_one n)
advance tires shutdown (left by_break) n = none

abbrev pub has_left : Place → Bool
has_left (left by_break) = true
has_left starting = false
has_left at_test = false
has_left in_turn = false
has_left off_duty = false
has_left waiting = false
has_left (leaving by_break) = false

-- JobRunnerWorker::Stop: the exchange succeeds only once.
abbrev pub stop : Thread → Thread
stop t = if t.shutdown_flag then t else record t { shutdown_flag = true }

-- JobRunnerWorker::Join, where the thread has ended.
abbrev pub join : Thread → Thread
join t = if t.is_joinable then record t { is_joinable = false } else t

abbrev pub set_thread : (ℕ → Thread) → ℕ → Thread → ℕ → Thread
set_thread threads i t j = if j == i then t else threads j

abbrev pub arrive_at : Thread → Place → Thread
arrive_at t place = record t { place = place; stopped_flag = has_left place }

-- A worker's step, a call of Stop by the owner of the runner, and the steps of the destructor; it
-- gets past a thread in Join only when the thread has ended.
pub data Step (n : ℕ) (s t : System) : Type 0 where
  runs :
      (i : ℕ) (tires : Bool) (place : Place) (count : ℕ)
      → i < n
      → advance tires (s.threads i).shutdown_flag (s.threads i).place s.active_workers_num
        ≡ some (place, count)
      → t ≡ record s {
        active_workers_num = count;
        threads = set_thread s.threads i (arrive_at (s.threads i) place);
      }
      → Step n s t
  stopped_by_owner :
      (i : ℕ)
      → i < n
      → s.caller ≡ alive
      → t ≡ record s { threads = set_thread s.threads i (stop (s.threads i)) }
      → Step n s t
  destroys :
      s.caller ≡ alive
      → t ≡ record s { ready_for_stealing = false; caller = stopping 0 }
      → Step n s t
  stops :
      (i : ℕ)
      → i < n
      → s.caller ≡ stopping i
      → t ≡ record s {
        threads = set_thread s.threads i (stop (s.threads i));
        caller = stopping (i + 1);
      }
      → Step n s t
  has_stopped : s.caller ≡ stopping n → t ≡ record s { caller = joining 0 } → Step n s t
  joins :
      (i : ℕ)
      → i < n
      → s.caller ≡ joining i
      → has_left (s.threads i).place ≡ true
      → t ≡ record s {
        threads = set_thread s.threads i (join (s.threads i));
        caller = joining (i + 1);
      }
      → Step n s t
  has_joined : s.caller ≡ joining n → t ≡ record s { caller = returned } → Step n s t

-- The runner behind its constructor.
pub start : System
start = record {
  ready_for_stealing = true;
  active_workers_num = 0;
  threads = λ i. record {
    place = starting;
    shutdown_flag = false;
    stopped_flag = false;
    is_joinable = true;
  };
  caller = alive;
}

pub data Reach (n : ℕ) : System → Type 0 where
  here : Reach n start
  next : {s t : System} → Reach n s → Step n s t → Reach n t
