-- ===== src/Recorder/Snapshot/Handshake.antt =====
-- GenerateSnapshot and StopSnapshotWorker of src/msg_recorder/recorder.cc: the snapshot thread, the
-- job that it gives to the runner, and the thread that stops both, with their actions in any order.
-- What a disabled action does is nothing: its thread waits. A worker of a stopped runner that is in a
-- turn of its loop may still take a job; when all workers have left their loops nothing does, since
-- Steal is called by workers only.
pub mod Stopping
use cris_core.Prelude.{Bool, true, false, not, ◌&&◌, ◌||◌, List, [], ◌∷◌, if◌then◌else◌}

-- Between two snapshots, in the wait of GenerateSnapshot, and at the end of SnapshotWorker.
pub data Place : Type 0 where
  working waiting left : Place

-- `has_runner` says whether the weak pointer to the runner can be locked.
pub record Threads : Type 0 where
  pub has_runner : Bool
  pub runner_stopped : Bool
  pub workers_left : Bool
  pub snapshot_shutdown_flag : Bool
  pub job_queued : Bool
  pub snapshot_generated_flag : Bool
  pub success : Bool
  pub place : Place
  pub joined : Bool

pub data Action : Type 0 where
  generate : Action
  run_job : (success : Bool) → Action
  end_workers wake leave stop_runner set_shutdown join : Action

abbrev pub is_working : Place → Bool
is_working working = true
is_working waiting = false
is_working left = false

abbrev pub is_waiting : Place → Bool
is_waiting working = false
is_waiting waiting = true
is_waiting left = false

abbrev pub is_left : Place → Bool
is_left working = false
is_left waiting = false
is_left left = true

-- The loop condition of SnapshotWorker, and AddJobToRunner, which drops a job without a runner.
abbrev pub generated : Threads → Threads
generated s =
    if is_working s.place && not s.snapshot_shutdown_flag
    then record s {
      place = waiting;
      snapshot_generated_flag = false;
      success = false;
      job_queued = s.has_runner;
    }
    else s

-- A worker takes the job and runs it; also one that is in its turn when the runner is stopped.
abbrev pub job_run : Threads → Bool → Threads
job_run s success =
    if s.job_queued && not s.workers_left
    then record s { job_queued = false; snapshot_generated_flag = true; success = success }
    else s

-- The last worker leaves its loop, which it does only after it was told to stop.
abbrev pub all_left : Threads → Threads
all_left s = if s.runner_stopped then record s { workers_left = true } else s

abbrev pub woken_up : Threads → Threads
woken_up s =
    if is_waiting s.place && s.snapshot_generated_flag then record s { place = working } else s

abbrev pub thread_left : Threads → Threads
thread_left s =
    if is_working s.place && s.snapshot_shutdown_flag then record s { place = left } else s

-- StopSnapshotWorker: the runner, if there is one, then the flag, then the join of the thread.
abbrev pub stopped : Threads → Threads
stopped s = if s.has_runner then record s { runner_stopped = true } else s

abbrev pub flag_set : Threads → Threads
flag_set s =
    if s.runner_stopped || not s.has_runner then record s { snapshot_shutdown_flag = true } else s

abbrev pub thread_joined : Threads → Threads
thread_joined s =
    if is_left s.place && s.snapshot_shutdown_flag then record s { joined = true } else s

unfoldable pub act : Threads → Action → Threads
act s generate = generated s
act s (run_job success) = job_run s success
act s end_workers = all_left s
act s wake = woken_up s
act s leave = thread_left s
act s stop_runner = stopped s
act s set_shutdown = flag_set s
act s join = thread_joined s

unfoldable pub run : Threads → List Action → Threads
run s [] = s
run s (a ∷ actions) = run (act s a) actions

unfoldable pub fresh : Bool → Threads
fresh has_runner = record {
  has_runner = has_runner;
  runner_stopped = false;
  workers_left = false;
  snapshot_shutdown_flag = false;
  job_queued = false;
  snapshot_generated_flag = false;
  success = false;
  place = working;
  joined = false;
}
