-- ===== src/Recorder/Snapshot/Handshake/Stopping.antt =====
-- When StopSnapshotWorker of src/msg_recorder/recorder.cc comes to its end.
use cris_core.Prelude.{◌≡◌, Bool, true, false, not, ◌&&◌, ◌||◌, List, [], ◌∷◌, arith}
use cris_core.Recorder.Snapshot.Handshake.{
  Threads, Action, generate, run_job, end_workers, wake, leave, stop_runner, set_shutdown, join,
  is_waiting, is_left, act, run, fresh,
}

-- The thread waits for a job that was dropped or that a runner without workers holds.
abbrev pub is_stuck : Threads → Bool
is_stuck s =
    is_waiting s.place && not s.snapshot_generated_flag && (not s.job_queued || s.workers_left)

stuck_step : (s : Threads) (a : Action) → is_stuck s ≡ true → is_stuck (act s a) ≡ true
unfolding act
stuck_step s generate h = ground arith
stuck_step s (run_job success) h = ground arith
stuck_step s end_workers h = ground arith
stuck_step s wake h = ground arith
stuck_step s leave h = ground arith
stuck_step s stop_runner h = ground arith
stuck_step s set_shutdown h = ground arith
stuck_step s join h = ground arith

record IsOrdered (s : Threads) : Type 0 where
  after_flag : is_left s.place ≡ true → s.snapshot_shutdown_flag ≡ true
  after_left : s.joined ≡ true → is_left s.place ≡ true

act-IsOrdered : (s : Threads) (a : Action) → IsOrdered s → IsOrdered (act s a)
unfolding act
act-IsOrdered s generate o = grind (arith, o.after_flag, o.after_left)
act-IsOrdered s (run_job success) o = grind (arith, o.after_flag, o.after_left)
act-IsOrdered s end_workers o = grind (arith, o.after_flag, o.after_left)
act-IsOrdered s wake o = grind (arith, o.after_flag, o.after_left)
act-IsOrdered s leave o = grind (arith, o.after_flag, o.after_left)
act-IsOrdered s stop_runner o = grind (arith, o.after_flag, o.after_left)
act-IsOrdered s set_shutdown o = grind (arith, o.after_flag, o.after_left)
act-IsOrdered s join o = grind (arith, o.after_flag, o.after_left)

run-IsOrdered : (s : Threads) (actions : List Action) → IsOrdered s → IsOrdered (run s actions)
unfolding run
run-IsOrdered s [] o = o
run-IsOrdered s (a ∷ actions) o = run-IsOrdered (act s a) actions (act-IsOrdered s a o)

run_stuck :
    (s : Threads) (actions : List Action) → is_stuck s ≡ true → is_stuck (run s actions) ≡ true
unfolding run
run_stuck s [] h = h
run_stuck s (a ∷ actions) h = run_stuck (act s a) actions (stuck_step s a h)

stuck_not_joined : (s : Threads) → IsOrdered s → is_stuck s ≡ true → s.joined ≡ false
stuck_not_joined s o h = grind (arith, o.after_left)

fresh-IsOrdered : (has_runner : Bool) → IsOrdered (fresh has_runner)
unfolding fresh
fresh-IsOrdered has_runner = record { after_flag = λ h. cc; after_left = λ h. cc }

-- What brings every thread to its end that is not stuck.
abbrev pub finish : List Action
finish = run_job true ∷ wake ∷ stop_runner ∷ set_shutdown ∷ leave ∷ join ∷ []

back_to_work :
    (s : Threads) → is_stuck s ≡ false → is_waiting (act (act s (run_job true)) wake).place ≡ false
unfolding act
back_to_work s h = ground arith

finish_joins :
    (s : Threads)
    → is_waiting s.place ≡ false
    → IsOrdered s
    → (act (act (act (act s stop_runner) set_shutdown) leave) join).joined ≡ true
unfolding act
finish_joins s h o = grind (arith, o.after_flag)

run-finish : (s : Threads) → is_stuck s ≡ false → IsOrdered s → (run s finish).joined ≡ true
unfolding run
run-finish s h o =
    finish_joins (act (act s (run_job true)) wake) (back_to_work s h)
      (act-IsOrdered (act s (run_job true)) wake (act-IsOrdered s (run_job true) o))

-- Once the snapshot thread waits for a job that the runner dropped, or that is in the queue of a stopped
-- runner whose workers have all left their loops, the recorder is never stopped: whatever the threads
-- do then, where Steal is called by workers only, the thread that joins it waits for ever.
pub stuck_never_joined :
    (has_runner : Bool) (before after : List Action)
    → is_stuck (run (fresh has_runner) before) ≡ true
    → (run (run (fresh has_runner) before) after).joined ≡ false
stuck_never_joined has_runner before after h =
    let there = run-IsOrdered (fresh has_runner) before (fresh-IsOrdered has_runner) in
    stuck_not_joined (run (run (fresh has_runner) before) after)
      (run-IsOrdered (run (fresh has_runner) before) after there)
      (run_stuck (run (fresh has_runner) before) after h)

-- In every other reachable state the recorder can be stopped: a job that waits is run, the thread goes
-- on, and after the runner is stopped and the flag set it leaves and is joined.
pub finish-joined :
    (has_runner : Bool) (before : List Action)
    → is_stuck (run (fresh has_runner) before) ≡ false
    → (run (run (fresh has_runner) before) finish).joined ≡ true
finish-joined has_runner before h =
    run-finish (run (fresh has_runner) before) h
      (run-IsOrdered (fresh has_runner) before (fresh-IsOrdered has_runner))
