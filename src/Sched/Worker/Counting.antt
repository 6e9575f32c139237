-- ===== src/Sched/Worker/Counting.antt =====
-- What one worker's loop of job_runner.cc does to the count of active workers.
use cris_core.Prelude.{
  ℕ, ◌+◌, ◌-◌, ◌%◌, ◌<◌, ◌≡◌, ◌≢◌, refl, subst, inl, inr, List, [], ◌∷◌, arith, Bool-cases,
}
use cris_core.Sched.Worker.{
  Worker, Turn, Exit, still_running, by_test, by_break, size_mod, turn_body, loop, worker_loop,
  leave, and_then,
}

-- What the count is when the loop is left or observed, if it was `n` at the loop's test.
abbrev Counted : ℕ → Worker × Exit → Type 0
Counted n (w, still_running) = w.active_workers_num ≡ n
Counted n (w, by_test) = w.active_workers_num ≡ n
Counted n (w, by_break) = w.active_workers_num ≡ (n + size_mod - 1) % size_mod

turn_body-Counted :
    (index always_active active_time : ℕ) (w : Worker) (turn : Turn)
    → w.active_workers_num < size_mod
    → Counted w.active_workers_num (turn_body index always_active active_time w turn)
unfolding turn_body
turn_body-Counted index always_active active_time w turn h = ground arith

turn_body-exit :
    (index always_active active_time : ℕ) (w : Worker) (turn : Turn)
    → (turn_body index always_active active_time w turn).1 ≢ by_test
unfolding turn_body
turn_body-exit index always_active active_time w turn = ground arith

and_then-Counted :
    (n : ℕ) (r : Worker × Exit) (rest : Worker → Worker × Exit)
    → Counted n r
    → ((w : Worker) → w.active_workers_num ≡ n → Counted n (rest w))
    → Counted n (and_then r rest)
unfolding and_then
and_then-Counted n (w, still_running) rest kept more = more w kept
and_then-Counted n (w, by_test) rest kept more = kept
and_then-Counted n (w, by_break) rest kept more = kept

loop-Counted :
    (turns : List Turn) (index always_active active_time : ℕ) (w : Worker)
    → w.active_workers_num < size_mod
    → Counted w.active_workers_num (loop index always_active active_time w turns)
unfolding loop
loop-Counted [] index always_active active_time w h = refl
loop-Counted (turn ∷ turns) index always_active active_time w h = elim (Bool-cases turn.shutdown) [
  | inl down ↦ simp down
  | inr up ↦ simp up (
      and_then-Counted w.active_workers_num (turn_body index always_active active_time w turn)
        (λ w'. loop index always_active active_time w' turns)
        (turn_body-Counted index always_active active_time w turn h)
        (λ w' e.
          subst (λ n. Counted n (loop index always_active active_time w' turns)) e
            (loop-Counted turns index always_active active_time w' (rw e h))))
]

-- What a worker that found the count `n` makes of it, by where it is.
count_after : ℕ → Exit → ℕ
count_after n still_running = (n + 1) % size_mod
count_after n by_test = n
count_after n by_break = (n + size_mod - 1) % size_mod

leave-Counted :
    (n : ℕ) (r : Worker × Exit)
    → n < size_mod
    → Counted ((n + 1) % size_mod) r
    → (leave r).0.active_workers_num ≡ count_after n (leave r).1
unfolding count_after leave
leave-Counted n (w, still_running) h kept = ground arith
leave-Counted n (w, by_test) h kept = ground arith
leave-Counted n (w, by_break) h kept = ground arith

-- Whatever its turns, a worker counts as one active worker more while it is in its loop; one that
-- leaves its loop by the loop's test has left the count as it found it, and one that leaves by the
-- `break` under the lock has taken itself off twice, so that the count is one too low, modulo 2^64.
worker_loop_count :
    (index always_active active_time : ℕ) (w : Worker) (turns : List Turn)
    → w.active_workers_num < size_mod
    → (worker_loop index always_active active_time w turns).0.active_workers_num
      ≡ count_after w.active_workers_num (worker_loop index always_active active_time w turns).1
unfolding worker_loop
worker_loop_count index always_active active_time w turns h =
    let begun : Worker = record w { active_workers_num = (w.active_workers_num + 1) % size_mod } in
    leave-Counted w.active_workers_num (loop index always_active active_time begun turns) h
      (loop-Counted turns index always_active active_time begun (omega arith))
