-- ===== src/Sched/Runner/Shutdown/Counting.antt =====
-- The count of active workers of job_runner.cc over all the workers.
use cris_core.Prelude.{
  ℕ, zero, suc, ◌+◌, ◌%◌, ◌≤◌, ◌<◌, ◌≡◌, refl, Bool, some, ◌==◌, if◌then◌else◌, inl, inr,
  Bool-cases, ap, ==→eq, arith,
}
use cris_core.Sched.Worker.{size_mod}
use cris_core.Sched.Runner.Shutdown.{
  Place, starting, at_test, in_turn, off_duty, waiting, leaving, left, Thread, System, advance,
  stop, join, set_thread, arrive_at, Step, runs, stopped_by_owner, destroys, stops, has_stopped,
  joins, has_joined, start, Reach, here, next,
}

-- A weight of the places, summed over the first `n` workers.
unfoldable pub total : (Place → ℕ) → (ℕ → Thread) → ℕ → ℕ
total weight threads zero = 0
total weight threads (suc n) = weight (threads n).place + total weight threads n

-- The workers that are at work, and those that left by the `break`.
unfoldable pub on_duty : Place → ℕ
on_duty starting = 0
on_duty at_test = 1
on_duty in_turn = 1
on_duty off_duty = 0
on_duty waiting = 0
on_duty (leaving by_break) = if by_break then 0 else 1
on_duty (left by_break) = 0

unfoldable pub by_break : Place → ℕ
by_break starting = 0
by_break at_test = 0
by_break in_turn = 0
by_break off_duty = 0
by_break waiting = 0
by_break (leaving breaks) = 0
by_break (left breaks) = if breaks then 1 else 0

total-above :
    (weight : Place → ℕ) (threads : ℕ → Thread) (i : ℕ) (t : Thread) (n : ℕ)
    → n ≤ i
    → total weight (set_thread threads i t) n ≡ total weight threads n
unfolding total
total-above weight threads i t zero h = refl
total-above weight threads i t (suc n) h =
    ground (arith, total-above weight threads i t n (omega arith))

pub total-set_thread :
    (weight : Place → ℕ) (threads : ℕ → Thread) (i : ℕ) (t : Thread) (n : ℕ)
    → i < n
    → total weight (set_thread threads i t) n + weight (threads i).place
      ≡ total weight threads n + weight t.place
unfolding total
total-set_thread weight threads i t zero h = ground arith
total-set_thread weight threads i t (suc n) h = elim (Bool-cases (n == i)) [
  | inl e ↦ ground (
    arith,
    total-above weight threads i t n (ground arith),
    ap (λ j. weight (threads j).place) (==→eq n i e),
  )
  | inr d ↦ ground (arith, total-set_thread weight threads i t n (ground arith))
]

advance-on_duty :
    (tires shutdown : Bool) (from : Place) (n : ℕ) (to : Place) (m b b' d d' : ℕ)
    → advance tires shutdown from n ≡ some (to, m)
    → b' + by_break from ≡ b + by_break to
    → d' + on_duty from ≡ d + on_duty to
    → (n + b) % size_mod ≡ d % size_mod
    → (m + b') % size_mod ≡ d' % size_mod
unfolding advance on_duty by_break
advance-on_duty tires shutdown starting n to m b b' d d' e f g h = ground arith
advance-on_duty tires shutdown at_test n to m b b' d d' e f g h = ground arith
advance-on_duty tires shutdown in_turn n to m b b' d d' e f g h = ground arith
advance-on_duty tires shutdown off_duty n to m b b' d d' e f g h = ground arith
advance-on_duty tires shutdown waiting n to m b b' d d' e f g h = ground arith
advance-on_duty tires shutdown (leaving breaks) n to m b b' d d' e f g h = ground arith
advance-on_duty tires shutdown (left breaks) n to m b b' d d' e f g h = ground arith

-- The count of active workers, with those that left by the `break`, is the number of those at work.
abbrev pub IsCounted : ℕ → System → Type 0
IsCounted n s =
    (s.active_workers_num + total by_break s.threads n) % size_mod
    ≡ total on_duty s.threads n % size_mod

-- A change of a thread that leaves its place.
pub kept_place :
    (weight : Place → ℕ) (threads : ℕ → Thread) (i : ℕ) (t : Thread) (n : ℕ)
    → i < n
    → t.place ≡ (threads i).place
    → total weight (set_thread threads i t) n ≡ total weight threads n
kept_place weight threads i t n l e =
    omega (arith, total-set_thread weight threads i t n l, ap weight e)

stop-place : (t : Thread) → (stop t).place ≡ t.place
stop-place t = ground arith

pub join-place : (t : Thread) → (join t).place ≡ t.place
join-place t = ground arith

Step-IsCounted : (n : ℕ) (s t : System) → Step n s t → IsCounted n s → IsCounted n t
Step-IsCounted n s t (runs i tires place count l a e) h = rw e (
    advance-on_duty tires (s.threads i).shutdown_flag (s.threads i).place s.active_workers_num place
      count (total by_break s.threads n)
      (total by_break (set_thread s.threads i (arrive_at (s.threads i) place)) n)
      (total on_duty s.threads n)
      (total on_duty (set_thread s.threads i (arrive_at (s.threads i) place)) n) a
      (total-set_thread by_break s.threads i (arrive_at (s.threads i) place) n l)
      (total-set_thread on_duty s.threads i (arrive_at (s.threads i) place) n l) h)
Step-IsCounted n s t (stopped_by_owner i l c e) h =
    rw
      (
        e,
        kept_place by_break s.threads i (stop (s.threads i)) n l (stop-place (s.threads i)),
        kept_place on_duty s.threads i (stop (s.threads i)) n l (stop-place (s.threads i)),
      )
      h
Step-IsCounted n s t (destroys c e) h = rw e h
Step-IsCounted n s t (stops i l c e) h =
    rw
      (
        e,
        kept_place by_break s.threads i (stop (s.threads i)) n l (stop-place (s.threads i)),
        kept_place on_duty s.threads i (stop (s.threads i)) n l (stop-place (s.threads i)),
      )
      h
Step-IsCounted n s t (has_stopped c e) h = rw e h
Step-IsCounted n s t (joins i l c g e) h =
    rw
      (
        e,
        kept_place by_break s.threads i (join (s.threads i)) n l (join-place (s.threads i)),
        kept_place on_duty s.threads i (join (s.threads i)) n l (join-place (s.threads i)),
      )
      h
Step-IsCounted n s t (has_joined c e) h = rw e h

start-IsCounted : (n : ℕ) → IsCounted n start
unfolding total start on_duty by_break
start-IsCounted zero = refl
start-IsCounted (suc n) = ground (arith, start-IsCounted n)

pub Reach-IsCounted : {n : ℕ} {s : System} → Reach n s → IsCounted n s
Reach-IsCounted {n} here = start-IsCounted n
Reach-IsCounted {n} (next {s} {t} r st) = Step-IsCounted n s t st (Reach-IsCounted r)
