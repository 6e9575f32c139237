-- ===== src/Sched/Runner/Shutdown/Ending.antt =====
-- The destructor of JobRunner of job_runner.cc: that it waits for every worker, and that it comes to
-- an end.
use cris_core.Prelude.{
  ℕ, zero, suc, ◌+◌, ◌-◌, ◌%◌, ◌≤◌, ◌<◌, ◌≡◌, refl, Bool, true, false, some, ◌==◌, inl, inr,
  Bool-cases, ap, ==→eq, sym, ◌∙◌, arith,
}
use cris_core.Sched.Worker.{size_mod}
use cris_core.Sched.Runner.Shutdown.{
  Place, starting, at_test, in_turn, off_duty, waiting, leaving, left, Thread, Caller, alive,
  stopping, joining, returned, System, advance, has_left, stop, join, set_thread, arrive_at, Step,
  runs, stopped_by_owner, destroys, stops, has_stopped, joins, has_joined, start, Reach, here, next,
}
use cris_core.Sched.Runner.Shutdown.Counting.{
  total, kept_place, join-place, total-set_thread, on_duty, by_break, Reach-IsCounted,
}

-- The thread has ended and is joined.
abbrev pub HasEnded : Thread → Type 0
HasEnded t = (has_left t.place ≡ true) × (t.is_joinable ≡ false)

-- What the destructor knows of the workers by its place.
abbrev Known : ℕ → Caller → (ℕ → Thread) → Type 0
Known n alive f = Unit
Known n (stopping k) f = (k ≤ n) × ((i : ℕ) → i < k → (f i).shutdown_flag ≡ true)
Known n (joining k) f =
    (k ≤ n) × ((i : ℕ) → i < n → (f i).shutdown_flag ≡ true) × ((i : ℕ) → i < k → HasEnded (f i))
Known n returned f = (i : ℕ) → i < n → HasEnded (f i)

-- A change of a worker that takes back neither its shutdown nor its end.
abbrev Keeps : Thread → Thread → Type 0
Keeps t u = (t.shutdown_flag ≡ true → u.shutdown_flag ≡ true) × (HasEnded t → HasEnded u)

set_thread-here : (f : ℕ → Thread) (i : ℕ) (t : Thread) → set_thread f i t i ≡ t
set_thread-here f i t = ground arith

set_thread-Keeps :
    (f : ℕ → Thread) (i : ℕ) (t : Thread)
    → Keeps (f i) t
    → (j : ℕ) → Keeps (f j) (set_thread f i t j)
set_thread-Keeps f i t k j = elim (Bool-cases (j == i)) [
  | inl e ↦ rw (e, ==→eq j i e) k
  | inr d ↦ rw d (λ h. h, λ h. h)
]

Keeps-Known :
    (n : ℕ) (c : Caller) (f g : ℕ → Thread)
    → ((j : ℕ) → Keeps (f j) (g j))
    → Known n c f
    → Known n c g
Keeps-Known n alive f g k h = tt
Keeps-Known n (stopping m) f g k h = (h.0, λ i l. (k i).0 (h.1 i l))
Keeps-Known n (joining m) f g k h = (h.0, λ i l. (k i).0 (h.1 i l), λ i l. (k i).1 (h.2 i l))
Keeps-Known n returned f g k h = λ i l. (k i).1 (h i l)

left-stays :
    (tires down : Bool) (from : Place) (n : ℕ) (to : Place) (m : ℕ)
    → advance tires down from n ≡ some (to, m)
    → has_left from ≡ false
unfolding advance
left-stays tires down starting n to m e = refl
left-stays tires down at_test n to m e = refl
left-stays tires down in_turn n to m e = refl
left-stays tires down off_duty n to m e = refl
left-stays tires down waiting n to m e = refl
left-stays tires down (leaving breaks) n to m e = refl
left-stays tires down (left breaks) n to m e = ground arith

arrive_at-Keeps :
    (t : Thread) (tires : Bool) (n : ℕ) (place : Place) (m : ℕ)
    → advance tires t.shutdown_flag t.place n ≡ some (place, m)
    → Keeps t (arrive_at t place)
arrive_at-Keeps t tires n place m e = (
  λ h. h,
  λ h. absurd (ground (arith, h.0, left-stays tires t.shutdown_flag t.place n place m e)),
)

stop-Keeps : (t : Thread) → Keeps t (stop t)
stop-Keeps t = (λ h. ground arith, λ h. ground arith)

join-Keeps : (t : Thread) → Keeps t (join t)
join-Keeps t = (λ h. ground arith, λ h. ground arith)

-- What the destructor knows of the workers below one it knows of that one too when it has been there.
one_more :
    (P : Thread → Type 0) (f g : ℕ → Thread) (i : ℕ)
    → ((j : ℕ) → P (f j) → P (g j))
    → P (g i)
    → ((j : ℕ) → j < i → P (f j))
    → (j : ℕ) → j < i + 1
    → P (g j)
one_more P f g i k p h j l = elim (Bool-cases (j == i)) [
  | inl e ↦ rw (==→eq j i e) p
  | inr d ↦ k j (h j (ground arith))
]

Step-Known :
    (n : ℕ) (s t : System) → Step n s t → Known n s.caller s.threads → Known n t.caller t.threads
Step-Known n s t (runs i tires place count l a e) h = rw e (
    Keeps-Known n s.caller s.threads (set_thread s.threads i (arrive_at (s.threads i) place))
      (set_thread-Keeps s.threads i (arrive_at (s.threads i) place)
        (arrive_at-Keeps (s.threads i) tires s.active_workers_num place count a))
      h)
Step-Known n s t (stopped_by_owner i l c e) h = rw (e, c) tt
Step-Known n s t (destroys c e) h = rw e (omega arith, λ i l. absurd (omega arith))
Step-Known n s t (stops i l c e) h =
    let known : Known n (stopping i) s.threads = rw c at h in
    rw e (
      omega arith,
      one_more (λ u. u.shutdown_flag ≡ true) s.threads (set_thread s.threads i (stop (s.threads i)))
          i
          (λ j. (set_thread-Keeps s.threads i (stop (s.threads i)) (stop-Keeps (s.threads i)) j).0)
          (rw (set_thread-here s.threads i (stop (s.threads i))) (ground arith)) known.1,
    )
Step-Known n s t (has_stopped c e) h =
    let known : Known n (stopping n) s.threads = rw c at h in
    rw e (omega arith, known.1, λ i l. absurd (omega arith))
Step-Known n s t (joins i l c g e) h =
    let known : Known n (joining i) s.threads = rw c at h in
    let keeps = set_thread-Keeps s.threads i (join (s.threads i)) (join-Keeps (s.threads i)) in
    rw e (
      omega arith,
      λ j k. (keeps j).0 (known.1 j k),
      one_more HasEnded s.threads (set_thread s.threads i (join (s.threads i))) i (λ j. (keeps j).1)
          (rw (set_thread-here s.threads i (join (s.threads i))) (ground arith)) known.2,
    )
Step-Known n s t (has_joined c e) h =
    let known : Known n (joining n) s.threads = rw c at h in rw e known.2

Reach-Known : {n : ℕ} {s : System} → Reach n s → Known n s.caller s.threads
unfolding start
Reach-Known here = tt
Reach-Known {n} (next {s} {t} r st) = Step-Known n s t st (Reach-Known r)

left-rests : (p : Place) → has_left p ≡ true → on_duty p ≡ 0
unfolding on_duty
left-rests starting h = ground arith
left-rests at_test h = ground arith
left-rests in_turn h = ground arith
left-rests off_duty h = ground arith
left-rests waiting h = ground arith
left-rests (leaving breaks) h = ground arith
left-rests (left breaks) h = refl

total-left : (n : ℕ) (f : ℕ → Thread) → ((i : ℕ) → i < n → HasEnded (f i)) → total on_duty f n ≡ 0
unfolding total
total-left zero f h = refl
total-left (suc n) f h =
    omega (
      arith,
      total-left n f (λ i l. h i (omega arith)),
      left-rests (f n).place (h n (omega arith)).0,
    )

-- However the workers' loops, calls of Stop and the destructor's steps interleave: when the
-- destructor of a runner has returned, every worker's thread has ended and is joined, and the count
-- of active workers is, modulo 2^64, minus the number of workers that left their loop by the `break`.
pub destroyed-HasEnded :
    {n : ℕ} {s : System}
    → Reach n s
    → s.caller ≡ returned
    → ((i : ℕ) → i < n → HasEnded (s.threads i))
      × ((s.active_workers_num + total by_break s.threads n) % size_mod ≡ 0)
destroyed-HasEnded {n} {s} r c =
    let there : Known n s.caller s.threads = Reach-Known r in
    let known : Known n returned s.threads = rw c at there in
    (known, Reach-IsCounted r ∙ rw (total-left n s.threads known) refl)

-- How far a thread that is told to stop is from its end, and the destructor from its return.
weight : Place → ℕ
weight starting = 3
weight at_test = 2
weight in_turn = 3
weight off_duty = 2
weight waiting = 3
weight (leaving breaks) = 1
weight (left breaks) = 0

caller_left : ℕ → Caller → ℕ
caller_left n alive = 0
caller_left n (stopping k) = 0
caller_left n (joining k) = n - k + 1
caller_left n returned = 0

unfoldable pub work_left : ℕ → System → ℕ
unfolding weight caller_left
work_left n s = total weight s.threads n + caller_left n s.caller

advance-falls :
    (tires : Bool) (from : Place) (n : ℕ) (to : Place) (m : ℕ)
    → advance tires true from n ≡ some (to, m)
    → weight to < weight from
unfolding advance weight
advance-falls tires starting n to m e = ground arith
advance-falls tires at_test n to m e = ground arith
advance-falls tires in_turn n to m e = ground arith
advance-falls tires off_duty n to m e = ground arith
advance-falls tires waiting n to m e = ground arith
advance-falls tires (leaving breaks) n to m e = ground arith
advance-falls tires (left breaks) n to m e = ground arith

advance-goes_on :
    (down : Bool) (from : Place) (n : ℕ)
    → has_left from ≡ false
    → (to : Place) × (m : ℕ) × (advance false down from n ≡ some (to, m))
unfolding advance
advance-goes_on down starting n e = (_, _, refl)
advance-goes_on down at_test n e = (_, _, refl)
advance-goes_on down in_turn n e = (_, _, refl)
advance-goes_on down off_duty n e = (_, _, refl)
advance-goes_on down waiting n e = (_, _, refl)
advance-goes_on down (leaving breaks) n e = (_, _, refl)
advance-goes_on down (left breaks) n e = ground arith

joining_falls :
    (n k : ℕ) (s t : System)
    → s.caller ≡ joining k
    → ((i : ℕ) → i < n → (s.threads i).shutdown_flag ≡ true)
    → Step n s t
    → work_left n t < work_left n s
unfolding work_left caller_left
joining_falls n k s t c h (runs i tires place count l a e) = rw e (
    let moved : weight place < weight (s.threads i).place =
      advance-falls tires (s.threads i).place s.active_workers_num place count (rw (h i l) at a) in
    omega (arith, moved, total-set_thread weight s.threads i (arrive_at (s.threads i) place) n l))
joining_falls n k s t c h (stopped_by_owner i l d e) = ground (arith, sym c ∙ d)
joining_falls n k s t c h (destroys d e) = ground (arith, sym c ∙ d)
joining_falls n k s t c h (stops i l d e) = ground (arith, sym c ∙ d)
joining_falls n k s t c h (has_stopped d e) = ground (arith, sym c ∙ d)
joining_falls n k s t c h (joins i l d g e) =
    rw (e, d)
      (omega
        (arith, kept_place weight s.threads i (join (s.threads i)) n l (join-place (s.threads i))))
joining_falls n k s t c h (has_joined d e) = rw (e, d) (omega arith)

joining_goes_on : (n k : ℕ) (s : System) → s.caller ≡ joining k → k ≤ n → (t : System) × Step n s t
joining_goes_on n k s c l = elim (Bool-cases (k == n)) [
  | inl e ↦ (_, has_joined (c ∙ ap joining (==→eq k n e)) refl)
  | inr d ↦ elim (Bool-cases (has_left (s.threads k).place)) [
    | inl gone ↦ (_, joins k (ground arith) c gone refl)
    | inr on ↦
        let (to, m, a) =
          advance-goes_on (s.threads k).shutdown_flag (s.threads k).place s.active_workers_num on in
        (_, runs k false to m (ground arith) a refl)
  ]
]

-- Once the destructor is at Join, it comes to its end however the steps interleave: in every state
-- before its return some step can be taken, and every step that can be taken brings the end nearer.
pub shutdown_ends :
    {n : ℕ} {s : System} (k : ℕ)
    → Reach n s
    → s.caller ≡ joining k
    → ((t : System) × Step n s t) × ((t : System) → Step n s t → work_left n t < work_left n s)
shutdown_ends {n} {s} k r c =
    let there : Known n s.caller s.threads = Reach-Known r in
    let known : Known n (joining k) s.threads = rw c at there in
    (joining_goes_on n k s c known.0, λ t st. joining_falls n k s t c known.1 st)
