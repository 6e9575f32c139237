-- ===== src/Sched/Strand/Liveness.antt =====
-- What the comment above PushToRunnerIfNeeded in job_runner.cc claims as the liveness of a strand.
use cris_core.Prelude.{
  ℕ, zero, suc, ◌+◌, ◌*◌, ◌≤◌, ◌<◌, ◌≡◌, ◌≢◌, refl, sym, ap, ◌∙◌, ◌⊎◌, inl, inr, Bool, true, false,
  List, [], ◌∷◌, ◌++◌, append-nil, arith, length, Bool-cases, List-cases, ℕ_discrete, ◌-◌,
}
use cris_core.Sched.Strand.{
  Phase, picked, queued, running, ending, System, take_next, with_next, decided, Work, arrive, push,
  drop, begin, discard, finish, retire, Reach,
}
use cris_core.Sched.Strand.Invariant.{Inv, Reach-Inv, Work-Inv}

module _ {Job : Type 0} where
  -- How many steps a token has before it at most.
  weight : Phase Job → ℕ
  weight (picked job) = 4
  weight (queued job) = 3
  weight (running job) = 2
  weight ending = 1

  weights : List (Phase Job) → ℕ
  weights [] = 0
  weights (p ∷ ps) = weight p + weights ps

  -- A bound on the steps that the strand and the runner can make with no further arrival.
  pub work_left : System Job → ℕ
  work_left s = s.arriving + weights s.tokens + 5 * length s.pending_jobs

  weights-append : (xs ys : List (Phase Job)) → weights (xs ++ ys) ≡ weights xs + weights ys
  unfolding weights
  weights-append [] ys = omega arith
  weights-append (x ∷ xs) ys = omega (arith, weights-append xs ys)

  take_next-weight :
      (jobs : List Job) (tokens : List (Phase Job))
      → weights (with_next tokens (take_next jobs).1) + 5 * length ((take_next jobs).0.pending_jobs)
        ≤ weights tokens + 5 * length jobs
  unfolding take_next weights weight
  take_next-weight [] tokens = omega arith
  take_next-weight (j ∷ js) tokens = omega (arith, weights-append tokens (picked j ∷ []))

  decided-weight : (b : Bool) (s : System Job) → work_left (decided b s) ≤ work_left s
  unfolding decided work_left
  decided-weight true s = omega (arith, take_next-weight s.pending_jobs s.tokens)
  decided-weight false s = elim (Bool-cases s.has_ready_job) [
    | inl ready ↦ rw ready (omega arith)
    | inr idle ↦ rw idle (omega (arith, take_next-weight s.pending_jobs s.tokens))
  ]

  replaced-weight :
      (tokens xs ys : List (Phase Job)) (p q : Phase Job)
      → tokens ≡ xs ++ p ∷ ys
      → weight q < weight p
      → weights (xs ++ q ∷ ys) < weights tokens
  unfolding weights
  replaced-weight tokens xs ys p q e h =
      rw e (omega (arith, weights-append xs (p ∷ ys), weights-append xs (q ∷ ys)))

  removed-weight :
      (tokens xs ys : List (Phase Job))
      → tokens ≡ xs ++ ending ∷ ys
      → weights (xs ++ ys) < weights tokens
  unfolding weights weight
  removed-weight tokens xs ys e =
      rw e (omega (arith, weights-append xs (ending ∷ ys), weights-append xs ys))

  -- Every step of the strand, the runner or a job brings the bound down, so that a run without
  -- arrivals ends.
  pub work_left_falls : (s t : System Job) → Work s t → work_left t < work_left s
  unfolding work_left weight
  work_left_falls s t (arrive n k e) =
      rw e (omega (arith, decided-weight false (record s { arriving = n }), k))
  work_left_falls s t (push xs ys job k alive e) =
      rw e (omega (arith, replaced-weight s.tokens xs ys (picked job) (queued job) k (omega arith)))
  work_left_falls s t (drop xs ys job k dead e) =
      rw e (omega (arith, replaced-weight s.tokens xs ys (picked job) ending k (omega arith)))
  work_left_falls s t (begin xs ys job k e) =
      rw e
        (omega (arith, replaced-weight s.tokens xs ys (queued job) (running job) k (omega arith)))
  work_left_falls s t (discard xs ys job k e) =
      rw e (omega (arith, replaced-weight s.tokens xs ys (queued job) ending k (omega arith)))
  work_left_falls s t (finish xs ys job k e) =
      rw e (omega (arith, replaced-weight s.tokens xs ys (running job) ending k (omega arith)))
  work_left_falls s t (retire xs ys k e) = rw e (
      omega (
        arith,
        decided-weight true (record s { tokens = xs ++ ys }),
        removed-weight s.tokens xs ys k,
      ))

  -- Nothing is under way and nothing waits.
  abbrev pub IsQuiet : System Job → Type 0
  IsQuiet s = (s.arriving ≡ 0) × (s.tokens ≡ []) × (s.pending_jobs ≡ [])

  head_moves :
      (s : System Job) (p : Phase Job) (ps : List (Phase Job))
      → s.tokens ≡ p ∷ ps
      → (t : System Job) × Work s t
  head_moves s (picked job) ps e = elim (Bool-cases s.runner_alive) [
    | inl alive ↦ (_, push [] ps job e alive refl)
    | inr dead ↦ (_, drop [] ps job e dead refl)
  ]
  head_moves s (queued job) ps e = (_, begin [] ps job e refl)
  head_moves s (running job) ps e = (_, finish [] ps job e refl)
  head_moves s ending ps e = (_, retire [] ps e refl)

  nothing_pending : (s : System Job) → Inv s → s.arriving ≡ 0 → s.tokens ≡ [] → s.pending_jobs ≡ []
  nothing_pending s v none_arriving free = elim (List-cases s.pending_jobs) [
    | inl e ↦ e
    | inr (job, rest, e) ↦
        let waiting : s.pending_jobs ≢ [] = λ h. cc in
        absurd (ground (arith, v.served waiting, v.single, ap length free))
  ]

  progress : (s : System Job) → Inv s → IsQuiet s ⊎ ((t : System Job) × Work s t)
  progress s v = elim (ℕ_discrete s.arriving 0) [
    | no busy ↦ inr (_, arrive (s.arriving - 1) (omega arith) refl)
    | yes none_arriving ↦ elim (List-cases s.tokens) [
      | inl free ↦ inl (none_arriving, free, nothing_pending s v none_arriving free)
      | inr (p, ps, e) ↦ inr (head_moves s p ps e)
    ]
  ]

  quiet_released : (s : System Job) → Inv s → IsQuiet s → s.released ≡ s.submitted
  quiet_released s v (idle, free, empty) =
      sym (append-nil s.released) ∙ (rw (free, empty) at v.order)

  -- Where neither the strand nor the runner nor a job can make a step, every job has left the
  -- strand, in the order in which it was given, and nothing is pending or under way.
  pub stuck-IsQuiet :
      {s : System Job}
      → Reach s
      → ((t : System Job) → ¬ Work s t)
      → IsQuiet s × (s.released ≡ s.submitted)
  stuck-IsQuiet {s} r stuck = elim (progress s (Reach-Inv r)) [
    | inl quiet ↦ (quiet, quiet_released s (Reach-Inv r) quiet)
    | inr (t, w) ↦ absurd (stuck t w)
  ]

  pub data Works : System Job → System Job → Type 0 where
    done : {s : System Job} → Works s s
    next : {s t u : System Job} → Work s t → Works t u → Works s u

  submitted-work : (s t : System Job) → Work s t → t.submitted ≡ s.submitted
  unfolding decided
  submitted-work s t (arrive n k e) = rw e refl
  submitted-work s t (push xs ys job k alive e) = rw e refl
  submitted-work s t (drop xs ys job k dead e) = rw e refl
  submitted-work s t (begin xs ys job k e) = rw e refl
  submitted-work s t (discard xs ys job k e) = rw e refl
  submitted-work s t (finish xs ys job k e) = rw e refl
  submitted-work s t (retire xs ys k e) = rw e refl

  drains_within :
      (fuel : ℕ) (s : System Job)
      → work_left s < fuel
      → Inv s
      → (t : System Job) × Works s t × IsQuiet t × (t.released ≡ s.submitted)
  drains_within zero s h v = elim h [ ]
  drains_within (suc fuel) s h v = elim (progress s v) [
    | inl quiet ↦ (s, done, quiet, quiet_released s v quiet)
    | inr (t, w) ↦
        let (u, ws, quiet, out) =
          drains_within fuel t (omega (arith, work_left_falls s t w)) (Work-Inv s t w v) in
        (u, next w ws, quiet, out ∙ submitted-work s t w)
  ]

  -- From every reachable state, also with no further arrival, the strand comes to rest with every
  -- job that was given to it handed on, in order: no pending job is forgotten.
  pub strand_drains :
      {s : System Job}
      → Reach s
      → (t : System Job) × Works s t × IsQuiet t × (t.released ≡ s.submitted)
  strand_drains {s} r = drains_within (suc (work_left s)) s (omega arith) (Reach-Inv r)
