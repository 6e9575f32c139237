-- ===== src/Sched/Strand/Invariant.antt =====
-- What holds between any two steps around a strand of job_runner.cc.
use cris_core.Prelude.{
  ℕ, ◌≤◌, ◌<◌, ◌≡◌, ◌≢◌, refl, sym, ap, ◌∙◌, ◌⊎◌, inl, inr, Bool, true, false, List, [], ◌∷◌, ◌++◌,
  append_assoc, append-nil, arith, length, length-append, Bool-cases, List-cases,
}
use cris_core.Sched.Strand.{
  Strand, Phase, picked, queued, running, ending, System, take_next, decide_immediate, is_nil,
  with_next, decided, start, Arrival, Work, submit, immediate, runner_dies, arrive, push, drop,
  begin, discard, finish, retire, Reach, here, arrived, worked,
}

abbrev pub ready_count : Bool → ℕ
ready_count true = 1
ready_count false = 0

pub ready_count_le : (b : Bool) → ready_count b ≤ 1
ready_count_le true = omega arith
ready_count_le false = omega arith

module _ {Job : Type 0} where
  -- The jobs that were taken out of the pending queue and are not pushed to the runner yet.
  abbrev pub in_hand : List (Phase Job) → List Job
  in_hand [] = []
  in_hand (picked job ∷ ps) = job ∷ in_hand ps
  in_hand (queued job ∷ ps) = in_hand ps
  in_hand (running job ∷ ps) = in_hand ps
  in_hand (ending ∷ ps) = in_hand ps

  pub record Inv (s : System Job) : Type 0 where
    pub single : length s.tokens ≡ ready_count s.has_ready_job
    pub order : s.released ++ (in_hand s.tokens ++ s.pending_jobs) ≡ s.submitted
    pub served : s.pending_jobs ≢ [] → (s.has_ready_job ≡ true) ⊎ (0 < s.arriving)

  start-Inv : Inv start
  unfolding start
  start-Inv = record { single = refl; order = refl; served = λ h. absurd (h refl) }

  -- Of at most one token, the one that a step moves is all there is.
  split_single :
      (xs ys : List (Phase Job)) (p : Phase Job) → length (xs ++ p ∷ ys) ≤ 1 → (xs ≡ []) × (ys ≡ [])
  split_single [] [] p h = (refl, refl)
  split_single [] (y ∷ ys) p h = absurd (omega arith)
  split_single (x ∷ xs) ys p h = absurd (omega (arith, length-append xs (p ∷ ys)))

  is_nil→eq : (xs : List Job) → is_nil xs ≡ true → xs ≡ []
  is_nil→eq [] h = refl
  is_nil→eq (x ∷ xs) h = cc

  immediate_cases :
      (owns : Bool) (s : Strand Job)
      → (decide_immediate owns s).1 ≡ true
      → (s.has_ready_job ≡ false)
        × (s.pending_jobs ≡ [])
        × ((decide_immediate owns s).0 ≡ record s { has_ready_job = true })
  unfolding decide_immediate
  immediate_cases owns s h = ground (arith, is_nil→eq s.pending_jobs)

  no_tokens : (xs : List (Phase Job)) → length xs ≡ 0 → xs ≡ []
  no_tokens [] h = refl
  no_tokens (x ∷ xs) h = absurd (omega arith)

  regroup : (a b c d : List Job) → a ++ (b ++ (c ++ d)) ≡ (a ++ (b ++ c)) ++ d
  regroup a b c d = simp append_assoc

  pub Arrival-Inv : (s t : System Job) → Arrival s t → Inv s → Inv t
  Arrival-Inv s t (submit job e) v = rw e (record {
    single = v.single;
    order =
        regroup s.released (in_hand s.tokens) s.pending_jobs (job ∷ [])
        ∙ ap (λ l. l ++ job ∷ []) v.order;
    served = λ _. inr (omega arith);
  })
  Arrival-Inv s t (immediate job owns ok e) v =
      let (idle, nothing, next) = immediate_cases owns s.strand ok in
      let free : s.tokens ≡ [] = no_tokens s.tokens (v.single ∙ ap ready_count idle) in
      let all_out : s.released ≡ s.submitted =
        sym (append-nil s.released) ∙ (rw (free, nothing) at v.order) in
      rw (e, next, free)
        (record {
          single = refl;
          order = rw (nothing, append-nil) (ap (λ l. l ++ job ∷ []) all_out);
          served = λ _. inl refl;
        })
  Arrival-Inv s t (runner_dies e) v =
      rw e (record { single = v.single; order = v.order; served = v.served })

  taken-Inv :
      (s : System Job)
      → s.tokens ≡ []
      → s.released ++ s.pending_jobs ≡ s.submitted
      → Inv (record s {
        strand = (take_next s.pending_jobs).0;
        tokens = with_next s.tokens (take_next s.pending_jobs).1;
      })
  unfolding take_next
  taken-Inv s free order = elim (List-cases s.pending_jobs) [
    | inl e ↦
        rw (e, free, take_next)
          (record { single = refl; order = rw e at order; served = λ h. absurd (h refl) })
    | inr (job, rest, e) ↦
        rw (e, free, take_next)
          (record { single = refl; order = rw e at order; served = λ h. inl refl })
  ]

  -- A step that moves a token finds it alone, and the strand marked as having a ready job.
  alone :
      (s : System Job) (xs ys : List (Phase Job)) (p : Phase Job)
      → s.tokens ≡ xs ++ p ∷ ys
      → Inv s
      → (xs ≡ []) × (ys ≡ []) × (s.has_ready_job ≡ true)
  alone s xs ys p e v =
      let few : length s.tokens ≤ 1 = omega (arith, v.single, ready_count_le s.has_ready_job) in
      let (left, right) = split_single xs ys p (rw e at few) in
      (left, right, ground (arith, v.single, ap length e, length-append xs (p ∷ ys)))

  -- One token is replaced by another, and `out` is what leaves the strand thereby.
  replace-Inv :
      (s : System Job) (xs ys : List (Phase Job)) (p q : Phase Job) (out : List Job)
      → s.tokens ≡ xs ++ p ∷ ys
      → in_hand (p ∷ []) ≡ out ++ in_hand (q ∷ [])
      → Inv s
      → Inv (record s { tokens = xs ++ q ∷ ys; released = s.released ++ out })
  replace-Inv s xs ys p q out e hand v =
      let (left, right, ready) = alone s xs ys p e v in
      let only : s.tokens ≡ p ∷ [] = e ∙ (λ i. left i ++ p ∷ right i) in
      rw (left, right)
        (record {
          single = rw ready refl;
          order = simp append_assoc (
              rw (← append_assoc out (in_hand (q ∷ [])) s.pending_jobs, ← hand)
                (rw only at v.order));
          served = λ _. inl ready;
        })

  retire-Inv :
      (s : System Job) (xs ys : List (Phase Job))
      → s.tokens ≡ xs ++ ending ∷ ys
      → Inv s
      → Inv (decided true (record s { tokens = xs ++ ys }))
  unfolding decided
  retire-Inv s xs ys e v =
      let (left, right, ready) = alone s xs ys ending e v in
      let only : s.tokens ≡ ending ∷ [] = e ∙ (λ i. left i ++ ending ∷ right i) in
      rw (left, right) (taken-Inv (record s { tokens = [] }) refl (rw only at v.order))

  arrive-Inv : (s : System Job) (n : ℕ) → Inv s → Inv (decided false (record s { arriving = n }))
  unfolding decided
  arrive-Inv s n v = elim (Bool-cases s.has_ready_job) [
    | inl ready ↦ rw ready (record {
      single = v.single ∙ ap ready_count ready;
      order = v.order;
      served = λ _. inl refl;
    })
    | inr idle ↦
        let free : s.tokens ≡ [] = no_tokens s.tokens (v.single ∙ ap ready_count idle) in
        rw idle (taken-Inv (record s { arriving = n }) free (rw free at v.order))
  ]

  pub Work-Inv : (s t : System Job) → Work s t → Inv s → Inv t
  Work-Inv s t (arrive n k e) v = rw e (arrive-Inv s n v)
  Work-Inv s t (push xs ys job k alive e) v =
      rw e (replace-Inv s xs ys (picked job) (queued job) (job ∷ []) k refl v)
  Work-Inv s t (drop xs ys job k dead e) v =
      rw e (replace-Inv s xs ys (picked job) ending (job ∷ []) k refl v)
  Work-Inv s t (begin xs ys job k e) v =
      rw (e, ← append-nil s.released) (replace-Inv s xs ys (queued job) (running job) [] k refl v)
  Work-Inv s t (discard xs ys job k e) v =
      rw (e, ← append-nil s.released) (replace-Inv s xs ys (queued job) ending [] k refl v)
  Work-Inv s t (finish xs ys job k e) v =
      rw (e, ← append-nil s.released) (replace-Inv s xs ys (running job) ending [] k refl v)
  Work-Inv s t (retire xs ys k e) v = rw e (retire-Inv s xs ys k v)

  pub Reach-Inv : {s : System Job} → Reach s → Inv s
  Reach-Inv here = start-Inv
  Reach-Inv (arrived {s} {t} r a) = Arrival-Inv s t a (Reach-Inv r)
  Reach-Inv (worked {s} {t} r w) = Work-Inv s t w (Reach-Inv r)
