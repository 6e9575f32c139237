-- ===== src/Sched/LockFreeQueue/Ownership.antt =====
-- The memory of the jobs in a JobLockFreeQueue.
use cris_core.Prelude.{
  ℕ, zero, suc, ◌+◌, ◌<◌, ◌≡◌, refl, Bool, true, false, not, Option, none, some, List, [], ◌∷◌,
  ◌++◌, length, map, ◌==◌, if◌then◌else◌, ==_refl, ap, sym, subst, ◌∙◌, length-append, append_assoc,
  append-nil, arith,
}
use cris_core.Sched.LockQueue.Calls.{
  Call, pushes, pushes_batch, consumes_one, consumes_all, asks_empty, fifo_call, fifo_run,
}
use cris_core.Sched.LockQueue.Operations.{has_any}
use cris_core.Sched.LockFreeQueue.{
  BoostQueue, LockFreeQueue, put, take_all, new, push, push_batch, consume_one, consume_all,
  is_empty, destroy, call, run,
}

-- What boost documents of calls that do not overlap: first in, first out.
pub record IsFifo {Q : Type 0} (lib : BoostQueue Q) : Type 0 where
  pub contents : Q → List ℕ
  pub create_law : (n : ℕ) → contents (lib.create n) ≡ []
  pub enqueue_law : (q : Q) (p : ℕ) → contents (lib.enqueue q p) ≡ contents q ++ p ∷ []
  pub none_law : (q : Q) → contents q ≡ [] → lib.consume_first q ≡ none
  pub first_law :
      (q : Q) (p : ℕ) (ps : List ℕ)
      → contents q ≡ p ∷ ps
      → (r : Q) × (lib.consume_first q ≡ some (p, r)) × (contents r ≡ ps)
  pub rest_law :
      (q : Q) → ((lib.consume_rest q).0 ≡ contents q) × (contents (lib.consume_rest q).1 ≡ [])
  pub has_none_law : (q : Q) → lib.has_none q ≡ (length (contents q) == 0)

addresses : ℕ → ℕ → List ℕ
addresses first zero = []
addresses first (suc n) = first ∷ addresses (first + 1) n

addresses-append : (first n : ℕ) → addresses first (suc n) ≡ addresses first n ++ ((first + n) ∷ [])
unfolding addresses
addresses-append first zero = ap (λ (a : ℕ). a ∷ []) (omega arith)
addresses-append first (suc n) =
    ap (λ l. first ∷ l)
      (addresses-append (first + 1) n
        ∙ ap (λ (a : ℕ). addresses (first + 1) n ++ (a ∷ [])) (omega arith))

module _ {Job : Type 0} where
  -- Memory that holds jobs at the addresses from `first` on, and nothing else.
  held : ℕ → List Job → ℕ → Option Job
  held first [] i = none
  held first (x ∷ xs) i = if i == first then some x else held (first + 1) xs i

  held_below : (xs : List Job) (first i : ℕ) → i < first → held first xs i ≡ none
  unfolding held
  held_below [] first i l = refl
  held_below (x ∷ xs) first i l = ground (arith, held_below xs (first + 1) i (omega arith))

  held-put :
      (xs : List Job) (first i : ℕ) (job : Job)
      → put (held first xs) (first + length xs) (some job) i ≡ held first (xs ++ job ∷ []) i
  unfolding held
  held-put [] first i job = let here : first + 0 ≡ first = omega arith in rw here refl
  held-put (x ∷ xs) first i job =
      let there : first + suc (length xs) ≡ first + 1 + length xs = omega arith in
      rw there (ground (arith, held-put xs (first + 1) i job))

  held-free :
      (xs : List Job) (x : Job) (first i : ℕ)
      → put (held first (x ∷ xs)) first none i ≡ held (first + 1) xs i
  unfolding held
  held-free xs x first i = ground (arith, held_below xs (first + 1) i)

  take_all-held :
      (xs : List Job) (first : ℕ) (heap : ℕ → Option Job)
      → ((i : ℕ) → heap i ≡ held first xs i)
      → ((take_all (addresses first (length xs)) heap).0 ≡ map some xs)
        × ((i : ℕ) → (take_all (addresses first (length xs)) heap).1 i ≡ none)
  unfolding take_all addresses held
  take_all-held [] first heap h = (refl, h)
  take_all-held (x ∷ xs) first heap h =
      let (passed, freed) =
        take_all-held xs (first + 1) (put heap first none)
          (λ i. ground (arith, h i, held-free xs x first i)) in
      (λ i. head i ∷ passed i, freed)
    where
      head : heap first ≡ some x
      head = h first ∙ rw (==_refl first) refl

module _ {Q Job : Type 0} (lib : BoostQueue Q) (law : IsFifo lib) where
  -- The queue's pointers are the addresses from `first` on, which hold the jobs `xs`, and no other
  -- memory holds one.
  record Holds (q : LockFreeQueue Q Job) (xs : List Job) : Type 0 where
    pub first : ℕ
    pub stored : law.contents q.jobs ≡ addresses first (length xs)
    pub fresh : q.next_address ≡ first + length xs
    pub memory : (i : ℕ) → q.heap i ≡ held first xs i

  push-Holds :
      (q : LockFreeQueue Q Job) (xs : List Job) (job : Job)
      → Holds q xs
      → Holds (push lib q job) (xs ++ job ∷ [])
  unfolding push
  push-Holds q xs job v =
      let longer : length (xs ++ job ∷ []) ≡ suc (length xs) =
        omega (arith, length-append xs (job ∷ [])) in
      record {
        first = v.first;
        stored =
            law.enqueue_law q.jobs q.next_address
            ∙ rw (longer, v.stored, v.fresh) (sym (addresses-append v.first (length xs)));
        fresh = omega (arith, v.fresh, longer);
        memory = λ i. rw v.fresh (ground (arith, v.memory i, held-put xs v.first i job));
      }

  push_batch-Holds :
      (js : List Job) (q : LockFreeQueue Q Job) (xs : List Job)
      → Holds q xs
      → Holds (push_batch lib q js) (xs ++ js)
  unfolding push_batch
  push_batch-Holds [] q xs v = rw (append-nil xs) v
  push_batch-Holds (j ∷ js) q xs v =
      subst (Holds (push_batch lib (push lib q j) js)) (append_assoc xs (j ∷ []) js)
        (push_batch-Holds js (push lib q j) (xs ++ j ∷ []) (push-Holds q xs j v))

  consume_all-Holds :
      (q : LockFreeQueue Q Job) (xs : List Job)
      → Holds q xs
      → Holds (consume_all lib q).queue []
        × ((consume_all lib q).passed ≡ map some xs)
        × ((consume_all lib q).result ≡ has_any xs)
  unfolding consume_all addresses held
  consume_all-Holds q xs v =
      let (given, left) = law.rest_law q.jobs in
      let (passed, freed) = take_all-held xs v.first q.heap v.memory in
      let all = given ∙ v.stored in
      (
        record {
          first = q.next_address;
          stored = left;
          fresh = omega arith;
          memory = λ i. rw all (freed i);
        },
        rw all passed,
        rw all (result xs v.first),
      )
    where
      result :
          (xs : List Job) (first : ℕ) → not (length (addresses first (length xs)) == 0) ≡ has_any xs
      result [] first = refl
      result (x ∷ xs) first = ground arith

  consume_one-some :
      (q : LockFreeQueue Q Job) (p : ℕ) (rest : Q)
      → lib.consume_first q.jobs ≡ some (p, rest)
      → consume_one lib q ≡ record {
        queue = record q { jobs = rest; heap = put q.heap p none };
        passed = q.heap p ∷ [];
        result = true;
      }
  unfolding consume_one take_all
  consume_one-some q p rest e = rw (e, consume_one) refl

  consume_one-none :
      (q : LockFreeQueue Q Job)
      → lib.consume_first q.jobs ≡ none
      → consume_one lib q ≡ record { queue = q; passed = []; result = false }
  unfolding consume_one
  consume_one-none q e = rw (e, consume_one) refl

  consume_one-Holds :
      (q : LockFreeQueue Q Job) (x : Job) (xs : List Job)
      → Holds q (x ∷ xs)
      → Holds (consume_one lib q).queue xs
        × ((consume_one lib q).passed ≡ some x ∷ [])
        × ((consume_one lib q).result ≡ true)
  unfolding addresses held
  consume_one-Holds q x xs v =
      let (rest, found, kept) =
        law.first_law q.jobs v.first (addresses (v.first + 1) (length xs)) v.stored in
      rw (consume_one-some q v.first rest found) (
        record {
          first = v.first + 1;
          stored = kept;
          fresh = omega (arith, v.fresh);
          memory = λ i. ground (arith, v.memory i, held-free xs x v.first i);
        },
        ap (λ (o : Option Job). o ∷ []) (v.memory v.first ∙ rw (==_refl v.first) refl),
        refl,
      )

  call-Holds :
      (q : LockFreeQueue Q Job) (xs : List Job) (c : Call Job)
      → Holds q xs
      → Holds (call lib q c).0 (fifo_call xs c).0 × ((call lib q c).1 ≡ (fifo_call xs c).1)
  unfolding call fifo_call is_empty addresses
  call-Holds q xs (pushes job) v = (push-Holds q xs job v, refl)
  call-Holds q xs (pushes_batch jobs) v = (push_batch-Holds jobs q xs v, refl)
  call-Holds q [] consumes_one v = rw (consume_one-none q (law.none_law q.jobs v.stored)) (v, refl)
  call-Holds q (x ∷ xs) consumes_one v =
      let (left, passed, result) = consume_one-Holds q x xs v in (left, rw (passed, result) refl)
  call-Holds q xs consumes_all v =
      let (left, passed, result) = consume_all-Holds q xs v in (left, rw (passed, result) refl)
  call-Holds q [] asks_empty v = (v, rw (law.has_none_law q.jobs, v.stored) refl)
  call-Holds q (x ∷ xs) asks_empty v =
      (v, ap (λ (b : Bool). ([], b)) (law.has_none_law q.jobs ∙ rw v.stored (ground arith)))

  new-Holds : (init_capacity : ℕ) → Holds (new lib init_capacity) []
  unfolding new addresses held
  new-Holds n = record { first = 0; stored = law.create_law n; fresh = refl; memory = λ i. refl }

  run_from-fifo :
      (cs : List (Call Job)) (q : LockFreeQueue Q Job) (xs : List Job)
      → Holds q xs
      → ((run lib q cs).1 ≡ fifo_run xs cs) × ((ys : List Job) × Holds (run lib q cs).0 ys)
  unfolding run fifo_run
  run_from-fifo [] q xs v = (refl, (xs, v))
  run_from-fifo (c ∷ cs) q xs v =
      let (next, same) = call-Holds q xs c v in
      let (shown, left) = run_from-fifo cs (call lib q c).0 (fifo_call xs c).0 next in
      (λ i. same i ∷ shown i, left)

  -- Where boost's queue is first in, first out, the caller of a new lock-free queue sees, whatever
  -- calls are made, what a first-in first-out list would show, as with the queue under a lock; no
  -- call hands on a job from memory that is freed, and the destructor leaves no memory of a job.
  pub destroy-run :
      (init_capacity : ℕ) (cs : List (Call Job))
      → ((run lib (new lib init_capacity) cs).1 ≡ fifo_run [] cs)
        × ((i : ℕ) → destroy lib (run lib (new lib init_capacity) cs).0 i ≡ none)
  unfolding destroy held
  destroy-run n cs =
      let (shown, (ys, left)) = run_from-fifo cs (new lib n) [] (new-Holds n) in
      (shown, (consume_all-Holds (run lib (new lib n) cs).0 ys left).0.memory)
