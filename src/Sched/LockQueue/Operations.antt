-- ===== src/Sched/LockQueue/Operations.antt =====
-- Every operation of the queue against the first-in first-out list that it stands for.
use cris_core.Prelude.{
  ℕ, suc, ◌+◌, ◌≤◌, ◌<◌, ◌≡◌, ◌≢◌, refl, ap, ◌∙◌, Bool, true, false, Option, none, some, List, [],
  ◌∷◌, ◌++◌, map, append_assoc, append-nil, arith, ◌==◌, length, get_or, set, length-append,
  length-set, length-replicate, get_or-set_ne,
}
use cris_core.Prelude.Pow2.{IsPow2, le-bit_ceil}
use cris_core.Sched.LockQueue.{
  LockQueue, Consumed, new, wrap, expand_unsafe, store_all, push, push_batch, consume_one,
  consume_loop, consume_all, push_each,
}
use cris_core.Sched.LockQueue.Contents.{Ring, Holds, store_all-Ring}
use cris_core.Sched.LockQueue.Growth.{expand_unsafe-Holds, length-expand_unsafe}

module _ {Job : Type 0} where
  pub new-Holds : (n : ℕ) → IsPow2 n → 0 < n → Holds (new {Job = Job} n) []
  unfolding new
  new-Holds n p h =
      let len = length-replicate {A = Option Job} n none in
      record {
        capacity = rw len p;
        sized = refl;
        ring = record {
          read_bound = omega (arith, len);
          fits = omega arith;
          write_slot = rw len (ground arith);
          cells = λ i h'. absurd (omega arith);
        };
      }

  room : (q : LockQueue Job) (target : ℕ) → target ≤ length (expand_unsafe q target).jobs
  room q target = ground (arith, length-expand_unsafe q target, le-bit_ceil target)

  -- A batch of any length goes to the end of the queue in its order, whether or not the container
  -- has to grow first.
  pub push_batch-Holds :
      (q : LockQueue Job) (xs js : List Job) → Holds q xs → Holds (push_batch q js) (xs ++ js)
  unfolding push_batch
  push_batch-Holds q xs js v =
      let target = q.size + length js in
      let e = expand_unsafe q target in
      let w = expand_unsafe-Holds q xs target v in
      let (ring, same) = store_all-Ring js e xs w.ring (omega (arith, v.sized, room q target)) in
      record {
        capacity = rw same w.capacity;
        sized = omega (arith, v.sized, length-append xs js);
        ring = ring;
      }

  push_one : (q : LockQueue Job) (job : Job) → push q job ≡ push_batch q (job ∷ [])
  unfolding push push_batch store_all
  push_one q job = refl

  -- A pushed job goes to the end of the queue.
  pub push-Holds :
      (q : LockQueue Job) (xs : List Job) (job : Job)
      → Holds q xs
      → Holds (push q job) (xs ++ job ∷ [])
  push-Holds q xs job v = rw (push_one q job) (push_batch-Holds q xs (job ∷ []) v)

  pub push_each-Holds :
      (js : List Job) (q : LockQueue Job) (xs : List Job)
      → Holds q xs
      → Holds (push_each q js) (xs ++ js)
  unfolding push_each
  push_each-Holds [] q xs v = rw append-nil v
  push_each-Holds (j ∷ js) q xs v =
      let rest = push_each-Holds js (push q j) (xs ++ j ∷ []) (push-Holds q xs j v) in
      rw append_assoc at rest

  -- What a read at the head leaves.
  rest-Ring :
      (jobs : List (Option Job)) (read write : ℕ) (x : Job) (xs : List Job)
      → Ring jobs read write (x ∷ xs)
      → Ring (set jobs read none) (wrap (length jobs) (read + 1)) write xs
  rest-Ring jobs read write x xs r =
      let len = length-set jobs read none in
      record {
        read_bound = rw len (ground (arith, r.read_bound));
        fits = omega (arith, len, r.fits);
        write_slot = rw len (ground (arith, r.read_bound, r.fits, r.write_slot));
        cells = λ i h.
            let next : wrap (length jobs) (wrap (length jobs) (read + 1) + i)
                ≡ wrap (length jobs) (read + suc i) =
              ground (arith, r.read_bound, r.fits) in
            let apart : read ≢ wrap (length jobs) (read + suc i) =
              ground (arith, r.read_bound, r.fits) in
            rw (len, next)
              (get_or-set_ne jobs read _ none none apart ∙ r.cells (suc i) (omega arith));
      }

  head-cell :
      (jobs : List (Option Job)) (read write : ℕ) (x : Job) (xs : List Job)
      → Ring jobs read write (x ∷ xs)
      → get_or jobs read none ≡ some x
  head-cell jobs read write x xs r =
      let e : wrap (length jobs) (read + 0) ≡ read = ground (arith, r.read_bound) in
      rw e at (r.cells 0 (omega arith))

  consume_loop-map :
      (xs : List Job) (jobs : List (Option Job)) (read write : ℕ)
      → Ring jobs read write xs
      → ((consume_loop jobs read (length xs)).1 ≡ map some xs)
        × (length (consume_loop jobs read (length xs)).0 ≡ length jobs)
  unfolding consume_loop
  consume_loop-map [] jobs read write r = (refl, refl)
  consume_loop-map (x ∷ xs) jobs read write r =
      let (passed, len) =
        consume_loop-map xs (set jobs read none) (wrap (length jobs) (read + 1)) write
          (rest-Ring jobs read write x xs r) in
      (rw (head-cell jobs read write x xs r) (rw passed refl), len ∙ length-set jobs read none)

  -- One call hands on the oldest job and keeps the rest; on an empty queue it does nothing.
  abbrev pub Pops : LockQueue Job → List Job → Consumed Job → Type 0
  Pops q [] c = (c.queue ≡ q) × (c.passed ≡ []) × (c.result ≡ false)
  Pops q (x ∷ xs) c = Holds c.queue xs × (c.passed ≡ some x ∷ []) × (c.result ≡ true)

  -- ConsumeOne takes exactly the oldest job.
  pub consume_one-Pops :
      (q : LockQueue Job) (xs : List Job) → Holds q xs → Pops q xs (consume_one q)
  unfolding consume_one
  consume_one-Pops q [] v =
      let idle : (q.size == 0) ≡ true = ground (arith, v.sized) in rw idle (refl, refl, refl)
  consume_one-Pops q (x ∷ xs) v =
      let busy : (q.size == 0) ≡ false = ground (arith, v.sized) in
      let len = length-set q.jobs q.read_head none in
      rw busy (
        record {
          capacity = rw len v.capacity;
          sized = omega (arith, v.sized);
          ring = rest-Ring q.jobs q.read_head q.write_head x xs v.ring;
        },
        ap (λ c. c ∷ []) (head-cell q.jobs q.read_head q.write_head x xs v.ring),
        refl,
      )

  abbrev pub has_any : List Job → Bool
  has_any [] = false
  has_any (x ∷ xs) = true

  -- ConsumeAll hands on every job, oldest first, and leaves the queue empty.
  pub consume_all-Holds :
      (q : LockQueue Job) (xs : List Job)
      → Holds q xs
      → Holds (consume_all q).queue []
        × ((consume_all q).passed ≡ map some xs)
        × ((consume_all q).result ≡ has_any xs)
  unfolding consume_all
  consume_all-Holds q [] v =
      let idle : (q.size == 0) ≡ true = ground (arith, v.sized) in rw idle (v, refl, refl)
  consume_all-Holds q (x ∷ xs) v =
      let busy : (q.size == 0) ≡ false = ground (arith, v.sized) in
      let (passed, len) = consume_loop-map (x ∷ xs) q.jobs q.read_head q.write_head v.ring in
      rw (busy, v.sized)
        (
          record {
            capacity = rw len v.capacity;
            sized = refl;
            ring = record {
              read_bound = omega (arith, len, v.ring.read_bound);
              fits = omega arith;
              write_slot = rw len (ground (arith, v.ring.read_bound));
              cells = λ i h. absurd (omega arith);
            };
          },
          passed,
          refl,
        )
