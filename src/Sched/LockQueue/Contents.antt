-- ===== src/Sched/LockQueue/Contents.antt =====
-- The first-in first-out list that a ring buffer stands for, and how growth, a store at the write
-- head and a read at the read head act on it.
use cris_core.Prelude.{
  ℕ, suc, ◌+◌, ◌≤◌, ◌<◌, ◌≡◌, ◌≢◌, refl, sym, ◌∙◌, Option, none, some, List, [], ◌∷◌, ◌++◌,
  append_assoc, append-nil, arith, length, get_elem?, get_or, set, length-set, length-append,
  get_or-set_self, get_or-set_ne, get_elem?-append_left, get_elem?-append_end, dec_lt,
}
use cris_core.Prelude.Pow2.{IsPow2}
use cris_core.Sched.LockQueue.{LockQueue, wrap, store, store_all}

-- The cells from `read` on hold `xs` in order, and `write` is the cell behind the last.
pub record Ring {Job : Type 0} (jobs : List (Option Job)) (read write : ℕ) (xs : List Job)
    : Type 0 where
  pub read_bound : read < length jobs
  pub fits : length xs ≤ length jobs
  pub write_slot : write ≡ wrap (length jobs) (read + length xs)
  pub cells :
      (i : ℕ) → i < length xs → get_or jobs (wrap (length jobs) (read + i)) none ≡ get_elem? xs i

-- A queue whose capacity is a power of two and that holds the jobs `xs`, oldest first.
pub record Holds {Job : Type 0} (q : LockQueue Job) (xs : List Job) : Type 0 where
  pub capacity : IsPow2 (length q.jobs)
  pub sized : q.size ≡ length xs
  pub ring : Ring q.jobs q.read_head q.write_head xs

-- Two slots of one ring are different cells.
wrap-ne :
    (cap read i n : ℕ) → read < cap → i < n → n < cap → wrap cap (read + n) ≢ wrap cap (read + i)
wrap-ne cap read i n h k l = ground arith

wrap-lt : (cap read n : ℕ) → read < cap → n < cap → wrap cap (read + n) < cap
wrap-lt cap read n h k = ground arith

wrap-step :
    (cap read n : ℕ)
    → read < cap
    → n < cap
    → wrap cap (wrap cap (read + n) + 1) ≡ wrap cap (read + suc n)
wrap-step cap read n h k = ground arith

module _ {Job : Type 0} where
  store-cells :
      (jobs : List (Option Job)) (read : ℕ) (xs : List Job) (job : Job)
      → read < length jobs
      → length xs < length jobs
      → ((i : ℕ)
          → i < length xs
          → get_or jobs (wrap (length jobs) (read + i)) none ≡ get_elem? xs i)
      → (i : ℕ) → i < length xs + 1
      → get_or
          (set jobs (wrap (length jobs) (read + length xs)) (some job))
          (wrap (length jobs) (read + i))
          none
        ≡ get_elem? (xs ++ job ∷ []) i
  store-cells jobs read xs job bound room cells i h = elim (dec_lt i (length xs)) [
    | yes old ↦
        get_or-set_ne jobs _ _ (some job) none
          (wrap-ne (length jobs) read i (length xs) bound old room)
        ∙ cells i old
        ∙ sym (get_elem?-append_left xs (job ∷ []) i old)
    | no last ↦
        let e : i ≡ length xs = omega arith in
        rw e (
          get_or-set_self jobs _ (some job) none (wrap-lt (length jobs) read (length xs) bound room)
          ∙ sym (get_elem?-append_end xs job))
  ]

  pub store-Ring :
      (q : LockQueue Job) (xs : List Job) (job : Job)
      → Ring q.jobs q.read_head q.write_head xs
      → length xs < length q.jobs
      → Ring (store q job).jobs q.read_head (store q job).write_head (xs ++ job ∷ [])
  unfolding store
  store-Ring q xs job r room =
      let same = length-set q.jobs q.write_head (some job) in
      let longer = length-append xs (job ∷ []) in
      record {
        read_bound = omega (arith, same, r.read_bound);
        fits = omega (arith, same, longer);
        write_slot = rw (same, longer, r.write_slot) (ground arith);
        cells = λ i h.
            rw (same, r.write_slot)
              (store-cells q.jobs q.read_head xs job r.read_bound room r.cells i (rw longer at h));
      }

  -- A batch is stored in order.
  pub store_all-Ring :
      (js : List Job) (q : LockQueue Job) (xs : List Job)
      → Ring q.jobs q.read_head q.write_head xs
      → length xs + length js ≤ length q.jobs
      → Ring (store_all q js).jobs (store_all q js).read_head (store_all q js).write_head (xs ++ js)
        × (length (store_all q js).jobs ≡ length q.jobs)
  unfolding store_all
  store_all-Ring [] q xs r room = rw append-nil (r, refl)
  store_all-Ring (j ∷ js) q xs r room =
      let same : length (store q j).jobs ≡ length q.jobs =
        unfold store in length-set q.jobs q.write_head (some j) in
      let next = store-Ring q xs j r (omega arith) in
      let (ring, kept) =
        store_all-Ring js (store q j) (xs ++ j ∷ []) (unfold store in next)
          (omega (arith, same, length-append xs (j ∷ []))) in
      (rw append_assoc at ring, kept ∙ same)
