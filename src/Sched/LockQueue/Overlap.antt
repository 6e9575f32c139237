-- ===== src/Sched/LockQueue/Overlap.antt =====
-- Growth of a full queue whose capacity is not a power of two: the ranges of std::move overlap.
use cris_core.Prelude.{
  ℕ, zero, suc, ◌+◌, ◌-◌, ◌≤◌, ◌<◌, ◌≡◌, refl, ap, ◌∙◌, inl, true, false, ◌||◌, Option, none, some,
  List, [], ◌∷◌, arith, leb, ltb, ◌==◌, length, get_or, set, replicate, length-append, length-set,
  get_or-set_self, get_or-set_ne,
}
use cris_core.Prelude.Pow2.{bit_ceil, le-bit_ceil}
use native.Mathlib.Nat.{add-zero, add-suc, suc-add}
use cris_core.Sched.LockQueue.{
  LockQueue, resize, move_cell, move_range, expand_unsafe, store, push, consume_one,
}
use cris_core.Sched.LockQueue.Moving.{get-move_range_other, length-move_cell}

module _ {Job : Type 0} where
  emptied :
      (jobs : List (Option Job)) (s d : ℕ)
      → s < length jobs
      → get_or (move_cell jobs s d) s none ≡ none
  unfolding move_cell
  emptied jobs s d h =
      get_or-set_self (set jobs d (get_or jobs s none)) s none none
        (omega (arith, length-set jobs d (get_or jobs s none)))

  -- A cell that is a source of the loop, and no target of a later turn, ends empty.
  move_range-emptied :
      (n : ℕ) (jobs : List (Option Job)) (s d i : ℕ)
      → i < n
      → s < d
      → s + i < length jobs
      → s + i ≤ d
      → get_or (move_range jobs s d n) (s + i) none ≡ none
  unfolding move_range
  move_range-emptied zero jobs s d i h k l m = elim h [ ]
  move_range-emptied (suc n) jobs s d zero h k l m = rw add-zero (
      get-move_range_other n (move_cell jobs s d) (suc s) (suc d) s (inl (omega arith))
        (inl (omega arith))
      ∙ emptied jobs s d (omega arith))
  move_range-emptied (suc n) jobs s d (suc i) h k l m =
      rw (add-suc, ← suc-add)
        (move_range-emptied n (move_cell jobs s d) (suc s) (suc d) i (omega arith) (omega arith)
          (omega (arith, length-move_cell jobs s d)) (omega arith))

  length-resize_le : (jobs : List (Option Job)) (n : ℕ) → length jobs ≤ length (resize jobs n)
  length-resize_le jobs n = omega (arith, length-append jobs (replicate (n - length jobs) none))

  -- Where the head of a full queue is moved to a cell that the same loop moves out of later, it is
  -- lost: after the push the next job handed to a functor is an empty one.
  pub push_overlap_loses :
      (q : LockQueue Job) (job : Job)
      → q.size ≡ length q.jobs
      → q.write_head ≡ q.read_head
      → q.read_head < length q.jobs
      → bit_ceil (q.size + 1) + q.read_head < length q.jobs + length q.jobs
      → ((consume_one (push q job)).passed ≡ none ∷ []) × ((consume_one (push q job)).result ≡ true)
  unfolding push expand_unsafe store consume_one
  push_overlap_loses q job full met bound near =
      let cap = length q.jobs in
      let n = bit_ceil (q.size + 1) in
      let grows : leb (q.size + 1) cap ≡ false = ground arith in
      let wraps : (ltb q.read_head q.write_head || q.size == 0) ≡ false = ground arith in
      let above = le-bit_ceil (q.size + 1) in
      let gone =
        move_range-emptied (cap - q.read_head) (resize q.jobs n) q.read_head (q.read_head + n - cap)
          (n - cap) (omega arith) (omega arith) (omega (arith, length-resize_le q.jobs n))
          (omega arith) in
      let there : q.read_head + (n - cap) ≡ q.read_head + n - cap = omega arith in
      let kept =
        get_or-set_ne
          (move_range (resize q.jobs n) q.read_head (q.read_head + n - cap) (cap - q.read_head))
          q.write_head (q.read_head + n - cap) (some job) none (omega arith) in
      let some_left : (q.size + 1 == 0) ≡ false = ground arith in
      rw (grows, wraps, some_left) (ap (λ c. c ∷ []) (kept ∙ (rw there at gone)), refl)
