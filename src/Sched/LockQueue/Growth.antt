-- ===== src/Sched/LockQueue/Growth.antt =====
-- ExpandUnsafe keeps the contents of a queue whose capacity is a power of two.
use cris_core.Prelude.{
  ℕ, ◌+◌, ◌-◌, ◌≤◌, ◌<◌, ◌≡◌, ◌≢◌, ◌∙◌, ◌⊎◌, inl, inr, ◌||◌, Option, none, List, arith, leb, ltb,
  ◌==◌, if◌then◌else◌, length, get_elem?, get_or, replicate, length-append, length-replicate,
  get_or-append_left, Bool-cases, leb_false→lt, dec_lt,
}
use cris_core.Prelude.Pow2.{IsPow2_gap, bit_ceil, le-bit_ceil, bit_ceil-IsPow2}
use cris_core.Sched.LockQueue.{LockQueue, wrap, resize, move_range, expand_unsafe}
use cris_core.Sched.LockQueue.Contents.{Ring, Holds}
use cris_core.Sched.LockQueue.Moving.{
  length-move_range, get-move_range_other, get-move_range_target,
}

module _ {Job : Type 0} where
  length-resize : (jobs : List (Option Job)) (n : ℕ) → length jobs ≤ n → length (resize jobs n) ≡ n
  length-resize jobs n h = omega (
    arith,
    length-append jobs (replicate (n - length jobs) none),
    length-replicate {A = Option Job} (n - length jobs) none,
  )

  -- Growth where the contents do not wrap round: the cells stay where they are.
  straight-Ring :
      (jobs : List (Option Job)) (read write n : ℕ) (xs : List Job)
      → Ring jobs read write xs
      → length jobs < n
      → (read < write) ⊎ (length xs ≡ 0)
      → Ring (resize jobs n) read write xs
  straight-Ring jobs read write n xs r more flat =
      let len = length-resize jobs n (omega arith) in
      let slot : write ≡ read + length xs = ground (arith, r.read_bound, r.fits, r.write_slot) in
      record {
        read_bound = omega (arith, len, r.read_bound);
        fits = omega (arith, len, r.fits);
        write_slot = rw (len, slot) (ground (arith, r.read_bound, r.fits, r.write_slot));
        cells = λ i h.
            let inside : read + i < length jobs =
              ground (arith, r.read_bound, r.fits, r.write_slot) in
            let here : wrap (length jobs) (read + i) ≡ read + i = ground arith in
            let there : wrap (length (resize jobs n)) (read + i) ≡ read + i =
              rw len (ground arith) in
            rw there (
              get_or-append_left jobs (replicate (n - length jobs) none) (read + i) none inside
              ∙ (rw here at (r.cells i h)));
      }

  -- Growth where they do: the cells from the read head on move to the end of the new container.
  module _ (jobs : List (Option Job)) (read write n : ℕ) (xs : List Job)
      (r : Ring jobs read write xs) (twice : length jobs + length jobs ≤ n) where
    moved-cells :
        (i : ℕ)
        → i < length xs
        → get_or
            (move_range (resize jobs n) read (read + n - length jobs) (length jobs - read))
            (wrap n (read + n - length jobs + i))
            none
          ≡ get_elem? xs i
    moved-cells i h =
        let cap = length jobs in
        let pad : List (Option Job) = replicate (n - cap) none in
        let len = length-resize jobs n (omega arith) in
        elim (dec_lt (read + i) cap) [
          | yes low ↦
              let there : wrap n (read + n - cap + i) ≡ read + n - cap + i = ground arith in
              let here : wrap cap (read + i) ≡ read + i = ground arith in
              rw there (
                get-move_range_target (cap - read) (resize jobs n) read (read + n - cap) i
                  (omega arith) (omega arith) (omega (arith, len))
                ∙ get_or-append_left jobs pad (read + i) none low
                ∙ (rw here at (r.cells i h)))
          | no high ↦
              let there : wrap n (read + n - cap + i) ≡ read + i - cap =
                ground (arith, r.read_bound, r.fits) in
              let here : wrap cap (read + i) ≡ read + i - cap = ground arith in
              rw there (
                get-move_range_other (cap - read) (resize jobs n) read (read + n - cap)
                  (read + i - cap) (inl (omega (arith, r.fits))) (inl (omega (arith, r.fits)))
                ∙ get_or-append_left jobs pad (read + i - cap) none
                    (omega (arith, r.fits, r.read_bound))
                ∙ (rw here at (r.cells i h)))
        ]

    wrapped-Ring :
        ¬ (read < write)
        → length xs ≢ 0
        → Ring
            (move_range (resize jobs n) read (read + n - length jobs) (length jobs - read))
            (read + n - length jobs)
            write
            xs
    wrapped-Ring over some_left =
        let len =
          length-move_range (length jobs - read) (resize jobs n) read (read + n - length jobs)
          ∙ length-resize jobs n (omega (arith, r.read_bound)) in
        record {
          read_bound = omega (arith, len, r.read_bound);
          fits = omega (arith, len, r.fits);
          write_slot = rw len (ground (arith, r.read_bound, r.fits, r.write_slot));
          cells = λ i h. rw len (moved-cells i h);
        }

  pub length-expand_unsafe :
      (q : LockQueue Job) (target : ℕ)
      → length (expand_unsafe q target).jobs
        ≡ (if leb target (length q.jobs) then length q.jobs else bit_ceil target)
  unfolding expand_unsafe
  length-expand_unsafe q target =
      let n = bit_ceil target in
      elim (Bool-cases (leb target (length q.jobs))) [
        | inl small ↦ rw small
        | inr large ↦
            let len =
              length-resize q.jobs n
                (omega (arith, leb_false→lt target (length q.jobs) large, le-bit_ceil target)) in
            elim (Bool-cases (ltb q.read_head q.write_head || q.size == 0)) [
              | inl flat ↦ rw (large, flat) len
              | inr over ↦
                  rw (large, over)
                    (length-move_range (length q.jobs - q.read_head) (resize q.jobs n) q.read_head
                        (q.read_head + n - length q.jobs)
                      ∙ len)
            ]
      ]

  -- The capacity never falls, is at least the target, and stays a power of two; the jobs stay.
  pub expand_unsafe-Holds :
      (q : LockQueue Job) (xs : List Job) (target : ℕ)
      → Holds q xs
      → Holds (expand_unsafe q target) xs
  unfolding expand_unsafe
  expand_unsafe-Holds q xs target v =
      let n = bit_ceil target in
      elim (Bool-cases (leb target (length q.jobs))) [
        | inl small ↦ rw small v
        | inr large ↦
            let more : length q.jobs < n =
              omega (arith, leb_false→lt target (length q.jobs) large, le-bit_ceil target) in
            let twice = IsPow2_gap v.capacity (bit_ceil-IsPow2 target) more in
            elim (Bool-cases (ltb q.read_head q.write_head || q.size == 0)) [
              | inl flat ↦
                  rw (large, flat)
                    (record {
                      capacity = rw (length-resize q.jobs n (omega arith)) (bit_ceil-IsPow2 target);
                      sized = v.sized;
                      ring =
                          straight-Ring q.jobs q.read_head q.write_head n xs v.ring more
                            (ground (arith, v.sized));
                    })
              | inr over ↦
                  rw (large, over)
                    (record {
                      capacity =
                          rw
                            (
                              length-move_range (length q.jobs - q.read_head) (resize q.jobs n)
                                  q.read_head (q.read_head + n - length q.jobs),
                              length-resize q.jobs n (omega arith),
                            )
                            (bit_ceil-IsPow2 target);
                      sized = v.sized;
                      ring =
                          wrapped-Ring q.jobs q.read_head q.write_head n xs v.ring twice
                            (ground arith) (ground (arith, v.sized));
                    })
            ]
      ]
