-- ===== src/Sched/LockQueue/Moving.antt =====
-- What the move of a range of cells leaves where, as long as source and target do not overlap.
use cris_core.Prelude.{
  ℕ, zero, suc, ◌+◌, ◌≤◌, ◌<◌, ◌≡◌, ◌≢◌, refl, sym, ◌∙◌, ◌⊎◌, inl, inr, Option, none, List, arith,
  length, get_or, set, length-set, get_or-set_self, get_or-set_ne,
}
use native.Mathlib.Nat.{add-zero, add-suc, suc-add}
use cris_core.Sched.LockQueue.{move_cell, move_range}

module _ {Job : Type 0} where
  pub length-move_cell :
      (jobs : List (Option Job)) (s d : ℕ) → length (move_cell jobs s d) ≡ length jobs
  unfolding move_cell
  length-move_cell jobs s d =
      length-set (set jobs d (get_or jobs s none)) s none ∙ length-set jobs d (get_or jobs s none)

  get-move_cell_other :
      (jobs : List (Option Job)) (s d k : ℕ)
      → k ≢ s
      → k ≢ d
      → get_or (move_cell jobs s d) k none ≡ get_or jobs k none
  unfolding move_cell
  get-move_cell_other jobs s d k ns nd =
      get_or-set_ne (set jobs d (get_or jobs s none)) s k none none (λ e. ns (sym e))
      ∙ get_or-set_ne jobs d k (get_or jobs s none) none (λ e. nd (sym e))

  get-move_cell_target :
      (jobs : List (Option Job)) (s d : ℕ)
      → d ≢ s
      → d < length jobs
      → get_or (move_cell jobs s d) d none ≡ get_or jobs s none
  unfolding move_cell
  get-move_cell_target jobs s d ne h =
      get_or-set_ne (set jobs d (get_or jobs s none)) s d none none (λ e. ne (sym e))
      ∙ get_or-set_self jobs d (get_or jobs s none) none h

  pub length-move_range :
      (n : ℕ) (jobs : List (Option Job)) (s d : ℕ) → length (move_range jobs s d n) ≡ length jobs
  unfolding move_range
  length-move_range zero jobs s d = refl
  length-move_range (suc n) jobs s d =
      length-move_range n (move_cell jobs s d) (suc s) (suc d) ∙ length-move_cell jobs s d

  -- A cell outside both ranges keeps what it holds.
  pub get-move_range_other :
      (n : ℕ) (jobs : List (Option Job)) (s d k : ℕ)
      → (k < s) ⊎ (s + n ≤ k)
      → (k < d) ⊎ (d + n ≤ k)
      → get_or (move_range jobs s d n) k none ≡ get_or jobs k none
  unfolding move_range
  get-move_range_other zero jobs s d k hs hd = refl
  get-move_range_other (suc n) jobs s d k hs hd =
      get-move_range_other n (move_cell jobs s d) (suc s) (suc d) k (omega arith) (omega arith)
      ∙ get-move_cell_other jobs s d k (omega arith) (omega arith)

  -- A cell of the target range holds what its source held.
  pub get-move_range_target :
      (n : ℕ) (jobs : List (Option Job)) (s d i : ℕ)
      → i < n
      → s + n ≤ d
      → d + n ≤ length jobs
      → get_or (move_range jobs s d n) (d + i) none ≡ get_or jobs (s + i) none
  unfolding move_range
  get-move_range_target zero jobs s d i h apart room = elim h [ ]
  get-move_range_target (suc n) jobs s d zero h apart room =
      let rest =
        get-move_range_other n (move_cell jobs s d) (suc s) (suc d) d (inr (omega arith))
          (inl (omega arith)) in
      let here = get-move_cell_target jobs s d (omega arith) (omega arith) in
      rw (add-zero, add-zero) (rest ∙ here)
  get-move_range_target (suc n) jobs s d (suc i) h apart room =
      let rest =
        get-move_range_target n (move_cell jobs s d) (suc s) (suc d) i (omega arith) (omega arith)
          (omega (arith, length-move_cell jobs s d)) in
      let here = get-move_cell_other jobs s d (suc s + i) (omega arith) (omega arith) in
      rw (add-suc, ← suc-add, add-suc, ← suc-add) (rest ∙ here)
