-- ===== src/Sched/SpinMutex/Exclusion.antt =====
-- Mutual exclusion by the HybridSpinMutex of spin_mutex.cc.
use cris_core.Prelude.{
  ℕ, zero, suc, ◌+◌, ◌≤◌, ◌≡◌, refl, Bool, true, false, List, [], ◌∷◌, ◌++◌, ◌==◌, arith,
}
use cris_core.Sched.SpinMutex.{
  try_lock, unlock, Pc, outside, locking, holding, Threads, Step, calls_lock, tries, calls_try_lock,
  calls_unlock, idle, start, Reach, here, next,
}

abbrev holds_one : Pc → ℕ
holds_one holding = 1
holds_one outside = 0
holds_one (locking n) = 0

pub holders : List Pc → ℕ
holders [] = 0
holders (p ∷ ps) = holds_one p + holders ps

abbrev flag : Bool → ℕ
flag true = 1
flag false = 0

holders-append : (xs ys : List Pc) → holders (xs ++ ys) ≡ holders xs + holders ys
unfolding holders
holders-append [] ys = omega arith
holders-append (x ∷ xs) ys = omega (arith, holders-append xs ys)

holders-split :
    (xs ys : List Pc) (p : Pc) → holders (xs ++ p ∷ ys) ≡ holders xs + holds_one p + holders ys
unfolding holders
holders-split xs ys p = omega (arith, holders-append xs (p ∷ ys))

holders-idle : (n : ℕ) → holders (idle n) ≡ 0
unfolding holders idle
holders-idle zero = refl
holders-idle (suc n) = omega (arith, holders-idle n)

Step-holders :
    (s t : Threads) → Step s t → holders s.pcs ≡ flag s.locked → holders t.pcs ≡ flag t.locked
unfolding try_lock unlock
Step-holders s t (calls_lock xs ys e f) h =
    ground (arith, holders-split xs ys outside, holders-split xs ys (locking 0))
Step-holders s t (tries xs ys n e f) h = ground (
  arith,
  holders-split xs ys (locking n),
  holders-split xs ys (locking (suc n)),
  holders-split xs ys holding,
)
Step-holders s t (calls_try_lock xs ys e f) h =
    ground (arith, holders-split xs ys outside, holders-split xs ys holding)
Step-holders s t (calls_unlock xs ys e f) h =
    ground (arith, holders-split xs ys holding, holders-split xs ys outside)

Reach-holders : {n : ℕ} {s : Threads} → Reach n s → holders s.pcs ≡ flag s.locked
unfolding start
Reach-holders {n} here = holders-idle n
Reach-holders (next {s} {t} r st) = Step-holders s t st (Reach-holders r)

-- However any number of threads interleave their calls of lock, try_lock and unlock, never do two of
-- them hold the mutex; the flag is set exactly while one holds it, and try_lock succeeds exactly while
-- none does.
pub mutual_exclusion :
    {n : ℕ} {s : Threads}
    → Reach n s
    → (holders s.pcs ≤ 1)
      × (s.locked ≡ (holders s.pcs == 1))
      × ((try_lock s.locked).1 ≡ (holders s.pcs == 0))
unfolding try_lock
mutual_exclusion {n} {s} r = ground (arith, Reach-holders r)
