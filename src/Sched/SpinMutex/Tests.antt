-- ===== src/Sched/SpinMutex/Tests.antt =====
-- Two threads at the mutex: one holds it, and the other's try fails.
use cris_core.Prelude.{◌≤◌, ◌≡◌, ◌==◌, refl, true, [], ◌∷◌}
use cris_core.Sched.SpinMutex.{
  try_lock, locking, holding, outside, Threads, calls_lock, tries, calls_try_lock, start, idle,
  Reach, here, next,
}
use cris_core.Sched.SpinMutex.Exclusion.{holders, mutual_exclusion}

abbrev contended : Threads
contended = record { locked = true; pcs = holding ∷ locking 1 ∷ [] }

contended-Reach : Reach 2 contended
unfolding start idle try_lock
contended-Reach =
    next
      (next (next here (calls_try_lock [] (outside ∷ []) refl refl))
        (calls_lock (holding ∷ []) [] refl refl))
      (tries (holding ∷ []) [] 0 refl refl)

mutual_exclusion_example :
    (holders contended.pcs ≤ 1)
    × (contended.locked ≡ (holders contended.pcs == 1))
    × ((try_lock contended.locked).1 ≡ (holders contended.pcs == 0))
mutual_exclusion_example = mutual_exclusion contended-Reach
