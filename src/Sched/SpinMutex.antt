-- ===== src/Sched/SpinMutex.antt =====
-- HybridSpinMutex of src/sched/spin_mutex.h and spin_mutex.cc: threads that share one
-- std::atomic_flag. `lock` calls try_lock until it succeeds (five hundred times with a pause
-- between, then with a yield between), so that a thread in `lock` is one that tries again; the
-- pauses change no state.
pub mod Exclusion
mod Tests
use cris_core.Prelude.{
  ℕ, zero, suc, ◌≡◌, Bool, true, false, not, List, [], ◌∷◌, ◌++◌, if◌then◌else◌,
}

-- try_lock: atomic_flag::test_and_set sets the flag, and the result is whether it was clear.
pub try_lock : Bool → Bool × Bool
try_lock locked = (true, not locked)

pub unlock : Bool → Bool
unlock locked = false

-- Outside, in the spinning or yielding loop of `lock` after a number of tries, or holding the mutex.
pub data Pc : Type 0 where
  outside : Pc
  locking : ℕ → Pc
  holding : Pc

pub record Threads : Type 0 where
  pub locked : Bool
  pub pcs : List Pc

-- A thread's place after a try of `lock`, and after a call of try_lock by a user.
abbrev pub after_try : ℕ → Bool → Pc
after_try tries success = if success then holding else locking (suc tries)

abbrev pub after_try_lock : Bool → Pc
after_try_lock success = if success then holding else outside

-- One access to the flag by one thread, or the call of `lock`.
pub data Step (s t : Threads) : Type 0 where
  calls_lock :
      (xs ys : List Pc)
      → s.pcs ≡ xs ++ outside ∷ ys
      → t ≡ record s { pcs = xs ++ locking 0 ∷ ys }
      → Step s t
  tries :
      (xs ys : List Pc) (n : ℕ)
      → s.pcs ≡ xs ++ locking n ∷ ys
      → t ≡ record {
        locked = (try_lock s.locked).0;
        pcs = xs ++ after_try n (try_lock s.locked).1 ∷ ys;
      }
      → Step s t
  calls_try_lock :
      (xs ys : List Pc)
      → s.pcs ≡ xs ++ outside ∷ ys
      → t ≡ record {
        locked = (try_lock s.locked).0;
        pcs = xs ++ after_try_lock (try_lock s.locked).1 ∷ ys;
      }
      → Step s t
  calls_unlock :
      (xs ys : List Pc)
      → s.pcs ≡ xs ++ holding ∷ ys
      → t ≡ record { locked = unlock s.locked; pcs = xs ++ outside ∷ ys }
      → Step s t

pub idle : ℕ → List Pc
idle zero = []
idle (suc n) = outside ∷ idle n

pub start : ℕ → Threads
start n = record { locked = false; pcs = idle n }

pub data Reach (n : ℕ) : Threads → Type 0 where
  here : Reach n (start n)
  next : {s t : Threads} → Reach n s → Step s t → Reach n t
