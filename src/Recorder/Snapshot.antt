-- ===== src/Recorder/Snapshot.antt =====
-- SnapshotWorker and MaintainMaxNumOfSnapshots of src/msg_recorder/recorder.cc: the rounds of the
-- thread that takes snapshots at several intervals. Times are in milliseconds, a name and a
-- directory are numbers. The std::priority_queue gives some entry that compares after no other.
pub mod Copies
pub mod Handshake
pub mod Directory
pub mod Schedule
mod Tests
use cris_core.Prelude.{
  ℕ, zero, suc, ◌+◌, ◌*◌, ◌≡◌, Bool, true, false, not, ◌&&◌, List, [], ◌∷◌, ◌++◌, length, ltb, ◌==◌,
  if◌then◌else◌,
}

pub record IntervalConfig : Type 0 where
  pub name : ℕ
  pub period : ℕ
  pub max_num_of_copies : ℕ

pub record WakeUpConfig : Type 0 where
  pub interval_config : IntervalConfig
  pub wake_time : ℕ

-- compare(lhs, rhs) of the priority queue: lhs is served after rhs.
unfoldable pub compare_wake_up : WakeUpConfig → WakeUpConfig → Bool
compare_wake_up lhs rhs =
    if not (lhs.wake_time == rhs.wake_time)
    then ltb rhs.wake_time lhs.wake_time
    else ltb rhs.interval_config.period lhs.interval_config.period

abbrev pub snapshot_max_num : ℕ
snapshot_max_num = 48

-- The loop of MaintainMaxNumOfSnapshots on the directories of one interval, the oldest first.
unfoldable pub maintain_max_num_of_snapshots : List ℕ → List ℕ
maintain_max_num_of_snapshots [] = []
maintain_max_num_of_snapshots (dir ∷ dirs) =
    let rest = maintain_max_num_of_snapshots dirs in
    if ltb snapshot_max_num (length (dir ∷ dirs)) then rest else dir ∷ dirs

unfoldable pub add_snapshot : (ℕ → List ℕ) → ℕ → ℕ → ℕ → List ℕ
add_snapshot paths name dir n =
    if n == name then maintain_max_num_of_snapshots (paths n ++ dir ∷ []) else paths n

-- Whether the time to the next wake-up is more than half of the period.
unfoldable pub has_time : WakeUpConfig → ℕ → Bool
has_time current now =
    ltb (current.interval_config.period + 2 * now)
      (2 * (current.wake_time + current.interval_config.period))

abbrev pub next_wake_up : WakeUpConfig → WakeUpConfig
next_wake_up current = record current {
  wake_time = current.wake_time + current.interval_config.period;
}

-- `generated` are the snapshots that GenerateSnapshot has reported as made, with their intervals.
pub record Worker : Type 0 where
  pub current : WakeUpConfig
  pub wake_up_queue : List WakeUpConfig
  pub snapshot_path_map : ℕ → List ℕ
  pub generated : List (ℕ × ℕ)

unfoldable pub snapshot : Worker → ℕ → ℕ → Bool → Worker
snapshot w now dir success =
    if has_time w.current now && success
    then record w {
      snapshot_path_map = add_snapshot w.snapshot_path_map w.current.interval_config.name dir;
      generated = w.generated ++ (w.current.interval_config.name, dir) ∷ [];
    }
    else w

unfoldable pub IsTop : WakeUpConfig → List WakeUpConfig → Type 0
IsTop c [] = Unit
IsTop c (x ∷ xs) = (compare_wake_up c x ≡ false) × IsTop c xs

-- One round of the loop: the clock, the new directory, and whether the snapshot was generated.
pub data Round (v w : Worker) : Type 0 where
  round :
      (now dir : ℕ) (success : Bool) (xs ys : List WakeUpConfig) (top : WakeUpConfig)
      → next_wake_up v.current ∷ v.wake_up_queue ≡ xs ++ top ∷ ys
      → IsTop top (xs ++ top ∷ ys)
      → w ≡ record (snapshot v now dir success) { current = top; wake_up_queue = xs ++ ys }
      → Round v w

-- All intervals wake at once at the start, so that the one with the shortest period is served first.
unfoldable pub woken : ℕ → List IntervalConfig → List WakeUpConfig
woken now [] = []
woken now (c ∷ cs) = record { interval_config = c; wake_time = now } ∷ woken now cs

pub data Reach (now : ℕ) (intervals : List IntervalConfig) : Worker → Type 0 where
  here :
      (xs ys : List WakeUpConfig) (top : WakeUpConfig)
      → woken now intervals ≡ xs ++ top ∷ ys
      → IsTop top (xs ++ top ∷ ys)
      → Reach now intervals (record {
        current = top;
        wake_up_queue = xs ++ ys;
        snapshot_path_map = λ n. [];
        generated = [];
      })
  next : {v w : Worker} → Reach now intervals v → Round v w → Reach now intervals w
