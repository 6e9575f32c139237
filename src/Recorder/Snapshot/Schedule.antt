-- ===== src/Recorder/Snapshot/Schedule.antt =====
-- The order in which src/msg_recorder/recorder.cc serves the intervals.
use cris_core.Prelude.{ℕ, ◌≤◌, ◌≡◌, subst, false, List, [], ◌∷◌, ◌++◌, arith}
use cris_core.Recorder.Snapshot.{
  IntervalConfig, WakeUpConfig, compare_wake_up, next_wake_up, Worker, IsTop, Round, round, Reach,
  here, next,
}

-- No wake-up comes before a time.
unfoldable pub AllFrom : ℕ → List WakeUpConfig → Type 0
AllFrom t [] = Unit
AllFrom t (x ∷ xs) = (t ≤ x.wake_time) × AllFrom t xs

not_before : (c x : WakeUpConfig) → compare_wake_up c x ≡ false → c.wake_time ≤ x.wake_time
unfolding compare_wake_up
not_before c x e = ground arith

IsTop-AllFrom : (c : WakeUpConfig) (xs : List WakeUpConfig) → IsTop c xs → AllFrom c.wake_time xs
unfolding IsTop AllFrom
IsTop-AllFrom c [] h = tt
IsTop-AllFrom c (x ∷ xs) h = (not_before c x h.0, IsTop-AllFrom c xs h.1)

AllFrom-remove :
    (t : ℕ) (xs ys : List WakeUpConfig) (c : WakeUpConfig)
    → AllFrom t (xs ++ c ∷ ys)
    → (t ≤ c.wake_time) × AllFrom t (xs ++ ys)
unfolding AllFrom
AllFrom-remove t [] ys c h = (h.0, h.1)
AllFrom-remove t (x ∷ xs) ys c h =
    let rest = AllFrom-remove t xs ys c h.1 in (rest.0, (h.0, rest.1))

Reach-AllFrom :
    {now : ℕ} {intervals : List IntervalConfig} (w : Worker)
    → Reach now intervals w
    → AllFrom w.current.wake_time w.wake_up_queue
Reach-AllFrom w (here xs ys top e f) =
    (AllFrom-remove top.wake_time xs ys top (IsTop-AllFrom top (xs ++ top ∷ ys) f)).1
Reach-AllFrom w (next {v} r (round t dir success xs ys top e f g)) =
    rw g (AllFrom-remove top.wake_time xs ys top (IsTop-AllFrom top (xs ++ top ∷ ys) f)).1

-- The worker serves the wake-ups in the order of their times: a round never ends with one that is
-- earlier than the one that it began with, and none that waits in the queue is earlier than the one
-- that is served.
pub Round-wake_time :
    {now : ℕ} {intervals : List IntervalConfig} (v w : Worker)
    → Reach now intervals v
    → Round v w
    → (v.current.wake_time ≤ w.current.wake_time) × AllFrom w.current.wake_time w.wake_up_queue
unfolding AllFrom
Round-wake_time v w r (round t dir success xs ys top e f g) =
    let waiting : AllFrom v.current.wake_time (next_wake_up v.current ∷ v.wake_up_queue) =
      (omega arith, Reach-AllFrom v r) in
    let moved : AllFrom v.current.wake_time (xs ++ top ∷ ys) =
      subst (λ (l : List WakeUpConfig). AllFrom v.current.wake_time l) e waiting in
    let left = AllFrom-remove v.current.wake_time xs ys top moved in
    let later = Reach-AllFrom w (next r (round t dir success xs ys top e f g)) in
    (rw g left.0, later)
