-- ===== src/Recorder/Rolling/Schedule.antt =====
-- The times at which the helpers of src/msg_recorder/rolling_helper.cc roll.
use cris_core.Prelude.{ℕ, ◌+◌, ◌*◌, ◌/◌, ◌≡◌, leb, arith}
use cris_core.Recorder.Rolling.{
  Metadata, calc_next_rolling_time, by_day, by_hour, need_to_roll, update, reset,
}

-- A helper that rolls by day (by hour) and was reset at some time asks to roll from one minute after
-- the end of that day (hour) on, and not before; a message that is written changes nothing.
pub need_to_roll-reset :
    (time_to_roll now : ℕ) (before metadata : Metadata)
    → (need_to_roll (update (reset (by_day time_to_roll) now) before) metadata
        ≡ leb ((now / 1000000000 / 86400 + 1) * 86400 + 60) (metadata.time / 1000000000))
      × (need_to_roll (update (reset (by_hour time_to_roll) now) before) metadata
          ≡ leb ((now / 1000000000 / 3600 + 1) * 3600 + 60) (metadata.time / 1000000000))
unfolding need_to_roll update reset calc_next_rolling_time
need_to_roll-reset time_to_roll now before metadata = (ground arith, ground arith)
