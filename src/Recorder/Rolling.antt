-- ===== src/Recorder/Rolling.antt =====
-- src/msg_recorder/rolling_helper.h and rolling_helper.cc, RecordFile::Write of record_file.cc and
-- CreateRollingHelper of recorder.cc: when a record file starts a new database. A time is in
-- nanoseconds since 1970, a size is 64 bits wide.
pub mod Schedule
pub mod Sizes
use cris_core.Prelude.{
  ℕ, zero, suc, ◌+◌, ◌-◌, ◌*◌, ◌/◌, ◌%◌, Bool, true, false, not, ◌&&◌, Option, none, some, List, [],
  ◌∷◌, ◌++◌, ltb, leb, ◌==◌, if◌then◌else◌,
}

abbrev pub nsec_per_sec : ℕ
nsec_per_sec = 1000000000

abbrev pub seconds_per_day : ℕ
seconds_per_day = 86400

abbrev pub seconds_per_hour : ℕ
seconds_per_hour = 3600

pub record Metadata : Type 0 where
  pub time : ℕ
  pub value_size : ℕ

-- time_point::to_time_t and from_time_t count whole seconds.
unfoldable pub calc_next_rolling_time : ℕ → ℕ → ℕ → ℕ
calc_next_rolling_time now interval_len offset_seconds =
    let unix_time = now / nsec_per_sec in
    (unix_time - unix_time % interval_len + interval_len + offset_seconds) * nsec_per_sec

pub data RollingHelper : Type 0 where
  by_day : (time_to_roll : ℕ) → RollingHelper
  by_hour : (time_to_roll : ℕ) → RollingHelper
  by_size : (limit_bytesize current_bytesize : ℕ) → RollingHelper

-- The constructors, the first two of which read the clock.
unfoldable pub new_by_day : ℕ → RollingHelper
new_by_day now = by_day (calc_next_rolling_time now seconds_per_day 60)

unfoldable pub new_by_hour : ℕ → RollingHelper
new_by_hour now = by_hour (calc_next_rolling_time now seconds_per_hour 60)

unfoldable pub new_by_size : ℕ → RollingHelper
new_by_size size_limit_mb = by_size ((size_limit_mb * 1000000) % 18446744073709551616) 0

unfoldable pub need_to_roll : RollingHelper → Metadata → Bool
need_to_roll (by_day time_to_roll) metadata = leb time_to_roll metadata.time
need_to_roll (by_hour time_to_roll) metadata = leb time_to_roll metadata.time
need_to_roll (by_size limit_bytesize current_bytesize) metadata =
    if leb limit_bytesize metadata.value_size
    then true
    else leb (limit_bytesize - metadata.value_size) current_bytesize

unfoldable pub update : RollingHelper → Metadata → RollingHelper
update (by_day time_to_roll) metadata = by_day time_to_roll
update (by_hour time_to_roll) metadata = by_hour time_to_roll
update (by_size limit_bytesize current_bytesize) metadata =
    by_size limit_bytesize ((current_bytesize + metadata.value_size) % 18446744073709551616)

unfoldable pub reset : RollingHelper → ℕ → RollingHelper
reset (by_day time_to_roll) now = by_day (calc_next_rolling_time now seconds_per_day 60)
reset (by_hour time_to_roll) now = by_hour (calc_next_rolling_time now seconds_per_hour 60)
reset (by_size limit_bytesize current_bytesize) now = by_size limit_bytesize 0

-- RecorderConfig::Rolling, with one more for any other value of the enumeration.
pub data Rolling : Type 0 where
  none_rolling : Rolling
  day : Rolling
  hour : Rolling
  size : Rolling
  unknown : Rolling

-- A helper or none, or a std::logic_error.
pub data Created : Type 0 where
  created : Option RollingHelper → Created
  throws : Created

unfoldable pub create_rolling_helper : Rolling → ℕ → Created
create_rolling_helper none_rolling now = created none
create_rolling_helper day now = created (some (new_by_day now))
create_rolling_helper hour now = created (some (new_by_hour now))
create_rolling_helper size now = throws
create_rolling_helper unknown now = throws

-- A record file by the sizes of what was put into its databases: those that are closed, and the
-- one that is open.
pub record Databases : Type 0 where
  pub rolling_helper : Option RollingHelper
  pub closed : List (List ℕ)
  pub current : List ℕ

-- Roll: `opens` is whether the new database could be opened, `now` the clock read by Reset.
unfoldable pub roll : Databases → RollingHelper → Bool → ℕ → Databases × Bool
roll f helper false now = (f, false)
roll f helper true now = (
  record {
    rolling_helper = some (reset helper now);
    closed = f.closed ++ f.current ∷ [];
    current = [];
  },
  true,
)

abbrev pub roll_if_needed : Databases → Option RollingHelper → Metadata → Bool → ℕ → Databases
roll_if_needed f none metadata opens now = f
roll_if_needed f (some helper) metadata opens now =
    if need_to_roll helper metadata then (roll f helper opens now).0 else f

abbrev pub updated : Option RollingHelper → Metadata → Option RollingHelper
updated none metadata = none
updated (some helper) metadata = some (update helper metadata)

unfoldable pub put : Databases → Metadata → Bool → Databases
put f metadata false = f
put f metadata true = record {
  rolling_helper = updated f.rolling_helper metadata;
  closed = f.closed;
  current = f.current ++ metadata.value_size ∷ [];
}

-- RecordFile::Write: `puts` is whether the database takes the value.
unfoldable pub write : Databases → Metadata → Bool → ℕ → Bool → Databases
write f metadata opens now puts =
    put (roll_if_needed f f.rolling_helper metadata opens now) metadata puts
