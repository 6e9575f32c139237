-- ===== src/Recorder/Configuration.antt =====
-- RecorderConfig of src/msg_recorder/recorder_config.h and its ConfigDataParser of
-- recorder_config.cc, over a JSON value that is a parameter. A text that is logged is left out.
pub mod Schema
pub mod Reading
mod Tests
use Prim.Native.String.{String}
use text.Mathlib.Text.{◌==◌}
use cris_core.Prelude.{
  ℕ, ◌-◌, ◌^◌, Bool, true, false, not, Option, none, some, List, [], ◌∷◌, ◌++◌, ltb, if◌then◌else◌,
  ℤ, pos, negsuc,
}
use cris_core.Config.Json.{
  Got, success, no_such_field, failure, Simdjson, and_get, Result, parsed, fatal, ◌>>=◌, check,
  required, optional,
}

pub data Rolling : Type 0 where
  none_rolling day hour size : Rolling

pub record IntervalConfig : Type 0 where
  pub name : String
  pub period : ℤ
  pub max_num_of_copies : ℕ

pub record RecorderConfig : Type 0 where
  pub snapshot_intervals : List IntervalConfig
  pub record_dir : String
  pub hostname : String
  pub rolling : Rolling
  pub size_limit_mb : ℕ

abbrev pub default_max_num_of_copies : ℕ
default_max_num_of_copies = 48

-- std::chrono::seconds of an unsigned 64-bit number, whose count is signed.
unfoldable pub seconds : ℕ → ℤ
seconds n = if ltb n (2 ^ 63) then pos n else negsuc (2 ^ 64 - n - 1)

abbrev pub or_default {ℓ} : {A : Type ℓ} → Option A → A → A
or_default none d = d
or_default (some a) d = a

-- The map `rollings` of ParseRollingConfig.
unfoldable pub find_rolling : String → Option Rolling
find_rolling name =
    if name == "day"
    then some day
    else if name == "hour"
    then some hour
    else if name == "size"
    then some size
    else none

abbrev pub found {ℓ} : {A : Type ℓ} → Option A → Result A
found none = fatal
found (some a) = parsed a

-- An interval of its name, its period in seconds and its number of copies.
abbrev pub read_interval : Got String → Got ℕ → Got ℕ → Result IntervalConfig
read_interval name period copies = do
  name ← required name
  period_sec ← required period
  max_num_of_copies ← optional copies
  parsed (record {
    name = name;
    period = seconds period_sec;
    max_num_of_copies = or_default max_num_of_copies default_max_num_of_copies;
  })

module _ {Json : Type 0} (lib : Simdjson Json) where
  abbrev pub string_field : Json → String → Got String
  string_field obj key = and_get (lib.entry obj key) lib.get_string

  abbrev pub uint64_field : Json → String → Got ℕ
  uint64_field obj key = and_get (lib.entry obj key) lib.get_uint64

  abbrev pub array_field : Json → String → Got (List Json)
  array_field obj key = and_get (lib.entry obj key) lib.get_array

  abbrev pub parse_size : RecorderConfig → Json → Result RecorderConfig
  parse_size config obj = do
    size_limit_mb ← required (uint64_field obj "size_limit_mb")
    _ ← check (ltb 0 size_limit_mb)
    parsed (record config { rolling = size; size_limit_mb = size_limit_mb })

  abbrev pub set_rolling : RecorderConfig → Json → Rolling → Result RecorderConfig
  set_rolling config obj none_rolling = parsed (record config { rolling = none_rolling })
  set_rolling config obj day = parsed (record config { rolling = day })
  set_rolling config obj hour = parsed (record config { rolling = hour })
  set_rolling config obj size = parse_size config obj

  abbrev pub parse_rolling_name : RecorderConfig → Json → Option String → Result RecorderConfig
  parse_rolling_name config obj none = parsed config
  parse_rolling_name config obj (some name) = found (find_rolling name) >>= set_rolling config obj

  unfoldable pub parse_rolling_config : RecorderConfig → Json → Result RecorderConfig
  parse_rolling_config config obj =
      optional (string_field obj "rolling") >>= parse_rolling_name config obj

  -- One object of the list of intervals.
  unfoldable pub parse_interval : Json → Result IntervalConfig
  parse_interval item =
      read_interval (string_field item "name") (uint64_field item "period_sec")
        (uint64_field item "max_num_of_copies")

  unfoldable pub parse_intervals : RecorderConfig → List Json → Result RecorderConfig
  parse_intervals config [] = parsed config
  parse_intervals config (item ∷ items) = parse_interval item >>= λ interval.
      parse_intervals
        (record config { snapshot_intervals = config.snapshot_intervals ++ interval ∷ [] }) items

  abbrev pub parse_interval_list : RecorderConfig → Option (List Json) → Result RecorderConfig
  parse_interval_list config none = parsed config
  parse_interval_list config (some items) = parse_intervals config items

  unfoldable pub parse_hostname : RecorderConfig → Json → Result RecorderConfig
  parse_hostname config obj = do
    hostname ← required (string_field obj "hostname")
    _ ← check (not (hostname == ""))
    parsed (record config { hostname = hostname })

  -- ConfigDataParser
  unfoldable pub parse_config : RecorderConfig → Json → Result RecorderConfig
  parse_config config val = do
    _ ← check (lib.is_object val)
    record_dir ← optional (string_field val "record_dir")
    rolled ←
        parse_rolling_config
          (record config { record_dir = or_default record_dir config.record_dir }) val
    named ← parse_hostname rolled val
    intervals ← optional (array_field val "snapshot_intervals")
    parse_interval_list named intervals
