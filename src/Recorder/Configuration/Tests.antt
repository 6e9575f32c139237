-- ===== src/Recorder/Configuration/Tests.antt =====
-- ConfigDataParser of src/msg_recorder/recorder_config.cc on small values.
use Prim.Native.String.{String}
use text.Mathlib.Text.{◌==◌}
use cris_core.Prelude.{ℕ, ◌≡◌, refl, Bool, true, false, List, [], ◌∷◌, if◌then◌else◌, pos, negsuc}
use cris_core.Config.Json.{Got, success, no_such_field, failure, Simdjson, parsed, fatal}
use cris_core.Recorder.Configuration.{
  none_rolling, day, RecorderConfig, seconds, find_rolling, parse_rolling_config, parse_interval,
  parse_intervals, parse_hostname, parse_config,
}
use cris_core.Recorder.Configuration.Schema.{fits_schema, config_of}
use cris_core.Recorder.Configuration.Reading.{parse_config-fits_schema}

-- A text, a number, a list of intervals of sixty seconds, and the object of a recorder with its way
-- of rolling.
data Value : Type 0 where
  phrase : String → Value
  number : ℕ → Value
  intervals : List String → Value
  minutely : String → Value
  recorder : String → Value

abbrev listed : List String → List Value
listed [] = []
listed (name ∷ names) = minutely name ∷ listed names

abbrev field_of : Value → String → Got Value
field_of (phrase t) key = failure
field_of (number n) key = failure
field_of (intervals names) key = failure
field_of (minutely name) key =
    if key == "name"
    then success (phrase name)
    else if key == "period_sec"
    then success (number 60)
    else no_such_field
field_of (recorder rolling) key =
    if key == "hostname"
    then success (phrase "robot")
    else if key == "rolling"
    then success (phrase rolling)
    else if key == "snapshot_intervals"
    then success (intervals ("fast" ∷ []))
    else no_such_field

abbrev as_text : Value → Got String
as_text (phrase t) = success t
as_text (number n) = failure
as_text (intervals names) = failure
as_text (minutely name) = failure
as_text (recorder rolling) = failure

abbrev as_number : Value → Got ℕ
as_number (number n) = success n
as_number (phrase t) = failure
as_number (intervals names) = failure
as_number (minutely name) = failure
as_number (recorder rolling) = failure

abbrev as_list : Value → Got (List Value)
as_list (intervals names) = success (listed names)
as_list (number n) = failure
as_list (phrase t) = failure
as_list (minutely name) = failure
as_list (recorder rolling) = failure

abbrev is_recorder : Value → Bool
is_recorder (recorder rolling) = true
is_recorder (intervals names) = false
is_recorder (number n) = false
is_recorder (phrase t) = false
is_recorder (minutely name) = true

abbrev values : Simdjson Value
values = record {
  is_object = is_recorder;
  entry = field_of;
  get_string = as_text;
  get_uint64 = as_number;
  get_int64 = λ v. failure;
  get_bool = λ v. failure;
  get_array = as_list;
}

abbrev unset : RecorderConfig
unset = record {
  snapshot_intervals = [];
  record_dir = "";
  hostname = "";
  rolling = none_rolling;
  size_limit_mb = 18446744073709551615;
}

parsed_config :
    parse_config values unset (recorder "day")
    ≡ parsed (record unset {
      snapshot_intervals = record { name = "fast"; period = pos 60; max_num_of_copies = 48 } ∷ [];
      hostname = "robot";
      rolling = day;
    })
unfolding parse_config parse_rolling_config find_rolling parse_hostname parse_intervals
    parse_interval seconds
parsed_config = refl

-- Rolling by size wants a limit, and an unknown way of rolling ends the program.
fatal_configs :
    (parse_config values unset (recorder "size") ≡ fatal)
    × (parse_config values unset (recorder "week") ≡ fatal)
    × (parse_config values unset (number 3) ≡ fatal)
unfolding parse_config parse_rolling_config find_rolling
fatal_configs = (refl, refl, refl)

-- A period of 2 ^ 63 seconds or more becomes a negative one.
negative_period : seconds 18446744073709551615 ≡ negsuc 0
unfolding seconds
negative_period = refl

parse_config-fits_schema_example : parse_config values unset (recorder "hour") ≡ (
    if fits_schema values (recorder "hour")
    then parsed (config_of values unset (recorder "hour"))
    else fatal)
parse_config-fits_schema_example = parse_config-fits_schema values unset (recorder "hour")
