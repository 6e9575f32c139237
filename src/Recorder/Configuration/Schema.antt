-- ===== src/Recorder/Configuration/Schema.antt =====
-- Which JSON values ConfigDataParser of src/msg_recorder/recorder_config.cc accepts for a recorder,
-- and what it reads from them, field by field.
use Prim.Native.String.{String}
use text.Mathlib.Text.{◌==◌}
use cris_core.Prelude.{
  ℕ, Bool, true, false, not, ◌&&◌, Option, none, some, List, [], ◌∷◌, ◌++◌, map, ltb,
}
use cris_core.Config.Json.{Got, success, no_such_field, failure, Simdjson, lenient}
use cris_core.Recorder.Configuration.{
  Rolling, none_rolling, day, hour, size, IntervalConfig, RecorderConfig, seconds, or_default,
  find_rolling, string_field, uint64_field, array_field,
}

abbrev pub is_there {ℓ} : {A : Type ℓ} → Got A → Bool
is_there (success a) = true
is_there no_such_field = false
is_there failure = false

abbrev pub is_there_or_missing {ℓ} : {A : Type ℓ} → Got A → Bool
is_there_or_missing (success a) = true
is_there_or_missing no_such_field = true
is_there_or_missing failure = false

abbrev pub positive : Got ℕ → Bool
positive (success n) = ltb 0 n
positive no_such_field = false
positive failure = false

-- A name of a way of rolling is known; rolling by size also needs a positive limit.
abbrev pub rolling_fits : Option Rolling → Got ℕ → Bool
rolling_fits none limit = false
rolling_fits (some size) limit = positive limit
rolling_fits (some day) limit = true
rolling_fits (some hour) limit = true
rolling_fits (some none_rolling) limit = true

abbrev pub named_rolling : Got String → Got ℕ → Bool
named_rolling (success name) limit = rolling_fits (find_rolling name) limit
named_rolling no_such_field limit = true
named_rolling failure limit = false

abbrev pub named : Got String → Bool
named (success name) = not (name == "")
named no_such_field = false
named failure = false

abbrev pub rolling_of : Got String → Rolling → Rolling
rolling_of (success name) rolling = or_default (find_rolling name) rolling
rolling_of no_such_field rolling = rolling
rolling_of failure rolling = rolling

abbrev pub size_for : Option Rolling → Got ℕ → ℕ → ℕ
size_for (some size) limit size_limit_mb = lenient limit size_limit_mb
size_for (some day) limit size_limit_mb = size_limit_mb
size_for (some hour) limit size_limit_mb = size_limit_mb
size_for (some none_rolling) limit size_limit_mb = size_limit_mb
size_for none limit size_limit_mb = size_limit_mb

abbrev pub size_of : Got String → Got ℕ → ℕ → ℕ
size_of (success name) limit size_limit_mb = size_for (find_rolling name) limit size_limit_mb
size_of no_such_field limit size_limit_mb = size_limit_mb
size_of failure limit size_limit_mb = size_limit_mb

module _ {Json : Type 0} (lib : Simdjson Json) where
  abbrev pub limit_field : Json → Got ℕ
  limit_field val = uint64_field lib val "size_limit_mb"

  abbrev pub interval_fits : Json → Bool
  interval_fits item =
      is_there (string_field lib item "name")
      && is_there (uint64_field lib item "period_sec")
      && is_there_or_missing (uint64_field lib item "max_num_of_copies")

  abbrev pub all_fit : List Json → Bool
  all_fit [] = true
  all_fit (item ∷ items) = interval_fits item && all_fit items

  abbrev pub list_fits : Got (List Json) → Bool
  list_fits (success items) = all_fit items
  list_fits no_such_field = true
  list_fits failure = false

  -- The values that are accepted.
  abbrev pub fits_schema : Json → Bool
  fits_schema val =
      lib.is_object val
      && (is_there_or_missing (string_field lib val "record_dir")
          && (named_rolling (string_field lib val "rolling") (limit_field val)
              && (named (string_field lib val "hostname")
                  && list_fits (array_field lib val "snapshot_intervals"))))

  abbrev pub interval_of : Json → IntervalConfig
  interval_of item = record {
    name = lenient (string_field lib item "name") "";
    period = seconds (lenient (uint64_field lib item "period_sec") 0);
    max_num_of_copies = lenient (uint64_field lib item "max_num_of_copies") 48;
  }

  -- What an accepted value is read as, on top of a configuration.
  abbrev pub config_of : RecorderConfig → Json → RecorderConfig
  config_of config val = record {
    snapshot_intervals =
        config.snapshot_intervals
        ++ map interval_of (lenient (array_field lib val "snapshot_intervals") []);
    record_dir = lenient (string_field lib val "record_dir") config.record_dir;
    hostname = lenient (string_field lib val "hostname") "";
    rolling = rolling_of (string_field lib val "rolling") config.rolling;
    size_limit_mb = size_of (string_field lib val "rolling") (limit_field val) config.size_limit_mb;
  }
