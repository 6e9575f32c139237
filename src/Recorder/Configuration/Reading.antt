-- ===== src/Recorder/Configuration/Reading.antt =====
-- That ConfigDataParser of src/msg_recorder/recorder_config.cc, which goes from field to field, reads
-- what the schema says.
use Prim.Native.String.{String}
use text.Mathlib.Text.{◌==◌}
use cris_core.Prelude.{
  ℕ, ◌≡◌, refl, ap, sym, ◌∙◌, Bool, true, false, not, ◌&&◌, Option, none, some, List, [], ◌∷◌, ◌++◌,
  map, append_assoc, append-nil, ltb, if◌then◌else◌,
}
use cris_core.Config.Json.{
  Got, success, no_such_field, failure, Simdjson, Result, parsed, fatal, ◌>>=◌, check, required,
  optional, lenient,
}
use cris_core.Recorder.Configuration.{
  Rolling, none_rolling, day, hour, size, IntervalConfig, RecorderConfig, seconds, or_default,
  find_rolling, found, string_field, uint64_field, array_field, set_rolling, read_interval,
  parse_rolling_config, parse_rolling_name, parse_interval, parse_intervals, parse_interval_list,
  parse_hostname, parse_config,
}
use cris_core.Recorder.Configuration.Schema.{
  is_there, is_there_or_missing, positive, rolling_fits, named_rolling, named, rolling_of, size_for,
  size_of, limit_field, interval_fits, all_fit, list_fits, fits_schema, interval_of, config_of,
}

-- A chain of tests that ends the program at the first that fails.
if_fatal_and {ℓ} :
    {A : Type ℓ} (a b : Bool) (x : Result A)
    → (if a then (if b then x else fatal) else fatal) ≡ (if a && b then x else fatal)
if_fatal_and true b x = refl
if_fatal_and false b x = refl

>>=-if {ℓ κ} :
    {A : Type ℓ} {B : Type κ} (a : Bool) (x : A) (f : A → Result B)
    → ((if a then parsed x else fatal) >>= f) ≡ (if a then f x else fatal)
>>=-if true x f = refl
>>=-if false x f = refl

check-if {ℓ} :
    {B : Type ℓ} (a : Bool) (r : Result B) → (check a >>= λ _. r) ≡ (if a then r else fatal)
check-if true r = refl
check-if false r = refl

optional-if {ℓ κ} :
    {A : Type ℓ} {B : Type κ} (g : Got A) (d : A) (f : A → Result B)
    → (optional g >>= λ o. f (or_default o d))
      ≡ (if is_there_or_missing g then f (lenient g d) else fatal)
optional-if (success a) d f = refl
optional-if no_such_field d f = refl
optional-if failure d f = refl

size-if :
    (config : RecorderConfig) (limit : Got ℕ)
    → (do
      size_limit_mb ← required limit
      _ ← check (ltb 0 size_limit_mb)
      parsed (record config { rolling = size; size_limit_mb = size_limit_mb }))
      ≡ (if positive limit
          then parsed
              (record config { rolling = size; size_limit_mb = lenient limit config.size_limit_mb })
          else fatal)
size-if config (success n) =
    check-if (ltb 0 n) (parsed (record config { rolling = size; size_limit_mb = n }))
size-if config no_such_field = refl
size-if config failure = refl

module _ {Json : Type 0} (lib : Simdjson Json) where
  found-if :
      (config : RecorderConfig) (val : Json) (r : Option Rolling)
      → (found r >>= set_rolling lib config val) ≡ (
          if rolling_fits r (limit_field lib val)
          then parsed (record config {
            rolling = or_default r config.rolling;
            size_limit_mb = size_for r (limit_field lib val) config.size_limit_mb;
          })
          else fatal)
  found-if config val none = refl
  found-if config val (some none_rolling) = refl
  found-if config val (some day) = refl
  found-if config val (some hour) = refl
  found-if config val (some size) = size-if config (limit_field lib val)

  rolling-if :
      (config : RecorderConfig) (val : Json) (g : Got String)
      → (optional g >>= parse_rolling_name lib config val) ≡ (
          if named_rolling g (limit_field lib val)
          then parsed (record config {
            rolling = rolling_of g config.rolling;
            size_limit_mb = size_of g (limit_field lib val) config.size_limit_mb;
          })
          else fatal)
  rolling-if config val (success name) = found-if config val (find_rolling name)
  rolling-if config val no_such_field = refl
  rolling-if config val failure = refl

  interval_got-if :
      (name : Got String) (period copies : Got ℕ)
      → read_interval name period copies ≡ (
          if is_there name && is_there period && is_there_or_missing copies
          then parsed (record {
            name = lenient name "";
            period = seconds (lenient period 0);
            max_num_of_copies = lenient copies 48;
          })
          else fatal)
  interval_got-if (success n) (success p) (success c) = refl
  interval_got-if (success n) (success p) no_such_field = refl
  interval_got-if (success n) (success p) failure = refl
  interval_got-if (success n) no_such_field c = refl
  interval_got-if (success n) failure c = refl
  interval_got-if no_such_field p c = refl
  interval_got-if failure p c = refl

  parse_interval-if :
      (item : Json)
      → parse_interval lib item
        ≡ (if interval_fits lib item then parsed (interval_of lib item) else fatal)
  unfolding parse_interval
  parse_interval-if item =
      interval_got-if (string_field lib item "name") (uint64_field lib item "period_sec")
        (uint64_field lib item "max_num_of_copies")

  with_intervals : RecorderConfig → List IntervalConfig → RecorderConfig
  with_intervals config more = record config {
    snapshot_intervals = config.snapshot_intervals ++ more;
  }

  parse_intervals-if :
      (config : RecorderConfig) (items : List Json)
      → parse_intervals lib config items ≡ (
          if all_fit lib items
          then parsed (with_intervals config (map (interval_of lib) items))
          else fatal)
  unfolding parse_intervals with_intervals
  parse_intervals-if config [] =
      ap (λ (l : List IntervalConfig). parsed (record config { snapshot_intervals = l }))
        (sym (append-nil config.snapshot_intervals))
  parse_intervals-if config (item ∷ items) =
      let more = record config {
        snapshot_intervals = config.snapshot_intervals ++ interval_of lib item ∷ [];
      } in
      ap
        (λ (r : Result IntervalConfig). r >>= λ interval.
          parse_intervals lib
            (record config { snapshot_intervals = config.snapshot_intervals ++ interval ∷ [] })
            items)
        (parse_interval-if item)
      ∙ >>=-if (interval_fits lib item) (interval_of lib item) (λ interval.
        parse_intervals lib
          (record config { snapshot_intervals = config.snapshot_intervals ++ interval ∷ [] }) items)
      ∙ ap (λ (r : Result RecorderConfig). if interval_fits lib item then r else fatal)
          (parse_intervals-if more items)
      ∙ if_fatal_and (interval_fits lib item) (all_fit lib items) _
      ∙ ap
          (λ (l : List IntervalConfig).
            if interval_fits lib item && all_fit lib items
            then parsed (record config { snapshot_intervals = l })
            else fatal)
          (append_assoc config.snapshot_intervals (interval_of lib item ∷ [])
            (map (interval_of lib) items))

  list-if :
      (config : RecorderConfig) (g : Got (List Json))
      → (optional g >>= parse_interval_list lib config) ≡ (
          if list_fits lib g
          then parsed (with_intervals config (map (interval_of lib) (lenient g [])))
          else fatal)
  unfolding with_intervals parse_intervals
  list-if config (success items) = parse_intervals-if config items
  list-if config no_such_field = parse_intervals-if config []
  list-if config failure = refl

  hostname-if :
      (config : RecorderConfig) (g : Got String)
      → (do
        hostname ← required g
        _ ← check (not (hostname == ""))
        parsed (record config { hostname = hostname }))
        ≡ (if named g then parsed (record config { hostname = lenient g "" }) else fatal)
  hostname-if config (success name) =
      check-if (not (name == "")) (parsed (record config { hostname = name }))
  hostname-if config no_such_field = refl
  hostname-if config failure = refl

  -- The rest of the parser after a stage that ends with a configuration.
  stage :
      (a b : Bool) (x y : RecorderConfig) (r : Result RecorderConfig)
      (f : RecorderConfig → Result RecorderConfig)
      → r ≡ (if a then parsed x else fatal)
      → f x ≡ (if b then parsed y else fatal)
      → (r >>= f) ≡ (if a && b then parsed y else fatal)
  stage a b x y r f h k =
      ap (λ (r : Result RecorderConfig). r >>= f) h
      ∙ >>=-if a x f
      ∙ ap (λ (r : Result RecorderConfig). if a then r else fatal) k
      ∙ if_fatal_and a b (parsed y)

  hostname_stage :
      (config : RecorderConfig) (val : Json)
      → (do
        named ← parse_hostname lib config val
        intervals ← optional (array_field lib val "snapshot_intervals")
        parse_interval_list lib named intervals)
        ≡ (if named (string_field lib val "hostname")
              && list_fits lib (array_field lib val "snapshot_intervals")
            then parsed (
                with_intervals
                  (record config { hostname = lenient (string_field lib val "hostname") "" })
                  (map (interval_of lib) (lenient (array_field lib val "snapshot_intervals") [])))
            else fatal)
  unfolding parse_hostname
  hostname_stage config val =
      stage _ _ _ _ _ _ (hostname-if config (string_field lib val "hostname")) (list-if _ _)

  rolling_stage :
      (config : RecorderConfig) (val : Json)
      → (do
        rolled ← parse_rolling_config lib config val
        named ← parse_hostname lib rolled val
        intervals ← optional (array_field lib val "snapshot_intervals")
        parse_interval_list lib named intervals)
        ≡ (if named_rolling (string_field lib val "rolling") (limit_field lib val)
              && (named (string_field lib val "hostname")
                  && list_fits lib (array_field lib val "snapshot_intervals"))
            then parsed (record (config_of lib config val) { record_dir = config.record_dir })
            else fatal)
  unfolding parse_rolling_config with_intervals
  rolling_stage config val =
      stage _ _ _ _ _ _ (rolling-if config val (string_field lib val "rolling"))
        (hostname_stage _ val)

  -- The parser ends the program unless the value fits the schema: an object, whose fields have the
  -- types that they should have where they are there, with a host name that is not empty, a known way
  -- of rolling, a positive limit where it is by size, and for every interval a name and a period. Then
  -- it reads each field, with the value in the configuration or the default where the field is missing.
  pub parse_config-fits_schema :
      (config : RecorderConfig) (val : Json)
      → parse_config lib config val
        ≡ (if fits_schema lib val then parsed (config_of lib config val) else fatal)
  unfolding parse_config
  parse_config-fits_schema config val =
      let dir = string_field lib val "record_dir" in
      let rest = λ (record_dir : String). (do
        rolled ← parse_rolling_config lib (record config { record_dir = record_dir }) val
        named ← parse_hostname lib rolled val
        intervals ← optional (array_field lib val "snapshot_intervals")
        parse_interval_list lib named intervals) in
      check-if (lib.is_object val) (optional dir >>= λ o. rest (or_default o config.record_dir))
      ∙ ap (λ (r : Result RecorderConfig). if lib.is_object val then r else fatal)
          (optional-if dir config.record_dir rest
            ∙ ap (λ (r : Result RecorderConfig). if is_there_or_missing dir then r else fatal)
                (rolling_stage (record config { record_dir = lenient dir config.record_dir }) val)
            ∙ if_fatal_and (is_there_or_missing dir) _ _)
      ∙ if_fatal_and (lib.is_object val) _ _
