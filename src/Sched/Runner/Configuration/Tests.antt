-- ===== src/Sched/Runner/Configuration/Tests.antt =====
-- ConfigDataParser of src/sched/job_runner_config_parser.cc on small values.
use Prim.Native.String.{String}
use text.Mathlib.Text.{◌==◌ as ◌=str=◌}
use cris_core.Prelude.{ℕ, ◌≡◌, refl, Bool, true, false, not, [], ◌∷◌, ◌==◌, if◌then◌else◌}
use cris_core.Config.Json.{Got, success, no_such_field, failure, Simdjson, parsed, fatal, ◌>>=◌}
use cris_core.Sched.Runner.{add_jobs, new}
use cris_core.Sched.Runner.Configuration.{
  default_config, parse_config, is_added, parse_config-add_jobs,
}

-- An object with a number of threads, whose "active_ms" is not a number, and a number.
data Value : Type 0 where
  threads : ℕ → Value
  number : ℕ → Value
  word : Value

abbrev entry_of : Value → String → Got Value
entry_of (threads n) key =
    if key =str= "thread_num"
    then success (number n)
    else if key =str= "active_ms"
    then success word
    else no_such_field
entry_of (number n) key = failure
entry_of word key = failure

abbrev as_number : Value → Got ℕ
as_number (threads n) = failure
as_number (number n) = success n
as_number word = failure

abbrev is_threads : Value → Bool
is_threads (threads n) = true
is_threads (number n) = false
is_threads word = false

abbrev values : Simdjson Value
values = record {
  is_object = is_threads;
  entry = entry_of;
  get_string = λ v. failure;
  get_uint64 = as_number;
  get_int64 = λ v. failure;
  get_bool = λ v. failure;
  get_array = λ v. failure;
}

parsed_threads :
    (parse_config values default_config (threads 4)
      ≡ parsed (record { thread_num = 4; always_active_thread_num = 0; active_time = 0 }))
    × (parse_config values default_config (number 4) ≡ fatal)
unfolding parse_config
parsed_threads = (refl, refl)

parse_config-add_jobs_example :
    (parse_config values default_config (threads 4) >>= λ c.
    parsed (is_added {Job = ℕ} (add_jobs (new c) (7 ∷ []) 3 0)))
    ≡ (if true then parsed (not (4 == 0)) else fatal)
parse_config-add_jobs_example =
    parse_config-add_jobs values {Job = ℕ} default_config (threads 4) (7 ∷ []) 3 0
