-- ===== src/Sched/Runner/Configuration.antt =====
-- ConfigDataParser of src/sched/job_runner_config_parser.cc for JobRunner::Config, over a JSON value
-- that is a parameter. active_time is in nanoseconds.
mod Tests
use Prim.Native.String.{String}
use cris_core.Prelude.{
  ℕ, ◌==◌, sym, arith, ◌*◌, ◌%◌, ◌^◌, ◌≡◌, refl, ap, ◌∙◌, Bool, true, false, not, Option, none,
  some, List, [], ◌∷◌, if◌then◌else◌, length, replicate, length-replicate, Bool-cases, inl, inr,
}
use cris_core.Config.Json.{
  Got, success, no_such_field, failure, Simdjson, and_get, Result, parsed, fatal, ◌>>=◌, check,
  lenient, is_parsed,
}
use cris_core.Sched.Runner.{Config, Runner, Added, new, add_jobs}
use cris_core.Sched.Runner.Scheduling.{IsReady, new-IsReady, add_jobs_lem}

-- JobRunner::Config() with its member initializers.
abbrev pub default_config : Config
default_config = record { thread_num = 1; always_active_thread_num = 0; active_time = 0 }

-- std::chrono::milliseconds to nanoseconds, modulo the 64 bits of the count.
abbrev pub milliseconds : ℕ → ℕ
milliseconds n = n * 1000000 % 2 ^ 64

abbrev pub milliseconds_or : Got ℕ → ℕ → ℕ
milliseconds_or (success n) d = milliseconds n
milliseconds_or no_such_field d = d
milliseconds_or failure d = d

abbrev pub is_added : {Job : Type 0} → Option (Added Job) → Bool
is_added none = false
is_added (some out) = out.result

module _ {Job : Type 0} where
  add_jobs-none :
      (r : Runner Job) (jobs : List Job) (hint drawn : ℕ)
      → (r.thread_num == 0) ≡ true
      → is_added (add_jobs r jobs hint drawn) ≡ false
  unfolding add_jobs
  add_jobs-none r jobs hint drawn e = rw (e, add_jobs) refl

  add_jobs-new :
      (c : Config) (jobs : List Job) (hint drawn : ℕ)
      → is_added (add_jobs (new c) jobs hint drawn) ≡ not (c.thread_num == 0)
  unfolding new
  add_jobs-new c jobs hint drawn = elim (Bool-cases (c.thread_num == 0)) [
    | inl e ↦ add_jobs-none (new c) jobs hint drawn e ∙ sym (ap not e)
    | inr e ↦
        let added = add_jobs_lem (new c) jobs hint drawn (new-IsReady c (ground arith)) refl in
        ap is_added added.1 ∙ added.2 ∙ sym (ap not e)
  ]

module _ {Json : Type 0} (lib : Simdjson Json) where
  abbrev pub field : Json → String → Got ℕ
  field obj key = and_get (lib.entry obj key) lib.get_uint64

  -- The configuration before the call is overwritten.
  unfoldable pub parse_config : Config → Json → Result Config
  parse_config config val = check (lib.is_object val) >>= λ _. parsed (record {
    thread_num = lenient (field val "thread_num") default_config.thread_num;
    always_active_thread_num =
        lenient (field val "always_active") default_config.always_active_thread_num;
    active_time = milliseconds_or (field val "active_ms") default_config.active_time;
  })

  abbrev pub config_of : Json → Config
  config_of val = record {
    thread_num = lenient (field val "thread_num") 1;
    always_active_thread_num = lenient (field val "always_active") 0;
    active_time = milliseconds_or (field val "active_ms") 0;
  }

  parse_config-if :
      (config : Config) (val : Json)
      → parse_config config val ≡ (if lib.is_object val then parsed (config_of val) else fatal)
  unfolding parse_config
  parse_config-if config val = elim (Bool-cases (lib.is_object val)) [
    | inl e ↦ rw e refl
    | inr e ↦ rw e refl
  ]

  -- From the value to the runner: the parser ends the program for what is no object, and for every
  -- object a runner that is made with what it gives takes jobs with success, with any hint, unless the
  -- object has "thread_num": 0, where the modulo by zero of AddJobs is undefined; a number of threads
  -- that is missing or of another type is one.
  pub parse_config-add_jobs :
      {Job : Type 0} (config : Config) (val : Json) (jobs : List Job) (hint drawn : ℕ)
      → (parse_config config val >>= λ c. parsed (is_added (add_jobs (new c) jobs hint drawn))) ≡ (
          if lib.is_object val
          then parsed (not (lenient (field val "thread_num") 1 == 0))
          else fatal)
  parse_config-add_jobs config val jobs hint drawn =
      ap (λ (r : Result Config). r >>= λ c. parsed (is_added (add_jobs (new c) jobs hint drawn)))
        (parse_config-if config val)
      ∙ elim (Bool-cases (lib.is_object val)) [
        | inl e ↦ rw e (ap parsed (add_jobs-new (config_of val) jobs hint drawn))
        | inr e ↦ rw e refl
      ]
