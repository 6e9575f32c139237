-- ===== src/Utils/Papi.antt =====
-- PAPIStat of src/utils/papi.h and papi.cc, built with the library PAPI, on one thread. The library
-- is a parameter: its state, and its calls with their return codes read as whether they are PAPI_OK.
-- An event set is `none` where it is PAPI_NULL.
pub mod Phases
mod Setup
pub mod Lifetime
mod Tests
use cris_core.Prelude.{
  ℕ, Bool, true, false, not, ◌&&◌, Option, none, some, List, [], ◌∷◌, ◌++◌, get_or, if◌then◌else◌,
}

pub record Papi (State : Type 0) : Type 0 where
  pub library_init : State → Bool × State
  pub multiplex_init : State → Bool × State
  pub thread_init : State → Bool × State
  pub create_eventset : State → Bool × Option ℕ × State
  pub assign_eventset_component : State → Option ℕ → Bool × State
  pub set_multiplex : State → Option ℕ → Bool × State
  pub add_events : State → Option ℕ → Bool × State
  pub start : State → Option ℕ → Bool × State
  pub stop : State → Option ℕ → List ℕ → Bool × List ℕ × State
  pub cleanup_eventset : State → Option ℕ → Bool × State
  pub destroy_eventset : State → Option ℕ → Bool × Option ℕ × State

-- `enabled` is shared by all objects. `printed` are the summaries that were logged.
pub record Stat (State : Type 0) : Type 0 where
  pub papi : State
  pub enabled : Bool
  pub event_set : Option ℕ
  pub values : List ℕ
  pub auto_print : Bool
  pub printed : List (Option (List ℕ))

-- `aborted` is a failed CHECK_EQ.
pub data Outcome (State : Type 0) : Type 0 where
  running : Stat State → Outcome State
  aborted : Outcome State

module _ {State : Type 0} (lib : Papi State) where
  abbrev pub and_then : Outcome State → (Stat State → Outcome State) → Outcome State
  and_then (running s) f = f s
  and_then aborted f = aborted

  abbrev pub disabled : Stat State → Stat State
  disabled s = record s { enabled = false }

  abbrev pub init_with : State → Bool × State → (State → Bool × State) → Bool × State
  init_with s (false, s') k = (false, s')
  init_with s (true, s') k = k s'

  -- The initializer of enabled_.
  unfoldable pub init_enabled : State → Bool × State
  init_enabled s = init_with s (lib.library_init s) (λ s1.
      init_with s1 (lib.multiplex_init s1)
        (λ s2. init_with s2 (lib.thread_init s2) (λ s3. (true, s3))))

  abbrev pub started : Stat State → Bool × State → Outcome State
  started s (true, papi) = running (record s { papi = papi })
  started s (false, papi) = aborted

  unfoldable pub start : Stat State → Outcome State
  start s = if s.enabled then started s (lib.start s.papi s.event_set) else running s

  -- A call on the event set whose failure disables the counters and returns.
  abbrev pub or_disable : Stat State → Bool × State → (Stat State → Outcome State) → Outcome State
  or_disable s (true, papi) k = k (record s { papi = papi })
  or_disable s (false, papi) k = running (disabled (record s { papi = papi }))

  abbrev pub created :
      Stat State → Bool × Option ℕ × State → (Stat State → Outcome State) → Outcome State
  created s (true, event_set, papi) k = k (record s { papi = papi; event_set = event_set })
  created s (false, event_set, papi) k =
      running (disabled (record s { papi = papi; event_set = event_set }))

  -- The calls that set up an event set, each with the ones after it.
  abbrev pub add_all : Stat State → Outcome State
  add_all s = or_disable s (lib.add_events s.papi s.event_set) start

  abbrev pub multiplex : Stat State → Outcome State
  multiplex s = or_disable s (lib.set_multiplex s.papi s.event_set) add_all

  abbrev pub assign : Stat State → Outcome State
  assign s = or_disable s (lib.assign_eventset_component s.papi s.event_set) multiplex

  -- The constructor.
  unfoldable pub construct : Stat State → Outcome State
  construct s = if s.enabled then created s (lib.create_eventset s.papi) assign else running s

  abbrev pub clean_up : Stat State → Option ℕ → Outcome State
  clean_up s none = running s
  clean_up s (some event_set) =
      or_disable s (lib.cleanup_eventset s.papi (some event_set)) (λ s'. running s')

  abbrev pub stopped : Stat State → Bool × List ℕ × State → Outcome State
  stopped s (true, values, papi) = clean_up (record s { papi = papi; values = values }) s.event_set
  stopped s (false, values, papi) = running (disabled (record s { papi = papi; values = values }))

  unfoldable pub stop : Stat State → Outcome State
  stop s =
      if s.enabled then stopped s (lib.stop s.papi s.event_set s.values) else clean_up s s.event_set

  unfoldable pub reset : Stat State → Outcome State
  reset s = and_then (stop s) start

  -- operator string: the seven counters, or that the counters are disabled.
  unfoldable pub to_string : Stat State → Option (List ℕ)
  to_string s =
      if s.enabled
      then some (
          get_or s.values 0 0
          ∷ get_or s.values 1 0
          ∷ get_or s.values 2 0
          ∷ get_or s.values 3 0
          ∷ get_or s.values 4 0
          ∷ get_or s.values 5 0
          ∷ get_or s.values 6 0
          ∷ [])
      else none

  abbrev pub auto_printed : Stat State → Outcome State
  auto_printed s =
      if s.auto_print
      then running (record s { printed = s.printed ++ to_string s ∷ [] })
      else running s

  abbrev pub destroyed : Stat State → Bool × Option ℕ × State → Outcome State
  destroyed s (true, event_set, papi) =
      auto_printed (record s { papi = papi; event_set = event_set })
  destroyed s (false, event_set, papi) =
      running (disabled (record s { papi = papi; event_set = event_set }))

  abbrev pub destroy_set : Stat State → Option ℕ → Outcome State
  destroy_set s none = auto_printed s
  destroy_set s (some event_set) = destroyed s (lib.destroy_eventset s.papi (some event_set))

  -- The destructor.
  unfoldable pub destroy : Stat State → Outcome State
  destroy s = and_then (stop s) (λ s'. destroy_set s' s'.event_set)

pub data Call : Type 0 where
  starts stops resets : Call

module _ {State : Type 0} (lib : Papi State) where
  unfoldable pub call : Stat State → Call → Outcome State
  call s starts = start lib s
  call s stops = stop lib s
  call s resets = reset lib s

  unfoldable pub run : Stat State → List Call → Outcome State
  run s [] = running s
  run s (c ∷ cs) = and_then lib (call s c) (λ s'. run s' cs)
