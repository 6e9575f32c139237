-- ===== src/Utils/Papi/Phases.antt =====
-- The phases of an event set as PAPI documents them, and that an object of src/utils/papi.cc that is
-- disabled stays so.
use cris_core.Prelude.{
  ℕ, ◌≡◌, refl, sym, subst, Bool, true, false, not, Option, none, some, List, [], ◌∷◌,
  if◌then◌else◌,
}
use cris_core.Utils.Papi.{
  Papi, Stat, Outcome, running, aborted, start, stop, reset, or_disable, clean_up, started, stopped,
  and_then, Call, starts, stops, resets, call, run,
}

-- An event set without events, with events, and with its counters running.
pub data Phase : Type 0 where
  empty ready counting : Phase

abbrev pub is_ready : Phase → Bool
is_ready empty = false
is_ready ready = true
is_ready counting = false

abbrev pub is_counting : Phase → Bool
is_counting empty = false
is_counting ready = false
is_counting counting = true

-- PAPI_start wants a set with events that does not count, PAPI_stop one that counts, and
-- PAPI_cleanup_eventset, which takes the events out, one that does not.
pub record Documented {State : Type 0} (lib : Papi State) (phase : State → ℕ → Phase) : Type 0 where
  pub creates_set :
      (s : State)
      → (lib.create_eventset s).0 ≡ true
      → (e : ℕ) × ((lib.create_eventset s).1 ≡ some e)
  pub start_ok : (s : State) (e : ℕ) → (lib.start s (some e)).0 ≡ is_ready (phase s e)
  pub start_counts :
      (s : State) (e : ℕ)
      → (lib.start s (some e)).0 ≡ true
      → phase (lib.start s (some e)).1 e ≡ counting
  pub stop_ok :
      (s : State) (e : ℕ) (values : List ℕ)
      → (lib.stop s (some e) values).0 ≡ is_counting (phase s e)
  pub stop_ready :
      (s : State) (e : ℕ) (values : List ℕ)
      → (lib.stop s (some e) values).0 ≡ true
      → phase (lib.stop s (some e) values).2 e ≡ ready
  pub cleanup_ok :
      (s : State) (e : ℕ) → (lib.cleanup_eventset s (some e)).0 ≡ not (is_counting (phase s e))
  pub cleanup_empties :
      (s : State) (e : ℕ)
      → (lib.cleanup_eventset s (some e)).0 ≡ true
      → phase (lib.cleanup_eventset s (some e)).1 e ≡ empty

abbrev pub is_aborted : {State : Type 0} → Outcome State → Bool
is_aborted (running s) = false
is_aborted aborted = true

module _ {State : Type 0} (lib : Papi State) where
  -- A disabled object stays disabled, whatever PAPI returns.
  abbrev pub Disables : Outcome State → Type 0
  Disables (running s) = s.enabled ≡ false
  Disables aborted = ⊥

  pub cleaned-Disables :
      (s : Stat State) (r : Bool × State)
      → s.enabled ≡ false
      → Disables (or_disable lib s r (λ s'. running s'))
  cleaned-Disables s (true, papi) d = d
  cleaned-Disables s (false, papi) d = refl

  pub clean_up-Disables :
      (s : Stat State) (e : Option ℕ) → s.enabled ≡ false → Disables (clean_up lib s e)
  clean_up-Disables s none d = d
  clean_up-Disables s (some e) d = cleaned-Disables s (lib.cleanup_eventset s.papi (some e)) d

  pub start-Disables : (s : Stat State) → s.enabled ≡ false → Disables (start lib s)
  unfolding start
  start-Disables s d =
      subst
        (λ (b : Bool).
          Disables (if b then started lib s (lib.start s.papi s.event_set) else running s))
        (sym d) d

  pub stop-Disables : (s : Stat State) → s.enabled ≡ false → Disables (stop lib s)
  unfolding stop
  stop-Disables s d =
      subst
        (λ (b : Bool). Disables (
          if b
          then stopped lib s (lib.stop s.papi s.event_set s.values)
          else clean_up lib s s.event_set))
        (sym d) (clean_up-Disables s s.event_set d)

  pub and_then-Disables :
      (o : Outcome State) (f : Stat State → Outcome State)
      → Disables o
      → ((s : Stat State) → s.enabled ≡ false → Disables (f s))
      → Disables (and_then lib o f)
  and_then-Disables (running s) f h k = k s h
  and_then-Disables aborted f h k = elim h [ ]

  pub call-Disables : (s : Stat State) (c : Call) → s.enabled ≡ false → Disables (call lib s c)
  unfolding call reset
  call-Disables s starts d = start-Disables s d
  call-Disables s stops d = stop-Disables s d
  call-Disables s resets d =
      and_then-Disables (stop lib s) (start lib) (stop-Disables s d) start-Disables

  pub run-Disables : (s : Stat State) (cs : List Call) → s.enabled ≡ false → Disables (run lib s cs)
  unfolding run
  run-Disables s [] d = d
  run-Disables s (c ∷ cs) d =
      and_then-Disables (call lib s c) (λ s'. run lib s' cs) (call-Disables s c d)
        (λ s'. run-Disables s' cs)

  pub Disables-is_aborted : (o : Outcome State) → Disables o → is_aborted o ≡ false
  Disables-is_aborted (running s) h = refl
  Disables-is_aborted aborted h = elim h [ ]

  -- An enabled object with an event set in a phase.
  abbrev pub Holds : (State → ℕ → Phase) → Phase → Stat State → Type 0
  Holds phase p s = (s.enabled ≡ true) × ((e : ℕ) × (s.event_set ≡ some e) × (phase s.papi e ≡ p))
