-- ===== src/Utils/Papi/Tests.antt =====
-- PAPIStat of src/utils/papi.cc on a small PAPI that treats one event set as documented.
use cris_core.Prelude.{
  ℕ, ◌≡◌, refl, Bool, true, false, not, none, some, List, [], ◌∷◌, if◌then◌else◌,
}
use cris_core.Utils.Papi.{
  Papi, Stat, running, aborted, construct, start, stop, reset, starts, stops, call, run, destroy,
  to_string, init_enabled,
}
use cris_core.Utils.Papi.Phases.{
  Phase, empty, ready, counting, is_ready, is_counting, Documented, is_aborted,
}
use cris_core.Utils.Papi.Lifetime.{survives, construct-survives}

abbrev start_set : Phase → Bool × Phase
start_set p = if is_ready p then (true, counting) else (false, p)

abbrev stop_set : Phase → List ℕ → Bool × List ℕ × Phase
stop_set p values =
    if is_counting p then (true, 1 ∷ 2 ∷ 3 ∷ 4 ∷ 5 ∷ 6 ∷ 7 ∷ [], ready) else (false, values, p)

abbrev cleanup_set : Phase → Bool × Phase
cleanup_set p = if is_counting p then (false, p) else (true, empty)

abbrev one_set : Papi Phase
one_set = record {
  library_init = λ p. (true, p);
  multiplex_init = λ p. (true, p);
  thread_init = λ p. (true, p);
  create_eventset = λ p. (true, some 0, empty);
  assign_eventset_component = λ p e. (true, p);
  set_multiplex = λ p e. (true, p);
  add_events = λ p e. (true, ready);
  start = λ p e. start_set p;
  stop = λ p e values. stop_set p values;
  cleanup_eventset = λ p e. cleanup_set p;
  destroy_eventset = λ p e. (true, none, p);
}

start_set_ok : (p : Phase) → (start_set p).0 ≡ is_ready p
start_set_ok empty = refl
start_set_ok ready = refl
start_set_ok counting = refl

start_set_counts : (p : Phase) → (start_set p).0 ≡ true → (start_set p).1 ≡ counting
start_set_counts empty h = cc
start_set_counts ready h = refl
start_set_counts counting h = cc

stop_set_ok : (p : Phase) (values : List ℕ) → (stop_set p values).0 ≡ is_counting p
stop_set_ok empty values = refl
stop_set_ok ready values = refl
stop_set_ok counting values = refl

stop_set_ready :
    (p : Phase) (values : List ℕ) → (stop_set p values).0 ≡ true → (stop_set p values).2 ≡ ready
stop_set_ready empty values h = cc
stop_set_ready ready values h = cc
stop_set_ready counting values h = refl

cleanup_set_ok : (p : Phase) → (cleanup_set p).0 ≡ not (is_counting p)
cleanup_set_ok empty = refl
cleanup_set_ok ready = refl
cleanup_set_ok counting = refl

cleanup_set_empties : (p : Phase) → (cleanup_set p).0 ≡ true → (cleanup_set p).1 ≡ empty
cleanup_set_empties empty h = refl
cleanup_set_empties ready h = refl
cleanup_set_empties counting h = cc

one_set-Documented : Documented one_set (λ p e. p)
one_set-Documented = record {
  creates_set = λ s h. (0, refl);
  start_ok = λ s e. start_set_ok s;
  start_counts = λ s e h. start_set_counts s h;
  stop_ok = λ s e values. stop_set_ok s values;
  stop_ready = λ s e values h. stop_set_ready s values h;
  cleanup_ok = λ s e. cleanup_set_ok s;
  cleanup_empties = λ s e h. cleanup_set_empties s h;
}

abbrev before : Stat Phase
before = record {
  papi = empty;
  enabled = true;
  event_set = none;
  values = [];
  auto_print = true;
  printed = [];
}

abbrev after : Stat Phase
after = record before { papi = counting; event_set = some 0 }

constructed : construct one_set before ≡ running after
unfolding construct start
constructed = refl

-- The destructor prints the seven counters; after an explicit Stop, it finds the counters disabled.
destroyed :
    (destroy one_set after
      ≡ running (record before {
        values = 1 ∷ 2 ∷ 3 ∷ 4 ∷ 5 ∷ 6 ∷ 7 ∷ [];
        printed = some (1 ∷ 2 ∷ 3 ∷ 4 ∷ 5 ∷ 6 ∷ 7 ∷ []) ∷ [];
      }))
    × (run one_set after (stops ∷ stops ∷ [])
        ≡ running (record after {
          papi = empty;
          enabled = false;
          values = 1 ∷ 2 ∷ 3 ∷ 4 ∷ 5 ∷ 6 ∷ 7 ∷ [];
        }))
unfolding destroy stop run call to_string
destroyed = (refl, refl)

reset_ends : reset one_set after ≡ aborted
unfolding reset stop start
reset_ends = refl

library_usable : (init_enabled one_set empty).0 ≡ true
unfolding init_enabled
library_usable = refl

construct-survives_example :
    is_aborted (run one_set after (stops ∷ starts ∷ [])) ≡ not (survives (stops ∷ starts ∷ []))
construct-survives_example =
    construct-survives one_set (λ p e. p) one_set-Documented before after (stops ∷ starts ∷ [])
      constructed refl
