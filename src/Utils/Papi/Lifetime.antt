-- ===== src/Utils/Papi/Lifetime.antt =====
-- What the calls of PAPIStat of src/utils/papi.cc come to, where PAPI treats an event set as it
-- documents.
use cris_core.Prelude.{
  ℕ, ◌≡◌, refl, ap, sym, subst, ◌∙◌, Bool, true, false, not, Option, some, List, [], ◌∷◌,
  if◌then◌else◌,
}
use cris_core.Utils.Papi.{
  Papi, Stat, Outcome, running, aborted, construct, start, stop, reset, or_disable, clean_up,
  started, stopped, and_then, Call, starts, stops, resets, call, run,
}
use cris_core.Utils.Papi.Phases.{
  Phase, empty, counting, is_ready, is_counting, Documented, is_aborted, Disables, Holds,
  start-Disables, and_then-Disables, run-Disables, Disables-is_aborted,
}
use cris_core.Utils.Papi.Setup.{construct_counting}

-- The calls on a new object after which the program goes on: none, a Stop, or anything after a Stop
-- and then a second Stop or a Reset.
unfoldable pub survives : List Call → Bool
survives [] = true
survives (stops ∷ []) = true
survives (stops ∷ stops ∷ cs) = true
survives (stops ∷ starts ∷ cs) = false
survives (stops ∷ resets ∷ cs) = true
survives (starts ∷ cs) = false
survives (resets ∷ cs) = false

module _ {State : Type 0} (lib : Papi State) where
  or_disable_ok :
      (s : Stat State) (r : Bool × State) (k : Stat State → Outcome State)
      → r.0 ≡ true
      → or_disable lib s r k ≡ k (record s { papi = r.1 })
  or_disable_ok s (true, papi) k h = refl
  or_disable_ok s (false, papi) k h = cc

  stopped_ok :
      (s : Stat State) (r : Bool × List ℕ × State)
      → r.0 ≡ true
      → stopped lib s r ≡ clean_up lib (record s { papi = r.2; values = r.1 }) s.event_set
  stopped_ok s (true, values, papi) h = refl
  stopped_ok s (false, values, papi) h = cc

  stopped_failed :
      (s : Stat State) (r : Bool × List ℕ × State) → r.0 ≡ false → Disables lib (stopped lib s r)
  stopped_failed s (true, values, papi) h = cc
  stopped_failed s (false, values, papi) h = refl

  started_failed : (s : Stat State) (r : Bool × State) → r.0 ≡ false → started lib s r ≡ aborted
  started_failed s (true, papi) h = cc
  started_failed s (false, papi) h = refl

  module _ (phase : State → ℕ → Phase) (documented : Documented lib phase) where
    -- A start aborts the program unless the set is ready.
    start_not_ready :
        (s : Stat State) (p : Phase)
        → Holds lib phase p s
        → is_ready p ≡ false
        → start lib s ≡ aborted
    unfolding start
    start_not_ready s p h n =
        ap (λ (b : Bool). if b then started lib s (lib.start s.papi s.event_set) else running s) h.0
        ∙ ap (λ (o : Option ℕ). started lib s (lib.start s.papi o)) h.1.1
        ∙ started_failed s (lib.start s.papi (some h.1.0))
            (documented.start_ok s.papi h.1.0 ∙ ap is_ready h.1.2 ∙ n)

    stop_enabled :
        (s : Stat State) (p : Phase) (h : Holds lib phase p s)
        → stop lib s ≡ stopped lib s (lib.stop s.papi (some h.1.0) s.values)
    unfolding stop
    stop_enabled s p h =
        ap
          (λ (b : Bool).
            if b
            then stopped lib s (lib.stop s.papi s.event_set s.values)
            else clean_up lib s s.event_set)
          h.0
        ∙ ap (λ (o : Option ℕ). stopped lib s (lib.stop s.papi o s.values)) h.1.1

    -- Stop of a counting set leaves it without events.
    stop_counting :
        (s : Stat State)
        → Holds lib phase counting s
        → (s' : Stat State) × (stop lib s ≡ running s') × Holds lib phase empty s'
    stop_counting s h =
        let e : ℕ = h.1.0 in
        let r : Bool × List ℕ × State = lib.stop s.papi (some e) s.values in
        let ok : r.0 ≡ true = documented.stop_ok s.papi e s.values ∙ ap is_counting h.1.2 in
        let c : Bool × State = lib.cleanup_eventset r.2 (some e) in
        let cleaned : c.0 ≡ true =
          documented.cleanup_ok r.2 e
          ∙ ap (λ (p : Phase). not (is_counting p)) (documented.stop_ready s.papi e s.values ok) in
        (
          record s { papi = c.1; values = r.1 },
          stop_enabled s counting h
              ∙ stopped_ok s r ok
              ∙ ap (λ (o : Option ℕ). clean_up lib (record s { papi = r.2; values = r.1 }) o) h.1.1
              ∙ or_disable_ok (record s { papi = r.2; values = r.1 }) c (λ s'. running s') cleaned,
          (h.0, (e, h.1.1, documented.cleanup_empties r.2 e cleaned)),
        )

    stop_empty : (s : Stat State) → Holds lib phase empty s → Disables lib (stop lib s)
    stop_empty s h = subst (Disables lib) (sym (stop_enabled s empty h)) (
        stopped_failed s (lib.stop s.papi (some h.1.0) s.values)
          (documented.stop_ok s.papi h.1.0 s.values ∙ ap is_counting h.1.2))

    run_step :
        (s : Stat State) (c : Call) (cs : List Call) (o : Outcome State)
        → call lib s c ≡ o
        → run lib s (c ∷ cs) ≡ and_then lib o (λ s'. run lib s' cs)
    unfolding run
    run_step s c cs o h = ap (λ (o : Outcome State). and_then lib o (λ s'. run lib s' cs)) h

    reset_counting : (s : Stat State) → Holds lib phase counting s → reset lib s ≡ aborted
    unfolding reset
    reset_counting s h =
        let after = stop_counting s h in
        ap (λ (o : Outcome State). and_then lib o (start lib)) after.1
        ∙ start_not_ready after.0 empty after.2 refl

    reset-Disables : (s : Stat State) → Holds lib phase empty s → Disables lib (reset lib s)
    unfolding reset
    reset-Disables s h =
        and_then-Disables lib (stop lib s) (start lib) (stop_empty s h) (start-Disables lib)

    aborts_at :
        (s : Stat State) (c : Call) (cs : List Call)
        → call lib s c ≡ aborted
        → is_aborted (run lib s (c ∷ cs)) ≡ true
    aborts_at s c cs h = ap is_aborted (run_step s c cs aborted h)

    goes_on_disabled :
        (s : Stat State) (c : Call) (cs : List Call)
        → Disables lib (call lib s c)
        → is_aborted (run lib s (c ∷ cs)) ≡ false
    unfolding run
    goes_on_disabled s c cs h = Disables-is_aborted lib (run lib s (c ∷ cs)) (
        and_then-Disables lib (call lib s c) (λ s'. run lib s' cs) h (λ s'. run-Disables lib s' cs))

    run-empty :
        (s : Stat State) (cs : List Call)
        → Holds lib phase empty s
        → is_aborted (run lib s cs) ≡ not (survives (stops ∷ cs))
    unfolding survives run call
    run-empty s [] h = refl
    run-empty s (starts ∷ cs) h = aborts_at s starts cs (start_not_ready s empty h refl)
    run-empty s (stops ∷ cs) h = goes_on_disabled s stops cs (stop_empty s h)
    run-empty s (resets ∷ cs) h = goes_on_disabled s resets cs (reset-Disables s h)

    run_counting :
        (s : Stat State) (cs : List Call)
        → Holds lib phase counting s
        → is_aborted (run lib s cs) ≡ not (survives cs)
    unfolding survives run call
    run_counting s [] h = refl
    run_counting s (starts ∷ cs) h = aborts_at s starts cs (start_not_ready s counting h refl)
    run_counting s (resets ∷ cs) h = aborts_at s resets cs (reset_counting s h)
    run_counting s (stops ∷ cs) h =
        let after = stop_counting s h in
        ap is_aborted (run_step s stops cs (running after.0) after.1) ∙ run-empty after.0 cs after.2

    -- Where PAPI treats event sets as it documents and the constructor has left the counters enabled,
    -- calls of Start, Stop and Reset go on without the failed check that ends the program exactly when
    -- they are none, a Stop alone, or start with two Stops or with a Stop and a Reset: the set counts
    -- already, and a Stop takes its events out.
    pub construct-survives :
        (s t : Stat State) (calls : List Call)
        → construct lib s ≡ running t
        → t.enabled ≡ true
        → is_aborted (run lib t calls) ≡ not (survives calls)
    construct-survives s t calls h d =
        run_counting t calls (construct_counting lib phase documented s t h d)
