-- ===== src/Utils/Papi/Setup.antt =====
-- That the constructor of PAPIStat of src/utils/papi.cc leaves its counters running.
use cris_core.Prelude.{
  ℕ, ◌≡◌, refl, ap, sym, subst, ◌∙◌, Bool, true, false, Option, some, if◌then◌else◌,
}
use cris_core.Utils.Papi.{
  Papi, Stat, Outcome, running, construct, start, or_disable, started, created, assign, multiplex,
  add_all,
}
use cris_core.Utils.Papi.Phases.{Phase, counting, Documented, Holds}

module _ {State : Type 0} (lib : Papi State) where
  running_inj : (s t : Stat State) → running s ≡ running t → s ≡ t
  running_inj s t h = cc

  or_disable_enabled :
      (s : Stat State) (r : Bool × State) (k : Stat State → Outcome State) (t : Stat State)
      → or_disable lib s r k ≡ running t
      → t.enabled ≡ true
      → (r.0 ≡ true) × (k (record s { papi = r.1 }) ≡ running t)
  or_disable_enabled s (true, papi) k t h e = (refl, h)
  or_disable_enabled s (false, papi) k t h e =
      cc (ap (λ (u : Stat State). u.enabled) (running_inj _ t h))

  created_enabled :
      (s : Stat State) (r : Bool × Option ℕ × State) (k : Stat State → Outcome State)
      (t : Stat State)
      → created lib s r k ≡ running t
      → t.enabled ≡ true
      → (r.0 ≡ true) × (k (record s { papi = r.2; event_set = r.1 }) ≡ running t)
  created_enabled s (true, event_set, papi) k t h e = (refl, h)
  created_enabled s (false, event_set, papi) k t h e =
      cc (ap (λ (u : Stat State). u.enabled) (running_inj _ t h))

  started_running :
      (s : Stat State) (r : Bool × State) (t : Stat State)
      → started lib s r ≡ running t
      → (r.0 ≡ true) × (record s { papi = r.1 } ≡ t)
  started_running s (true, papi) t h = (refl, running_inj _ t h)
  started_running s (false, papi) t h = cc

  start_running :
      (s t : Stat State)
      → s.enabled ≡ true
      → start lib s ≡ running t
      → ((lib.start s.papi s.event_set).0 ≡ true)
        × (record s { papi = (lib.start s.papi s.event_set).1 } ≡ t)
  unfolding start
  start_running s t e h = started_running s (lib.start s.papi s.event_set) t (
      sym
        (ap (λ (b : Bool). if b then started lib s (lib.start s.papi s.event_set) else running s) e)
      ∙ h)

  module _ (phase : State → ℕ → Phase) (documented : Documented lib phase) where
    start_counting :
        (s t : Stat State) (e : ℕ)
        → s.event_set ≡ some e
        → s.enabled ≡ true
        → start lib s ≡ running t
        → t.enabled ≡ true
        → Holds lib phase counting t
    start_counting s t e o b h d =
        let r = start_running s t b h in
        let ok : (lib.start s.papi (some e)).0 ≡ true =
          ap (λ (o : Option ℕ). (lib.start s.papi o).0) (sym o) ∙ r.0 in
        subst (Holds lib phase counting) r.1 (
          b,
          (
            e,
            o,
            ap (λ (o : Option ℕ). phase (lib.start s.papi o).1 e) o
                ∙ documented.start_counts s.papi e ok,
          ),
        )

    assign_counting :
        (s t : Stat State) (e : ℕ)
        → s.event_set ≡ some e
        → s.enabled ≡ true
        → assign lib s ≡ running t
        → t.enabled ≡ true
        → Holds lib phase counting t
    assign_counting s t e o b h d =
        let r1 = lib.assign_eventset_component s.papi s.event_set in
        let h1 = or_disable_enabled s r1 (multiplex lib) t h d in
        let r2 = lib.set_multiplex r1.1 s.event_set in
        let h2 = or_disable_enabled (record s { papi = r1.1 }) r2 (add_all lib) t h1.1 d in
        let r3 = lib.add_events r2.1 s.event_set in
        let h3 = or_disable_enabled (record s { papi = r2.1 }) r3 (start lib) t h2.1 d in
        start_counting (record s { papi = r3.1 }) t e o b h3.1 d

    construct_if :
        (s t : Stat State) (b : Bool)
        → (if b then created lib s (lib.create_eventset s.papi) (assign lib) else running s)
          ≡ running t
        → s.enabled ≡ b
        → t.enabled ≡ true
        → Holds lib phase counting t
    construct_if s t false h b d = cc (b, d, ap (λ (u : Stat State). u.enabled) (running_inj s t h))
    construct_if s t true h b d =
        let r = lib.create_eventset s.papi in
        let made = created_enabled s r (assign lib) t h d in
        let set = documented.creates_set s.papi made.0 in
        assign_counting (record s { papi = r.2; event_set = r.1 }) t set.0 set.1 b made.1 d

    pub construct_counting :
        (s t : Stat State)
        → construct lib s ≡ running t
        → t.enabled ≡ true
        → Holds lib phase counting t
    unfolding construct
    construct_counting s t h d = construct_if s t s.enabled h refl d
