-- ===== src/Timer/Session/Holding.antt =====
-- Which object holds a session of src/timer, however the objects are moved: a session lies in the
-- object that it was last moved to, and leaves it when that object is first ended.
use cris_core.Prelude.{
  ℕ, zero, suc, ◌+◌, ◌≤◌, ◌<◌, ◌≡◌, refl, sym, ap, ◌∙◌, Bool, true, false, Option, none, some, List,
  [], ◌∷◌, ◌++◌, length, get_elem?, set, length-append, length-set, ltb, ◌==◌, if◌then◌else◌, ℤ,
  sub_ℕ, inl, inr, Bool-cases, ==→eq, append-nil, arith,
}
use cris_core.Timer.Session.{
  Session, Program, Call, starts, makes, moves, ends, destroys, ended, end_session, end_at,
  move_from, call, run,
}

-- The index and the start of a session.
abbrev pub Key : Type 0
Key = ℕ × ℕ

-- How many objects there are, the session that each of them holds, and the reports.
pub record Ledger : Type 0 where
  pub count : ℕ
  pub holds : ℕ → Option Key
  pub reports : List (ℕ × ℤ)

abbrev write : (ℕ → Option Key) → ℕ → Option Key → ℕ → Option Key
write holds object key i = if i == object then key else holds i

abbrev added : Ledger → Option Key → Ledger
added l key = record l { count = l.count + 1; holds = write l.holds l.count key }

-- The first end of an object gives up the session that it holds.
abbrev given_up : Ledger → ℕ → ℕ → Option Key → Ledger
given_up l object now none = l
given_up l object now (some (index, since)) = record l {
  holds = write l.holds object none;
  reports = l.reports ++ (index, sub_ℕ now since) ∷ [];
}

unfoldable pub enter : Ledger → Call → Ledger
enter l (starts now index) = added l (some (index, now))
enter l makes = added l (some (0, 0))
enter l (moves from) =
    if ltb from l.count
    then added (record l { holds = write l.holds from none }) (l.holds from)
    else l
enter l (ends object now) = given_up l object now (l.holds object)
enter l (destroys object now) = given_up l object now (l.holds object)

unfoldable pub enter_all : Ledger → List Call → Ledger
enter_all l [] = l
enter_all l (c ∷ cs) = enter_all (enter l c) cs

abbrev pub no_entries : Ledger
no_entries = record { count = 0; holds = λ i. none; reports = [] }

abbrev own : Session → Option Key
own s = if s.is_ended then none else some (s.collector_index, s.started_timestamp)

held : List Session → ℕ → Option Key
held [] i = none
held (s ∷ ss) zero = own s
held (s ∷ ss) (suc i) = held ss i

held-snoc :
    (ss : List Session) (s : Session) (i : ℕ)
    → held (ss ++ s ∷ []) i ≡ (if i == length ss then own s else held ss i)
unfolding held
held-snoc [] s zero = refl
held-snoc [] s (suc i) = ground arith
held-snoc (t ∷ ss) s zero = ground arith
held-snoc (t ∷ ss) s (suc i) = ground (arith, held-snoc ss s i)

held-set :
    (ss : List Session) (j : ℕ) (t : Session) (i : ℕ)
    → j < length ss
    → held (set ss j t) i ≡ (if i == j then own t else held ss i)
unfolding held
held-set [] j t i l = ground arith
held-set (s ∷ ss) zero t zero l = refl
held-set (s ∷ ss) zero t (suc i) l = ground arith
held-set (s ∷ ss) (suc j) t zero l = ground arith
held-set (s ∷ ss) (suc j) t (suc i) l = ground (arith, held-set ss j t i)

held-some : (ss : List Session) (j : ℕ) (s : Session) → get_elem? ss j ≡ some s → held ss j ≡ own s
unfolding held
held-some [] j s e = cc
held-some (t ∷ ss) zero s e = let same : t ≡ s = cc in ap (λ (u : Session). own u) same
held-some (t ∷ ss) (suc j) s e = held-some ss j s e

held-none : (ss : List Session) (j : ℕ) → get_elem? ss j ≡ none → held ss j ≡ none
unfolding held
held-none [] j e = refl
held-none (t ∷ ss) zero e = cc
held-none (t ∷ ss) (suc j) e = held-none ss j e

some_there : (ss : List Session) (j : ℕ) (s : Session) → get_elem? ss j ≡ some s → j < length ss
some_there [] j s e = cc
some_there (t ∷ ss) zero s e = omega arith
some_there (t ∷ ss) (suc j) s e = omega (arith, some_there ss j s e)

none_there : (ss : List Session) (j : ℕ) → get_elem? ss j ≡ none → length ss ≤ j
none_there [] j e = omega arith
none_there (t ∷ ss) zero e = cc
none_there (t ∷ ss) (suc j) e = omega (arith, none_there ss j e)

record Matches (p : Program) (l : Ledger) : Type 0 where
  objects : l.count ≡ length p.sessions
  sessions : (i : ℕ) → l.holds i ≡ held p.sessions i
  reports : l.reports ≡ p.reports

added-Matches :
    (p : Program) (l : Ledger) (s : Session)
    → Matches p l
    → Matches (record p { sessions = p.sessions ++ s ∷ [] }) (added l (own s))
added-Matches p l s m = record {
  objects = omega (arith, m.objects, length-append p.sessions (s ∷ []));
  sessions = λ i. rw m.objects (rw (m.sessions i) (sym (held-snoc p.sessions s i)));
  reports = m.reports;
}

set-Matches :
    (p : Program) (l : Ledger) (j : ℕ) (s : Session)
    → j < length p.sessions
    → Matches p l
    → Matches
        (record p { sessions = set p.sessions j (ended s) })
        (record l { holds = write l.holds j none })
set-Matches p l j s less m = record {
  objects = m.objects ∙ sym (length-set p.sessions j (ended s));
  sessions = λ i. rw (m.sessions i) (sym (held-set p.sessions j (ended s) i less));
  reports = m.reports;
}

move_from-Matches :
    (p : Program) (l : Ledger) (from : ℕ) (o : Option Session)
    → get_elem? p.sessions from ≡ o
    → Matches p l
    → Matches (move_from p from o) (enter l (moves from))
unfolding enter
move_from-Matches p l from none e m =
    let outside : ltb from l.count ≡ false =
      ground (arith, m.objects, none_there p.sessions from e) in
    rw outside m
move_from-Matches p l from (some s) e m =
    let less = some_there p.sessions from s e in
    let inside : ltb from l.count ≡ true = ground (arith, m.objects, less) in
    let taken : l.holds from ≡ own s = m.sessions from ∙ held-some p.sessions from s e in
    rw (inside, taken)
      (added-Matches (record p { sessions = set p.sessions from (ended s) })
        (record l { holds = write l.holds from none }) s (set-Matches p l from s less m))

set-ended :
    (ss : List Session) (j : ℕ) (s : Session) (i : ℕ)
    → j < length ss
    → held ss j ≡ none
    → held (set ss j (ended s)) i ≡ held ss i
set-ended ss j s i less gone =
    held-set ss j (ended s) i less
    ∙ elim (Bool-cases (i == j)) [ inl e ↦ rw (e, ==→eq i j e) (sym gone) | inr e ↦ rw e refl ]

end_session-Matches :
    (p : Program) (l : Ledger) (object now : ℕ) (s : Session) (b : Bool)
    → s.is_ended ≡ b
    → object < length p.sessions
    → held p.sessions object ≡ own s
    → Matches p l
    → Matches (end_at p object now (some s)) (given_up l object now (own s))
unfolding end_session
end_session-Matches p l object now s true e less h m =
    let gone : held p.sessions object ≡ none = h ∙ rw e refl in
    rw e (record {
      objects = m.objects ∙ sym (length-set p.sessions object (ended s));
      sessions = λ i. m.sessions i ∙ sym (set-ended p.sessions object s i less gone);
      reports = m.reports ∙ sym (append-nil p.reports);
    })
end_session-Matches p l object now s false e less h m =
    let after = set-Matches p l object s less m in
    rw e (record {
      objects = after.objects;
      sessions = after.sessions;
      reports = ap (λ r. r ++ (s.collector_index, sub_ℕ now s.started_timestamp) ∷ []) m.reports;
    })

end_at-Matches :
    (p : Program) (l : Ledger) (object now : ℕ) (o : Option Session)
    → get_elem? p.sessions object ≡ o
    → Matches p l
    → Matches (end_at p object now o) (given_up l object now (l.holds object))
end_at-Matches p l object now none e m = rw (m.sessions object, held-none p.sessions object e) m
end_at-Matches p l object now (some s) e m =
    let here = held-some p.sessions object s e in
    rw (m.sessions object, here)
      (end_session-Matches p l object now s s.is_ended refl (some_there p.sessions object s e) here
        m)

run-Matches :
    (cs : List Call) (p : Program) (l : Ledger) → Matches p l → Matches (run p cs) (enter_all l cs)
unfolding run call enter_all enter
run-Matches [] p l m = m
run-Matches (starts now index ∷ cs) p l m =
    run-Matches cs (call p (starts now index)) (enter l (starts now index)) (
      added-Matches p l
        (record { is_ended = false; started_timestamp = now; collector_index = index }) m)
run-Matches (makes ∷ cs) p l m =
    run-Matches cs (call p makes) (enter l makes) (
      added-Matches p l (record { is_ended = false; started_timestamp = 0; collector_index = 0 }) m)
run-Matches (moves from ∷ cs) p l m =
    run-Matches cs (call p (moves from)) (enter l (moves from))
      (move_from-Matches p l from (get_elem? p.sessions from) refl m)
run-Matches (ends object now ∷ cs) p l m =
    run-Matches cs (call p (ends object now)) (enter l (ends object now))
      (end_at-Matches p l object now (get_elem? p.sessions object) refl m)
run-Matches (destroys object now ∷ cs) p l m =
    run-Matches cs (call p (destroys object now)) (enter l (destroys object now))
      (end_at-Matches p l object now (get_elem? p.sessions object) refl m)

-- The reports are those of the objects that hold the sessions.
pub run-reports :
    (cs : List Call)
    → (run (record { sessions = []; reports = [] }) cs).reports ≡ (enter_all no_entries cs).reports
unfolding held
run-reports cs =
    let m =
      run-Matches cs (record { sessions = []; reports = [] }) no_entries
        (record { objects = refl; sessions = λ i. refl; reports = refl }) in
    sym m.reports
