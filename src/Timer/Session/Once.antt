-- ===== src/Timer/Session/Once.antt =====
-- That a TimerSession of src/timer reports once, however it is moved and ended.
use cris_core.Prelude.{
  ℕ, zero, suc, ◌+◌, ◌≡◌, refl, ap, Bool, true, false, Option, none, some, List, [], ◌∷◌, ◌++◌,
  get_elem?, set, ◌==◌, if◌then◌else◌, ℤ, arith,
}
use cris_core.Timer.Session.Holding.{enter_all, no_entries, run-reports}
use cris_core.Timer.Session.{
  Session, Program, Call, starts, makes, moves, ends, destroys, ended, end_session, end_at,
  move_from, call, run,
}

abbrev one_if : Bool → ℕ
one_if true = 1
one_if false = 0

-- How many reports a list has for an index, and how many sessions for it are still to report.
unfoldable pub reported : ℕ → List (ℕ × ℤ) → ℕ
reported c [] = 0
reported c ((i, d) ∷ rs) = one_if (i == c) + reported c rs

abbrev pub pends : ℕ → Session → ℕ
pends c s = if s.is_ended then 0 else one_if (s.collector_index == c)

unfoldable pub pending : ℕ → List Session → ℕ
pending c [] = 0
pending c (s ∷ ss) = pends c s + pending c ss

-- How many sessions a program makes for an index; the default constructor makes one for index 0.
unfoldable pub started : ℕ → List Call → ℕ
started c [] = 0
started c (starts now i ∷ cs) = one_if (i == c) + started c cs
started c (makes ∷ cs) = one_if (0 == c) + started c cs
started c (moves from ∷ cs) = started c cs
started c (ends object now ∷ cs) = started c cs
started c (destroys object now ∷ cs) = started c cs

reported-append :
    (c : ℕ) (xs ys : List (ℕ × ℤ)) → reported c (xs ++ ys) ≡ reported c xs + reported c ys
unfolding reported
reported-append c [] ys = omega arith
reported-append c ((i, d) ∷ xs) ys = omega (arith, reported-append c xs ys)

pending-append :
    (c : ℕ) (ss : List Session) (s : Session) → pending c (ss ++ s ∷ []) ≡ pending c ss + pends c s
unfolding pending
pending-append c [] s = omega arith
pending-append c (t ∷ ss) s = omega (arith, pending-append c ss s)

pending-set :
    (c : ℕ) (ss : List Session) (i : ℕ) (s t : Session)
    → get_elem? ss i ≡ some s
    → pending c (set ss i t) + pends c s ≡ pending c ss + pends c t
unfolding pending
pending-set c [] i s t h = cc
pending-set c (u ∷ ss) zero s t h =
    let same : u ≡ s = cc in omega (arith, ap (λ (v : Session). pends c v) same)
pending-set c (u ∷ ss) (suc i) s t h = omega (arith, pending-set c ss i s t h)

end_session-pends :
    (c : ℕ) (s : Session) (now : ℕ)
    → pends c (end_session s now).0 + reported c (end_session s now).1 ≡ pends c s
unfolding end_session reported
end_session-pends c s now = ground arith

abbrev total : ℕ → Program → ℕ
total c p = reported c p.reports + pending c p.sessions

end_at-total :
    (c : ℕ) (p : Program) (i now : ℕ) (o : Option Session)
    → get_elem? p.sessions i ≡ o
    → total c (end_at p i now o) ≡ total c p
end_at-total c p i now none h = refl
end_at-total c p i now (some s) h = omega (
  arith,
  pending-set c p.sessions i s (end_session s now).0 h,
  end_session-pends c s now,
  reported-append c p.reports (end_session s now).1,
)

move_from-total :
    (c : ℕ) (p : Program) (i : ℕ) (o : Option Session)
    → get_elem? p.sessions i ≡ o
    → total c (move_from p i o) ≡ total c p
move_from-total c p i none h = refl
move_from-total c p i (some s) h = omega (
  arith,
  pending-set c p.sessions i s (ended s) h,
  pending-append c (set p.sessions i (ended s)) s,
)

run-total : (c : ℕ) (p : Program) (cs : List Call) → total c (run p cs) ≡ total c p + started c cs
unfolding run call started
run-total c p [] = omega arith
run-total c p (starts now i ∷ cs) = omega (
  arith,
  run-total c (call p (starts now i)) cs,
  pending-append c p.sessions
      (record { is_ended = false; started_timestamp = now; collector_index = i }),
)
run-total c p (makes ∷ cs) = omega (
  arith,
  run-total c (call p makes) cs,
  pending-append c p.sessions
      (record { is_ended = false; started_timestamp = 0; collector_index = 0 }),
)
run-total c p (moves from ∷ cs) = omega (
  arith,
  run-total c (call p (moves from)) cs,
  move_from-total c p from (get_elem? p.sessions from) refl,
)
run-total c p (ends object now ∷ cs) = omega (
  arith,
  run-total c (call p (ends object now)) cs,
  end_at-total c p object now (get_elem? p.sessions object) refl,
)
run-total c p (destroys object now ∷ cs) = omega (
  arith,
  run-total c (call p (destroys object now)) cs,
  end_at-total c p object now (get_elem? p.sessions object) refl,
)

-- However sessions are started, made by default, moved, ended and destroyed, the reports are, in their
-- order, those of a book that has each session in the object that it was last moved to and reports it,
-- once, when that object is first ended; and for each collector index the reports to it and the
-- sessions of it that are still to report are together as many as the ones that were started for it
-- (one made by default counts for the index 0), so that none is lost.
pub sessions_report_once :
    (collector_index : ℕ) (calls : List Call)
    → ((run (record { sessions = []; reports = [] }) calls).reports
        ≡ (enter_all no_entries calls).reports)
      × (reported collector_index (run (record { sessions = []; reports = [] }) calls).reports
            + pending collector_index (run (record { sessions = []; reports = [] }) calls).sessions
          ≡ started collector_index calls)
unfolding pending reported
sessions_report_once c calls =
    (run-reports calls, omega (arith, run-total c (record { sessions = []; reports = [] }) calls))
