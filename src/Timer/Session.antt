-- ===== src/Timer/Session.antt =====
-- TimerSession of src/timer/timer.h, timer.cc and timer_enable.cc: the objects of a program in the
-- order in which they were made, and the reports that they give to the collector. A destroyed object
-- stays in its place, ended.
pub mod Holding
pub mod Once
mod Tests
use cris_core.Prelude.{
  ℕ, Bool, true, false, Option, none, some, List, [], ◌∷◌, ◌++◌, get_elem?, set, if◌then◌else◌, ℤ,
  sub_ℕ,
}

pub record Session : Type 0 where
  pub is_ended : Bool
  pub started_timestamp : ℕ
  pub collector_index : ℕ

-- `reports` are the index and the duration of each report, the first one first.
pub record Program : Type 0 where
  pub sessions : List Session
  pub reports : List (ℕ × ℤ)

-- StartTimerSession, the default constructor, the move constructor from another object, EndSession
-- and the destructor.
pub data Call : Type 0 where
  starts : (now collector_index : ℕ) → Call
  makes : Call
  moves : (from : ℕ) → Call
  ends destroys : (object now : ℕ) → Call

abbrev pub ended : Session → Session
ended s = record s { is_ended = true }

-- EndSession, with what it reports.
unfoldable pub end_session : Session → ℕ → Session × List (ℕ × ℤ)
end_session s now =
    if s.is_ended
    then (s, [])
    else (ended s, (s.collector_index, sub_ℕ now s.started_timestamp) ∷ [])

abbrev pub end_at : Program → ℕ → ℕ → Option Session → Program
end_at p object now none = p
end_at p object now (some s) = record {
  sessions = set p.sessions object (end_session s now).0;
  reports = p.reports ++ (end_session s now).1;
}

-- The new object takes is_ended_ over, and the old one is ended.
abbrev pub move_from : Program → ℕ → Option Session → Program
move_from p from none = p
move_from p from (some s) = record p { sessions = set p.sessions from (ended s) ++ s ∷ [] }

unfoldable pub call : Program → Call → Program
call p (starts now collector_index) = record p {
  sessions =
      p.sessions
      ++ record { is_ended = false; started_timestamp = now; collector_index = collector_index }
        ∷ [];
}
call p makes = record p {
  sessions =
      p.sessions ++ record { is_ended = false; started_timestamp = 0; collector_index = 0 } ∷ [];
}
call p (moves from) = move_from p from (get_elem? p.sessions from)
call p (ends object now) = end_at p object now (get_elem? p.sessions object)
call p (destroys object now) = end_at p object now (get_elem? p.sessions object)

unfoldable pub run : Program → List Call → Program
run p [] = p
run p (c ∷ cs) = run (call p c) cs
