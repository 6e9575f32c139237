-- ===== src/Timer/Session/Tests.antt =====
-- Sessions of src/timer that are moved, ended twice, and made by default.
use cris_core.Prelude.{◌+◌, ◌≡◌, refl, List, [], ◌∷◌, pos}
use cris_core.Timer.Session.{Call, starts, makes, moves, ends, destroys, end_session, call, run}
use cris_core.Timer.Session.Holding.{enter_all, no_entries}
use cris_core.Timer.Session.Once.{reported, pending, started, sessions_report_once}

abbrev calls : List Call
calls = starts 10 5 ∷ moves 0 ∷ ends 1 30 ∷ destroys 1 40 ∷ destroys 0 50 ∷ []

moved_and_ended : (run (record { sessions = []; reports = [] }) calls).reports ≡ (5, pos 20) ∷ []
unfolding run call end_session
moved_and_ended = refl

-- A session made by default reports the time since 0 for the index 0.
made_by_default :
    (run (record { sessions = []; reports = [] }) (makes ∷ destroys 0 700 ∷ [])).reports
    ≡ (0, pos 700) ∷ []
unfolding run call end_session
made_by_default = refl

sessions_report_once_example :
    ((run (record { sessions = []; reports = [] }) calls).reports
      ≡ (enter_all no_entries calls).reports)
    × (reported 5 (run (record { sessions = []; reports = [] }) calls).reports
          + pending 5 (run (record { sessions = []; reports = [] }) calls).sessions
        ≡ started 5 calls)
sessions_report_once_example = sessions_report_once 5 calls
