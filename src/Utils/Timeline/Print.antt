-- ===== src/Utils/Timeline/Print.antt =====
-- Timeline::push, pop and print of src/utils/timeline.cc. A time is a tick of the 64-bit counter; a
-- session and a function are known by numbers; the conversion to microseconds and the padding of
-- the printed table are left out. std::sort may leave equal beginnings in any order: here in theirs.
pub mod Forest
pub mod Nesting
pub mod Groups
mod Tests
use cris_core.Prelude.{
  ℕ, zero, suc, ◌+◌, ◌-◌, ◌*◌, ◌%◌, ◌^◌, min, Bool, true, false, not, ◌&&◌, Option, none, some,
  List, [], ◌∷◌, ◌++◌, length, get_elem?, set, leb, ltb, ◌==◌, if◌then◌else◌, ℤ, sub_ℕ,
}

-- The overhead is a sum of differences of the counter, below 2 ^ 63, so that its cast to a signed
-- number changes nothing.
pub record Event : Type 0 where
  pub beg : ℕ
  pub end : ℕ
  pub overhead : ℕ
  pub sess : ℕ
  pub func : ℕ

-- The thread's sessions, and the two queues that all threads share, the oldest entry first.
pub record Queues : Type 0 where
  pub sess_ready : List ℕ
  pub events : List Event

abbrev pub ticks_between : ℕ → ℕ → ℕ
ticks_between a b = (b + 2 ^ 64 - a) % 2 ^ 64

-- push: the three readings of the counter, and where the event lies in the queue; `none` where no
-- session is entered. The event is complete when another thread first sees it.
unfoldable pub push : List ℕ → List Event → ℕ → ℕ → ℕ → ℕ → List Event × Option ℕ
push [] events func tic toc last = (events, none)
push (sess ∷ below) events func tic toc last =
    let evt : Event = record {
      beg = tic;
      end = toc;
      overhead = (ticks_between toc last * 3 + ticks_between tic toc) % 2 ^ 64;
      sess = sess;
      func = func;
    } in
    (events ++ evt ∷ [], some (length events))

abbrev pub ended_at : List Event → ℕ → ℕ → Option Event → List Event
ended_at events i tick none = events
ended_at events i tick (some evt) = set events i (record evt { end = tick })

-- pop: the end of a region, which may not have an event, while its event is in the queue.
unfoldable pub pop : List Event → Option ℕ → ℕ → List Event
pop events none tick = events
pop events (some i) tick = ended_at events i tick (get_elem? events i)

-- A line of the printed stack.
pub data Line : Type 0 where
  opens : (func depth clk : ℕ) → Line
  closes : (func depth clk : ℕ) (dur : ℤ) (err : ℕ) → Line

-- draw: `depth` is dfs.size() - 1.
unfoldable pub draw : ℕ → Bool → Event → ℕ → ℕ → Line
draw off true evt overhead depth =
    closes evt.func depth (evt.end - off) (sub_ℕ (evt.end - evt.beg) overhead) overhead
draw off false evt overhead depth = opens evt.func depth (evt.beg - off)

-- min(evt->beg + 1, evt->end).
abbrev pub boundary : Event → ℕ
boundary evt = min ((evt.beg + 1) % 2 ^ 64) evt.end

-- The loop that closes what has ended before an event.
unfoldable pub close_ended : ℕ → Event → ℕ → List (Event × ℕ) → List Line × List (Event × ℕ)
close_ended off evt overhead [] = ([], [])
close_ended off evt overhead ((top, own) ∷ below) =
    let rest = close_ended off evt (own + overhead) below in
    if leb (boundary evt) top.end
    then ([], (top, own + overhead) ∷ below)
    else (draw off true top (own + overhead) (length below) ∷ rest.0, rest.1)

-- The loop that closes what is left.
unfoldable pub close_all : ℕ → ℕ → List (Event × ℕ) → List Line
close_all off overhead [] = []
close_all off overhead ((top, own) ∷ below) =
    draw off true top (own + overhead) (length below) ∷ close_all off (own + overhead) below

unfoldable pub draw_events : ℕ → List (Event × ℕ) → List Event → List Line
draw_events off dfs [] = close_all off 0 dfs
draw_events off dfs (evt ∷ evts) =
    (close_ended off evt 0 dfs).0
    ++ draw off false evt 0 (length (close_ended off evt 0 dfs).1)
      ∷ draw_events off ((evt, evt.overhead) ∷ (close_ended off evt 0 dfs).1) evts

unfoldable pub sum_overhead : List Event → ℕ
sum_overhead [] = 0
sum_overhead (evt ∷ evts) = evt.overhead + sum_overhead evts

abbrev pub last_end : Event → List Event → ℕ
last_end evt [] = evt.end
last_end evt (next ∷ evts) = last_end next evts

abbrev pub insert_by_beg : Event → List Event → List Event
insert_by_beg evt [] = evt ∷ []
insert_by_beg evt (next ∷ evts) =
    if ltb next.beg evt.beg then next ∷ insert_by_beg evt evts else evt ∷ next ∷ evts

unfoldable pub sort_by_beg : List Event → List Event
sort_by_beg [] = []
sort_by_beg (evt ∷ evts) = insert_by_beg evt (sort_by_beg evts)

-- What is logged for a session: how long it took, the overhead in it, and the stack's lines.
pub record Report : Type 0 where
  pub session : ℕ
  pub took : ℤ
  pub err : ℕ
  pub stack_lines : List Line

-- The report on a sorted chain; an empty one is skipped.
unfoldable pub report_chain : ℕ → List Event → List Report
report_chain sess [] = []
report_chain sess (first ∷ evts) =
    record {
      session = sess;
      took = sub_ℕ (last_end first evts - first.beg) (sum_overhead (first ∷ evts));
      err = sum_overhead (first ∷ evts);
      stack_lines = draw_events first.beg [] (first ∷ evts);
    }
    ∷ []

-- sess_evt[sess] of the map from the ready sessions to their events.
unfoldable pub add_session : List (ℕ × List Event) → ℕ → List (ℕ × List Event)
add_session [] sess = (sess, []) ∷ []
add_session ((other, evts) ∷ rest) sess =
    if other == sess then (other, evts) ∷ rest else (other, evts) ∷ add_session rest sess

unfoldable pub add_sessions : List (ℕ × List Event) → List ℕ → List (ℕ × List Event)
add_sessions sess_evt [] = sess_evt
add_sessions sess_evt (sess ∷ sel) = add_sessions (add_session sess_evt sess) sel

-- find and push_back; `none` where the session is not there.
unfoldable pub add_event : List (ℕ × List Event) → Event → Option (List (ℕ × List Event))
add_event [] evt = none
add_event ((sess, evts) ∷ rest) evt =
    if sess == evt.sess
    then some ((sess, evts ++ evt ∷ []) ∷ rest)
    else elim (add_event rest evt) [ none ↦ none | some rest' ↦ some ((sess, evts) ∷ rest') ]

abbrev pub grouped :
    List (ℕ × List Event)
    → List Event
    → Event
    → Option (List (ℕ × List Event))
    → List (ℕ × List Event) × List Event
grouped sess_evt events evt none = (sess_evt, events ++ evt ∷ [])
grouped sess_evt events evt (some sess_evt') = (sess_evt', events)

-- One event of the snapshot: dropped, put to its session, or pushed back to the queue.
unfoldable pub group_event :
    List (ℕ × List Event) × List Event → Event → List (ℕ × List Event) × List Event
group_event (sess_evt, events) evt =
    if ltb evt.end evt.beg
    then (sess_evt, events)
    else grouped sess_evt events evt (add_event sess_evt evt)

unfoldable pub group_events :
    List (ℕ × List Event) × List Event → List Event → List (ℕ × List Event) × List Event
group_events s [] = s
group_events s (evt ∷ sel) = group_events (group_event s evt) sel

unfoldable pub report_all : List (ℕ × List Event) → List Report
report_all [] = []
report_all ((sess, chain) ∷ rest) = report_chain sess (sort_by_beg chain) ++ report_all rest

-- print: the reports, and the queues that it leaves. The map from sessions to events is unordered:
-- `order` puts the ready sessions in the order in which the map has them.
unfoldable pub print : (List ℕ → List ℕ) → Queues → List Report × Queues
print order q =
    let groups = group_events (add_sessions [] (order q.sess_ready), []) q.events in
    (report_all groups.0, record { sess_ready = []; events = groups.1 })
