-- ===== src/Utils/Timeline/Print/Tests.antt =====
-- Examples of Timeline::print of src/utils/timeline.cc.
use mathlib.Core.List.{Perm}
use mathlib.Core.List.Perm
use cris_core.Prelude.{ℕ, List, true, false, arith, ◌≡◌, refl, [], ◌∷◌, pos}
use cris_core.Utils.Timeline.Print.{
  Event, Queues, pop, opens, closes, Report, push, draw, close_ended, close_all, draw_events,
  sum_overhead, report_chain, add_session, add_sessions, add_event, group_event, group_events,
  print,
}
use cris_core.Utils.Timeline.Print.Forest.{Forest, starts_by, draw_forest, preorder, IsNested}
use cris_core.Utils.Timeline.Print.Nesting.{AreEvents, draw_events-IsNested}

-- The outer event lasts from 0 to 100, and two others from 10 to 20 and from 30 to 40 are in it.
abbrev outer : Event
outer = record { beg = 0; end = 100; overhead = 3; sess = 7; func = 1 }

abbrev first : Event
first = record { beg = 10; end = 20; overhead = 1; sess = 7; func = 2 }

abbrev second : Event
second = record { beg = 30; end = 40; overhead = 1; sess = 7; func = 3 }

abbrev later : Event
later = record { beg = 50; end = 60; overhead = 1; sess = 8; func = 4 }

abbrev backward : Event
backward = record { beg = 9; end = 8; overhead = 1; sess = 7; func = 5 }

drawn_chain :
    draw_events 0 [] (outer ∷ first ∷ second ∷ [])
    ≡ opens 1 0 0
      ∷ opens 2 1 10
      ∷ closes 2 1 20 (pos 9) 1
      ∷ opens 3 1 30
      ∷ closes 3 1 40 (pos 9) 1
      ∷ closes 1 0 100 (pos 95) 5
      ∷ []
unfolding draw_events close_ended close_all draw
drawn_chain = refl

pushed_and_popped :
    pop (push (7 ∷ []) [] 1 10 12 13).0 (push (7 ∷ []) [] 1 10 12 13).1 20
    ≡ record { beg = 10; end = 20; overhead = 5; sess = 7; func = 1 } ∷ []
unfolding push pop
pushed_and_popped = refl

-- The header says that the session took 40 ticks, less the overhead, since its last event to begin
-- ends then; its outer event lasts for 100.
took_of_last :
    (r : Report) × (report_chain 7 (outer ∷ first ∷ second ∷ []) ≡ r ∷ []) × (r.took ≡ pos 35)
unfolding report_chain sum_overhead
took_of_last = (
  record {
    session = 7;
    took = pos 35;
    err = 5;
    stack_lines = draw_events 0 [] (outer ∷ first ∷ second ∷ []);
  },
  refl,
  refl,
)

-- The map has the sessions as they are ready.
abbrev in_turn : List ℕ → List ℕ
in_turn sel = sel

-- An event of a session that is not ready waits, and one that ends before it begins is dropped.
waits :
    (print in_turn
      (record { sess_ready = 7 ∷ 7 ∷ []; events = second ∷ later ∷ backward ∷ outer ∷ [] })).1
    ≡ record { sess_ready = []; events = later ∷ [] }
unfolding print add_sessions add_session group_events group_event add_event
waits = refl

chain-AreEvents : AreEvents (outer ∷ first ∷ second ∷ [])
chain-AreEvents =
    ((omega arith, omega arith), ((omega arith, omega arith), ((omega arith, omega arith), tt)))

-- An event that begins at the end of another is next to it, and inside it if it takes no time.
boundaries_seen :
    (starts_by 10 (record first { beg = 10 }) ≡ false)
    × (starts_by 20 (record first { beg = 20; end = 20 }) ≡ true)
boundaries_seen = (refl, refl)

draw_events-IsNested_example :
    (forest : Forest) × (draw_events 0 [] (outer ∷ first ∷ second ∷ []) ≡ draw_forest 0 0 forest)
    × (preorder forest ≡ outer ∷ first ∷ second ∷ [])
    × IsNested forest
draw_events-IsNested_example = draw_events-IsNested 0 (outer ∷ first ∷ second ∷ []) chain-AreEvents

abbrev two_queued : Queues
two_queued = record { sess_ready = 7 ∷ []; events = second ∷ later ∷ first ∷ [] }
