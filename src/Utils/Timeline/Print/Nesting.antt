-- ===== src/Utils/Timeline/Print/Nesting.antt =====
-- That the two loops of print of src/utils/timeline.cc draw a forest.
use cris_core.Prelude.{
  ℕ, suc, ◌+◌, ◌^◌, ◌<◌, ◌≤◌, ◌≡◌, refl, ap, sym, ◌∙◌, inl, inr, true, false, List, [], ◌∷◌, ◌++◌,
  append_assoc, append-nil, length, leb, if◌then◌else◌, Bool-cases, arith,
}
use cris_core.Utils.Timeline.Print.{
  Event, Line, draw, boundary, close_ended, close_all, draw_events,
}
use cris_core.Utils.Timeline.Print.Forest.{
  Forest, leaf, starts_by, preorder, weight, draw_forest, Within, IsNested, snoc, Precedes,
  preorder-snoc, weight-snoc, draw_forest-snoc, Within-snoc, IsNested-snoc, snoc-Precedes,
}

-- The open events, the innermost first, each with the closed trees before it. The trees that are
-- closed in the innermost one are kept beside.
abbrev Frames : Type 0
Frames = List (Event × Forest)

abbrev Place : Type 0
Place = Forest × Frames

drawn : ℕ → Forest → Frames → List Line
drawn off k [] = draw_forest off 0 k
drawn off k ((e, l) ∷ ps) =
    drawn off l ps ++ draw off false e 0 (length ps) ∷ draw_forest off (suc (length ps)) k

opened : Forest → Frames → List Event
opened k [] = preorder k
opened k ((e, l) ∷ ps) = opened l ps ++ e ∷ preorder k

stack_of : Forest → Frames → List (Event × ℕ)
stack_of k [] = []
stack_of k ((e, l) ∷ ps) = (e, e.overhead + weight k) ∷ stack_of l ps

abbrev Fits : Event → Frames → Type 0
Fits e [] = Unit
Fits e ((p, l) ∷ ps) = starts_by p.end e ≡ true

abbrev IsPlace : Forest → Frames → Type 0
IsPlace k [] = IsNested k
IsPlace k ((e, l) ∷ ps) = IsNested k × Within e k × Precedes l e × Fits e ps × IsPlace l ps

-- Where the loop stops: the same loop on the forest.
close_frames : Event → Forest → Frames → Place
close_frames evt k [] = (k, [])
close_frames evt k ((e, l) ∷ ps) =
    let rest = close_frames evt (snoc l e k) ps in
    if leb (boundary evt) e.end then (k, (e, l) ∷ ps) else rest

close_frames_all : Forest → Frames → Forest
close_frames_all k [] = k
close_frames_all k ((e, l) ∷ ps) = close_frames_all (snoc l e k) ps

length-stack_of : (k : Forest) (ps : Frames) → length (stack_of k ps) ≡ length ps
unfolding stack_of
length-stack_of k [] = refl
length-stack_of k ((e, l) ∷ ps) = ap suc (length-stack_of l ps)

drawn-snoc :
    (off : ℕ) (l : Forest) (e : Event) (k : Forest) (ps : Frames)
    → drawn off (snoc l e k) ps
      ≡ drawn off k ((e, l) ∷ ps) ++ draw off true e (e.overhead + weight k) (length ps) ∷ []
unfolding drawn
drawn-snoc off l e k [] = rw (draw_forest-snoc off 0 l e k) (simp (append_assoc))
drawn-snoc off l e k ((p, m) ∷ ps) =
    rw (draw_forest-snoc off (suc (length ps)) l e k) (simp (append_assoc))

opened-snoc :
    (l : Forest) (e : Event) (k : Forest) (ps : Frames)
    → opened (snoc l e k) ps ≡ opened k ((e, l) ∷ ps)
unfolding opened
opened-snoc l e k [] = preorder-snoc l e k
opened-snoc l e k ((p, m) ∷ ps) = rw (preorder-snoc l e k) (simp (append_assoc))

snoc-IsPlace :
    (l : Forest) (e : Event) (k : Forest) (ps : Frames)
    → IsPlace k ((e, l) ∷ ps)
    → IsPlace (snoc l e k) ps
snoc-IsPlace l e k [] z = IsNested-snoc l e k z.4 z.2 z.1 z.0
snoc-IsPlace l e k ((p, m) ∷ ps) z =
    (IsNested-snoc l e k z.4.0 z.2 z.1 z.0, Within-snoc p l e k z.4.1 z.3, z.4.2, z.4.3, z.4.4)

-- A line that is drawn when the innermost event is closed goes with the tree that it completes.
close_line :
    (off : ℕ) (k : Forest) (e : Event) (l : Forest) (ps : Frames) (total : ℕ) (rest : List Line)
    → total ≡ e.overhead + weight k
    → drawn off k ((e, l) ∷ ps) ++ draw off true e total (length (stack_of l ps)) ∷ rest
      ≡ drawn off (snoc l e k) ps ++ rest
close_line off k e l ps total rest h =
    rw (h, length-stack_of l ps, drawn-snoc off l e k ps) (simp (append_assoc))

-- The loop on the stack of the code, whose innermost entry does not yet have the overhead of the
-- tree that was closed last, is the loop on the place.
close_ended-close_frames :
    (off : ℕ) (evt : Event) (k : Forest) (pending own : ℕ) (e : Event) (l : Forest) (ps : Frames)
    → own + pending ≡ e.overhead + weight k
    → ((close_ended off evt pending ((e, own) ∷ stack_of l ps)).1
        ≡ stack_of (close_frames evt k ((e, l) ∷ ps)).0 (close_frames evt k ((e, l) ∷ ps)).1)
      × (drawn off k ((e, l) ∷ ps) ++ (close_ended off evt pending ((e, own) ∷ stack_of l ps)).0
          ≡ drawn off (close_frames evt k ((e, l) ∷ ps)).0 (close_frames evt k ((e, l) ∷ ps)).1)
unfolding close_ended close_frames stack_of
close_ended-close_frames off evt k pending own e l [] h =
    elim (Bool-cases (leb (boundary evt) e.end)) [
      | inl t ↦ rw t (ap (λ (n : ℕ). (e, n) ∷ []) h, append-nil (drawn off k ((e, l) ∷ [])))
      | inr f ↦ rw f (refl, close_line off k e l [] (own + pending) [] h ∙ append-nil _)
    ]
close_ended-close_frames off evt k pending own e l ((p, m) ∷ ps) h =
    let ih =
      close_ended-close_frames off evt (snoc l e k) (own + pending) (p.overhead + weight l) p m ps
        (omega (arith, weight-snoc l e k)) in
    elim (Bool-cases (leb (boundary evt) e.end)) [
      | inl t ↦ rw t (
        ap (λ (n : ℕ). (e, n) ∷ stack_of l ((p, m) ∷ ps)) h,
        append-nil (drawn off k ((e, l) ∷ (p, m) ∷ ps)),
      )
      | inr f ↦ rw f (ih.0, close_line off k e l ((p, m) ∷ ps) (own + pending) _ h ∙ ih.1)
    ]

close_all-close_frames_all :
    (off : ℕ) (k : Forest) (pending own : ℕ) (e : Event) (l : Forest) (ps : Frames)
    → own + pending ≡ e.overhead + weight k
    → drawn off k ((e, l) ∷ ps) ++ close_all off pending ((e, own) ∷ stack_of l ps)
      ≡ draw_forest off 0 (close_frames_all k ((e, l) ∷ ps))
unfolding close_all close_frames_all stack_of drawn
close_all-close_frames_all off k pending own e l [] h =
    close_line off k e l [] (own + pending) [] h ∙ append-nil _
close_all-close_frames_all off k pending own e l ((p, m) ∷ ps) h =
    close_line off k e l ((p, m) ∷ ps) (own + pending) _ h
    ∙ close_all-close_frames_all off (snoc l e k) (own + pending) (p.overhead + weight l) p m ps
        (omega (arith, weight-snoc l e k))

opened-close_frames :
    (evt : Event) (k : Forest) (ps : Frames)
    → opened (close_frames evt k ps).0 (close_frames evt k ps).1 ≡ opened k ps
unfolding close_frames
opened-close_frames evt k [] = refl
opened-close_frames evt k ((e, l) ∷ ps) = elim (Bool-cases (leb (boundary evt) e.end)) [
  | inl t ↦ rw t
  | inr f ↦ rw f (opened-close_frames evt (snoc l e k) ps ∙ opened-snoc l e k ps)
]

opened-close_frames_all :
    (k : Forest) (ps : Frames) → preorder (close_frames_all k ps) ≡ opened k ps
unfolding close_frames_all opened
opened-close_frames_all k [] = refl
opened-close_frames_all k ((e, l) ∷ ps) =
    opened-close_frames_all (snoc l e k) ps ∙ opened-snoc l e k ps

-- An event of a chain: print has dropped those that end before they begin, and the counter is not at
-- its end.
abbrev pub IsEvent : Event → Type 0
IsEvent evt = (evt.beg ≤ evt.end) × (evt.beg + 1 < 2 ^ 64)

abbrev pub AreEvents : List Event → Type 0
AreEvents [] = Unit
AreEvents (evt ∷ evts) = IsEvent evt × AreEvents evts

boundary-starts_by :
    (evt : Event) (time : ℕ) → IsEvent evt → leb (boundary evt) time ≡ starts_by time evt
boundary-starts_by evt time v = ground arith

-- Where the loop stops, the event is in the innermost open one and after what is closed in it.
close_frames-IsPlace :
    (evt : Event) (k : Forest) (ps : Frames)
    → IsEvent evt
    → IsPlace k ps
    → Precedes k evt
    → IsPlace (close_frames evt k ps).0 (close_frames evt k ps).1
      × Precedes (close_frames evt k ps).0 evt
      × Fits evt (close_frames evt k ps).1
unfolding close_frames
close_frames-IsPlace evt k [] v z p = (z, p, tt)
close_frames-IsPlace evt k ((e, l) ∷ ps) v z p = elim (Bool-cases (leb (boundary evt) e.end)) [
  | inl t ↦ rw t (z, p, sym (boundary-starts_by evt e.end v) ∙ t)
  | inr f ↦ rw f (
      close_frames-IsPlace evt (snoc l e k) ps v (snoc-IsPlace l e k ps z)
        (snoc-Precedes l e k evt (sym (boundary-starts_by evt e.end v) ∙ f)))
]

close_frames_all-IsNested :
    (k : Forest) (ps : Frames) → IsPlace k ps → IsNested (close_frames_all k ps)
unfolding close_frames_all
close_frames_all-IsNested k [] z = z
close_frames_all-IsNested k ((e, l) ∷ ps) z =
    close_frames_all-IsNested (snoc l e k) ps (snoc-IsPlace l e k ps z)

close_ended_here :
    (off : ℕ) (evt : Event) (k : Forest) (ps : Frames)
    → ((close_ended off evt 0 (stack_of k ps)).1
        ≡ stack_of (close_frames evt k ps).0 (close_frames evt k ps).1)
      × (drawn off k ps ++ (close_ended off evt 0 (stack_of k ps)).0
          ≡ drawn off (close_frames evt k ps).0 (close_frames evt k ps).1)
unfolding close_ended close_frames stack_of
close_ended_here off evt k [] = (refl, append-nil (drawn off k []))
close_ended_here off evt k ((e, l) ∷ ps) =
    close_ended-close_frames off evt k 0 (e.overhead + weight k) e l ps (omega arith)

close_all_here :
    (off : ℕ) (k : Forest) (ps : Frames)
    → drawn off k ps ++ close_all off 0 (stack_of k ps) ≡ draw_forest off 0 (close_frames_all k ps)
unfolding close_all close_frames_all stack_of drawn
close_all_here off k [] = append-nil (draw_forest off 0 k)
close_all_here off k ((e, l) ∷ ps) =
    close_all-close_frames_all off k 0 (e.overhead + weight k) e l ps (omega arith)

-- The forest of the events that are left, from the place that they are drawn at.
forest_of : Forest → Frames → List Event → Forest
forest_of k ps [] = close_frames_all k ps
forest_of k ps (evt ∷ evts) =
    forest_of leaf ((evt, (close_frames evt k ps).0) ∷ (close_frames evt k ps).1) evts

stack_of_pushed :
    (k : Forest) (ps : Frames) (evt : Event)
    → stack_of leaf ((evt, k) ∷ ps) ≡ (evt, evt.overhead) ∷ stack_of k ps
unfolding stack_of weight
stack_of_pushed k ps evt =
    let e : evt.overhead + 0 ≡ evt.overhead = omega arith in
    ap (λ (n : ℕ). (evt, n) ∷ stack_of k ps) e

open_line :
    (off : ℕ) (k : Forest) (ps : Frames) (evt : Event) (rest : List Line)
    → drawn off k ps ++ draw off false evt 0 (length (stack_of k ps)) ∷ rest
      ≡ drawn off leaf ((evt, k) ∷ ps) ++ rest
unfolding drawn draw_forest
open_line off k ps evt rest = rw (length-stack_of k ps) (simp (append_assoc))

draw_events-forest_of :
    (off : ℕ) (k : Forest) (ps : Frames) (evts : List Event)
    → drawn off k ps ++ draw_events off (stack_of k ps) evts
      ≡ draw_forest off 0 (forest_of k ps evts)
unfolding draw_events forest_of
draw_events-forest_of off k ps [] = close_all_here off k ps
draw_events-forest_of off k ps (evt ∷ evts) =
    let k' : Forest = (close_frames evt k ps).0 in
    let ps' : Frames = (close_frames evt k ps).1 in
    let here = close_ended_here off evt k ps in
    sym (append_assoc (drawn off k ps) (close_ended off evt 0 (stack_of k ps)).0 _)
    ∙ ap
        (λ (lines : List Line).
          lines
          ++ draw off false evt 0 (length (close_ended off evt 0 (stack_of k ps)).1)
            ∷ draw_events off ((evt, evt.overhead) ∷ (close_ended off evt 0 (stack_of k ps)).1)
                evts)
        here.1
    ∙ ap
        (λ (st : List (Event × ℕ)).
          drawn off k' ps'
          ++ draw off false evt 0 (length st) ∷ draw_events off ((evt, evt.overhead) ∷ st) evts)
        here.0
    ∙ open_line off k' ps' evt _
    ∙ ap (λ (st : List (Event × ℕ)). drawn off leaf ((evt, k') ∷ ps') ++ draw_events off st evts)
        (sym (stack_of_pushed k' ps' evt))
    ∙ draw_events-forest_of off leaf ((evt, k') ∷ ps') evts

opened_pushed :
    (k : Forest) (ps : Frames) (evt : Event) (evts : List Event)
    → opened leaf ((evt, k) ∷ ps) ++ evts ≡ opened k ps ++ evt ∷ evts
unfolding opened preorder
opened_pushed k ps evt evts = simp (append_assoc)

opened-forest_of :
    (k : Forest) (ps : Frames) (evts : List Event)
    → preorder (forest_of k ps evts) ≡ opened k ps ++ evts
unfolding forest_of
opened-forest_of k ps [] = opened-close_frames_all k ps ∙ sym (append-nil (opened k ps))
opened-forest_of k ps (evt ∷ evts) =
    opened-forest_of leaf ((evt, (close_frames evt k ps).0) ∷ (close_frames evt k ps).1) evts
    ∙ opened_pushed (close_frames evt k ps).0 (close_frames evt k ps).1 evt evts
    ∙ ap (λ (l : List Event). l ++ evt ∷ evts) (opened-close_frames evt k ps)

forest_of-IsNested :
    (ps : Frames) (evts : List Event)
    → AreEvents evts
    → IsPlace leaf ps
    → IsNested (forest_of leaf ps evts)
unfolding forest_of
forest_of-IsNested ps [] v z = close_frames_all-IsNested leaf ps z
forest_of-IsNested ps (evt ∷ evts) v z =
    let there = close_frames-IsPlace evt leaf ps v.0 z tt in
    forest_of-IsNested ((evt, (close_frames evt leaf ps).0) ∷ (close_frames evt leaf ps).1) evts v.1
      (tt, tt, there.1, there.2, there.0)

-- The lines drawn for a chain of events, none of which ends before it begins or begins at the last tick
-- of the counter, are the picture of a forest: its events in preorder are the chain, so that each is
-- opened once, in the order of the chain, and closed once after all inside it, with the overhead of
-- itself and of these. An event lies directly in one before whose end it begins, or at whose end it
-- begins if it takes no time; the event next to one begins at that one's end or later, and later if
-- it takes no time.
pub draw_events-IsNested :
    (off : ℕ) (chain : List Event)
    → AreEvents chain
    → (forest : Forest) × (draw_events off [] chain ≡ draw_forest off 0 forest)
      × (preorder forest ≡ chain)
      × IsNested forest
unfolding stack_of drawn draw_forest opened preorder
draw_events-IsNested off chain valid = (
  forest_of leaf [] chain,
  draw_events-forest_of off leaf [] chain,
  opened-forest_of leaf [] chain,
  forest_of-IsNested [] chain valid tt,
)
