-- ===== src/Utils/Timeline/Print/Forest.antt =====
-- The picture that print of src/utils/timeline.cc draws, as trees of events: what it means to draw a
-- forest, and what is kept when a tree is added at its end.
use cris_core.Prelude.{
  ℕ, suc, ◌+◌, ◌≡◌, refl, ap, Bool, true, false, ltb, ◌==◌, ◌&&◌, ◌||◌, List, [], ◌∷◌, ◌++◌,
  append_assoc, append-nil, arith,
}
use cris_core.Utils.Timeline.Print.{Event, Line, draw}

-- An event, the events drawn inside it, and the ones after it.
pub data Forest : Type 0 where
  leaf : Forest
  tree : Event → Forest → Forest → Forest

unfoldable pub preorder : Forest → List Event
preorder leaf = []
preorder (tree evt inner after) = evt ∷ preorder inner ++ preorder after

unfoldable pub weight : Forest → ℕ
weight leaf = 0
weight (tree evt inner after) = evt.overhead + weight inner + weight after

-- Each event is opened, then what is in it is drawn one deeper, and then it is closed with the
-- overhead of itself and of all in it.
unfoldable pub draw_forest : ℕ → ℕ → Forest → List Line
draw_forest off depth leaf = []
draw_forest off depth (tree evt inner after) =
    draw off false evt 0 depth ∷ draw_forest off (suc depth) inner
    ++ draw off true evt (evt.overhead + weight inner) depth ∷ draw_forest off depth after

-- Whether an event has started by a time: before it, or at it if it takes no time at all.
abbrev pub starts_by : ℕ → Event → Bool
starts_by time evt = ltb evt.beg time || (evt.beg == evt.end && evt.beg == time)

-- Directly in an event is what has started by its end; next to it is what has not.
abbrev pub Within : Event → Forest → Type 0
Within outer leaf = Unit
Within outer (tree evt inner after) = (starts_by outer.end evt ≡ true) × Within outer after

abbrev pub Follows : Event → Forest → Type 0
Follows before leaf = Unit
Follows before (tree evt inner after) = starts_by before.end evt ≡ false

abbrev pub IsNested : Forest → Type 0
IsNested leaf = Unit
IsNested (tree evt inner after) =
    Within evt inner × IsNested inner × Follows evt after × IsNested after

unfoldable pub snoc : Forest → Event → Forest → Forest
snoc leaf e k = tree e k leaf
snoc (tree evt inner after) e k = tree evt inner (snoc after e k)

-- The last tree of a forest has ended before an event.
abbrev pub Precedes : Forest → Event → Type 0
Precedes leaf e = Unit
Precedes (tree evt inner leaf) e = starts_by evt.end e ≡ false
Precedes (tree evt inner (tree evt' inner' after)) e = Precedes (tree evt' inner' after) e

pub preorder-snoc :
    (f : Forest) (e : Event) (k : Forest) → preorder (snoc f e k) ≡ preorder f ++ e ∷ preorder k
unfolding preorder snoc
preorder-snoc leaf e k = ap (λ l. e ∷ l) (append-nil (preorder k))
preorder-snoc (tree evt inner after) e k = rw (preorder-snoc after e k) (simp (append_assoc))

pub weight-snoc :
    (f : Forest) (e : Event) (k : Forest) → weight (snoc f e k) ≡ weight f + e.overhead + weight k
unfolding weight snoc
weight-snoc leaf e k = omega arith
weight-snoc (tree evt inner after) e k = omega (arith, weight-snoc after e k)

pub draw_forest-snoc :
    (off depth : ℕ) (f : Forest) (e : Event) (k : Forest)
    → draw_forest off depth (snoc f e k)
      ≡ draw_forest off depth f
        ++ draw off false e 0 depth ∷ draw_forest off (suc depth) k
        ++ draw off true e (e.overhead + weight k) depth ∷ []
unfolding draw_forest snoc
draw_forest-snoc off depth leaf e k = refl
draw_forest-snoc off depth (tree evt inner after) e k =
    rw (draw_forest-snoc off depth after e k) (simp (append_assoc))

pub Within-snoc :
    (outer : Event) (f : Forest) (e : Event) (k : Forest)
    → Within outer f
    → starts_by outer.end e ≡ true
    → Within outer (snoc f e k)
unfolding snoc
Within-snoc outer leaf e k w h = (h, tt)
Within-snoc outer (tree evt inner after) e k w h = (w.0, Within-snoc outer after e k w.1 h)

pub IsNested-snoc :
    (f : Forest) (e : Event) (k : Forest)
    → IsNested f
    → Precedes f e
    → Within e k
    → IsNested k
    → IsNested (snoc f e k)
unfolding snoc
IsNested-snoc leaf e k n p w m = (w, m, tt, tt)
IsNested-snoc (tree evt inner leaf) e k n p w m = (n.0, n.1, p, (w, m, tt, tt))
IsNested-snoc (tree evt inner (tree evt' inner' after)) e k n p w m =
    (n.0, n.1, n.2, IsNested-snoc (tree evt' inner' after) e k n.3 p w m)

pub snoc-Precedes :
    (f : Forest) (e : Event) (k : Forest) (next : Event)
    → starts_by e.end next ≡ false
    → Precedes (snoc f e k) next
unfolding snoc
snoc-Precedes leaf e k next h = h
snoc-Precedes (tree evt inner leaf) e k next h = h
snoc-Precedes (tree evt inner (tree evt' inner' after)) e k next h =
    snoc-Precedes (tree evt' inner' after) e k next h
