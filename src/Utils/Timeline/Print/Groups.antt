-- ===== src/Utils/Timeline/Print/Groups.antt =====
-- Which events print of src/utils/timeline.cc reports, and which it leaves in the queue.
use mathlib.Core.List.{Perm}
use mathlib.Core.List.Perm
use cris_core.Prelude.{
  ℕ, ◌≤◌, ◌≡◌, Bool, false, not, ◌&&◌, ◌||◌, List, [], ◌∷◌, ◌++◌, ltb, ◌==◌, if◌then◌else◌,
}
use cris_core.Utils.Timeline.Print.{Event, Report, report_chain}

abbrev pub has : List ℕ → ℕ → Bool
has [] sess = false
has (k ∷ ks) sess = k == sess || has ks sess

unfoldable pub add_key : List ℕ → ℕ → List ℕ
add_key [] sess = sess ∷ []
add_key (k ∷ ks) sess = if k == sess then k ∷ ks else k ∷ add_key ks sess

unfoldable pub add_keys : List ℕ → List ℕ → List ℕ
add_keys ks [] = ks
add_keys ks (sess ∷ sel) = add_keys (add_key ks sess) sel

-- The events of a session that do not end before they begin, in the queue's order.
unfoldable pub chain_of : ℕ → List Event → List Event
chain_of sess [] = []
chain_of sess (evt ∷ evts) =
    if not (ltb evt.end evt.beg) && sess == evt.sess
    then evt ∷ chain_of sess evts
    else chain_of sess evts

-- Those of the sessions that are not ready.
unfoldable pub waiting : List ℕ → List Event → List Event
waiting ks [] = []
waiting ks (evt ∷ evts) =
    if not (ltb evt.end evt.beg) && not (has ks evt.sess)
    then evt ∷ waiting ks evts
    else waiting ks evts

-- Events in the order of their beginnings.
abbrev pub NotBefore : ℕ → List Event → Type 0
NotBefore time [] = Unit
NotBefore time (evt ∷ evts) = (time ≤ evt.beg) × NotBefore time evts

abbrev pub AreInOrder : List Event → Type 0
AreInOrder [] = Unit
AreInOrder (evt ∷ evts) = NotBefore evt.beg evts × AreInOrder evts

-- Reports on sessions, one after the other: each is on the session's events in the order of their
-- beginnings.
abbrev pub AreReports : List ℕ → List Event → List Report → Type 0
AreReports [] evts reports = reports ≡ []
AreReports (sess ∷ sel) evts reports =
    (chain : List Event) × (rest : List Report) × Perm chain (chain_of sess evts)
    × AreInOrder chain
    × (reports ≡ report_chain sess chain ++ rest)
    × AreReports sel evts rest

abbrev pub IsDistinct : List ℕ → Type 0
IsDistinct [] = Unit
IsDistinct (k ∷ ks) = (has ks k ≡ false) × IsDistinct ks

paired : List ℕ → (ℕ → List Event) → List (ℕ × List Event)
paired [] f = []
paired (k ∷ ks) f = (k, f k) ∷ paired ks f

abbrev put : (ℕ → List Event) → Event → ℕ → List Event
put f evt sess = if sess == evt.sess then f sess ++ evt ∷ [] else f sess

is_it : ℕ → ℕ → Bool → Bool
is_it sess k later = k == sess || later
