-- ===== src/Timer/Section.antt =====
-- TimerSection::SubSection of src/timer/timer_enable.cc, called by any number of threads: the look-up
-- under the shared lock, the atomic counter of collector indices, and the insertion under the lock.
-- A section is known by its collector index (the dummy by 0, the main section by 1), a name by a
-- number. The counter is a std::atomic<std::size_t>.
pub mod Indices
use cris_core.Prelude.{
  ℕ, zero, suc, ◌+◌, ◌%◌, ◌^◌, ◌≡◌, Bool, true, false, ◌&&◌, Option, none, some, List, [], ◌∷◌,
  ◌++◌, leb, ◌==◌, if◌then◌else◌,
}
use cris_core.Timer.Stat.{collector_size}

pub record Item : Type 0 where
  pub parent : ℕ
  pub name : ℕ
  pub collector_index : ℕ

abbrev pub has_key : ℕ → ℕ → Item → Bool
has_key parent name item = item.parent == parent && item.name == name

unfoldable pub find : List Item → ℕ → ℕ → Option ℕ
find [] parent name = none
find (x ∷ xs) parent name =
    let rest = find xs parent name in if has_key parent name x then some x.collector_index else rest

-- collector_index_count, the subsections of all sections, and the calls that have an index and wait
-- for the lock.
pub record Sections : Type 0 where
  pub count : ℕ
  pub subsections : List Item
  pub waiting : List Item

-- std::map::emplace
unfoldable pub emplace : List Item → Item → List Item
emplace items item = elim (find items item.parent item.name) [
  | none ↦ items ++ item ∷ []
  | some i ↦ items
]

-- The second half of SubSection: the sections afterwards, and the one that is returned.
unfoldable pub insert : List Item → Item → List Item × ℕ
insert items item = if leb collector_size item.collector_index then (items, 0) else (
  emplace items item,
  elim (find items item.parent item.name) [ none ↦ item.collector_index | some i ↦ i ],
)

pub data Step (s t : Sections) : Type 0 where
  misses :
      (parent name : ℕ)
      → find s.subsections parent name ≡ none
      → t ≡ record s {
        count = (s.count + 1) % 2 ^ 64;
        waiting = record { parent = parent; name = name; collector_index = s.count } ∷ s.waiting;
      }
      → Step s t
  inserts :
      (xs ys : List Item) (item : Item)
      → s.waiting ≡ xs ++ item ∷ ys
      → t ≡ record s { subsections = (insert s.subsections item).0; waiting = xs ++ ys }
      → Step s t

unfoldable pub start : Sections
start = record { count = 2; subsections = []; waiting = [] }

pub data Reach : Sections → Type 0 where
  here : Reach start
  next : {s t : Sections} → Reach s → Step s t → Reach t
