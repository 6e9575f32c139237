-- ===== src/Recorder/Replay/Keys.antt =====
-- The order of what src/msg_recorder/replayer.cc publishes, by the numbers of the keys.
use cris_core.Prelude.{
  ℕ, ◌≡◌, refl, Bool, true, false, not, ◌&&◌, ◌||◌, List, [], ◌∷◌, ◌++◌, ltb, leb, ◌==◌, ◌∙◌, sym,
  ap, length, Ordering, compare, pos_part, arith,
}
use cris_core.Recorder.Key.{RecordFileKey}
use cris_core.Recorder.Key.Order.{IsKey, compare_keys-lexicographic}
use cris_core.Recorder.Replay.{
  Entry, RecordReader, is_after, compares, IsNotAfter, Published, State, Step, replays, stops,
  start, Reach, here, next,
}
use cris_core.Recorder.Replay.Sorted.{
  IsAscending, AreAscending, AllAfter, IsSorted, published-IsSorted,
}

-- By the timestamps, and by the counts where these are the same.
abbrev pub is_by : RecordFileKey → RecordFileKey → Bool
is_by lhs rhs =
    ltb (pos_part lhs.timestamp_ns) (pos_part rhs.timestamp_ns)
    || (pos_part lhs.timestamp_ns == pos_part rhs.timestamp_ns && leb lhs.count rhs.count)

lexicographic-is_by :
    (t u c d : ℕ)
    → is_after (elim (compare t u) [
      | Ordering.lt ↦ Ordering.lt
      | Ordering.eq ↦ compare c d
      | Ordering.gt ↦ Ordering.gt
    ])
      ≡ not (ltb t u || (t == u && leb c d))
lexicographic-is_by t u c d = ground arith

compares-is_by :
    (lhs rhs : RecordFileKey) → IsKey lhs → IsKey rhs → compares lhs rhs ≡ not (is_by lhs rhs)
unfolding compares
compares-is_by lhs rhs h k =
    ap is_after (compare_keys-lexicographic lhs rhs h k)
    ∙ lexicographic-is_by (pos_part lhs.timestamp_ns) (pos_part rhs.timestamp_ns) lhs.count
        rhs.count

-- A record file: keys of the widths that the code writes, in their order.
abbrev pub IsRecord : List Entry → Type 0
IsRecord [] = Unit
IsRecord (e ∷ []) = IsKey e.0
IsRecord (e ∷ f ∷ es) = IsKey e.0 × (is_by e.0 f.0 ≡ true) × IsRecord (f ∷ es)

abbrev pub AreRecords : List RecordReader → Type 0
AreRecords [] = Unit
AreRecords (r ∷ rs) = IsRecord r.record_itr × AreRecords rs

-- No message is published before one whose key is less.
abbrev pub AllBy : RecordFileKey → List Published → Type 0
AllBy key [] = Unit
AllBy key (p ∷ ps) = (is_by key p.entry.0 ≡ true) × AllBy key ps

abbrev pub AreInOrder : List Published → Type 0
AreInOrder [] = Unit
AreInOrder (p ∷ ps) = AllBy p.entry.0 ps × AreInOrder ps

head-IsKey : (e : Entry) (es : List Entry) → IsRecord (e ∷ es) → IsKey e.0
head-IsKey e [] h = h
head-IsKey e (f ∷ es) h = h.0

IsRecord-IsAscending : (es : List Entry) → IsRecord es → IsAscending es
unfolding IsAscending IsNotAfter
IsRecord-IsAscending [] h = tt
IsRecord-IsAscending (e ∷ []) h = (tt, tt)
IsRecord-IsAscending (e ∷ f ∷ es) h = (
  compares-is_by e.0 f.0 h.0 (head-IsKey f es h.2) ∙ ap not h.1,
  IsRecord-IsAscending (f ∷ es) h.2,
)

pub AreRecords-AreAscending : (rs : List RecordReader) → AreRecords rs → AreAscending rs
unfolding AreAscending
AreRecords-AreAscending [] h = tt
AreRecords-AreAscending (r ∷ rs) h =
    (IsRecord-IsAscending r.record_itr h.0, AreRecords-AreAscending rs h.1)

abbrev HaveKeys : List Published → Type 0
HaveKeys [] = Unit
HaveKeys (p ∷ ps) = IsKey p.entry.0 × HaveKeys ps

abbrev EntriesHaveKeys : List Entry → Type 0
EntriesHaveKeys [] = Unit
EntriesHaveKeys (e ∷ es) = IsKey e.0 × EntriesHaveKeys es

abbrev ReadersHaveKeys : List RecordReader → Type 0
ReadersHaveKeys [] = Unit
ReadersHaveKeys (r ∷ rs) = EntriesHaveKeys r.record_itr × ReadersHaveKeys rs

HaveKeys-snoc :
    (ps : List Published) (p : Published) → HaveKeys ps → IsKey p.entry.0 → HaveKeys (ps ++ p ∷ [])
HaveKeys-snoc [] p h k = (k, tt)
HaveKeys-snoc (q ∷ ps) p h k = (h.0, HaveKeys-snoc ps p h.1 k)

reader-HaveKeys :
    (xs ys : List RecordReader) (subid : ℕ) (e : Entry) (es : List Entry)
    → ReadersHaveKeys (xs ++ record { subid = subid; record_itr = e ∷ es } ∷ ys)
    → IsKey e.0 × ReadersHaveKeys (xs ++ record { subid = subid; record_itr = es } ∷ ys)
reader-HaveKeys [] ys subid e es h = (h.0.0, (h.0.1, h.1))
reader-HaveKeys (x ∷ xs) ys subid e es h =
    let (key, rest) = reader-HaveKeys xs ys subid e es h.1 in (key, (h.0, rest))

Step-HaveKeys :
    (s t : State)
    → Step s t
    → HaveKeys s.published × ReadersHaveKeys s.record_readers
    → HaveKeys t.published × ReadersHaveKeys t.record_readers
Step-HaveKeys s t (stops e) h = rw e h
Step-HaveKeys s t (replays xs ys subid e es f g first k) h =
    let (key, rest) = reader-HaveKeys xs ys subid e es (rw g at h.1) in
    rw k (
      HaveKeys-snoc s.published (record { reader = length xs; subid = subid; entry = e }) h.0 key,
      rest,
    )

IsRecord-HaveKeys : (es : List Entry) → IsRecord es → EntriesHaveKeys es
IsRecord-HaveKeys [] h = tt
IsRecord-HaveKeys (e ∷ []) h = (h, tt)
IsRecord-HaveKeys (e ∷ f ∷ es) h = (h.0, IsRecord-HaveKeys (f ∷ es) h.2)

AreRecords-HaveKeys : (rs : List RecordReader) → AreRecords rs → ReadersHaveKeys rs
AreRecords-HaveKeys [] h = tt
AreRecords-HaveKeys (r ∷ rs) h = (IsRecord-HaveKeys r.record_itr h.0, AreRecords-HaveKeys rs h.1)

Reach-HaveKeys :
    (readers : List RecordReader) (s : State)
    → AreRecords readers
    → Reach readers s
    → HaveKeys s.published × ReadersHaveKeys s.record_readers
unfolding start
Reach-HaveKeys readers s a here = (tt, AreRecords-HaveKeys readers a)
Reach-HaveKeys readers s a (next {s = u} r st) = Step-HaveKeys u s st (Reach-HaveKeys readers u a r)

not_after : (b c : Bool) → b ≡ not c → b ≡ false → c ≡ true
not_after b true e h = refl
not_after b false e h = sym h ∙ e

AllAfter-AllBy :
    (key : RecordFileKey) (ps : List Published)
    → IsKey key
    → HaveKeys ps
    → AllAfter key ps
    → AllBy key ps
unfolding AllAfter
AllAfter-AllBy key [] k h a = tt
AllAfter-AllBy key (p ∷ ps) k h a = (
  not_after (compares key p.entry.0) (is_by key p.entry.0) (compares-is_by key p.entry.0 k h.0) a.0,
  AllAfter-AllBy key ps k h.1 a.1,
)

IsSorted-AreInOrder : (ps : List Published) → HaveKeys ps → IsSorted ps → AreInOrder ps
unfolding IsSorted
IsSorted-AreInOrder [] h s = tt
IsSorted-AreInOrder (p ∷ ps) h s =
    (AllAfter-AllBy p.entry.0 ps h.0 h.1 s.0, IsSorted-AreInOrder ps h.1 s.1)

-- Whatever the heap does with readers of equal keys and whenever the loop is stopped, the messages
-- published so far are in the order of the numbers of their keys.
pub published-AreInOrder :
    (readers : List RecordReader) (s : State)
    → AreRecords readers
    → Reach readers s
    → AreInOrder s.published
published-AreInOrder readers s a r =
    IsSorted-AreInOrder s.published (Reach-HaveKeys readers s a r).0
      (published-IsSorted readers s (AreRecords-AreAscending readers a) r)
