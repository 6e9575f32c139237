-- ===== src/Recorder/Replay/Sorted.antt =====
-- What the loop of src/msg_recorder/replayer.cc publishes is in the order of the keys.
use cris_core.Prelude.{◌≡◌, false, List, [], ◌∷◌, ◌++◌, length, subst}
use cris_core.Recorder.Key.{RecordFileKey}
use cris_core.Recorder.Replay.{
  Entry, RecordReader, compares, IsNotAfter, IsFirst, Published, State, Step, replays, stops, start,
  Reach, here, next,
}
use cris_core.Recorder.Replay.Order.{compares_trans}

-- Every entry of a record file is followed only by entries that its key does not stand after.
unfoldable pub IsAscending : List Entry → Type 0
IsAscending [] = Unit
IsAscending (e ∷ es) = IsNotAfter e.0 es × IsAscending es

unfoldable pub AreAscending : List RecordReader → Type 0
AreAscending [] = Unit
AreAscending (r ∷ rs) = IsAscending r.record_itr × AreAscending rs

-- No published key stands after a key.
unfoldable pub AllBefore : List Published → RecordFileKey → Type 0
AllBefore [] key = Unit
AllBefore (p ∷ ps) key = (compares p.entry.0 key ≡ false) × AllBefore ps key

-- A key stands after no published one.
unfoldable pub AllAfter : RecordFileKey → List Published → Type 0
AllAfter key [] = Unit
AllAfter key (p ∷ ps) = (compares key p.entry.0 ≡ false) × AllAfter key ps

unfoldable pub IsSorted : List Published → Type 0
IsSorted [] = Unit
IsSorted (p ∷ ps) = AllAfter p.entry.0 ps × IsSorted ps

IsBounded : List Published → List Entry → Type 0
IsBounded ps [] = Unit
IsBounded ps (e ∷ es) = AllBefore ps e.0

AreBounded : List Published → List RecordReader → Type 0
AreBounded ps [] = Unit
AreBounded ps (r ∷ rs) = IsBounded ps r.record_itr × AreBounded ps rs

AllAfter-snoc :
    (key : RecordFileKey) (ps : List Published) (p : Published)
    → AllAfter key ps
    → compares key p.entry.0 ≡ false
    → AllAfter key (ps ++ p ∷ [])
unfolding AllAfter
AllAfter-snoc key [] p h k = (k, tt)
AllAfter-snoc key (q ∷ ps) p h k = (h.0, AllAfter-snoc key ps p h.1 k)

AllBefore-snoc :
    (ps : List Published) (p : Published) (key : RecordFileKey)
    → AllBefore ps key
    → compares p.entry.0 key ≡ false
    → AllBefore (ps ++ p ∷ []) key
unfolding AllBefore
AllBefore-snoc [] p key h k = (k, tt)
AllBefore-snoc (q ∷ ps) p key h k = (h.0, AllBefore-snoc ps p key h.1 k)

AllBefore-trans :
    (ps : List Published) (k l : RecordFileKey)
    → AllBefore ps k
    → compares k l ≡ false
    → AllBefore ps l
unfolding AllBefore
AllBefore-trans [] k l h e = tt
AllBefore-trans (p ∷ ps) k l h e =
    (compares_trans p.entry.0 k l h.0 e, AllBefore-trans ps k l h.1 e)

IsSorted-snoc :
    (ps : List Published) (p : Published)
    → IsSorted ps
    → AllBefore ps p.entry.0
    → IsSorted (ps ++ p ∷ [])
unfolding IsSorted AllBefore AllAfter
IsSorted-snoc [] p h k = (tt, tt)
IsSorted-snoc (q ∷ ps) p h k = (AllAfter-snoc q.entry.0 ps p h.0 k.0, IsSorted-snoc ps p h.1 k.1)

-- The entries left are bounded still, once the one published stands after no reader's current key.
IsBounded-snoc :
    (ps : List Published) (p : Published) (es : List Entry)
    → IsBounded ps es
    → IsNotAfter p.entry.0 es
    → IsBounded (ps ++ p ∷ []) es
unfolding IsBounded IsNotAfter
IsBounded-snoc ps p [] h k = tt
IsBounded-snoc ps p (e ∷ es) h k = AllBefore-snoc ps p e.0 h k

AreBounded-snoc :
    (ps : List Published) (p : Published) (rs : List RecordReader)
    → AreBounded ps rs
    → IsFirst p.entry.0 rs
    → AreBounded (ps ++ p ∷ []) rs
unfolding AreBounded IsFirst
AreBounded-snoc ps p [] h k = tt
AreBounded-snoc ps p (r ∷ rs) h k =
    (IsBounded-snoc ps p r.record_itr h.0 k.0, AreBounded-snoc ps p rs h.1 k.1)

IsBounded-next :
    (ps : List Published) (e : Entry) (es : List Entry)
    → AllBefore ps e.0
    → IsNotAfter e.0 es
    → IsBounded ps es
unfolding IsBounded IsNotAfter
IsBounded-next ps e [] h k = tt
IsBounded-next ps e (f ∷ es) h k = AllBefore-trans ps e.0 f.0 h k

record Inv (s : State) : Type 0 where
  sorted : IsSorted s.published
  ascending : AreAscending s.record_readers
  bounded : AreBounded s.published s.record_readers

-- What holds of a reader among the readers, and of them with another one in its place.
record Among (ps : List Published) (key : RecordFileKey) (es : List Entry) : Type 0 where
  first : IsNotAfter key es
  ascending : IsAscending es
  bounded : IsBounded ps es

record Others (ps : List Published) (key : RecordFileKey) (rs : List RecordReader) : Type 0 where
  first : IsFirst key rs
  ascending : AreAscending rs
  bounded : AreBounded ps rs

among :
    (ps : List Published) (key : RecordFileKey) (xs ys : List RecordReader) (r : RecordReader)
    → Others ps key (xs ++ r ∷ ys)
    → Among ps key r.record_itr
unfolding IsFirst AreAscending AreBounded
among ps key [] ys r o = record {
  first = o.first.0;
  ascending = o.ascending.0;
  bounded = o.bounded.0;
}
among ps key (x ∷ xs) ys r o =
    among ps key xs ys r
      (record { first = o.first.1; ascending = o.ascending.1; bounded = o.bounded.1 })

exchange :
    (ps : List Published) (key : RecordFileKey) (xs ys : List RecordReader) (r q : RecordReader)
    → Others ps key (xs ++ r ∷ ys)
    → Among ps key q.record_itr
    → Others ps key (xs ++ q ∷ ys)
unfolding IsFirst AreAscending AreBounded
exchange ps key [] ys r q o a = record {
  first = (a.first, o.first.1);
  ascending = (a.ascending, o.ascending.1);
  bounded = (a.bounded, o.bounded.1);
}
exchange ps key (x ∷ xs) ys r q o a =
    let rest =
      exchange ps key xs ys r q
        (record { first = o.first.1; ascending = o.ascending.1; bounded = o.bounded.1 }) a in
    record {
      first = (o.first.0, rest.first);
      ascending = (o.ascending.0, rest.ascending);
      bounded = (o.bounded.0, rest.bounded);
    }

Step-Inv : (s t : State) → Step s t → Inv s → Inv t
unfolding IsAscending IsBounded
Step-Inv s t (stops e) inv =
    rw e (record { sorted = inv.sorted; ascending = inv.ascending; bounded = inv.bounded })
Step-Inv s t (replays xs ys subid e es f g first h) inv =
    let r : RecordReader = record { subid = subid; record_itr = e ∷ es } in
    let q : RecordReader = record { subid = subid; record_itr = es } in
    let p : Published = record { reader = length xs; subid = subid; entry = e } in
    let before : Others s.published e.0 s.record_readers = record {
      first = first;
      ascending = inv.ascending;
      bounded = inv.bounded;
    } in
    let others : Others s.published e.0 (xs ++ r ∷ ys) =
      subst (λ (rs : List RecordReader). Others s.published e.0 rs) g before in
    let own = among s.published e.0 xs ys r others in
    let left : Among s.published e.0 es = record {
      first = own.ascending.0;
      ascending = own.ascending.1;
      bounded = IsBounded-next s.published e es own.bounded own.ascending.0;
    } in
    let after = exchange s.published e.0 xs ys r q others left in
    rw h (record {
      sorted = IsSorted-snoc s.published p inv.sorted own.bounded;
      ascending = after.ascending;
      bounded = AreBounded-snoc s.published p (xs ++ q ∷ ys) after.bounded after.first;
    })

IsBounded-none : (es : List Entry) → IsBounded [] es
unfolding IsBounded AllBefore
IsBounded-none [] = tt
IsBounded-none (e ∷ es) = tt

AreBounded-none : (readers : List RecordReader) → AreBounded [] readers
unfolding AreBounded
AreBounded-none [] = tt
AreBounded-none (r ∷ rs) = (IsBounded-none r.record_itr, AreBounded-none rs)

start-Inv : (readers : List RecordReader) → AreAscending readers → Inv (start readers)
unfolding start IsSorted
start-Inv readers a = record { sorted = tt; ascending = a; bounded = AreBounded-none readers }

Reach-Inv :
    (readers : List RecordReader) (s : State) → AreAscending readers → Reach readers s → Inv s
Reach-Inv readers s a here = start-Inv readers a
Reach-Inv readers s a (next {s = u} r st) = Step-Inv u s st (Reach-Inv readers u a r)

-- Where each record file is in the order of its keys, as its database keeps it, whatever the heap
-- does with readers of equal keys and whenever the loop is stopped, the messages published so far are
-- in the order of their keys: none is published before one that its key stands after.
pub published-IsSorted :
    (readers : List RecordReader) (s : State)
    → AreAscending readers
    → Reach readers s
    → IsSorted s.published
published-IsSorted readers s a r = let inv = Reach-Inv readers s a r in inv.sorted
