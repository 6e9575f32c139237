-- ===== src/Recorder/Replay.antt =====
-- src/msg_recorder/replayer.h and replayer.cc: the readers of a MessageReplayer and the loop that
-- publishes their messages. A reader is its channel and what its iterator has left. The heap is
-- std::push_heap and std::pop_heap: a pop takes some reader that Compare puts after no other, which of
-- several is not said. The waiting between messages (speed-up rate, clock) changes no order and is
-- left out.
pub mod Sorted
pub mod Order
pub mod Keys
pub mod Progress
pub mod Complete
use cris_core.Prelude.{
  ℕ, zero, suc, ◌+◌, ◌≡◌, Bool, true, false, List, [], ◌∷◌, ◌++◌, length, Ordering,
}
use cris_core.Recorder.Key.{RecordFileKey, compare_keys}

abbrev pub Entry : Type 0
Entry = RecordFileKey × List ℕ

pub record RecordReader : Type 0 where
  pub subid : ℕ
  pub record_itr : List Entry

-- Compare(lhs, rhs) > 0 of the keys.
abbrev pub is_after : Ordering → Bool
is_after Ordering.lt = false
is_after Ordering.eq = false
is_after Ordering.gt = true

unfoldable pub compares : RecordFileKey → RecordFileKey → Bool
compares lhs rhs = is_after (compare_keys lhs rhs)

unfoldable pub IsNotAfter : RecordFileKey → List Entry → Type 0
IsNotAfter key [] = Unit
IsNotAfter key (e ∷ es) = compares key e.0 ≡ false

-- A key stands after no reader's current one. A reader with no entry left is not in the heap.
unfoldable pub IsFirst : RecordFileKey → List RecordReader → Type 0
IsFirst key [] = Unit
IsFirst key (r ∷ readers) = IsNotAfter key r.record_itr × IsFirst key readers

-- A message, with the place of its reader.
pub record Published : Type 0 where
  pub reader : ℕ
  pub subid : ℕ
  pub entry : Entry

pub record State : Type 0 where
  pub shutdown_flag : Bool
  pub record_readers : List RecordReader
  pub published : List Published

-- RegisterChannel: an iterator that has no entry makes no reader.
unfoldable pub register_channel : List RecordReader → ℕ → List Entry → List RecordReader × Bool
register_channel readers subid [] = (readers, false)
register_channel readers subid (e ∷ es) =
    (readers ++ record { subid = subid; record_itr = e ∷ es } ∷ [], true)

-- One round of ReplayMessages (Pop, Publish, Next, and Push where something is left), or
-- StopMainLoop.
pub data Step (s t : State) : Type 0 where
  replays :
      (xs ys : List RecordReader) (subid : ℕ) (e : Entry) (es : List Entry)
      → s.shutdown_flag ≡ false
      → s.record_readers ≡ xs ++ record { subid = subid; record_itr = e ∷ es } ∷ ys
      → IsFirst e.0 s.record_readers
      → t ≡ record s {
        record_readers = xs ++ record { subid = subid; record_itr = es } ∷ ys;
        published = s.published ++ record { reader = length xs; subid = subid; entry = e } ∷ [];
      }
      → Step s t
  stops : t ≡ record s { shutdown_flag = true } → Step s t

unfoldable pub start : List RecordReader → State
start readers = record { shutdown_flag = false; record_readers = readers; published = [] }

pub data Reach (readers : List RecordReader) : State → Type 0 where
  here : Reach readers (start readers)
  next : {s t : State} → Reach readers s → Step s t → Reach readers t
