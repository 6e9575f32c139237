-- ===== src/Recorder/Tests.antt =====
-- Runs and examples of the recorder and the replayer of src/msg_recorder.
use cris_core.Prelude.{
  ℕ, ◌*◌, ◌%◌, ◌≡◌, refl, compare, Ordering, true, false, some, none, List, [], ◌∷◌, pos, pos_part,
  arith,
}
use cris_core.Recorder.Key.{
  RecordFileKey, to_bytes, from_bytes, digits, compare_keys, compare_bytes, read_digits,
}
use cris_core.Recorder.Key.Order.{IsKey, compare_keys-lexicographic}
use cris_core.Recorder.Key.Roundtrip.{from_bytes-to_bytes}
use cris_core.Recorder.Rolling.{
  Metadata, need_to_roll, update, reset, write, roll, put, new_by_size,
}
use cris_core.Recorder.Rolling.Sizes.{
  Message, write_all, AllFit, Fits, AreWords, rolling_by_size, write_all-AllFit,
}
use cris_core.Recorder.Iterator.{LevelDbIterator, IsFinite, iterator, read_all}
use cris_core.Recorder.Iterator.Entries.{readable, iterator-readable}
use cris_core.Recorder.Replay.{
  RecordReader, IsFirst, IsNotAfter, compares, State, replays, start, Reach, here, next,
}
use cris_core.Recorder.Replay.Keys.{AreRecords}
use cris_core.Recorder.Replay.Complete.{Complete, Ends, replay-Complete}

abbrev early : RecordFileKey
early = record { timestamp_ns = pos 42; count = 7 }

abbrev late : RecordFileKey
late = record { timestamp_ns = pos 43; count = 0 }

early-IsKey : IsKey early
early-IsKey = record { timestamp = omega arith; count = omega arith }

late-IsKey : IsKey late
late-IsKey = record { timestamp = omega arith; count = omega arith }

bytes_seen : from_bytes (to_bytes early) ≡ some early
unfolding from_bytes to_bytes digits read_digits
bytes_seen = refl

-- "T1ns" has no count.
short_seen : from_bytes (84 ∷ 49 ∷ 110 ∷ 115 ∷ []) ≡ none
unfolding from_bytes read_digits
short_seen = refl

from_bytes-to_bytes_example :
    from_bytes (to_bytes early) ≡ some (record { timestamp_ns = pos 42; count = 7 })
from_bytes-to_bytes_example = from_bytes-to_bytes early early-IsKey

compare_keys-lexicographic_example :
    compare_keys early late
    ≡ (elim (compare (pos_part early.timestamp_ns) (pos_part late.timestamp_ns)) [
      | Ordering.lt ↦ Ordering.lt
      | Ordering.eq ↦ compare early.count late.count
      | Ordering.gt ↦ Ordering.gt
    ])
compare_keys-lexicographic_example = compare_keys-lexicographic early late early-IsKey late-IsKey

abbrev zeros : ℕ → ℕ
zeros i = 0

abbrev some_message : Metadata
some_message = record { time = 1700000000000000000; value_size = 600000 }

abbrev two_messages : List Message
two_messages =
    record { metadata = some_message; now = 0; puts = true }
    ∷ record { metadata = some_message; now = 0; puts = true }
    ∷ []

two_messages-AreWords : AreWords two_messages
unfolding AreWords
two_messages-AreWords = (omega arith, (omega arith, tt))

-- With a limit of one megabyte the second message comes into a new database.
rolled_seen : (write_all (rolling_by_size 1) two_messages).closed ≡ (600000 ∷ []) ∷ []
unfolding write_all write put update need_to_roll roll reset new_by_size
rolled_seen = refl

write_all-AllFit_example :
    AllFit
      ((1 * 1000000) % 18446744073709551616)
      (write_all (rolling_by_size 1) two_messages).closed
    × Fits
        ((1 * 1000000) % 18446744073709551616)
        (write_all (rolling_by_size 1) two_messages).current
write_all-AllFit_example = write_all-AllFit 1 two_messages two_messages-AreWords

-- A database as the list of the entries that are ahead.
abbrev Ahead : Type 0
Ahead = List (List ℕ × List ℕ)

abbrev on_list : LevelDbIterator Ahead
on_list = record {
  valid = λ c. elim c [ [] ↦ false | x ∷ xs ↦ true ];
  next = λ c. elim c [ [] ↦ [] | x ∷ xs ↦ xs ];
  prev = λ c. c;
  key = λ c. elim c [ [] ↦ [] | x ∷ xs ↦ x.0 ];
  value = λ c. elim c [ [] ↦ [] | x ∷ xs ↦ x.1 ];
}

on_list_entry :
    (c : Ahead) → on_list.valid c ≡ true → c ≡ (on_list.key c, on_list.value c) ∷ on_list.next c
on_list_entry [] e = ground arith
on_list_entry (x ∷ xs) e = refl

on_list_end : (c : Ahead) → on_list.valid c ≡ false → c ≡ []
on_list_end [] e = refl
on_list_end (x ∷ xs) e = ground arith

on_list-IsFinite : IsFinite on_list (λ c. c)
on_list-IsFinite = record { at_entry = on_list_entry; at_end = on_list_end }

-- The second entry's key is no RecordFileKey.
abbrev entries : Ahead
entries = (to_bytes early, 1 ∷ []) ∷ (84 ∷ [], 2 ∷ []) ∷ (to_bytes late, 3 ∷ []) ∷ []

iterator-readable_example :
    read_all on_list 3 3 (iterator on_list 3 entries false) ≡ readable false entries
iterator-readable_example =
    iterator-readable on_list (λ c. c) on_list-IsFinite entries false 3 (omega arith)

abbrev two_readers : List RecordReader
two_readers =
    record { subid = 1; record_itr = (early, 1 ∷ []) ∷ (late, 2 ∷ []) ∷ [] }
    ∷ record { subid = 2; record_itr = (late, 3 ∷ []) ∷ [] }
    ∷ []

two_readers-AreRecords : AreRecords two_readers
two_readers-AreRecords = ((early-IsKey, refl, late-IsKey), (late-IsKey, tt))

-- The first message is published.
abbrev one_published : State
one_published = record {
  shutdown_flag = false;
  record_readers =
      record { subid = 1; record_itr = (late, 2 ∷ []) ∷ [] }
      ∷ record { subid = 2; record_itr = (late, 3 ∷ []) ∷ [] }
      ∷ [];
  published = record { reader = 0; subid = 1; entry = (early, 1 ∷ []) } ∷ [];
}

one_published-Reach : Reach two_readers one_published
unfolding start IsFirst IsNotAfter compares compare_keys compare_bytes to_bytes digits
one_published-Reach = next here (
    replays [] (record { subid = 2; record_itr = (late, 3 ∷ []) ∷ [] } ∷ []) 1 (early, 1 ∷ [])
      ((late, 2 ∷ []) ∷ []) refl refl (refl, (refl, tt)) refl)

replay-Complete_example : Complete two_readers one_published × Ends two_readers
replay-Complete_example =
    replay-Complete two_readers one_published two_readers-AreRecords one_published-Reach
