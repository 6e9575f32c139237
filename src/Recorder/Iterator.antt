-- ===== src/Recorder/Iterator.antt =====
-- RecordFileIterator and RecordFileReverseIterator of src/msg_recorder/record_file.h and
-- record_file.cc, over a leveldb::Iterator. That iterator is a parameter: its operations, and
-- the documented law that, from a position on, it passes a finite sequence of entries.
pub mod Entries
use cris_core.Prelude.{
  ℕ, zero, suc, ◌≡◌, Bool, true, false, Option, none, some, List, [], ◌∷◌, if◌then◌else◌, pos,
}
use cris_core.Recorder.Key.{RecordFileKey, from_bytes, from_bytes_legacy}

pub record LevelDbIterator (C : Type 0) : Type 0 where
  pub valid : C → Bool
  pub next : C → C
  pub prev : C → C
  pub key : C → List ℕ
  pub value : C → List ℕ

-- A RecordFileReverseIterator is a RecordFileIterator that goes by Prev.
pub reversed : {C : Type 0} → LevelDbIterator C → LevelDbIterator C
reversed db = record db { next = db.prev; prev = db.next }

-- `ahead` are the entries that an iterator has at and after a position.
pub record IsFinite {C : Type 0} (db : LevelDbIterator C) (ahead : C → List (List ℕ × List ℕ))
    : Type 0 where
  pub at_entry : (c : C) → db.valid c ≡ true → ahead c ≡ (db.key c, db.value c) ∷ ahead (db.next c)
  pub at_end : (c : C) → db.valid c ≡ false → ahead c ≡ []

unfoldable pub read_key : Bool → List ℕ → Option RecordFileKey
read_key legacy bytes = if legacy then from_bytes_legacy bytes else from_bytes bytes

module _ {C : Type 0} (db : LevelDbIterator C) where
  pub record RecordFileIterator : Type 0 where
    pub db_itr : C
    pub legacy : Bool
    pub current_key : RecordFileKey

  unfoldable pub try_read_current_key : RecordFileIterator → Option RecordFileKey
  try_read_current_key itr = read_key itr.legacy (db.key itr.db_itr)

  abbrev pub moved : RecordFileIterator → RecordFileIterator
  moved itr = record itr { db_itr = db.next itr.db_itr }

  -- The fuel is the number of entries that are ahead.
  unfoldable pub read_next_valid_key : ℕ → RecordFileIterator → RecordFileIterator
  read_next_valid_key zero itr = itr
  read_next_valid_key (suc fuel) itr =
      let rest = read_next_valid_key fuel (moved itr) in
      if db.valid itr.db_itr
      then elim (try_read_current_key itr) [
        | none ↦ rest
        | some key ↦ record itr { current_key = key }
      ]
      else itr

  -- The constructor.
  unfoldable pub iterator : ℕ → C → Bool → RecordFileIterator
  iterator fuel c legacy = read_next_valid_key fuel (record {
    db_itr = c;
    legacy = legacy;
    current_key = record { timestamp_ns = pos 0; count = 0 };
  })

  unfoldable pub valid : RecordFileIterator → Bool
  valid itr = db.valid itr.db_itr

  unfoldable pub get : RecordFileIterator → RecordFileKey × List ℕ
  get itr = (itr.current_key, db.value itr.db_itr)

  unfoldable pub next : ℕ → RecordFileIterator → RecordFileIterator
  next fuel itr = read_next_valid_key fuel (moved itr)

  -- `for (; itr.Valid(); itr.Next()) itr.Get()`, as the users of an iterator run it.
  unfoldable pub read_all : ℕ → ℕ → RecordFileIterator → List (RecordFileKey × List ℕ)
  read_all zero fuel itr = []
  read_all (suc steps) fuel itr =
      let rest = read_all steps fuel (next fuel itr) in if valid itr then get itr ∷ rest else []
