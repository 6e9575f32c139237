-- ===== src/Recorder/File/Tests.antt =====
-- Examples of opening, closing and rolling the record files of src/msg_recorder/record_file.cc.
use cris_core.Prelude.{ℕ, ◌≡◌, refl, true, false, Option, none, some, ◌==◌, if◌then◌else◌}
use cris_core.Recorder.File.{LevelDb, Disk, RecordFile, close_db}
use cris_core.Recorder.File.Lifecycle.{Lifecycle, open_db-close_db}
use cris_core.Recorder.File.Faults.{close_db-removes}

-- A database as the number of its entries; a directory with 99 is locked and cannot be opened.
abbrev opens_number : Option ℕ → Option ℕ
opens_number none = some 0
opens_number (some n) = if n == 99 then none else some n

abbrev numbers : LevelDb ℕ
numbers = record {
  open_default = opens_number;
  open_legacy = opens_number;
  is_empty = λ legacy n. n == 0;
  is_empty_dir = λ n. false;
  is_leveldb_dir = λ n. true;
}

abbrev closed_file : RecordFile
closed_file = record { filepath = 1; has_db = false; legacy = false }

abbrev finished_disk : Disk ℕ
finished_disk = record { finished = λ p. if p == 1 then some 5 else none; saving = λ p. none }

open_db-close_db_example : Lifecycle numbers closed_file finished_disk 5
open_db-close_db_example =
    open_db-close_db numbers closed_file finished_disk 5 refl refl refl refl refl refl refl

abbrev open_file : RecordFile
open_file = record { filepath = 1; has_db = true; legacy = false }

abbrev taken_disk : Disk ℕ
taken_disk = record {
  finished = λ p. if p == 1 then some 7 else none;
  saving = λ p. if p == 1 then some 0 else none;
}

close_db-removes_example :
    ((close_db numbers open_file taken_disk true).1.finished 1 ≡ none)
    × ((close_db numbers open_file taken_disk true).1.saving 1 ≡ some 0)
close_db-removes_example =
    close_db-removes numbers open_file taken_disk 0 7 true refl refl refl refl
