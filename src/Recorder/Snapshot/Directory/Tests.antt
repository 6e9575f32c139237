-- ===== src/Recorder/Snapshot/Directory/Tests.antt =====
-- A snapshot of two open files by src/msg_recorder/recorder.cc.
use cris_core.Prelude.{
  ℕ, ◌≡◌, refl, true, false, Option, none, some, List, [], ◌∷◌, map, ◌==◌, if◌then◌else◌,
}
use cris_core.Recorder.File.{LevelDb, Disk, RecordFile}
use cris_core.Recorder.Snapshot.Directory.{generate_snapshot_impl}
use cris_core.Recorder.Snapshot.Directory.Copying.{
  opened, IsKept, IsSnapshot, generate_snapshot_impl-IsSnapshot,
}

abbrev or_new : Option ℕ → Option ℕ
or_new none = some 0
or_new (some db) = some db

-- A database is the number of its entries.
abbrev ldb : LevelDb ℕ
ldb = record {
  open_default = or_new;
  open_legacy = λ db. none;
  is_empty = λ legacy db. db == 0;
  is_empty_dir = λ db. false;
  is_leveldb_dir = λ db. true;
}

abbrev two_files : List RecordFile
two_files =
    record { filepath = 1; has_db = true; legacy = false }
    ∷ record { filepath = 2; has_db = true; legacy = false }
    ∷ []

abbrev disk : Disk ℕ
disk = record {
  finished = λ p. none;
  saving = λ p. if p == 1 then some 5 else if p == 2 then some 6 else none;
}

abbrev entries : ℕ → ℕ
entries p = if p == 1 then 5 else 6

first-IsKept : IsKept ldb entries (record { filepath = 1; has_db = true; legacy = false })
first-IsKept = record { named = refl; opens = refl; full = refl; nonempty_dir = refl }

second-IsKept : IsKept ldb entries (record { filepath = 2; has_db = true; legacy = false })
second-IsKept = record { named = refl; opens = refl; full = refl; nonempty_dir = refl }

-- A copy that fails is not kept, and the files are opened all the same.
failed_copy :
    ((generate_snapshot_impl ldb two_files disk true true true false).copy ≡ none)
    × ((generate_snapshot_impl ldb two_files disk true true true false).success ≡ false)
unfolding generate_snapshot_impl
failed_copy = (refl, refl)

generate_snapshot_impl-IsSnapshot_example :
    (copy : Disk ℕ) × (after : Disk ℕ) × (generate_snapshot_impl ldb
        (map opened two_files)
        disk
        true
        true
        true
        true
      ≡ record { copy = some copy; success = true; files = some (map opened two_files, after) })
    × IsSnapshot ldb entries two_files disk copy after
generate_snapshot_impl-IsSnapshot_example =
    generate_snapshot_impl-IsSnapshot ldb entries two_files disk true (refl, (refl, tt))
      (first-IsKept, (second-IsKept, tt)) ((refl, refl), ((refl, refl), tt))
