-- ===== src/Recorder/File/Faults.antt =====
-- What src/msg_recorder/record_file.cc does where a new database cannot be opened, or where another one
-- has come to the path of the one that is open.
use cris_core.Prelude.{ℕ, ◌≡◌, refl, Bool, true, false, none, some, ==_refl}
use cris_core.Recorder.File.{LevelDb, Disk, RecordFile, open_path, commit_db, close_db, roll}

module _ {Db : Type 0} (ldb : LevelDb Db) where
  -- A roll whose new database can be opened by neither comparator leaves the open database and the
  -- disk as they were, but for the legacy flag, which it sets.
  failed_roll_lem :
      (f : RecordFile) (disk : Disk Db) (new_filepath : ℕ) (renames : Bool)
      → ldb.open_default (disk.saving new_filepath) ≡ none
      → ldb.open_legacy (disk.saving new_filepath) ≡ none
      → roll ldb f disk new_filepath renames true ≡ (record f { legacy = true }, disk, false)
  unfolding roll open_path
  failed_roll_lem f disk new_filepath renames e g = rw (e, g) refl

  commit_db_taken :
      (disk : Disk Db) (path : ℕ) (db other : Db) (renames : Bool)
      → disk.saving path ≡ some db
      → disk.finished path ≡ some other
      → commit_db ldb disk path renames ≡ disk
  unfolding commit_db
  commit_db_taken disk path db other renames e g = rw (e, g) refl

  -- Closing a database without readable entries, where another LevelDB directory has come to its path
  -- since it was opened, removes that other directory and leaves its own unfinished.
  pub close_db-removes :
      (f : RecordFile) (disk : Disk Db) (db other : Db) (renames : Bool)
      → disk.saving f.filepath ≡ some db
      → disk.finished f.filepath ≡ some other
      → ldb.is_empty f.legacy db ≡ true
      → ldb.is_leveldb_dir other ≡ true
      → ((close_db ldb (record f { has_db = true }) disk renames).1.finished f.filepath ≡ none)
        × ((close_db ldb (record f { has_db = true }) disk renames).1.saving f.filepath ≡ some db)
  unfolding close_db
  close_db-removes f disk db other renames e g empty levels =
      let same = commit_db_taken disk f.filepath db other renames e g in
      let here = ==_refl f.filepath in
      (rw (same, e, g, empty, levels, here) refl, rw (same, e, g, empty, levels) e)
