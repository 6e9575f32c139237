-- ===== src/Recorder/File.antt =====
-- RecordFile of src/msg_recorder/record_file.h and record_file.cc: opening, closing and rolling a
-- database, and the directories it lives in. A path is a number (0 the empty path); a database
-- that is open lies in the directory with ".saving" added to its path, a finished one in the
-- directory of the path itself. LevelDB is a parameter: what an opening makes of a directory, with
-- the default and with the legacy comparator. Links and compaction are left out.
pub mod Lifecycle
pub mod Faults
mod Tests
use cris_core.Prelude.{
  ℕ, ◌≡◌, Bool, true, false, not, ◌&&◌, ◌||◌, Option, none, some, ◌==◌, if◌then◌else◌,
}

pub record LevelDb (Db : Type 0) : Type 0 where
  -- DB::Open with create_if_missing on a directory that may not be there.
  pub open_default : Option Db → Option Db
  pub open_legacy : Option Db → Option Db
  -- Whether an iterator over the database, legacy or not, is at its end from the start.
  pub is_empty : Bool → Db → Bool
  -- The tests of IsEmptyDir and IsLevelDBDir on a directory that is there.
  pub is_empty_dir : Db → Bool
  pub is_leveldb_dir : Db → Bool

pub record Disk (Db : Type 0) : Type 0 where
  pub finished : ℕ → Option Db
  pub saving : ℕ → Option Db

abbrev pub at {ℓ} : {A : Type ℓ} → (ℕ → Option A) → ℕ → Option A → ℕ → Option A
at dirs path dir p = if p == path then dir else dirs p

abbrev pub exists {ℓ} : {A : Type ℓ} → Option A → Bool
exists none = false
exists (some d) = true

-- The opening itself: whether there is a database then, with legacy_ and the disk.
pub record Opened (Db : Type 0) : Type 0 where
  pub disk : Disk Db
  pub legacy : Bool
  pub success : Bool

pub record RecordFile : Type 0 where
  pub filepath : ℕ
  pub has_db : Bool
  pub legacy : Bool

module _ {Db : Type 0} (ldb : LevelDb Db) where
  -- CheckoutDB; `none` where it throws. `renames` is whether the directory can be renamed.
  unfoldable pub checkout_db : Disk Db → ℕ → Bool → Option (Disk Db)
  checkout_db disk path renames =
      if not (exists (disk.finished path))
      then some disk
      else (if exists (disk.saving path) || not renames
          then none
          else some (record {
            finished = at disk.finished path none;
            saving = at disk.saving path (disk.finished path);
          }))

  abbrev pub opened_legacy : Disk Db → ℕ → Option Db → Opened Db
  opened_legacy disk path none = record { disk = disk; legacy = true; success = false }
  opened_legacy disk path (some db) = record {
    disk = record disk { saving = at disk.saving path (some db) };
    legacy = true;
    success = true;
  }

  abbrev pub opened_default : Disk Db → ℕ → Bool → Option Db → Opened Db
  opened_default disk path legacy none =
      opened_legacy disk path (ldb.open_legacy (disk.saving path))
  opened_default disk path legacy (some db) = record {
    disk = record disk { saving = at disk.saving path (some db) };
    legacy = legacy;
    success = true;
  }

  -- OpenDB(path); `dirs` is whether MakeDirs succeeds.
  unfoldable pub open_path : Disk Db → ℕ → Bool → Bool → Opened Db
  open_path disk path legacy dirs =
      if not dirs
      then record { disk = disk; legacy = legacy; success = false }
      else opened_default disk path legacy (ldb.open_default (disk.saving path))

  abbrev pub opened_file : RecordFile → Opened Db → RecordFile × Disk Db × Bool
  opened_file f o = (record f { has_db = o.success; legacy = o.legacy }, o.disk, o.success)

  abbrev pub after_checkout :
      RecordFile → Option (Disk Db) → Bool → Option (RecordFile × Disk Db × Bool)
  after_checkout f none dirs = none
  after_checkout f (some disk) dirs = some (opened_file f (open_path disk f.filepath f.legacy dirs))

  -- OpenDB(); `none` where it throws.
  unfoldable pub open_db : RecordFile → Disk Db → Bool → Bool → Option (RecordFile × Disk Db × Bool)
  open_db f disk renames dirs =
      if f.has_db || f.filepath == 0
      then some (f, disk, false)
      else after_checkout f (checkout_db disk f.filepath renames) dirs

  -- CommitDB
  unfoldable pub commit_db : Disk Db → ℕ → Bool → Disk Db
  commit_db disk path renames =
      if not (exists (disk.saving path)) || exists (disk.finished path) || not renames
      then disk
      else record {
        finished = at disk.finished path (disk.saving path);
        saving = at disk.saving path none;
      }

  abbrev pub is_empty_at : Bool → Option Db → Bool
  is_empty_at legacy none = true
  is_empty_at legacy (some db) = ldb.is_empty legacy db

  abbrev pub should_remove : Bool → Option Db → Bool
  should_remove is_empty none = false
  should_remove is_empty (some db) = (is_empty || ldb.is_empty_dir db) && ldb.is_leveldb_dir db

  abbrev pub remove_empty : Bool → Disk Db → ℕ → Disk Db
  remove_empty is_empty disk path =
      if should_remove is_empty (disk.finished path)
      then record disk { finished = at disk.finished path none }
      else disk

  unfoldable pub close_db : RecordFile → Disk Db → Bool → RecordFile × Disk Db
  close_db f disk renames = if not f.has_db then (f, disk) else (
    record f { has_db = false },
    remove_empty (is_empty_at f.legacy (disk.saving f.filepath)) (commit_db disk f.filepath renames)
        f.filepath,
  )

  abbrev pub rolled : RecordFile → Opened Db → ℕ → Bool → RecordFile × Disk Db × Bool
  rolled f o new_filepath renames =
      if o.success
      then (
        record { filepath = new_filepath; has_db = true; legacy = o.legacy },
        (close_db (record f { legacy = o.legacy }) o.disk renames).1,
        true,
      )
      else (record f { legacy = o.legacy }, o.disk, false)

  -- Roll: the new database is opened before the old one is closed.
  unfoldable pub roll : RecordFile → Disk Db → ℕ → Bool → Bool → RecordFile × Disk Db × Bool
  roll f disk new_filepath renames dirs =
      rolled f (open_path disk new_filepath f.legacy dirs) new_filepath renames
