-- ===== src/Recorder/Snapshot/Directory.antt =====
-- GenerateSnapshotImpl of src/msg_recorder/recorder.cc: all files are closed, the directory is copied
-- as it is then, and all are opened again. What the file system answers are arguments of the call.
pub mod Copying
mod Tests
use cris_core.Prelude.{Bool, true, false, ◌&&◌, Option, none, some, List, [], ◌∷◌, if◌then◌else◌}
use cris_core.Recorder.File.{LevelDb, Disk, RecordFile, open_db, close_db}

-- The copy, where all of it could be made, and what is returned; `files` is `none` where an opening
-- throws.
pub record Snapshot (Db : Type 0) : Type 0 where
  pub copy : Option (Disk Db)
  pub success : Bool
  pub files : Option (List RecordFile × Disk Db)

module _ {Db : Type 0} (ldb : LevelDb Db) where
  unfoldable pub close_all : List RecordFile → Disk Db → Bool → List RecordFile × Disk Db
  close_all [] disk renames = ([], disk)
  close_all (f ∷ fs) disk renames =
      let closed = close_db ldb f disk renames in
      let rest = close_all fs closed.1 renames in (closed.0 ∷ rest.0, rest.1)

  abbrev pub with_file :
      RecordFile → Option (List RecordFile × Disk Db) → Option (List RecordFile × Disk Db)
  with_file f none = none
  with_file f (some (fs, disk)) = some (f ∷ fs, disk)

  abbrev pub opened_first :
      Option (RecordFile × Disk Db × Bool)
      → (Disk Db → Option (List RecordFile × Disk Db))
      → Option (List RecordFile × Disk Db)
  opened_first none rest = none
  opened_first (some (f, disk, success)) rest = with_file f (rest disk)

  unfoldable pub open_all :
      List RecordFile → Disk Db → Bool → Bool → Option (List RecordFile × Disk Db)
  open_all [] disk renames dirs = some ([], disk)
  open_all (f ∷ fs) disk renames dirs =
      opened_first (open_db ldb f disk renames dirs) (λ disk'. open_all fs disk' renames dirs)

  -- `created` says whether the directory of the snapshot was made, `copied` whether the copying was
  -- done without an error.
  unfoldable pub generate_snapshot_impl :
      List RecordFile → Disk Db → (renames dirs created copied : Bool) → Snapshot Db
  generate_snapshot_impl files disk renames dirs created copied =
      let closed = close_all files disk renames in
      record {
        copy = if copied then some closed.1 else none;
        success = created && copied;
        files = open_all closed.0 closed.1 renames dirs;
      }
