-- ===== src/Recorder/File/Lifecycle.antt =====
-- Opening and closing a record file of src/msg_recorder/record_file.cc.
use cris_core.Prelude.{
  ℕ, ◌≡◌, refl, sym, ◌∙◌, ap, Bool, true, false, ◌||◌, Option, none, some, ◌==◌, if◌then◌else◌, inl,
  inr, Bool-cases, ==_refl, ==→eq, arith,
}
use cris_core.Recorder.File.{
  LevelDb, Disk, at, RecordFile, checkout_db, open_path, after_checkout, open_db, commit_db,
  close_db,
}

pub at_here :
    {A : Type 0} (dirs : ℕ → Option A) (path : ℕ) (dir : Option A) → at dirs path dir path ≡ dir
at_here dirs path dir = rw (==_refl path) refl

at_same :
    {A : Type 0} (dirs : ℕ → Option A) (path p : ℕ) (dir : Option A)
    → dirs path ≡ dir
    → at dirs path dir p ≡ dirs p
at_same dirs path p dir e = elim (Bool-cases (p == path)) [
  | inl t ↦ rw t (sym e ∙ ap dirs (sym (==→eq p path t)))
  | inr t ↦ rw t refl
]

pub at_twice :
    {A : Type 0} (dirs : ℕ → Option A) (path p : ℕ) (first second : Option A)
    → at (at dirs path first) path second p ≡ at dirs path second p
at_twice dirs path p first second = elim (Bool-cases (p == path)) [
  | inl t ↦ rw t refl
  | inr t ↦ rw t refl
]

module _ {Db : Type 0} (ldb : LevelDb Db) where
  checkout_db_found :
      (disk : Disk Db) (path : ℕ) (db : Db)
      → disk.finished path ≡ some db
      → disk.saving path ≡ none
      → checkout_db ldb disk path true
        ≡ some (record {
          finished = at disk.finished path none;
          saving = at disk.saving path (some db);
        })
  unfolding checkout_db
  checkout_db_found disk path db e f = rw (e, f) refl

  open_path_kept :
      (disk : Disk Db) (path : ℕ) (legacy : Bool) (db : Db)
      → disk.saving path ≡ some db
      → ldb.open_default (some db) ≡ some db
      → open_path ldb disk path legacy true ≡ record {
        disk = record disk { saving = at disk.saving path (some db) };
        legacy = legacy;
        success = true;
      }
  unfolding open_path
  open_path_kept disk path legacy db e f = rw (e, f) refl

  -- The disk while the database is open.
  abbrev pub while_open : Disk Db → ℕ → Db → Disk Db
  while_open disk path db = record {
    finished = at disk.finished path none;
    saving = at (at disk.saving path (some db)) path (some db);
  }

  pub open_db_found :
      (f : RecordFile) (disk : Disk Db) (db : Db)
      → f.has_db ≡ false
      → (f.filepath == 0) ≡ false
      → disk.finished f.filepath ≡ some db
      → disk.saving f.filepath ≡ none
      → ldb.open_default (some db) ≡ some db
      → open_db ldb f disk true true
        ≡ some (record f { has_db = true }, while_open disk f.filepath db, true)
  unfolding open_db
  open_db_found f disk db closed named e g keeps =
      let moved = checkout_db_found disk f.filepath db e g in
      let opened =
        open_path_kept
          (record {
            finished = at disk.finished f.filepath none;
            saving = at disk.saving f.filepath (some db);
          })
          f.filepath f.legacy db (at_here disk.saving f.filepath (some db)) keeps in
      let off : (f.has_db || f.filepath == 0) ≡ false = ground arith in
      ap
        (λ b.
          if b
          then some (f, disk, false)
          else after_checkout ldb f (checkout_db ldb disk f.filepath true) true)
        off
      ∙ rw moved (rw opened refl)

  commit_db_free :
      (disk : Disk Db) (path : ℕ) (db : Db)
      → disk.saving path ≡ some db
      → disk.finished path ≡ none
      → commit_db ldb disk path true
        ≡ record { finished = at disk.finished path (some db); saving = at disk.saving path none }
  unfolding commit_db
  commit_db_free disk path db e f = rw (e, f) refl

  pub close_db_open :
      (f : RecordFile) (disk : Disk Db) (db : Db)
      → disk.saving f.filepath ≡ some db
      → disk.finished f.filepath ≡ none
      → ldb.is_empty f.legacy db ≡ false
      → ldb.is_empty_dir db ≡ false
      → (close_db ldb (record f { has_db = true }) disk true).1 ≡ record {
        finished = at disk.finished f.filepath (some db);
        saving = at disk.saving f.filepath none;
      }
  unfolding close_db
  close_db_open f disk db e g full kept =
      let committed = commit_db_free disk f.filepath db e g in
      let back = at_here disk.finished f.filepath (some db) in
      rw (committed, back, e, full, kept) refl

  -- Opening a record file, and closing it.
  pub record Lifecycle (f : RecordFile) (disk : Disk Db) (db : Db) : Type 0 where
    pub during : Disk Db
    pub opens : open_db ldb f disk true true ≡ some (record f { has_db = true }, during, true)
    pub unfinished : (during.finished f.filepath ≡ none) × (during.saving f.filepath ≡ some db)
    pub finished :
        (p : ℕ)
        → (close_db ldb (record f { has_db = true }) during true).1.finished p ≡ disk.finished p
    pub saving :
        (p : ℕ) → (close_db ldb (record f { has_db = true }) during true).1.saving p ≡ disk.saving p

  -- Where the file system renames and makes directories without an error: a database that is finished
  -- under a name that is not empty, with no unfinished directory of that name beside it, that is not
  -- empty and is opened by LevelDB as it is, is moved away from its path while it is open, so that
  -- nobody finds it finished, and closing it puts every directory back where it was.
  pub open_db-close_db :
      (f : RecordFile) (disk : Disk Db) (db : Db)
      → f.has_db ≡ false
      → (f.filepath == 0) ≡ false
      → disk.finished f.filepath ≡ some db
      → disk.saving f.filepath ≡ none
      → ldb.open_default (some db) ≡ some db
      → ldb.is_empty f.legacy db ≡ false
      → ldb.is_empty_dir db ≡ false
      → Lifecycle f disk db
  open_db-close_db f disk db closed named e g keeps full kept =
      let during : Disk Db = while_open disk f.filepath db in
      let unfinished : during.finished f.filepath ≡ none = at_here disk.finished f.filepath none in
      let there : during.saving f.filepath ≡ some db =
        at_here (at disk.saving f.filepath (some db)) f.filepath (some db) in
      let closing = close_db_open f during db there unfinished full kept in
      record {
        during = during;
        opens = open_db_found f disk db closed named e g keeps;
        unfinished = (unfinished, there);
        finished = λ p. rw closing (
            at_twice disk.finished f.filepath p none (some db)
            ∙ at_same disk.finished f.filepath p (some db) e);
        saving = λ p. rw closing (
            at_twice (at disk.saving f.filepath (some db)) f.filepath p (some db) none
            ∙ at_twice disk.saving f.filepath p (some db) none
            ∙ at_same disk.saving f.filepath p none g);
      }
