-- ===== src/Recorder/Snapshot/Directory/Copying.antt =====
-- What a snapshot of src/msg_recorder/recorder.cc holds, and what it leaves.
use cris_core.Prelude.{
  ℕ, ◌≡◌, refl, ap, sym, ◌∙◌, inl, inr, Bool, true, false, ◌&&◌, ◌||◌, Option, none, some, List, [],
  ◌∷◌, map, ◌==◌, if◌then◌else◌, ==→eq, ==_refl, Bool-cases, arith,
}
use cris_core.Recorder.File.{LevelDb, Disk, at, RecordFile, close_db}
use cris_core.Recorder.File.Lifecycle.{at_twice, open_db_found, while_open, close_db_open}
use cris_core.Recorder.Snapshot.Directory.{
  close_all, opened_first, with_file, open_all, generate_snapshot_impl,
}

abbrev pub opened : RecordFile → RecordFile
opened f = record f { has_db = true }

abbrev pub closed : RecordFile → RecordFile
closed f = record f { has_db = false }

-- Whether a path is that of one of the files.
abbrev pub has : List RecordFile → ℕ → Bool
has [] p = false
has (f ∷ fs) p = p == f.filepath || has fs p

abbrev pub AreApart : List RecordFile → Type 0
AreApart [] = Unit
AreApart (f ∷ fs) = (has fs f.filepath ≡ false) × AreApart fs

abbrev pub All : (RecordFile → Type 0) → List RecordFile → Type 0
All P [] = Unit
All P (f ∷ fs) = P f × All P fs

and_true : (b : Bool) → (b && true) ≡ b
and_true true = refl
and_true false = refl

have_more :
    (g : RecordFile) (all fs : List RecordFile)
    → All (λ f. has all f.filepath ≡ true) fs
    → All (λ f. has (g ∷ all) f.filepath ≡ true) fs
have_more g all [] h = tt
have_more g all (f ∷ fs) h = (
  elim (Bool-cases (f.filepath == g.filepath)) [
    | inl t ↦ rw t refl
    | inr e ↦ ap (λ (b : Bool). b || has all f.filepath) e ∙ h.0
  ],
  have_more g all fs h.1,
)

every_path : (fs : List RecordFile) → All (λ f. has fs f.filepath ≡ true) fs
every_path [] = tt
every_path (f ∷ fs) = (
  ap (λ (b : Bool). b || has fs f.filepath) (==_refl f.filepath),
  have_more f fs fs (every_path fs),
)

if_same : {A : Type 0} (b : Bool) (a : A) → (if b then a else a) ≡ a
if_same true a = refl
if_same false a = refl

at_all :
    {Db : Type 0} (dirs : ℕ → Option Db) (f : RecordFile) (fs : List RecordFile) (p : ℕ)
    (x : ℕ → Option Db)
    → (if has fs p then x p else at dirs f.filepath (x f.filepath) p)
      ≡ (if has (f ∷ fs) p then x p else dirs p)
at_all {Db} dirs f fs p x = elim (Bool-cases (p == f.filepath)) [
  | inl t ↦ rw t (
      ap (λ (q : Option Db). if has fs p then x p else q) (ap x (sym (==→eq p f.filepath t)))
      ∙ if_same (has fs p) (x p))
  | inr e ↦ rw e refl
]

module _ {Db : Type 0} (ldb : LevelDb Db) (dbs : ℕ → Db) where
  -- A database that is not empty and that LevelDB opens as it is.
  pub record IsKept (f : RecordFile) : Type 0 where
    pub named : (f.filepath == 0) ≡ false
    pub opens : ldb.open_default (some (dbs f.filepath)) ≡ some (dbs f.filepath)
    pub full : ldb.is_empty f.legacy (dbs f.filepath) ≡ false
    pub nonempty_dir : ldb.is_empty_dir (dbs f.filepath) ≡ false

  -- A file's database is in its unfinished directory, or in its finished one.
  abbrev pub IsOpen : Disk Db → RecordFile → Type 0
  IsOpen disk f =
      (disk.saving f.filepath ≡ some (dbs f.filepath)) × (disk.finished f.filepath ≡ none)

  abbrev pub IsFinished : Disk Db → RecordFile → Type 0
  IsFinished disk f =
      (disk.finished f.filepath ≡ some (dbs f.filepath)) × (disk.saving f.filepath ≡ none)

  abbrev finish : Disk Db → RecordFile → Disk Db
  finish disk f = record {
    finished = at disk.finished f.filepath (some (dbs f.filepath));
    saving = at disk.saving f.filepath none;
  }

  close_one :
      (f : RecordFile) (disk : Disk Db)
      → IsKept f
      → IsOpen disk f
      → close_db ldb (opened f) disk true ≡ (closed f, finish disk f)
  unfolding close_db
  close_one f disk k o =
      ap (λ (d : Disk Db). (closed f, d))
        (close_db_open ldb f disk (dbs f.filepath) o.0 o.1 k.full k.nonempty_dir)

  finish_all : Disk Db → List RecordFile → Disk Db
  finish_all disk [] = disk
  finish_all disk (f ∷ fs) = finish_all (finish disk f) fs

  apart_one :
      (f g : RecordFile) (fs : List RecordFile)
      → has (g ∷ fs) f.filepath ≡ false
      → ((g.filepath == f.filepath) ≡ false) × (has fs f.filepath ≡ false)
  apart_one f g fs h = (ground arith, ground arith)

  finish-IsOpen :
      (disk : Disk Db) (f : RecordFile) (fs : List RecordFile)
      → has fs f.filepath ≡ false
      → All (IsOpen disk) fs
      → All (IsOpen (finish disk f)) fs
  finish-IsOpen disk f [] h o = tt
  finish-IsOpen disk f (g ∷ fs) h o =
      let apart = apart_one f g fs h in
      (
        (
          ap (λ (b : Bool). if b then none else disk.saving g.filepath) apart.0 ∙ o.0.0,
          ap (λ (b : Bool). if b then some (dbs f.filepath) else disk.finished g.filepath) apart.0
              ∙ o.0.1,
        ),
        finish-IsOpen disk f fs apart.1 o.1,
      )

  close_all-finish_all :
      (disk : Disk Db) (fs : List RecordFile)
      → AreApart fs
      → All IsKept fs
      → All (IsOpen disk) fs
      → close_all ldb (map opened fs) disk true ≡ (map closed fs, finish_all disk fs)
  unfolding close_all finish_all
  close_all-finish_all disk [] a k o = refl
  close_all-finish_all disk (f ∷ fs) a k o =
      let rest =
        close_all-finish_all (finish disk f) fs a.1 k.1 (finish-IsOpen disk f fs a.0 o.1) in
      ap
        (λ (c : RecordFile × Disk Db). (
          c.0 ∷ (close_all ldb (map opened fs) c.1 true).0,
          (close_all ldb (map opened fs) c.1 true).1,
        ))
        (close_one f disk k.0 o.0)
      ∙ ap (λ (r : List RecordFile × Disk Db). (closed f ∷ r.0, r.1)) rest

  finished_all :
      (disk : Disk Db) (fs : List RecordFile) (p : ℕ)
      → ((finish_all disk fs).finished p ≡ (if has fs p then some (dbs p) else disk.finished p))
        × ((finish_all disk fs).saving p ≡ (if has fs p then none else disk.saving p))
  unfolding finish_all
  finished_all disk [] p = (refl, refl)
  finished_all disk (f ∷ fs) p =
      let rest = finished_all (finish disk f) fs p in
      (
        rest.0 ∙ at_all disk.finished f fs p (λ q. some (dbs q)),
        rest.1 ∙ at_all disk.saving f fs p (λ q. none),
      )

  -- The disk once the files are open again.
  begin_all : Disk Db → List RecordFile → Disk Db
  begin_all disk [] = disk
  begin_all disk (f ∷ fs) = begin_all (while_open ldb disk f.filepath (dbs f.filepath)) fs

  begun-IsFinished :
      (disk : Disk Db) (f : RecordFile) (fs : List RecordFile)
      → has fs f.filepath ≡ false
      → All (IsFinished disk) fs
      → All (IsFinished (while_open ldb disk f.filepath (dbs f.filepath))) fs
  begun-IsFinished disk f [] h o = tt
  begun-IsFinished disk f (g ∷ fs) h o =
      let apart = apart_one f g fs h in
      let db : Option Db = some (dbs f.filepath) in
      (
        (
          ap (λ (b : Bool). if b then none else disk.finished g.filepath) apart.0 ∙ o.0.0,
          ap (λ (b : Bool). if b then db else (if b then db else disk.saving g.filepath)) apart.0
              ∙ o.0.1,
        ),
        begun-IsFinished disk f fs apart.1 o.1,
      )

  open_all-begin_all :
      (disk : Disk Db) (fs : List RecordFile)
      → AreApart fs
      → All IsKept fs
      → All (IsFinished disk) fs
      → open_all ldb (map closed fs) disk true true ≡ some (map opened fs, begin_all disk fs)
  unfolding open_all begin_all
  open_all-begin_all disk [] a k o = refl
  open_all-begin_all disk (f ∷ fs) a k o =
      let after = while_open ldb disk f.filepath (dbs f.filepath) in
      let first =
        open_db_found ldb (closed f) disk (dbs f.filepath) refl k.0.named o.0.0 o.0.1 k.0.opens in
      ap
        (λ (r : Option (RecordFile × Disk Db × Bool)).
          opened_first ldb r (λ disk'. open_all ldb (map closed fs) disk' true true))
        first
      ∙ ap (with_file ldb (opened f))
          (open_all-begin_all after fs a.1 k.1 (begun-IsFinished disk f fs a.0 o.1))

  begun_all :
      (disk : Disk Db) (fs : List RecordFile) (p : ℕ)
      → ((begin_all disk fs).finished p ≡ (if has fs p then none else disk.finished p))
        × ((begin_all disk fs).saving p ≡ (if has fs p then some (dbs p) else disk.saving p))
  unfolding begin_all
  begun_all disk [] p = (refl, refl)
  begun_all disk (f ∷ fs) p =
      let db : Option Db = some (dbs f.filepath) in
      let rest = begun_all (while_open ldb disk f.filepath (dbs f.filepath)) fs p in
      (
        rest.0 ∙ at_all disk.finished f fs p (λ q. none),
        rest.1
            ∙ ap (λ (o : Option Db). if has fs p then some (dbs p) else o)
                (at_twice disk.saving f.filepath p db db)
            ∙ at_all disk.saving f fs p (λ q. some (dbs q)),
      )

  open_at :
      (disk : Disk Db) (fs : List RecordFile) (p : ℕ)
      → All (IsOpen disk) fs
      → has fs p ≡ true
      → (disk.saving p ≡ some (dbs p)) × (disk.finished p ≡ none)
  open_at disk [] p o h = cc
  open_at disk (f ∷ fs) p o h = elim (Bool-cases (p == f.filepath)) [
    | inl t ↦
        let same = ==→eq p f.filepath t in
        (
          ap disk.saving same ∙ o.0.0 ∙ ap (λ (q : ℕ). some (dbs q)) (sym same),
          ap disk.finished same ∙ o.0.1,
        )
    | inr e ↦ open_at disk fs p o.1 (sym (ap (λ (b : Bool). b || has fs p) e) ∙ h)
  ]

  finish_all-IsFinished :
      (disk : Disk Db) (all fs : List RecordFile)
      → All (λ f. has all f.filepath ≡ true) fs
      → All (IsFinished (finish_all disk all)) fs
  finish_all-IsFinished disk all [] h = tt
  finish_all-IsFinished disk all (f ∷ fs) h =
      let here = finished_all disk all f.filepath in
      (
        (
          here.0
              ∙ ap (λ (b : Bool). if b then some (dbs f.filepath) else disk.finished f.filepath)
                  h.0,
          here.1 ∙ ap (λ (b : Bool). if b then none else disk.saving f.filepath) h.0,
        ),
        finish_all-IsFinished disk all fs h.1,
      )

  reopened :
      (disk : Disk Db) (fs : List RecordFile) (p : ℕ)
      → All (IsOpen disk) fs
      → ((begin_all (finish_all disk fs) fs).finished p ≡ disk.finished p)
        × ((begin_all (finish_all disk fs) fs).saving p ≡ disk.saving p)
  reopened disk fs p o =
      let after = begun_all (finish_all disk fs) fs p in
      let between = finished_all disk fs p in
      elim (Bool-cases (has fs p)) [
        | inl t ↦
            let before = open_at disk fs p o t in
            (
              after.0
                  ∙ ap (λ (b : Bool). if b then none else (finish_all disk fs).finished p) t
                  ∙ sym before.1,
              after.1
                  ∙ ap (λ (b : Bool). if b then some (dbs p) else (finish_all disk fs).saving p) t
                  ∙ sym before.0,
            )
        | inr e ↦ (
          after.0
              ∙ ap (λ (b : Bool). if b then none else (finish_all disk fs).finished p) e
              ∙ between.0
              ∙ ap (λ (b : Bool). if b then some (dbs p) else disk.finished p) e,
          after.1
              ∙ ap (λ (b : Bool). if b then some (dbs p) else (finish_all disk fs).saving p) e
              ∙ between.1
              ∙ ap (λ (b : Bool). if b then none else disk.saving p) e,
        )
      ]

  -- What the copy holds at a path, and that the disk is as it was.
  pub record IsSnapshot (fs : List RecordFile) (disk copy after : Disk Db) : Type 0 where
    pub finished : (p : ℕ) → copy.finished p ≡ (if has fs p then some (dbs p) else disk.finished p)
    pub saving : (p : ℕ) → copy.saving p ≡ (if has fs p then none else disk.saving p)
    pub finished_after : (p : ℕ) → after.finished p ≡ disk.finished p
    pub saving_after : (p : ℕ) → after.saving p ≡ disk.saving p

  -- A snapshot that is taken while files are open, whose paths differ and whose databases are not empty
  -- and are opened by LevelDB as they are, where the file system renames, makes directories and copies
  -- without an error, holds the database of each file finished at its path and unfinished nowhere, and
  -- everything else as it is; then all files are open again, and the disk is as it was. It is reported
  -- as successful exactly if its directory could be made.
  pub generate_snapshot_impl-IsSnapshot :
      (fs : List RecordFile) (disk : Disk Db) (created : Bool)
      → AreApart fs
      → All IsKept fs
      → All (IsOpen disk) fs
      → (copy : Disk Db) × (after : Disk Db) × (generate_snapshot_impl ldb
            (map opened fs)
            disk
            true
            true
            created
            true
          ≡ record { copy = some copy; success = created; files = some (map opened fs, after) })
        × IsSnapshot fs disk copy after
  unfolding generate_snapshot_impl
  generate_snapshot_impl-IsSnapshot fs disk created a k o =
      let copy = finish_all disk fs in
      let all = every_path fs in
      (
        copy,
        begin_all copy fs,
        ap
              (λ (c : List RecordFile × Disk Db). record {
                copy = some c.1;
                success = created && true;
                files = open_all ldb c.0 c.1 true true;
              })
              (close_all-finish_all disk fs a k o)
            ∙ ap
                (λ (o : Option (List RecordFile × Disk Db)). record {
                  copy = some copy;
                  success = created && true;
                  files = o;
                })
                (open_all-begin_all copy fs a k (finish_all-IsFinished disk fs fs all))
            ∙ ap
                (λ (b : Bool). record {
                  copy = some copy;
                  success = b;
                  files = some (map opened fs, begin_all copy fs);
                })
                (and_true created),
        record {
          finished = λ p. (finished_all disk fs p).0;
          saving = λ p. (finished_all disk fs p).1;
          finished_after = λ p. (reopened disk fs p o).0;
          saving_after = λ p. (reopened disk fs p o).1;
        },
      )
