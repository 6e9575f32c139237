-- ===== src/Recorder/Rolling/Sizes.antt =====
-- The sizes of databases that roll by size, as src/msg_recorder/rolling_helper.cc and
-- RecordFile::Write keep them.
use cris_core.Prelude.{
  ℕ, ◌+◌, ◌*◌, ◌%◌, ◌≤◌, ◌<◌, ◌≡◌, refl, sym, subst, ◌⊎◌, inl, inr, Bool, true, false, Option, some,
  List, [], ◌∷◌, ◌++◌, length, Bool-cases, arith,
}
use cris_core.Recorder.Rolling.{
  Metadata, RollingHelper, by_size, need_to_roll, update, reset, Databases, roll, roll_if_needed,
  updated, put, write, new_by_size,
}

-- A message that is written, the clock that a roll reads, and whether the database takes it; every
-- new database can be opened.
pub record Message : Type 0 where
  pub metadata : Metadata
  pub now : ℕ
  pub puts : Bool

unfoldable pub write_all : Databases → List Message → Databases
write_all f [] = f
write_all f (m ∷ ms) = write_all (write f m.metadata true m.now m.puts) ms

unfoldable pub sum : List ℕ → ℕ
sum [] = 0
sum (x ∷ xs) = x + sum xs

-- A database is below the limit, or it holds one message at most.
abbrev pub Fits : ℕ → List ℕ → Type 0
Fits limit sizes = (sum sizes < limit) ⊎ (length sizes ≤ 1)

unfoldable pub AllFit : ℕ → List (List ℕ) → Type 0
AllFit limit [] = Unit
AllFit limit (sizes ∷ rest) = Fits limit sizes × AllFit limit rest

unfoldable pub AreWords : List Message → Type 0
AreWords [] = Unit
AreWords (m ∷ ms) = (m.metadata.value_size < 18446744073709551616) × AreWords ms

sum-append : (xs ys : List ℕ) → sum (xs ++ ys) ≡ sum xs + sum ys
unfolding sum
sum-append [] ys = omega arith
sum-append (x ∷ xs) ys = omega (arith, sum-append xs ys)

AllFit-append :
    (limit : ℕ) (xs : List (List ℕ)) (y : List ℕ)
    → AllFit limit xs
    → Fits limit y
    → AllFit limit (xs ++ y ∷ [])
unfolding AllFit
AllFit-append limit [] y h k = (k, tt)
AllFit-append limit (x ∷ xs) y h k = (h.0, AllFit-append limit xs y h.1 k)

record Inv (limit : ℕ) (f : Databases) : Type 0 where
  helper : f.rolling_helper ≡ some (by_size limit (sum f.current))
  closed : AllFit limit f.closed
  current : Fits limit f.current
  small : sum f.current < 18446744073709551616

updated_size :
    (h : Option RollingHelper) (limit size : ℕ) (metadata : Metadata)
    → h ≡ some (by_size limit size)
    → size + metadata.value_size < 18446744073709551616
    → updated h metadata ≡ some (by_size limit (size + metadata.value_size))
unfolding update
updated_size h limit size metadata e l = ground arith

sum_snoc : (xs : List ℕ) (x : ℕ) → sum (xs ++ x ∷ []) ≡ sum xs + x
unfolding sum
sum_snoc xs x = omega (arith, sum-append xs (x ∷ []))

put-Inv :
    (limit : ℕ) (f : Databases) (metadata : Metadata) (puts : Bool)
    → Inv limit f
    → Fits limit (f.current ++ metadata.value_size ∷ [])
    → sum f.current + metadata.value_size < 18446744073709551616
    → Inv limit (put f metadata puts)
unfolding put
put-Inv limit f metadata false inv fits small = inv
put-Inv limit f metadata true inv fits small =
    let size = sum_snoc f.current metadata.value_size in
    record {
      helper =
          rw size (updated_size f.rolling_helper limit (sum f.current) metadata inv.helper small);
      closed = inv.closed;
      current = fits;
      small = rw size small;
    }

no_roll-below :
    (limit size : ℕ) (metadata : Metadata)
    → need_to_roll (by_size limit size) metadata ≡ false
    → size + metadata.value_size < limit
unfolding need_to_roll
no_roll-below limit size metadata e = ground arith

record Ready (limit : ℕ) (value_size : ℕ) (f : Databases) : Type 0 where
  inv : Inv limit f
  fits : Fits limit (f.current ++ value_size ∷ [])
  small : sum f.current + value_size < 18446744073709551616

roll-Ready :
    (limit : ℕ) (f : Databases) (metadata : Metadata) (now size : ℕ)
    → metadata.value_size < 18446744073709551616
    → Inv limit f
    → Ready limit metadata.value_size (roll f (by_size limit size) true now).0
unfolding roll reset sum
roll-Ready limit f metadata now size l inv = record {
  inv = record {
    helper = refl;
    closed = AllFit-append limit f.closed f.current inv.closed inv.current;
    current = inr (omega arith);
    small = omega arith;
  };
  fits = inr (omega arith);
  small = omega arith;
}

keep-Ready :
    (limit : ℕ) (f : Databases) (metadata : Metadata)
    → limit < 18446744073709551616
    → Inv limit f
    → need_to_roll (by_size limit (sum f.current)) metadata ≡ false
    → Ready limit metadata.value_size f
keep-Ready limit f metadata l inv e =
    let below = no_roll-below limit (sum f.current) metadata e in
    record {
      inv = inv;
      fits = inl (omega (arith, sum_snoc f.current metadata.value_size));
      small = omega arith;
    }

roll_if_needed-Ready :
    (limit : ℕ) (f : Databases) (metadata : Metadata) (now : ℕ)
    → limit < 18446744073709551616
    → metadata.value_size < 18446744073709551616
    → Inv limit f
    → Ready limit metadata.value_size
        (roll_if_needed f (some (by_size limit (sum f.current))) metadata true now)
roll_if_needed-Ready limit f metadata now l k inv =
    elim (Bool-cases (need_to_roll (by_size limit (sum f.current)) metadata)) [
      | inl e ↦ rw e (roll-Ready limit f metadata now (sum f.current) k inv)
      | inr e ↦ rw e (keep-Ready limit f metadata l inv e)
    ]

write-Inv :
    (limit : ℕ) (f : Databases) (m : Message)
    → limit < 18446744073709551616
    → m.metadata.value_size < 18446744073709551616
    → Inv limit f
    → Inv limit (write f m.metadata true m.now m.puts)
unfolding write
write-Inv limit f m l k inv =
    let ready =
      subst
        (λ (h : Option RollingHelper).
          Ready limit m.metadata.value_size (roll_if_needed f h m.metadata true m.now))
        (sym inv.helper) (roll_if_needed-Ready limit f m.metadata m.now l k inv) in
    put-Inv limit (roll_if_needed f f.rolling_helper m.metadata true m.now) m.metadata m.puts
      ready.inv ready.fits ready.small

write_all-Inv :
    (limit : ℕ) (f : Databases) (ms : List Message)
    → limit < 18446744073709551616
    → AreWords ms
    → Inv limit f
    → Inv limit (write_all f ms)
unfolding write_all AreWords
write_all-Inv limit f [] l k inv = inv
write_all-Inv limit f (m ∷ ms) l k inv =
    write_all-Inv limit (write f m.metadata true m.now m.puts) ms l k.1
      (write-Inv limit f m l k.0 inv)

-- A record file as RecordFile makes it on an empty database.
abbrev pub rolling_by_size : ℕ → Databases
rolling_by_size size_limit_mb = record {
  rolling_helper = some (new_by_size size_limit_mb);
  closed = [];
  current = [];
}

start-Inv : (mb : ℕ) → Inv ((mb * 1000000) % 18446744073709551616) (rolling_by_size mb)
unfolding new_by_size AllFit sum
start-Inv mb = record {
  helper = refl;
  closed = tt;
  current = inr (omega arith);
  small = omega arith;
}

-- Whatever messages are written to a new file that rolls by size, as long as every new database can be
-- opened, each database, closed or current, is smaller than the limit in bytes (the megabytes times a
-- million, modulo the word) or has a single message at most.
pub write_all-AllFit :
    (size_limit_mb : ℕ) (ms : List Message)
    → AreWords ms
    → AllFit
        ((size_limit_mb * 1000000) % 18446744073709551616)
        (write_all (rolling_by_size size_limit_mb) ms).closed
      × Fits
          ((size_limit_mb * 1000000) % 18446744073709551616)
          (write_all (rolling_by_size size_limit_mb) ms).current
write_all-AllFit mb ms k =
    let inv =
      write_all-Inv ((mb * 1000000) % 18446744073709551616) (rolling_by_size mb) ms (omega arith) k
        (start-Inv mb) in
    (inv.closed, inv.current)
