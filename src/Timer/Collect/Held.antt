-- ===== src/Timer/Collect/Held.antt =====
-- What the collectors of src/timer/timer_enable.cc hold in one bucket, and how each call changes it.
use cris_core.Prelude.{
  ℕ, suc, ◌+◌, ◌%◌, ◌<◌, ◌≡◌, refl, Bool, true, false, ◌&&◌, not, List, [], ◌∷◌, leb, ◌==◌,
  if◌then◌else◌, ℤ, pos, negsuc, inl, inr, Bool-cases, arith,
}
use cris_core.Timer.Stat.{
  word, collector_size, Bucket, merge_bucket, clear_bucket, bucket_of, Collector, hit, hit_entry,
  report, new,
}
use cris_core.Timer.Collect.{
  merge_entry, merge, unsafe_clear, collect, flush_loop, report_on, exit_loop, Op, reports, exits,
  get_report, get_all_reports,
}

abbrev pub at : Collector → ℕ → ℕ → Bucket
at c i b = (c.entries i).buckets b

-- One bucket alone, told of every call: a report adds to it when its index and duration are the
-- bucket's, and GetAllReports(true) clears it.
unfoldable pub note : ℕ → ℕ → Bucket → Op → Bucket
note i b acc (reports thread index (pos duration) true now) =
    if not (leb collector_size index) && i == index && b == bucket_of duration
    then hit duration acc
    else acc
note i b acc (reports thread index (pos duration) false now) = acc
note i b acc (reports thread index (negsuc n) try_lock now) = acc
note i b acc (exits thread clock) = acc
note i b acc (get_report clock) = acc
note i b acc (get_all_reports true clock now) = clear_bucket
note i b acc (get_all_reports false clock now) = acc

unfoldable pub noted : ℕ → ℕ → Bucket → List Op → Bucket
noted i b acc [] = acc
noted i b acc (op ∷ ops) = noted i b (note i b acc op) ops

-- A count or a sum of a bucket.
abbrev pub field : Bool → Bucket → ℕ
field true x = x.hits
field false x = x.total_duration_ns

-- What the threads hold.
unfoldable pub held : Bool → List (ℕ × Collector) → ℕ → ℕ → ℕ
held k [] i b = 0
held k ((t, c) ∷ rest) i b = field k (at c i b) + held k rest i b

pub report-note :
    (c : Collector) (i b t index : ℕ) (d : ℤ) (l : Bool) (now : ℕ)
    → at (report c index d l) i b ≡ note i b (at c i b) (reports t index d l now)
unfolding report note hit_entry
report-note c i b t index (negsuc n) l now = refl
report-note c i b t index (pos d) false now = ground arith
report-note c i b t index (pos d) true now = ground arith

pub note_add :
    (k : Bool) (x acc : Bucket) (i b y t index : ℕ) (d : ℤ) (l : Bool) (now : ℕ)
    → (y + field k x) % word ≡ field k acc
    → (y + field k (note i b x (reports t index d l now))) % word
      ≡ field k (note i b acc (reports t index d l now))
unfolding note
note_add k x acc i b y t index (negsuc n) l now h = h
note_add k x acc i b y t index (pos d) false now h = h
note_add true x acc i b y t index (pos d) true now h = ground arith
note_add false x acc i b y t index (pos d) true now h = ground arith

pub report_add :
    (k : Bool) (c : Collector) (acc : Bucket) (i b y t index : ℕ) (d : ℤ) (l : Bool) (now : ℕ)
    → (y + field k (at c i b)) % word ≡ field k acc
    → (y + field k (at (report c index d l) i b)) % word
      ≡ field k (note i b acc (reports t index d l now))
report_add k c acc i b y t index d l now h =
    rw (report-note c i b t index d l now) (note_add k (at c i b) acc i b y t index d l now h)

pub field-clear : (k : Bool) → field k clear_bucket ≡ 0
field-clear true = refl
field-clear false = refl

pub new-at : (now i b : ℕ) → at (new now) i b ≡ clear_bucket
unfolding new
new-at now i b = refl

pub field-merge :
    (k : Bool) (x y : Bucket) → field k (merge_bucket x y) ≡ (field k x + field k y) % word
unfolding merge_bucket
field-merge true x y = refl
field-merge false x y = refl

pub merge-field :
    (k : Bool) (c d : Collector) (now i b : ℕ)
    → field k (at (merge c d now) i b) ≡ (field k (at c i b) + field k (at d i b)) % word
unfolding merge merge_entry
merge-field k c d now i b = field-merge k (at c i b) (at d i b)

pub report_on-held :
    (k : Bool) (cs : List (ℕ × Collector)) (acc : Bucket) (i b y t index : ℕ) (d : ℤ) (l : Bool)
    (now : ℕ)
    → (y + held k cs i b) % word ≡ field k acc
    → (y + held k (report_on cs t index d l now) i b) % word
      ≡ field k (note i b acc (reports t index d l now))
unfolding held report_on
report_on-held k [] acc i b y t index d l now h =
    let fresh : (y + field k (at (new now) i b)) % word ≡ field k acc =
      rw (new-at now i b) (rw (field-clear k) h) in
    omega (arith, report_add k (new now) acc i b y t index d l now fresh)
report_on-held k ((u, c) ∷ rest) acc i b y t index d l now h = elim (Bool-cases (u == t)) [
  | inl e ↦
      let one = report_add k c acc i b (y + held k rest i b) t index d l now (omega arith) in
      rw e (omega arith)
  | inr e ↦
      let others =
        report_on-held k rest acc i b (y + field k (at c i b)) t index d l now (omega arith) in
      rw e (omega arith)
]

pub collect_cleared : (c : Collector) (now i b : ℕ) → at (collect c true now).1 i b ≡ clear_bucket
unfolding collect unsafe_clear
collect_cleared c now i b = refl

pub collect_data : (c : Collector) (l : Bool) (now : ℕ) → (collect c l now).0 ≡ c
unfolding collect
collect_data c l now = refl

pub exit_loop-held :
    (k : Bool) (cs : List (ℕ × Collector)) (total : Collector) (i b t : ℕ) (clock : ℕ → ℕ)
    → (field k (at (exit_loop total cs t clock).0 i b) + held k (exit_loop total cs t clock).1 i b)
        % word
      ≡ (field k (at total i b) + held k cs i b) % word
unfolding held exit_loop
exit_loop-held k [] total i b t clock = refl
exit_loop-held k ((u, c) ∷ rest) total i b t clock = elim (Bool-cases (u == t)) [
  | inl e ↦
      rw (e, collect_data c true (clock 0)) (omega (arith, merge-field k total c (clock 1) i b))
  | inr e ↦ rw e (omega (arith, exit_loop-held k rest total i b t clock))
]

pub flush_loop-held :
    (k : Bool) (cs : List (ℕ × Collector)) (total : Collector) (clock : ℕ → ℕ) (j i b : ℕ)
    → field k (at total i b) < word
    → (field k (at (flush_loop total cs clock j).0 i b)
        ≡ (field k (at total i b) + held k cs i b) % word)
      × (held k (flush_loop total cs clock j).1 i b ≡ 0)
unfolding held flush_loop
flush_loop-held k [] total clock j i b h = (omega arith, refl)
flush_loop-held k ((t, c) ∷ rest) total clock j i b h =
    let merged = merge-field k total c (clock (suc j)) i b in
    let rest_lem =
      flush_loop-held k rest (merge total c (clock (suc j))) clock (suc (suc j)) i b
        (omega arith) in
    rw (collect_data c true (clock j), collect_cleared c (clock j) i b, field-clear k)
      (omega arith, omega arith)
