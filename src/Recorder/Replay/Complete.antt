-- ===== src/Recorder/Replay/Complete.antt =====
-- The loop of src/msg_recorder/replayer.cc comes to the end of all readers.
use cris_core.Prelude.{
  ℕ, zero, suc, ◌+◌, ◌≤◌, ◌<◌, ◌≡◌, refl, sym, ap, ◌∙◌, ◌⊎◌, inl, inr, true, false, List, [], ◌∷◌,
  ◌++◌, length, Bool-cases, append-nil, arith,
}
use cris_core.Recorder.Key.{RecordFileKey}
use cris_core.Recorder.Replay.{
  Entry, RecordReader, compares, IsNotAfter, IsFirst, State, Step, replays, stops, start, Reach,
  here, next,
}
use cris_core.Recorder.Replay.Order.{compares_trans, compares_total, compares_refl}
use cris_core.Recorder.Replay.Keys.{AreRecords, AreInOrder, published-AreInOrder}
use cris_core.Recorder.Replay.Progress.{sent, left, Reach-all_of}

unfoldable pub remaining : List RecordReader → ℕ
remaining [] = 0
remaining (r ∷ rs) = length r.record_itr + remaining rs

-- A reader that the heap may give.
record Pick (readers : List RecordReader) : Type 0 where
  before : List RecordReader
  after : List RecordReader
  subid : ℕ
  entry : Entry
  rest : List Entry
  split : readers ≡ before ++ record { subid = subid; record_itr = entry ∷ rest } ∷ after
  first : IsFirst entry.0 readers

no_entries : (key : RecordFileKey) (es : List Entry) → length es ≡ 0 → IsNotAfter key es
unfolding IsNotAfter
no_entries key [] h = tt
no_entries key (e ∷ es) h = absurd (omega arith)

IsNotAfter-trans :
    (k l : RecordFileKey) (es : List Entry)
    → compares k l ≡ false
    → IsNotAfter l es
    → IsNotAfter k es
unfolding IsNotAfter
IsNotAfter-trans k l [] e h = tt
IsNotAfter-trans k l (f ∷ es) e h = compares_trans k l f.0 e h

remaining-cases : (rs : List RecordReader) → (remaining rs ≡ 0) ⊎ (0 < remaining rs)
remaining-cases rs = ground arith

IsFirst-empty : (key : RecordFileKey) (rs : List RecordReader) → remaining rs ≡ 0 → IsFirst key rs
unfolding remaining IsFirst
IsFirst-empty key [] h = tt
IsFirst-empty key (r ∷ rs) h =
    (no_entries key r.record_itr (omega arith), IsFirst-empty key rs (omega arith))

IsFirst-trans :
    (k l : RecordFileKey) (rs : List RecordReader)
    → compares k l ≡ false
    → IsFirst l rs
    → IsFirst k rs
unfolding IsFirst
IsFirst-trans k l [] e h = tt
IsFirst-trans k l (r ∷ rs) e h =
    (IsNotAfter-trans k l r.record_itr e h.0, IsFirst-trans k l rs e h.1)

keep :
    (r : RecordReader) (rs : List RecordReader) (p : Pick rs)
    → IsNotAfter p.entry.0 r.record_itr
    → Pick (r ∷ rs)
unfolding IsFirst
keep r rs p h = record {
  before = r ∷ p.before;
  after = p.after;
  subid = p.subid;
  entry = p.entry;
  rest = p.rest;
  split = ap (λ l. r ∷ l) p.split;
  first = (h, p.first);
}

take :
    (subid : ℕ) (e : Entry) (es : List Entry) (rs : List RecordReader)
    → IsFirst e.0 rs
    → Pick (record { subid = subid; record_itr = e ∷ es } ∷ rs)
unfolding IsFirst IsNotAfter
take subid e es rs h = record {
  before = [];
  after = rs;
  subid = subid;
  entry = e;
  rest = es;
  split = refl;
  first = (compares_refl e.0, h);
}

choose :
    (subid : ℕ) (e : Entry) (es : List Entry) (rs : List RecordReader)
    → Pick rs
    → Pick (record { subid = subid; record_itr = e ∷ es } ∷ rs)
unfolding IsNotAfter
choose subid e es rs p = elim (Bool-cases (compares e.0 p.entry.0)) [
  | inl t ↦
      keep (record { subid = subid; record_itr = e ∷ es }) rs p (compares_total e.0 p.entry.0 t)
  | inr t ↦ take subid e es rs (IsFirst-trans e.0 p.entry.0 rs t p.first)
]

Pick-cons :
    (subid : ℕ) (itr : List Entry) (rs : List RecordReader)
    → ((0 < remaining rs) → Pick rs)
    → 0 < length itr + remaining rs
    → Pick (record { subid = subid; record_itr = itr } ∷ rs)
unfolding IsNotAfter
Pick-cons subid [] rs later h =
    keep (record { subid = subid; record_itr = [] }) rs (later (omega arith)) tt
Pick-cons subid (e ∷ es) rs later h = elim (remaining-cases rs) [
  | inl z ↦ take subid e es rs (IsFirst-empty e.0 rs z)
  | inr p ↦ choose subid e es rs (later p)
]

pick : (readers : List RecordReader) → 0 < remaining readers → Pick readers
unfolding remaining
pick [] h = absurd (omega arith)
pick (r ∷ rs) h = Pick-cons r.subid r.record_itr rs (λ l. pick rs l) h

remaining-split :
    (xs ys : List RecordReader) (r : RecordReader)
    → remaining (xs ++ r ∷ ys) ≡ remaining xs + length r.record_itr + remaining ys
unfolding remaining
remaining-split [] ys r = omega arith
remaining-split (x ∷ xs) ys r = omega (arith, remaining-split xs ys r)

-- A state that is reached with nothing left and no stop.
pub record Ends (readers : List RecordReader) : Type 0 where
  pub state : State
  pub reached : Reach readers state
  pub is_empty : remaining state.record_readers ≡ 0
  pub running : state.shutdown_flag ≡ false

-- A step that is neither a stop nor an idle one.
pub record Goes (s : State) : Type 0 where
  pub later : State
  pub step : Step s later
  pub running : later.shutdown_flag ≡ false
  pub less : remaining later.record_readers < remaining s.record_readers

can_continue : (s : State) → s.shutdown_flag ≡ false → 0 < remaining s.record_readers → Goes s
can_continue s f l =
    let p = pick s.record_readers l in
    let was =
      ap remaining p.split
      ∙ remaining-split p.before p.after
          (record { subid = p.subid; record_itr = p.entry ∷ p.rest }) in
    let is = remaining-split p.before p.after (record { subid = p.subid; record_itr = p.rest }) in
    record {
      later = record s {
        record_readers = p.before ++ record { subid = p.subid; record_itr = p.rest } ∷ p.after;
        published =
            s.published
            ++ record { reader = length p.before; subid = p.subid; entry = p.entry } ∷ [];
      };
      step = replays p.before p.after p.subid p.entry p.rest f p.split p.first refl;
      running = f;
      less = omega arith;
    }

continue :
    (n : ℕ) (readers : List RecordReader) (s : State)
    → Reach readers s
    → s.shutdown_flag ≡ false
    → remaining s.record_readers ≤ n
    → Ends readers
continue zero readers s r f h = record {
  state = s;
  reached = r;
  is_empty = omega arith;
  running = f;
}
continue (suc n) readers s r f h = elim (remaining-cases s.record_readers) [
  | inl z ↦ record { state = s; reached = r; is_empty = z; running = f }
  | inr l ↦
      let g = can_continue s f l in
      continue n readers g.later (next r g.step) g.running (omega (arith, g.less))
]

run : (readers : List RecordReader) → Ends readers
unfolding start
run readers = continue (remaining readers) readers (start readers) here refl (omega arith)

empty : (es : List Entry) → length es ≡ 0 → es ≡ []
empty [] h = refl
empty (e ∷ es) h = absurd (omega arith)

none_left : (rs : List RecordReader) (i : ℕ) → remaining rs ≡ 0 → left i rs ≡ []
unfolding remaining left
none_left [] i h = refl
none_left (r ∷ rs) zero h = empty r.record_itr (omega arith)
none_left (r ∷ rs) (suc i) h = none_left rs i (omega arith)

Step-falls :
    (s t : State)
    → Step s t
    → (t.shutdown_flag ≡ true) ⊎ (remaining t.record_readers < remaining s.record_readers)
Step-falls s t (stops e) = rw e (inl refl)
Step-falls s t (replays xs ys subid e es f g first h) =
    let was =
      ap remaining g ∙ remaining-split xs ys (record { subid = subid; record_itr = e ∷ es }) in
    let is = remaining-split xs ys (record { subid = subid; record_itr = es }) in
    rw h (inr (omega arith))

progress : (s : State) → (s.shutdown_flag ≡ true) ⊎ ((remaining s.record_readers ≡ 0) ⊎ Goes s)
progress s = elim (Bool-cases s.shutdown_flag) [
  | inl t ↦ inl t
  | inr f ↦ elim (remaining-cases s.record_readers) [
    | inl z ↦ inr (inl z)
    | inr l ↦ inr (inr (can_continue s f l))
  ]
]

-- What holds in a state of the loop: what is published is in order, and is what the readers have not
-- left; the loop is stopped, at its end, or can go on; every step stops it or leaves less; and at the
-- end all is published.
pub record Complete (readers : List RecordReader) (s : State) : Type 0 where
  pub in_order : AreInOrder s.published
  pub all_sent : (i : ℕ) → sent i s.published ++ left i s.record_readers ≡ left i readers
  pub goes : (s.shutdown_flag ≡ true) ⊎ ((remaining s.record_readers ≡ 0) ⊎ Goes s)
  pub falls :
      (t : State)
      → Step s t
      → (t.shutdown_flag ≡ true) ⊎ (remaining t.record_readers < remaining s.record_readers)
  pub at_end : (0 < remaining s.record_readers) ⊎ ((i : ℕ) → sent i s.published ≡ left i readers)

all_at_end :
    (readers : List RecordReader) (s : State)
    → Reach readers s
    → (0 < remaining s.record_readers) ⊎ ((i : ℕ) → sent i s.published ≡ left i readers)
all_at_end readers s r = elim (remaining-cases s.record_readers) [
  | inl z ↦ inr (λ i.
      sym (append-nil (sent i s.published))
      ∙ ap (λ l. sent i s.published ++ l) (sym (none_left s.record_readers i z))
      ∙ Reach-all_of readers s i r)
  | inr l ↦ inl l
]

-- In every state that the loop can reach from readers of files whose keys are in the order of their
-- numbers, whatever the heap does with equal keys and whenever it is stopped: the messages published are
-- in the order of the timestamps of their keys, and of the counts where these are the same; every message
-- of every reader is published or left, once and in its reader's order; unless it is stopped or no
-- reader is left, the loop can go on, every step stops it or leaves fewer messages, and when none is
-- left all are published. And there is a run that reaches this end without being stopped.
pub replay-Complete :
    (readers : List RecordReader) (s : State)
    → AreRecords readers
    → Reach readers s
    → Complete readers s × Ends readers
replay-Complete readers s a r = (
  record {
    in_order = published-AreInOrder readers s a r;
    all_sent = λ i. Reach-all_of readers s i r;
    goes = progress s;
    falls = λ t st. Step-falls s t st;
    at_end = all_at_end readers s r;
  },
  run readers,
)
