-- ===== src/Recorder/Replay/Progress.antt =====
-- The loop of src/msg_recorder/replayer.cc publishes every message of every reader once.
use cris_core.Prelude.{
  ℕ, zero, suc, ◌≡◌, ◌≢◌, refl, sym, subst, ap, ◌∙◌, inl, inr, List, [], ◌∷◌, ◌++◌, ◌==◌,
  if◌then◌else◌, length, append_assoc, Bool-cases, ==_refl, ne→==, ==→eq, append-nil, arith,
}
use cris_core.Recorder.Replay.{
  Entry, RecordReader, Published, State, Step, replays, stops, start, Reach, here, next,
}

-- The messages of one reader among the published ones, and what a reader has left.
unfoldable pub sent : ℕ → List Published → List Entry
sent i [] = []
sent i (p ∷ ps) = if p.reader == i then p.entry ∷ sent i ps else sent i ps

unfoldable pub left : ℕ → List RecordReader → List Entry
left i [] = []
left zero (r ∷ rs) = r.record_itr
left (suc i) (r ∷ rs) = left i rs

sent-append : (i : ℕ) (xs ys : List Published) → sent i (xs ++ ys) ≡ sent i xs ++ sent i ys
unfolding sent
sent-append i [] ys = refl
sent-append i (x ∷ xs) ys = elim (Bool-cases (x.reader == i)) [
  | inl e ↦ rw e (ap (λ l. x.entry ∷ l) (sent-append i xs ys))
  | inr e ↦ rw e (sent-append i xs ys)
]

left_here :
    (xs ys : List RecordReader) (r : RecordReader) → left (length xs) (xs ++ r ∷ ys) ≡ r.record_itr
unfolding left
left_here [] ys r = refl
left_here (x ∷ xs) ys r = left_here xs ys r

left_elsewhere :
    (xs ys : List RecordReader) (r q : RecordReader) (i : ℕ)
    → length xs ≢ i
    → left i (xs ++ r ∷ ys) ≡ left i (xs ++ q ∷ ys)
unfolding left
left_elsewhere [] ys r q zero n = absurd (n refl)
left_elsewhere [] ys r q (suc i) n = refl
left_elsewhere (x ∷ xs) ys r q zero n = refl
left_elsewhere (x ∷ xs) ys r q (suc i) n = left_elsewhere xs ys r q i (λ e. n (ap suc e))

sent_here :
    (i : ℕ) (ps : List Published) (subid : ℕ) (e : Entry)
    → sent i (ps ++ record { reader = i; subid = subid; entry = e } ∷ []) ≡ sent i ps ++ e ∷ []
unfolding sent
sent_here i ps subid e =
    sent-append i ps (record { reader = i; subid = subid; entry = e } ∷ []) ∙ rw (==_refl i) refl

sent_elsewhere :
    (i j : ℕ) (ps : List Published) (subid : ℕ) (e : Entry)
    → j ≢ i
    → sent i (ps ++ record { reader = j; subid = subid; entry = e } ∷ []) ≡ sent i ps
unfolding sent
sent_elsewhere i j ps subid e n =
    sent-append i ps (record { reader = j; subid = subid; entry = e } ∷ [])
    ∙ rw (ne→== j i n) (append-nil (sent i ps))

-- A reader's messages, published or left, in their order.
abbrev all_of : ℕ → State → List Entry
all_of i s = sent i s.published ++ left i s.record_readers

one_sent :
    (i : ℕ) (xs ys : List RecordReader) (subid : ℕ) (e : Entry) (es : List Entry)
    (ps : List Published)
    → sent i (ps ++ record { reader = length xs; subid = subid; entry = e } ∷ [])
        ++ left i (xs ++ record { subid = subid; record_itr = es } ∷ ys)
      ≡ sent i ps ++ left i (xs ++ record { subid = subid; record_itr = e ∷ es } ∷ ys)
one_sent i xs ys subid e es ps = elim (Bool-cases (length xs == i)) [
  | inl t ↦
      let same : length xs ≡ i = ==→eq (length xs) i t in
      subst
        (λ j.
          sent j (ps ++ record { reader = length xs; subid = subid; entry = e } ∷ [])
            ++ left j (xs ++ record { subid = subid; record_itr = es } ∷ ys)
          ≡ sent j ps ++ left j (xs ++ record { subid = subid; record_itr = e ∷ es } ∷ ys))
        same
        (rw
          (
            sent_here (length xs) ps subid e,
            left_here xs ys (record { subid = subid; record_itr = es }),
            left_here xs ys (record { subid = subid; record_itr = e ∷ es }),
          )
          (append_assoc (sent (length xs) ps) (e ∷ []) es))
  | inr t ↦
      let differ : length xs ≢ i = λ same. ground (arith, ==_refl i) in
      rw
        (
          sent_elsewhere i (length xs) ps subid e differ,
          left_elsewhere xs ys (record { subid = subid; record_itr = es })
              (record { subid = subid; record_itr = e ∷ es }) i differ,
        )
        refl
]

Step-all_of : (s t : State) (i : ℕ) → Step s t → all_of i t ≡ all_of i s
Step-all_of s t i (stops e) = rw e refl
Step-all_of s t i (replays xs ys subid e es f g first h) =
    rw h
      (one_sent i xs ys subid e es s.published ∙ ap (λ rs. sent i s.published ++ left i rs) (sym g))

-- Every message of every reader is published or left, once and in its reader's order.
pub Reach-all_of :
    (readers : List RecordReader) (s : State) (i : ℕ)
    → Reach readers s
    → sent i s.published ++ left i s.record_readers ≡ left i readers
unfolding start sent
Reach-all_of readers s i here = refl
Reach-all_of readers s i (next {s = u} r st) = Step-all_of u s i st ∙ Reach-all_of readers u i r
