-- ===== src/Recorder/Snapshot/Copies.antt =====
-- The snapshots that src/msg_recorder/recorder.cc keeps of an interval.
use cris_core.Prelude.{
  ℕ, suc, ◌+◌, ◌≤◌, ◌<◌, ◌≡◌, refl, sym, ap, ◌∙◌, inl, inr, Bool, ◌&&◌, List, [], ◌∷◌, ◌++◌, length,
  length-append, append_assoc, append-nil, ltb, ◌==◌, if◌then◌else◌, Bool-cases, ltb→lt, arith,
}
use cris_core.Recorder.Snapshot.{
  IntervalConfig, maintain_max_num_of_snapshots, add_snapshot, has_time, Worker, snapshot, Round,
  round, Reach, here, next,
}

-- The directories that were generated for an interval, in order.
unfoldable pub of_interval : ℕ → List (ℕ × ℕ) → List ℕ
of_interval n [] = []
of_interval n ((name, dir) ∷ rest) =
    let others = of_interval n rest in if n == name then dir ∷ others else others

-- The kept directories are the newest ones, at most forty-eight, and all of them while there are no
-- more.
pub record AreNewest (all kept : List ℕ) : Type 0 where
  pub removed : List ℕ
  pub split : all ≡ removed ++ kept
  pub few : length kept ≤ 48
  pub enough : length all ≤ 48 → removed ≡ []
  pub full : 48 < length all → length kept ≡ 48

lengths :
    (all removed kept : List ℕ) → all ≡ removed ++ kept → length all ≡ length removed + length kept
lengths all removed kept e = ap length e ∙ length-append removed kept

no_removed : (xs : List ℕ) → length xs ≡ 0 → xs ≡ []
no_removed [] h = refl
no_removed (x ∷ xs) h = absurd (omega arith)

none-length : (xs : List ℕ) → xs ≡ [] → length xs ≡ 0
none-length xs e = ap length e

drop_first :
    (x : ℕ) (xs kept : List ℕ) → 48 < suc (length xs) → AreNewest xs kept → AreNewest (x ∷ xs) kept
drop_first x xs kept l r =
    let total = lengths xs r.removed kept r.split in
    record {
      removed = x ∷ r.removed;
      split = ap (λ t. x ∷ t) r.split;
      few = r.few;
      enough = λ h. absurd (omega arith);
      full = λ h. elim (Bool-cases (ltb 48 (length xs))) [
        | inl more ↦ r.full (ltb→lt 48 (length xs) more)
        | inr same ↦ let bare = none-length r.removed (r.enough (ground arith)) in ground arith
      ];
    }

keep_all : (xs : List ℕ) → length xs ≤ 48 → AreNewest xs xs
keep_all xs l = record {
  removed = [];
  split = refl;
  few = l;
  enough = λ h. refl;
  full = λ h. absurd (omega arith);
}

maintain-AreNewest : (xs : List ℕ) → AreNewest xs (maintain_max_num_of_snapshots xs)
unfolding maintain_max_num_of_snapshots
maintain-AreNewest [] = record {
  removed = [];
  split = refl;
  few = omega arith;
  enough = λ l. refl;
  full = λ l. absurd (omega arith);
}
maintain-AreNewest (x ∷ xs) = elim (Bool-cases (ltb 48 (suc (length xs)))) [
  | inl e ↦ rw e (
      drop_first x xs (maintain_max_num_of_snapshots xs) (ltb→lt 48 (suc (length xs)) e)
        (maintain-AreNewest xs))
  | inr e ↦ rw e (keep_all (x ∷ xs) (ground arith))
]

length_snoc : (xs : List ℕ) (x : ℕ) → length (xs ++ x ∷ []) ≡ suc (length xs)
length_snoc xs x = omega (arith, length-append xs (x ∷ []))

AreNewest-snoc :
    (all kept : List ℕ) (dir : ℕ)
    → AreNewest all kept
    → AreNewest (all ++ dir ∷ []) (maintain_max_num_of_snapshots (kept ++ dir ∷ []))
AreNewest-snoc all kept dir r =
    let m = maintain-AreNewest (kept ++ dir ∷ []) in
    let total = lengths all r.removed kept r.split in
    let longer = length_snoc all dir in
    let longer_kept = length_snoc kept dir in
    record {
      removed = r.removed ++ m.removed;
      split =
          ap (λ l. l ++ dir ∷ []) r.split
          ∙ append_assoc r.removed kept (dir ∷ [])
          ∙ ap (λ l. r.removed ++ l) m.split
          ∙ sym
              (append_assoc r.removed m.removed (maintain_max_num_of_snapshots (kept ++ dir ∷ [])));
      few = m.few;
      enough = λ h.
          let bare = none-length r.removed (r.enough (omega arith)) in
          let clean = none-length m.removed (m.enough (omega arith)) in
          no_removed (r.removed ++ m.removed) (omega (arith, length-append r.removed m.removed));
      full = λ h. elim (Bool-cases (ltb 48 (length all))) [
        | inl more ↦ let filled = r.full (ltb→lt 48 (length all) more) in m.full (omega arith)
        | inr same ↦
            let bare = none-length r.removed (r.enough (ground arith)) in m.full (omega arith)
      ];
    }

of_interval-append :
    (n : ℕ) (xs ys : List (ℕ × ℕ)) → of_interval n (xs ++ ys) ≡ of_interval n xs ++ of_interval n ys
unfolding of_interval
of_interval-append n [] ys = refl
of_interval-append n ((name, dir) ∷ xs) ys = elim (Bool-cases (n == name)) [
  | inl e ↦ rw e (ap (λ l. dir ∷ l) (of_interval-append n xs ys))
  | inr e ↦ rw e (of_interval-append n xs ys)
]

added-AreNewest :
    (log : List (ℕ × ℕ)) (paths : ℕ → List ℕ) (name dir n : ℕ)
    → AreNewest (of_interval n log) (paths n)
    → AreNewest (of_interval n (log ++ (name, dir) ∷ [])) (add_snapshot paths name dir n)
unfolding add_snapshot of_interval
added-AreNewest log paths name dir n r =
    let more = of_interval-append n log ((name, dir) ∷ []) in
    elim (Bool-cases (n == name)) [
      | inl e ↦ rw (more, e) (AreNewest-snoc (of_interval n log) (paths n) dir r)
      | inr e ↦ rw (more, e) (rw (append-nil (of_interval n log)) r)
    ]

snapshot-AreNewest :
    (w : Worker) (now dir : ℕ) (success : Bool) (n : ℕ)
    → AreNewest (of_interval n w.generated) (w.snapshot_path_map n)
    → AreNewest
        (of_interval n (snapshot w now dir success).generated)
        ((snapshot w now dir success).snapshot_path_map n)
unfolding snapshot
snapshot-AreNewest w now dir success n r = elim (Bool-cases (has_time w.current now && success)) [
  | inl e ↦
      rw e (added-AreNewest w.generated w.snapshot_path_map w.current.interval_config.name dir n r)
  | inr e ↦ rw e r
]

Round-AreNewest :
    (v w : Worker) (n : ℕ)
    → Round v w
    → AreNewest (of_interval n v.generated) (v.snapshot_path_map n)
    → AreNewest (of_interval n w.generated) (w.snapshot_path_map n)
Round-AreNewest v w n (round now dir success xs ys top e f g) r =
    rw g (snapshot-AreNewest v now dir success n r)

-- However the rounds of the worker go, the directories that are kept for an interval are the newest
-- ones of those that were generated for it, in order: all of them up to forty-eight, and exactly
-- forty-eight where there were more.
pub Reach-AreNewest :
    {now : ℕ} {intervals : List IntervalConfig} {w : Worker} (n : ℕ)
    → Reach now intervals w
    → AreNewest (of_interval n w.generated) (w.snapshot_path_map n)
unfolding of_interval
Reach-AreNewest n (here xs ys top e f) = keep_all [] (omega arith)
Reach-AreNewest n (next {v} {w} r st) = Round-AreNewest v w n st (Reach-AreNewest n r)
