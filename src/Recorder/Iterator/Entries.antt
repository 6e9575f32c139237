-- ===== src/Recorder/Iterator/Entries.antt =====
-- What the iterators of src/msg_recorder/record_file.cc pass.
use cris_core.Prelude.{
  ℕ, zero, suc, ◌≤◌, ◌≡◌, refl, sym, ◌∙◌, ap, inl, inr, Bool, true, false, Option, none, some, List,
  [], ◌∷◌, length, Bool-cases, Option-cases, pos, arith,
}
use mathlib.Core.Bool.{true≢false}
use cris_core.Recorder.Key.{RecordFileKey}
use cris_core.Recorder.Iterator.{
  LevelDbIterator, IsFinite, read_key, RecordFileIterator, try_read_current_key, moved,
  read_next_valid_key, iterator, valid, get, next, read_all,
}

abbrev with_key :
    Option RecordFileKey → List ℕ → List (RecordFileKey × List ℕ) → List (RecordFileKey × List ℕ)
with_key none value rest = rest
with_key (some key) value rest = (key, value) ∷ rest

-- The entries of a sequence whose keys can be read, with those keys.
unfoldable pub readable : Bool → List (List ℕ × List ℕ) → List (RecordFileKey × List ℕ)
readable legacy [] = []
readable legacy ((bytes, value) ∷ rest) =
    with_key (read_key legacy bytes) value (readable legacy rest)

readable-none :
    (legacy : Bool) (bytes value : List ℕ) (rest : List (List ℕ × List ℕ))
    → read_key legacy bytes ≡ none
    → readable legacy ((bytes, value) ∷ rest) ≡ readable legacy rest
unfolding readable
readable-none legacy bytes value rest k = ap (λ o. with_key o value (readable legacy rest)) k

readable-some :
    (legacy : Bool) (bytes value : List ℕ) (rest : List (List ℕ × List ℕ)) (key : RecordFileKey)
    → read_key legacy bytes ≡ some key
    → readable legacy ((bytes, value) ∷ rest) ≡ (key, value) ∷ readable legacy rest
unfolding readable
readable-some legacy bytes value rest key k = ap (λ o. with_key o value (readable legacy rest)) k

module _ {C : Type 0} (db : LevelDbIterator C) (ahead : C → List (List ℕ × List ℕ))
    (laws : IsFinite db ahead) where
  -- The iterator stands at the end, or at an entry whose key it has read.
  IsAt : RecordFileIterator db → Type 0
  IsAt itr =
      (db.valid itr.db_itr ≡ true) → read_key itr.legacy (db.key itr.db_itr) ≡ some itr.current_key

  record Skipped (itr out : RecordFileIterator db) : Type 0 where
    stands : IsAt out
    same_legacy : out.legacy ≡ itr.legacy
    same_rest : readable itr.legacy (ahead out.db_itr) ≡ readable itr.legacy (ahead itr.db_itr)
    shorter : length (ahead out.db_itr) ≤ length (ahead itr.db_itr)

  at_end-read :
      (fuel : ℕ) (itr : RecordFileIterator db)
      → db.valid itr.db_itr ≡ false
      → read_next_valid_key db fuel itr ≡ itr
  unfolding read_next_valid_key
  at_end-read zero itr v = refl
  at_end-read (suc fuel) itr v = rw v refl

  bad_key-read :
      (fuel : ℕ) (itr : RecordFileIterator db)
      → db.valid itr.db_itr ≡ true
      → read_key itr.legacy (db.key itr.db_itr) ≡ none
      → read_next_valid_key db (suc fuel) itr ≡ read_next_valid_key db fuel (moved db itr)
  unfolding read_next_valid_key try_read_current_key
  bad_key-read fuel itr v k = rw (v, k) refl

  good_key-read :
      (fuel : ℕ) (itr : RecordFileIterator db) (key : RecordFileKey)
      → db.valid itr.db_itr ≡ true
      → read_key itr.legacy (db.key itr.db_itr) ≡ some key
      → read_next_valid_key db (suc fuel) itr ≡ record itr { current_key = key }
  unfolding read_next_valid_key try_read_current_key
  good_key-read fuel itr key v k = rw (v, k) refl

  readable-bad :
      (legacy : Bool) (c : C)
      → db.valid c ≡ true
      → read_key legacy (db.key c) ≡ none
      → readable legacy (ahead c) ≡ readable legacy (ahead (db.next c))
  readable-bad legacy c v k =
      ap (readable legacy) (laws.at_entry c v)
      ∙ readable-none legacy (db.key c) (db.value c) (ahead (db.next c)) k

  readable-good :
      (legacy : Bool) (c : C) (key : RecordFileKey)
      → db.valid c ≡ true
      → read_key legacy (db.key c) ≡ some key
      → readable legacy (ahead c) ≡ (key, db.value c) ∷ readable legacy (ahead (db.next c))
  readable-good legacy c key v k =
      ap (readable legacy) (laws.at_entry c v)
      ∙ readable-some legacy (db.key c) (db.value c) (ahead (db.next c)) key k

  ahead-length : (c : C) → db.valid c ≡ true → length (ahead c) ≡ suc (length (ahead (db.next c)))
  ahead-length c v = ap length (laws.at_entry c v)

  ends-Skipped : (itr : RecordFileIterator db) → db.valid itr.db_itr ≡ false → Skipped itr itr
  unfolding IsAt
  ends-Skipped itr v = record {
    stands = λ t. absurd (true≢false (sym t ∙ v));
    same_legacy = refl;
    same_rest = refl;
    shorter = omega arith;
  }

  reads-Skipped :
      (itr : RecordFileIterator db) (key : RecordFileKey)
      → read_key itr.legacy (db.key itr.db_itr) ≡ some key
      → Skipped itr (record itr { current_key = key })
  unfolding IsAt
  reads-Skipped itr key k = record {
    stands = λ t. k;
    same_legacy = refl;
    same_rest = refl;
    shorter = omega arith;
  }

  bad-Skipped :
      (itr out : RecordFileIterator db)
      → db.valid itr.db_itr ≡ true
      → read_key itr.legacy (db.key itr.db_itr) ≡ none
      → Skipped (moved db itr) out
      → Skipped itr out
  bad-Skipped itr out v k sk = record {
    stands = sk.stands;
    same_legacy = sk.same_legacy;
    same_rest = sk.same_rest ∙ sym (readable-bad itr.legacy itr.db_itr v k);
    shorter = omega (arith, sk.shorter, ahead-length itr.db_itr v);
  }

  read-Skipped :
      (fuel : ℕ) (itr : RecordFileIterator db)
      → length (ahead itr.db_itr) ≤ fuel
      → Skipped itr (read_next_valid_key db fuel itr)
  read-Skipped zero itr h = elim (Bool-cases (db.valid itr.db_itr)) [
    | inl v ↦ absurd (omega (arith, ahead-length itr.db_itr v))
    | inr v ↦ rw (at_end-read zero itr v) (ends-Skipped itr v)
  ]
  read-Skipped (suc fuel) itr h = elim (Bool-cases (db.valid itr.db_itr)) [
    | inl v ↦ elim (Option-cases (read_key itr.legacy (db.key itr.db_itr))) [
      | inl k ↦ rw (bad_key-read fuel itr v k) (
          bad-Skipped itr (read_next_valid_key db fuel (moved db itr)) v k
            (read-Skipped fuel (moved db itr) (omega (arith, ahead-length itr.db_itr v))))
      | inr (key, k) ↦ rw (good_key-read fuel itr key v k) (reads-Skipped itr key k)
    ]
    | inr v ↦ rw (at_end-read (suc fuel) itr v) (ends-Skipped itr v)
  ]

  read_all_step :
      (steps fuel : ℕ) (itr : RecordFileIterator db)
      → db.valid itr.db_itr ≡ true
      → read_all db (suc steps) fuel itr
        ≡ (itr.current_key, db.value itr.db_itr)
          ∷ read_all db steps fuel (read_next_valid_key db fuel (moved db itr))
  unfolding read_all valid get next
  read_all_step steps fuel itr v = rw v refl

  read_all_end :
      (steps fuel : ℕ) (itr : RecordFileIterator db)
      → db.valid itr.db_itr ≡ false
      → read_all db steps fuel itr ≡ []
  unfolding read_all valid
  read_all_end zero fuel itr v = refl
  read_all_end (suc steps) fuel itr v = rw v refl

  readable_end : (legacy : Bool) (c : C) → db.valid c ≡ false → readable legacy (ahead c) ≡ []
  unfolding readable
  readable_end legacy c v = rw (laws.at_end c v) refl

  read_all-readable :
      (steps fuel : ℕ) (itr : RecordFileIterator db)
      → IsAt itr
      → length (ahead itr.db_itr) ≤ fuel
      → length (ahead itr.db_itr) ≤ steps
      → read_all db steps fuel itr ≡ readable itr.legacy (ahead itr.db_itr)
  unfolding IsAt
  read_all-readable zero fuel itr a h k = elim (Bool-cases (db.valid itr.db_itr)) [
    | inr v ↦ read_all_end zero fuel itr v ∙ sym (readable_end itr.legacy itr.db_itr v)
    | inl v ↦ absurd (omega (arith, ahead-length itr.db_itr v))
  ]
  read_all-readable (suc steps) fuel itr a h k = elim (Bool-cases (db.valid itr.db_itr)) [
    | inr v ↦ read_all_end (suc steps) fuel itr v ∙ sym (readable_end itr.legacy itr.db_itr v)
    | inl v ↦
        let longer = ahead-length itr.db_itr v in
        let sk = read-Skipped fuel (moved db itr) (omega arith) in
        let shorter = sk.shorter in
        let out = read_next_valid_key db fuel (moved db itr) in
        let next_lem = read_all-readable steps fuel out sk.stands (omega arith) (omega arith) in
        let same : readable out.legacy (ahead out.db_itr)
            ≡ readable itr.legacy (ahead (db.next itr.db_itr)) =
          ap (λ l. readable l (ahead out.db_itr)) sk.same_legacy ∙ sk.same_rest in
        rw
          (
            read_all_step steps fuel itr v,
            readable-good itr.legacy itr.db_itr itr.current_key v (a v),
          )
          (ap (λ l. (itr.current_key, db.value itr.db_itr) ∷ l) (next_lem ∙ same))
  ]

  -- An iterator that is made at a position passes, until it is not valid any more, exactly the entries
  -- from there on whose keys can be read, in their order and with those keys and their values;
  -- entries with other keys are left out.
  pub iterator-readable :
      (c : C) (legacy : Bool) (fuel : ℕ)
      → length (ahead c) ≤ fuel
      → read_all db fuel fuel (iterator db fuel c legacy) ≡ readable legacy (ahead c)
  unfolding iterator
  iterator-readable c legacy fuel h =
      let made : RecordFileIterator db = record {
        db_itr = c;
        legacy = legacy;
        current_key = record { timestamp_ns = pos 0; count = 0 };
      } in
      let sk = read-Skipped fuel made h in
      let shorter = sk.shorter in
      let out = read_next_valid_key db fuel made in
      read_all-readable fuel fuel out sk.stands (omega arith) (omega arith)
      ∙ ap (λ l. readable l (ahead out.db_itr)) sk.same_legacy
      ∙ sk.same_rest
