-- ===== src/Recorder/Replay/Order.antt =====
-- The order by which src/msg_recorder/replayer.cc compares keys.
use cris_core.Prelude.{ℕ, ◌≡◌, refl, true, false, List, [], ◌∷◌, arith}
use cris_core.Recorder.Key.{RecordFileKey, to_bytes, compare_bytes, compare_keys}
use cris_core.Recorder.Replay.{is_after, compares}

bytes_trans :
    (a b c : List ℕ)
    → is_after (compare_bytes a b) ≡ false
    → is_after (compare_bytes b c) ≡ false
    → is_after (compare_bytes a c) ≡ false
unfolding compare_bytes
bytes_trans [] b [] h k = refl
bytes_trans [] b (z ∷ c) h k = refl
bytes_trans (x ∷ a) [] c h k = ground arith
bytes_trans (x ∷ a) (y ∷ b) [] h k = ground arith
bytes_trans (x ∷ a) (y ∷ b) (z ∷ c) h k = ground (arith, bytes_trans a b c)

pub compares_trans :
    (k l m : RecordFileKey) → compares k l ≡ false → compares l m ≡ false → compares k m ≡ false
unfolding compares compare_keys
compares_trans k l m h i = bytes_trans (to_bytes k) (to_bytes l) (to_bytes m) h i

bytes_total :
    (a b : List ℕ) → is_after (compare_bytes a b) ≡ true → is_after (compare_bytes b a) ≡ false
unfolding compare_bytes
bytes_total [] [] h = refl
bytes_total [] (y ∷ b) h = ground arith
bytes_total (x ∷ a) [] h = refl
bytes_total (x ∷ a) (y ∷ b) h = ground (arith, bytes_total a b)

pub compares_total : (k l : RecordFileKey) → compares k l ≡ true → compares l k ≡ false
unfolding compares compare_keys
compares_total k l h = bytes_total (to_bytes k) (to_bytes l) h

bytes_refl : (a : List ℕ) → is_after (compare_bytes a a) ≡ false
unfolding compare_bytes
bytes_refl [] = refl
bytes_refl (x ∷ a) = ground (arith, bytes_refl a)

pub compares_refl : (k : RecordFileKey) → compares k k ≡ false
unfolding compares compare_keys
compares_refl k = bytes_refl (to_bytes k)
