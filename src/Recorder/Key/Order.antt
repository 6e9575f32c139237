-- ===== src/Recorder/Key/Order.antt =====
-- The order of keys in src/msg_recorder/record_key.cc, which is the order in which a record file is
-- read.
use cris_core.Prelude.{
  ℕ, ◌<◌, ◌≡◌, refl, compare, Ordering, List, [], ◌∷◌, append-nil, pos_part, arith,
}
use cris_core.Recorder.Key.{RecordFileKey, digits, to_bytes, compare_bytes, compare_keys}
use cris_core.Recorder.Key.Digits.{compare_bytes-digits}

-- The widths of the fields.
pub record IsKey (key : RecordFileKey) : Type 0 where
  pub timestamp : pos_part key.timestamp_ns < 9223372036854775808
  pub count : key.count < 18446744073709551616

compare_counts :
    (c d : ℕ)
    → c < 18446744073709551616
    → d < 18446744073709551616
    → compare_bytes (digits 20 c) (digits 20 d) ≡ compare c d
unfolding compare_bytes
compare_counts c d h k =
    let padded = compare_bytes-digits 20 c d [] [] (omega arith) (omega arith) in
    ground (arith, padded, append-nil (digits 20 c), append-nil (digits 20 d))

compare_separated :
    (xs ys : List ℕ) → compare_bytes (110 ∷ 115 ∷ xs) (110 ∷ 115 ∷ ys) ≡ compare_bytes xs ys
unfolding compare_bytes
compare_separated xs ys = refl

compare_headed : (xs ys : List ℕ) → compare_bytes (84 ∷ xs) (84 ∷ ys) ≡ compare_bytes xs ys
unfolding compare_bytes
compare_headed xs ys = refl

-- The order of the bytes of two keys is the order of their timestamps, a negative one counted as
-- zero, and for equal timestamps the order of their counts.
pub compare_keys-lexicographic :
    (lhs rhs : RecordFileKey)
    → IsKey lhs
    → IsKey rhs
    → compare_keys lhs rhs
      ≡ (elim (compare (pos_part lhs.timestamp_ns) (pos_part rhs.timestamp_ns)) [
        | Ordering.lt ↦ Ordering.lt
        | Ordering.eq ↦ compare lhs.count rhs.count
        | Ordering.gt ↦ Ordering.gt
      ])
unfolding compare_keys to_bytes
compare_keys-lexicographic lhs rhs h k =
    let ht = h.timestamp in
    let kt = k.timestamp in
    let xs : List ℕ = 110 ∷ 115 ∷ digits 20 lhs.count in
    let ys : List ℕ = 110 ∷ 115 ∷ digits 20 rhs.count in
    let times =
      compare_bytes-digits 20 (pos_part lhs.timestamp_ns) (pos_part rhs.timestamp_ns) xs ys
        (omega arith) (omega arith) in
    let counts = compare_counts lhs.count rhs.count h.count k.count in
    let separated = compare_separated (digits 20 lhs.count) (digits 20 rhs.count) in
    rw (compare_headed, times) (ground (arith, separated, counts))
