-- ===== src/Recorder/Key/Roundtrip.antt =====
-- Keys of src/msg_recorder/record_key.cc are read back from their bytes.
use cris_core.Prelude.{
  ℕ, ◌^◌, ◌<◌, ◌≡◌, refl, some, List, [], ◌∷◌, ◌++◌, append-nil, pos, pos_part, arith, le→leb,
}
use cris_core.Recorder.Key.{RecordFileKey, digits, read_digits, to_bytes, from_bytes}
use cris_core.Recorder.Key.Digits.{read_digits-digits}
use cris_core.Recorder.Key.Order.{IsKey}

read_all : (n : ℕ) → n < 10 ^ 20 → read_digits (digits 20 n) 0 0 ≡ (20, n, [])
unfolding read_digits
read_all n h =
    let padded = read_digits-digits 20 n 0 0 [] h in
    ground (arith, padded, append-nil (digits 20 n))

read_first :
    (n : ℕ) (rest : List ℕ)
    → n < 10 ^ 20
    → read_digits (digits 20 n ++ 110 ∷ rest) 0 0 ≡ (20, n, 110 ∷ rest)
unfolding read_digits
read_first n rest h =
    let padded = read_digits-digits 20 n 0 0 (110 ∷ rest) h in ground (arith, padded)

-- Every key whose fields have their widths is read back from its bytes, with a negative timestamp
-- replaced by zero.
pub from_bytes-to_bytes :
    (key : RecordFileKey)
    → IsKey key
    → from_bytes (to_bytes key)
      ≡ some (record { timestamp_ns = pos (pos_part key.timestamp_ns); count = key.count })
unfolding from_bytes to_bytes
from_bytes-to_bytes key h =
    let ht = h.timestamp in
    let hc = h.count in
    let t = pos_part key.timestamp_ns in
    let first = read_first t (115 ∷ digits 20 key.count) (omega arith) in
    let second = read_all key.count (omega arith) in
    rw
      (
        first,
        second,
        le→leb t 9223372036854775807 (omega arith),
        le→leb key.count 18446744073709551615 (omega arith),
      )
      refl
