-- ===== src/Recorder/Key.antt =====
-- src/msg_recorder/record_key.h and record_key.cc: RecordFileKey, its textual form and its order.
-- A text is the list of its character codes. A timestamp is signed and 64 bits wide, a count
-- unsigned and 64 bits wide; a number below 2 ^ 64 has at most twenty digits, the width that ToBytes
-- sets.
pub mod Digits
pub mod Order
pub mod Roundtrip
pub mod Unique
use cris_core.Prelude.{
  ℕ, zero, suc, ◌+◌, ◌-◌, ◌*◌, ◌/◌, ◌%◌, ◌^◌, compare, Ordering, Bool, true, false, ◌&&◌, ◌||◌,
  Option, none, some, List, [], ◌∷◌, ◌++◌, ltb, leb, ◌==◌, if◌then◌else◌, ℤ, pos, negsuc, pos_part,
  get_or,
}

pub record RecordFileKey : Type 0 where
  pub timestamp_ns : ℤ
  pub count : ℕ

-- The sixteen counters are a function from their indices; a counter wraps.
unfoldable pub make : (ℕ → ℕ) → ℕ → RecordFileKey × (ℕ → ℕ)
make global_counters now = (
  record { timestamp_ns = pos now; count = global_counters (now % 16) },
  λ i. if i == now % 16 then (global_counters i + 1) % 18446744073709551616 else global_counters i,
)

-- std::setw and std::setfill('0'): the digits of a number of at most `width` digits.
unfoldable pub digits : ℕ → ℕ → List ℕ
digits zero n = []
digits (suc width) n = (48 + n / 10 ^ width) ∷ digits width (n % 10 ^ width)

abbrev pub max_int64_digits : ℕ
max_int64_digits = 20

-- "T", the timestamp (at least zero), "ns", the count.
unfoldable pub to_bytes : RecordFileKey → List ℕ
to_bytes key =
    84
    ∷ (digits max_int64_digits (pos_part key.timestamp_ns)
        ++ 110 ∷ 115 ∷ digits max_int64_digits key.count)

abbrev pub is_digit : ℕ → Bool
is_digit c = leb 48 c && leb c 57

-- The longest run of digits: how many they are, their value, and the rest.
unfoldable pub read_digits : List ℕ → ℕ → ℕ → ℕ × ℕ × List ℕ
read_digits [] seen value = (seen, value, [])
read_digits (c ∷ cs) seen value =
    let rest = read_digits cs (suc seen) (value * 10 + (c - 48)) in
    if is_digit c then rest else (seen, value, c ∷ cs)

-- std::stoll and std::stoull throw std::out_of_range above these.
abbrev pub in_range : ℕ → ℕ → Bool
in_range timestamp count = leb timestamp 9223372036854775807 && leb count 18446744073709551615

abbrev pub finish : ℕ → ℕ × ℕ × List ℕ → Option RecordFileKey
finish timestamp (zero, count, rest) = none
finish timestamp (suc seen, count, []) =
    if in_range timestamp count
    then some (record { timestamp_ns = pos timestamp; count = count })
    else none
finish timestamp (suc seen, count, c ∷ cs) = none

abbrev pub separator : List ℕ → Option (List ℕ)
separator [] = none
separator (c ∷ []) = none
separator (c ∷ d ∷ cs) = if c == 110 && d == 115 then some cs else none

abbrev pub read_count : ℕ → Option (List ℕ) → Option RecordFileKey
read_count timestamp none = none
read_count timestamp (some cs) = finish timestamp (read_digits cs 0 0)

abbrev pub read_timestamp : ℕ × ℕ × List ℕ → Option RecordFileKey
read_timestamp (zero, timestamp, rest) = none
read_timestamp (suc seen, timestamp, rest) = read_count timestamp (separator rest)

-- The expression T([[:digit:]]+)ns([[:digit:]]+) is deterministic, so that one pass decides it.
unfoldable pub from_bytes : List ℕ → Option RecordFileKey
from_bytes [] = none
from_bytes (c ∷ cs) = if c == 84 then read_timestamp (read_digits cs 0 0) else none

-- The sign of memcmp on the common length, and then of the lengths.
unfoldable pub compare_bytes : List ℕ → List ℕ → Ordering
compare_bytes [] [] = Ordering.eq
compare_bytes [] (y ∷ ys) = Ordering.lt
compare_bytes (x ∷ xs) [] = Ordering.gt
compare_bytes (x ∷ xs) (y ∷ ys) =
    let rest = compare_bytes xs ys in
    elim (compare x y) [
      | Ordering.lt ↦ Ordering.lt
      | Ordering.eq ↦ rest
      | Ordering.gt ↦ Ordering.gt
    ]

unfoldable pub compare_keys : RecordFileKey → RecordFileKey → Ordering
compare_keys lhs rhs = compare_bytes (to_bytes lhs) (to_bytes rhs)

abbrev byte : List ℕ → ℕ → ℕ
byte bytes i = get_or bytes i 0

-- A little-endian word of `width` bytes from `i` on.
unfoldable pub word_from : ℕ → List ℕ → ℕ → ℕ
word_from zero bytes i = 0
word_from (suc width) bytes i = byte bytes i + 256 * word_from width bytes (suc i)

abbrev signed : ℕ → ℤ
signed w = if leb 9223372036854775808 w then negsuc (18446744073709551615 - w) else pos w

-- memcpy of at most sixteen bytes over a key of zeros, so that a missing byte is zero.
unfoldable pub from_bytes_legacy : List ℕ → Option RecordFileKey
from_bytes_legacy bytes =
    some (record { timestamp_ns = signed (word_from 8 bytes 0); count = word_from 8 bytes 8 })
