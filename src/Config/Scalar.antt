-- ===== src/Config/Scalar.antt =====
-- Config::InitValue of src/config/config.h for numbers and Booleans, with ConfigDataTrivialParser of
-- config_parser_impl.h. Of the floating types only the choice of parser is not modelled here.
pub mod Ranges
use cris_core.Prelude.{ℕ, ◌-◌, ◌%◌, ◌^◌, Bool, true, false, not, ltb, if◌then◌else◌, ℤ, pos, negsuc}
use cris_core.Config.Json.{
  Got, success, no_such_field, failure, Simdjson, Result, parsed, fatal, ◌>>=◌, required,
}

-- bool, and the integral types by their signedness and width.
pub data Integral : Type 0 where
  boolean : Integral
  integer : (is_signed : Bool) (width : ℕ) → Integral

-- The low bits of an integer, as an unsigned number.
abbrev pub low_bits : ℤ → ℕ → ℕ
low_bits (pos n) width = n % 2 ^ width
low_bits (negsuc n) width = 2 ^ width - n % 2 ^ width - 1

-- static_cast from a 64-bit integer to a type of `width` bits.
unfoldable pub static_cast : Bool → ℕ → ℤ → ℤ
static_cast false width n = pos (low_bits n width)
static_cast true width n =
    if ltb (low_bits n width) (2 ^ (width - 1))
    then pos (low_bits n width)
    else negsuc (2 ^ width - low_bits n width - 1)

abbrev pub of_bool : Bool → ℤ
of_bool true = pos 1
of_bool false = pos 0

module _ {Json : Type 0} (lib : Simdjson Json) where
  -- ConfigDataTrivialParser ends the program on any error.
  unfoldable pub init_value : Integral → Json → Result ℤ
  init_value boolean val = required (lib.get_bool val) >>= λ b. parsed (of_bool b)
  init_value (integer is_signed width) val =
      if not is_signed
      then (required (lib.get_int64 val) >>= λ n. parsed (static_cast is_signed width n))
      else (required (lib.get_uint64 val) >>= λ n. parsed (static_cast is_signed width (pos n)))
