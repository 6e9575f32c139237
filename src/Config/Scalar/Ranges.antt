-- ===== src/Config/Scalar/Ranges.antt =====
-- Which JSON integers InitValue of src/config/config.h gives to a Config as they are.
use native.Mathlib.Nat.{mod-eq_of_lt, pow-suc}
use cris_core.Prelude.{
  zero, suc, ℕ, ◌+◌, ◌-◌, ◌%◌, ◌^◌, ◌<◌, ◌≡◌, refl, ap, Bool, true, false, ltb, if◌then◌else◌, ℤ,
  pos, negsuc, lt→ltb, arith,
}
use cris_core.Config.Json.{success, failure, Simdjson, Result, parsed, fatal, ◌>>=◌, required}
use cris_core.Config.Scalar.{integer, static_cast, init_value}

-- A value is an integer, which simdjson gives as a 64-bit number where it fits.
pub data IsInteger {Json : Type 0} (lib : Simdjson Json) (val : Json) : ℤ → Type 0 where
  natural :
      {n : ℕ}
      → lib.get_uint64 val ≡ (if ltb n (2 ^ 64) then success n else failure)
      → lib.get_int64 val ≡ (if ltb n (2 ^ 63) then success (pos n) else failure)
      → IsInteger lib val (pos n)
  negative :
      {n : ℕ}
      → lib.get_uint64 val ≡ failure
      → lib.get_int64 val ≡ (if ltb n (2 ^ 63) then success (negsuc n) else failure)
      → IsInteger lib val (negsuc n)

-- An integer that the type of a Config can hold; for an unsigned type also a negative one whose
-- opposite it could hold.
abbrev pub Fits : Bool → ℕ → ℤ → Type 0
Fits true width (pos n) = n < 2 ^ (width - 1)
Fits true width (negsuc n) = n < 2 ^ (width - 1)
Fits false width (pos n) = n < 2 ^ width
Fits false width (negsuc n) = n < 2 ^ width

-- What a Config of the type is given.
abbrev pub given : Bool → ℕ → ℤ → Result ℤ
given true width (pos n) = if ltb n (2 ^ 64) then parsed (pos n) else fatal
given true width (negsuc n) = fatal
given false width (pos n) = if ltb n (2 ^ 63) then parsed (pos n) else fatal
given false width (negsuc n) = if ltb n (2 ^ 63) then parsed (pos (2 ^ width - n - 1)) else fatal

low_bits_small : (width n : ℕ) → n < 2 ^ width → n % 2 ^ width ≡ n
low_bits_small width n h = mod-eq_of_lt h

static_cast_unsigned : (width n : ℕ) → n < 2 ^ width → static_cast false width (pos n) ≡ pos n
unfolding static_cast
static_cast_unsigned width n h = ap pos (low_bits_small width n h)

half : (width : ℕ) → 0 < width → 2 ^ width ≡ 2 ^ (width - 1) + 2 ^ (width - 1)
half zero h = elim h [ ]
half (suc width) h = let e : suc width - 1 ≡ width = omega arith in rw (pow-suc, e) (omega arith)

static_cast_signed :
    (width n : ℕ) → 0 < width → n < 2 ^ (width - 1) → static_cast true width (pos n) ≡ pos n
unfolding static_cast
static_cast_signed width n w h =
    let small : n % 2 ^ width ≡ n = low_bits_small width n (omega (arith, half width w)) in
    rw (small, lt→ltb n (2 ^ (width - 1)) h) refl

static_cast_negative :
    (width n : ℕ) → n < 2 ^ width → static_cast false width (negsuc n) ≡ pos (2 ^ width - n - 1)
unfolding static_cast
static_cast_negative width n h = ap (λ (k : ℕ). pos (2 ^ width - k - 1)) (low_bits_small width n h)

module _ {Json : Type 0} (lib : Simdjson Json) where
  required-if :
      {A : Type 0} (b : Bool) (x : A) (y : ℤ) (f : A → ℤ)
      → f x ≡ y
      → (required (if b then success x else failure) >>= λ a. parsed (f a))
        ≡ (if b then parsed y else fatal)
  required-if true x y f h = ap parsed h
  required-if false x y f h = refl

  -- A Config of a type that can hold an integer of the file is given that integer where the type is
  -- signed and the integer is not negative, or where the type is unsigned and the integer is below
  -- 2 ^ 63. A negative integer ends the program for a signed type, and wraps for an unsigned one; an
  -- integer from 2 ^ 63 on ends the program for an unsigned type.
  pub init_value-given :
      (val : Json) (k : ℤ) (is_signed : Bool) (width : ℕ)
      → IsInteger lib val k
      → 0 < width
      → Fits is_signed width k
      → init_value lib (integer is_signed width) val ≡ given is_signed width k
  unfolding init_value
  init_value-given val (pos n) true width (natural u i) w h = rw u (
      required-if (ltb n (2 ^ 64)) n (pos n) (λ m. static_cast true width (pos m))
        (static_cast_signed width n w h))
  init_value-given val (pos n) false width (natural u i) w h = rw i (
      required-if (ltb n (2 ^ 63)) (pos n) (pos n) (static_cast false width)
        (static_cast_unsigned width n h))
  init_value-given val (negsuc n) true width (negative u i) w h = rw u refl
  init_value-given val (negsuc n) false width (negative u i) w h = rw i (
      required-if (ltb n (2 ^ 63)) (negsuc n) (pos (2 ^ width - n - 1)) (static_cast false width)
        (static_cast_negative width n h))
