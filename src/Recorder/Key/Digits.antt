-- ===== src/Recorder/Key/Digits.antt =====
-- Decimal digits of a fixed width, as src/msg_recorder/record_key.cc writes them.
use cris_core.Prelude.{
  ℕ, zero, suc, ◌+◌, ◌-◌, ◌*◌, ◌/◌, ◌%◌, ◌^◌, ◌≤◌, ◌<◌, ◌≡◌, ◌∙◌, true, List, ◌++◌, compare,
  Ordering, arith,
}
use native.Mathlib.Nat.{pow-succ', mod-lt, div-add-mod', div-lt_iff_lt-mul, mul-le-mul_right}
use cris_core.Recorder.Key.{digits, is_digit, read_digits, compare_bytes}

pub ten_pow_suc : (k : ℕ) → 10 ^ suc k ≡ 10 * 10 ^ k
ten_pow_suc k = pow-succ' 10 k

pub ten_pow_pos : (k : ℕ) → 0 < 10 ^ k
ten_pow_pos zero = omega arith
ten_pow_pos (suc k) = omega (arith, ten_pow_suc k, ten_pow_pos k)

pub quotient_small : (k n : ℕ) → n < 10 ^ suc k → n / 10 ^ k < 10
quotient_small k n h = (div-lt_iff_lt-mul (ten_pow_pos k)).1 (omega (arith, ten_pow_suc k))

pub remainder_small : (k n : ℕ) → n % 10 ^ k < 10 ^ k
remainder_small k n = mod-lt n (ten_pow_pos k)

below : (p x y : ℕ) → x < y → x * p + p ≤ y * p
below p x y l = let step : suc x ≤ y = omega arith in omega (arith, mul-le-mul_right p step)

-- Numbers compare like their quotients and then their remainders.
pub compare_split :
    (p a b : ℕ)
    → 0 < p
    → compare a b ≡ (elim (compare (a / p) (b / p)) [
      | Ordering.lt ↦ Ordering.lt
      | Ordering.eq ↦ compare (a % p) (b % p)
      | Ordering.gt ↦ Ordering.gt
    ])
compare_split p a b h = ground (
  arith,
  div-add-mod' a p,
  div-add-mod' b p,
  mod-lt a h,
  mod-lt b h,
  below p (a / p) (b / p),
  below p (b / p) (a / p),
)

same_read :
    (rest : List ℕ) (a b c d : ℕ) → a ≡ c → b ≡ d → read_digits rest a b ≡ read_digits rest c d
same_read rest a b c d e f = cc

is_digit-add : (q : ℕ) → q < 10 → is_digit (48 + q) ≡ true
is_digit-add q h = ground arith

shift :
    (k n value q r : ℕ)
    → q * 10 ^ k + r ≡ n
    → (value * 10 + (48 + q - 48)) * 10 ^ k + r ≡ value * 10 ^ suc k + n
shift k n value q r e =
    let cancel : 48 + q - 48 ≡ q = omega arith in rw (cancel, ten_pow_suc k) (omega arith)

-- The digits of a number are read back, up to what is no digit.
pub read_digits-digits :
    (width n seen value : ℕ) (rest : List ℕ)
    → n < 10 ^ width
    → read_digits (digits width n ++ rest) seen value
      ≡ read_digits rest (seen + width) (value * 10 ^ width + n)
unfolding digits read_digits
read_digits-digits zero n seen value rest h =
    same_read rest seen value (seen + 0) (value * 1 + n) (omega arith) (omega arith)
read_digits-digits (suc k) n seen value rest h =
    let q = n / 10 ^ k in
    let r = n % 10 ^ k in
    let next =
      read_digits-digits k r (suc seen) (value * 10 + (48 + q - 48)) rest (remainder_small k n) in
    let moved =
      same_read rest (suc seen + k) ((value * 10 + (48 + q - 48)) * 10 ^ k + r) (seen + suc k)
        (value * 10 ^ suc k + n) (omega arith) (shift k n value q r (div-add-mod' n (10 ^ k))) in
    rw (is_digit-add q (quotient_small k n h)) (next ∙ moved)

pub compare_bytes-digits :
    (width a b : ℕ) (xs ys : List ℕ)
    → a < 10 ^ width
    → b < 10 ^ width
    → compare_bytes (digits width a ++ xs) (digits width b ++ ys) ≡ (elim (compare a b) [
      | Ordering.lt ↦ Ordering.lt
      | Ordering.eq ↦ compare_bytes xs ys
      | Ordering.gt ↦ Ordering.gt
    ])
unfolding digits compare_bytes
compare_bytes-digits zero a b xs ys h k =
    let e : a ≡ 0 = omega arith in let f : b ≡ 0 = omega arith in ground arith
compare_bytes-digits (suc w) a b xs ys h k = ground (
  arith,
  compare_split (10 ^ w) a b (ten_pow_pos w),
  compare_bytes-digits w (a % 10 ^ w) (b % 10 ^ w) xs ys (remainder_small w a)
      (remainder_small w b),
)
