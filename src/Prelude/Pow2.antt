-- ===== src/Prelude/Pow2.antt =====
-- Powers of two as a predicate, and std::bit_ceil of the C++ library.
use Prim.Native.Nat.{ℕ, zero, suc, ◌+◌, ◌≤◌, ◌<◌}
use mathlib.Core.Path.{◌≡◌}
use mathlib.Core.Logic.{inl, inr}
use native.Mathlib.Omega.{arith}
use cris_core.Prelude.Tests.{leb, if◌then◌else◌, Bool-cases}

pub data IsPow2 : ℕ → Type 0 where
  one : {n : ℕ} → n ≡ 1 → IsPow2 n
  double : {n : ℕ} (m : ℕ) → IsPow2 m → n ≡ m + m → IsPow2 n

pub IsPow2_pos : {n : ℕ} → IsPow2 n → 0 < n
IsPow2_pos (one e) = omega arith
IsPow2_pos (double m p e) = omega (arith, IsPow2_pos p)

-- Of two powers of two the larger is at least twice the smaller.
pub IsPow2_gap : {a b : ℕ} → IsPow2 a → IsPow2 b → a < b → a + a ≤ b
IsPow2_gap p (one e) h = omega (arith, IsPow2_pos p)
IsPow2_gap (one e) (double m q f) h = omega (arith, IsPow2_pos q)
IsPow2_gap (double k p e) (double m q f) h = omega (arith, IsPow2_gap p q (omega arith))

-- Doubling from `p` until `n` is reached; the fuel counts the doublings that are left.
pub bit_ceil_from : ℕ → ℕ → ℕ → ℕ
bit_ceil_from zero p n = p
bit_ceil_from (suc fuel) p n =
    let rest = bit_ceil_from fuel (p + p) n in if leb n p then p else rest

unfoldable pub bit_ceil : ℕ → ℕ
unfolding bit_ceil_from
bit_ceil n = bit_ceil_from n 1 n

bit_ceil_from_le : (fuel p n : ℕ) → 0 < p → n ≤ p + fuel → n ≤ bit_ceil_from fuel p n
unfolding bit_ceil_from
bit_ceil_from_le zero p n h k = omega arith
bit_ceil_from_le (suc fuel) p n h k =
    ground (arith, bit_ceil_from_le fuel (p + p) n (omega arith) (omega arith))

bit_ceil_from-IsPow2 : (fuel p n : ℕ) → IsPow2 p → IsPow2 (bit_ceil_from fuel p n)
unfolding bit_ceil_from
bit_ceil_from-IsPow2 zero p n h = h
bit_ceil_from-IsPow2 (suc fuel) p n h = elim (Bool-cases (leb n p)) [
  | inl e ↦ rw e h
  | inr e ↦ rw e (bit_ceil_from-IsPow2 fuel (p + p) n (double p h (omega arith)))
]

pub le-bit_ceil : (n : ℕ) → n ≤ bit_ceil n
unfolding bit_ceil
le-bit_ceil n = bit_ceil_from_le n 1 n (omega arith) (omega arith)

pub bit_ceil-IsPow2 : (n : ℕ) → IsPow2 (bit_ceil n)
unfolding bit_ceil
bit_ceil-IsPow2 n = bit_ceil_from-IsPow2 n 1 n (one (omega arith))
