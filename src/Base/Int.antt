-- ===== src/Base/Int.antt =====
-- Two's complement: the integer that a bit pattern stands for, and Rust's division on integers.
use Prim.Native.Nat.{ℕ, zero, suc, ◌+◌, ◌-◌, ◌*◌, ◌/◌, ◌%◌}
use mathlib.Core.Bool.{Bool}
use submilli_wasm.Base.Tests.{ltb, if◌then◌else◌}

-- `negsuc n` is -(n + 1).
pub data ℤ : Type 0 where
  pos : ℕ → ℤ
  negsuc : ℕ → ℤ

abbrev pub pos_part : ℤ → ℕ
pos_part (pos n) = n
pos_part (negsuc n) = 0

abbrev pub neg_part : ℤ → ℕ
neg_part (pos n) = 0
neg_part (negsuc n) = suc n

-- -n.
abbrev pub neg : ℕ → ℤ
neg zero = pos 0
neg (suc n) = negsuc n

abbrev pub ltb_ℤ : ℤ → ℤ → Bool
ltb_ℤ a b = ltb (pos_part a + neg_part b) (pos_part b + neg_part a)

-- The integer of a pattern of `half + half` values, and the pattern of an integer.
abbrev pub to_int : ℕ → ℕ → ℤ
to_int half a = if ltb a half then pos a else negsuc (2 * half - a - 1)

abbrev pub of_int : ℕ → ℤ → ℕ
of_int half (pos n) = n % (2 * half)
of_int half (negsuc n) = 2 * half - 1 - n % (2 * half)

-- Division that rounds to zero, and its remainder, which takes the dividend's sign.
abbrev pub div_int : ℤ → ℤ → ℤ
div_int (pos a) (pos b) = pos (a / b)
div_int (pos a) (negsuc b) = neg (a / suc b)
div_int (negsuc a) (pos b) = neg (suc a / b)
div_int (negsuc a) (negsuc b) = pos (suc a / suc b)

abbrev pub rem_int : ℤ → ℤ → ℤ
rem_int (pos a) (pos b) = pos (a % b)
rem_int (pos a) (negsuc b) = pos (a % suc b)
rem_int (negsuc a) (pos b) = neg (suc a % b)
rem_int (negsuc a) (negsuc b) = neg (suc a % suc b)

-- The shift to the right that keeps the sign, by the divisor `d`, a power of two.
abbrev pub shr_int : ℕ → ℤ → ℤ
shr_int d (pos a) = pos (a / d)
shr_int d (negsuc a) = negsuc (a / d)
