-- ===== src/Word.antt =====
-- Unsigned machine words of a 64-bit host: `u32`, `u64` and `usize` are native numbers below their
-- modulus, and the checked, saturating and wrapping operations of the standard library are written
-- out.
use submilli_wasm.Base.{
  ℕ, ◌+◌, ◌-◌, ◌*◌, ◌≤◌, ◌<◌, min, ◌≡◌, Option, none, some, leb, if◌then◌else◌, arith,
}

abbrev pub u32_max : ℕ
u32_max = 0xffff_ffff

abbrev pub u64_max : ℕ
u64_max = 0xffff_ffff_ffff_ffff

abbrev pub usize_max : ℕ
usize_max = u64_max

abbrev pub isize_max : ℕ
isize_max = 0x7fff_ffff_ffff_ffff

-- `a.checked_add(b)` and `a.checked_mul(b)` on `u64` and `usize`.
unfoldable pub checked_add : ℕ → ℕ → Option ℕ
checked_add a b = if leb (a + b) u64_max then some (a + b) else none

unfoldable pub checked_mul : ℕ → ℕ → Option ℕ
checked_mul a b = if leb (a * b) u64_max then some (a * b) else none

unfoldable pub checked_sub : ℕ → ℕ → Option ℕ
checked_sub a b = if leb b a then some (a - b) else none

-- `a.saturating_add(b)` and `a.saturating_mul(b)` on `u64` and `usize`; `-` on ℕ is `saturating_sub`.
unfoldable pub saturating_add : ℕ → ℕ → ℕ
saturating_add a b = min (a + b) u64_max

unfoldable pub saturating_mul : ℕ → ℕ → ℕ
saturating_mul a b = min (a * b) u64_max

pub checked_add-some : (a b c : ℕ) → checked_add a b ≡ some c → (c ≡ a + b) × (c ≤ u64_max)
unfolding checked_add
checked_add-some a b c h = ground arith

pub checked_add_none : (a b : ℕ) → checked_add a b ≡ none → u64_max < a + b
unfolding checked_add
checked_add_none a b h = ground arith

pub checked_mul-some : (a b c : ℕ) → checked_mul a b ≡ some c → (c ≡ a * b) × (c ≤ u64_max)
unfolding checked_mul
checked_mul-some a b c h = ground arith

pub checked_add_fits : (a b : ℕ) → a + b ≤ u64_max → checked_add a b ≡ some (a + b)
unfolding checked_add
checked_add_fits a b h = ground arith

pub checked_add_over : (a b : ℕ) → u64_max < a + b → checked_add a b ≡ none
unfolding checked_add
checked_add_over a b h = ground arith

pub checked_mul_fits : (a b : ℕ) → a * b ≤ u64_max → checked_mul a b ≡ some (a * b)
unfolding checked_mul
checked_mul_fits a b h = ground arith
