-- ===== src/Prelude/Words.antt =====
-- Machine words as native numbers. A C `int` is its 32-bit pattern, a number below 2 ^ 32.
use Prim.Native.Nat.{ℕ, ◌+◌, ◌-◌, ◌/◌, ◌%◌}
use mathlib.Core.Bool.{Bool, true, false}
use Prim.Native.Nat.{compare, Ordering}

abbrev pub u8 : ℕ → ℕ
u8 n = n % 0x100

abbrev pub u16 : ℕ → ℕ
u16 n = n % 0x1_0000

abbrev pub u32 : ℕ → ℕ
u32 n = n % 0x1_0000_0000

-- `a - b` on 32-bit words, signed or not; `-` stops at 0, so the modulus is added first.
abbrev pub sub32 : ℕ → ℕ → ℕ
sub32 a b = (a + 0x1_0000_0000 - b) % 0x1_0000_0000

-- -1 as a 32-bit pattern.
abbrev pub minus_one : ℕ
minus_one = 0xffff_ffff

-- `a < b` on two signed patterns.
abbrev pub slt : ℕ → ℕ → Bool
slt a b = elim (compare ((a + 0x8000_0000) % 0x1_0000_0000) ((b + 0x8000_0000) % 0x1_0000_0000)) [
  | Ordering.lt ↦ true
  | _ ↦ false
]

-- C's `%` and `/` of a signed pattern by a positive number: both round towards 0.
unfoldable pub srem : ℕ → ℕ → ℕ
srem a n = elim (compare a 0x8000_0000) [
  | Ordering.lt ↦ a % n
  | _ ↦ (0x1_0000_0000 - (0x1_0000_0000 - a) % n) % 0x1_0000_0000
]

unfoldable pub sdiv : ℕ → ℕ → ℕ
sdiv a n = elim (compare a 0x8000_0000) [
  | Ordering.lt ↦ a / n
  | _ ↦ (0x1_0000_0000 - (0x1_0000_0000 - a) / n) % 0x1_0000_0000
]
