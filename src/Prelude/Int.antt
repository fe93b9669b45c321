-- ===== src/Prelude/Int.antt =====
-- Signed integers over the native numbers, and the C conversions between integer types.
use Prim.Native.Nat.{ℕ, suc, ◌-◌, ◌%◌, ◌^◌, ◌<◌, compare, Ordering}
use mathlib.Core.Path.{◌≡◌, refl}
use mathlib.Core.Logic.{◌↔◌, ◌≢◌}
use mathlib.Core.Bool.{Bool, true, false}
use native.Mathlib.Omega.{arith}

-- `negsuc n` is -(n + 1).
pub data ℤ : Type 0 where
  pos : ℕ → ℤ
  negsuc : ℕ → ℤ

infix 50 ◌==ℤ◌
abbrev pub ◌==ℤ◌ : ℤ → ℤ → Bool
pos a ==ℤ pos b = elim (compare a b) [ Ordering.eq ↦ true | _ ↦ false ]
pos a ==ℤ negsuc b = false
negsuc a ==ℤ pos b = false
negsuc a ==ℤ negsuc b = elim (compare a b) [ Ordering.eq ↦ true | _ ↦ false ]

-- The values -1, 0 and 1, which C code compares with and returns.
abbrev pub minus_one : ℤ
minus_one = negsuc 0

abbrev pub null_int : ℤ
null_int = pos 0

pub ==ℤ_iff : (a b : ℤ) → ((a ==ℤ b) ≡ true) ↔ (a ≡ b)
==ℤ_iff (pos a) (pos b) = ground arith
==ℤ_iff (pos a) (negsuc b) = ground arith
==ℤ_iff (negsuc a) (pos b) = ground arith
==ℤ_iff (negsuc a) (negsuc b) = ground arith

pub ==ℤ_ne : (a b : ℤ) → a ≢ b → (a ==ℤ b) ≡ false
==ℤ_ne (pos a) (pos b) ne = ground arith
==ℤ_ne (pos a) (negsuc b) ne = refl
==ℤ_ne (negsuc a) (pos b) ne = refl
==ℤ_ne (negsuc a) (negsuc b) ne = ground arith

-- The value of an integer modulo `2 ^ w`, the conversion to an unsigned type of `w` bits.
abbrev pub to_unsigned : ℕ → ℤ → ℕ
to_unsigned w (pos n) = n % 2 ^ w
to_unsigned w (negsuc n) = 2 ^ w - 1 - n % 2 ^ w

pub to_unsigned-lt : (z : ℤ) → to_unsigned 32 z < 2 ^ 32
to_unsigned-lt (pos n) = omega arith
to_unsigned-lt (negsuc n) = omega arith

-- The reading of a `w + 1`-bit pattern as a signed number.
abbrev pub from_bits : ℕ → ℕ → ℤ
from_bits w m = elim (compare m (2 ^ w)) [ Ordering.lt ↦ pos m | _ ↦ negsuc (2 ^ suc w - m - 1) ]

-- The conversion to `int`, which keeps the low 32 bits.
abbrev pub to_int : ℤ → ℤ
to_int z = from_bits 31 (to_unsigned 32 z)

-- The conversion to `size_t`.
abbrev pub to_size : ℤ → ℕ
to_size = to_unsigned 64
