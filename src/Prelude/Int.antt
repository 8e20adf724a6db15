-- ===== src/Prelude/Int.antt =====
-- The C type `int` as an integer, with the conversions that the program makes to it.
use Prim.Native.Nat.{ℕ, ◌-◌, ◌%◌, ◌^◌, ◌<◌}
use mathlib.Core.Path.{◌≡◌}
use mathlib.Core.Bool.{Bool, true, false}
use native.Mathlib.Omega.{arith}
use android_usb_tether_macos.Prelude.Tests.{ltb, if◌then◌else◌, ◌==◌}

-- `negsuc n` is -(n + 1).
pub data ℤ : Type 0 where
  pos : ℕ → ℤ
  negsuc : ℕ → ℤ

-- The value -1 that most functions return on failure.
abbrev pub minus_one : ℤ
minus_one = negsuc 0

-- `(int)n` for an unsigned `n`: the low 32 bits, read as two's complement.
abbrev pub to_int : ℕ → ℤ
to_int n = let w = n % 2 ^ 32 in if ltb w (2 ^ 31) then pos w else negsuc (2 ^ 32 - w - 1)

abbrev pub is_negative : ℤ → Bool
is_negative (pos n) = false
is_negative (negsuc n) = true

-- `r > 0` and `r == 0`.
abbrev pub is_positive : ℤ → Bool
is_positive (pos n) = ltb 0 n
is_positive (negsuc n) = false

abbrev pub is_zero : ℤ → Bool
is_zero (pos n) = n == 0
is_zero (negsuc n) = false

-- `(size_t)r` and `(uint32_t)r` of a value that the caller has found not negative.
abbrev pub pos_part : ℤ → ℕ
pos_part (pos n) = n
pos_part (negsuc n) = 0

pub to_int_small : (n : ℕ) → n < 2 ^ 31 → to_int n ≡ pos n
to_int_small n h = ground arith

-- A `size_t` sum that is returned as an `int`.
pub to_int-size : (n : ℕ) → n < 2 ^ 31 → to_int (n % 2 ^ 64) ≡ pos n
to_int-size n h = ground arith
