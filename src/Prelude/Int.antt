-- ===== src/Prelude/Int.antt =====
-- The C integer types that can hold -1: signed values, and the conversions that the code makes.
use Prim.Native.Nat.{ℕ, ◌-◌, ◌%◌, ◌^◌, ◌<◌}
use mathlib.Core.Path.{◌≡◌}
use mathlib.Core.Bool.{Bool, false}
use native.Mathlib.Omega.{arith}
use msh.Prelude.Tests.{ltb, ◌==◌, if◌then◌else◌}

-- `negsuc n` is -(n + 1).
pub data ℤ : Type 0 where
  pos : ℕ → ℤ
  negsuc : ℕ → ℤ

abbrev pub minus_one : ℤ
minus_one = negsuc 0

-- `v == -1`
abbrev pub is_minus_one : ℤ → Bool
is_minus_one (pos n) = false
is_minus_one (negsuc n) = n == 0

-- `v == (int) p`
abbrev pub is_pos : ℤ → ℕ → Bool
is_pos (pos n) p = n == p
is_pos (negsuc n) p = false

-- The conversion of a `size_t` to `short`: the low 16 bits, in two's complement.
abbrev pub to_short : ℕ → ℤ
to_short v =
    if ltb (v % 2 ^ 16) (2 ^ 15) then pos (v % 2 ^ 16) else negsuc (2 ^ 16 - 1 - v % 2 ^ 16)

-- The conversion of a `short` to `size_t`, as C makes it where the two meet in a division.
abbrev pub to_size : ℤ → ℕ
to_size (pos n) = n
to_size (negsuc n) = 2 ^ 64 - 1 - n

pub to_short_small : (v : ℕ) → v < 2 ^ 15 → to_short v ≡ pos v
to_short_small v h = ground arith

-- `!x`
abbrev pub is_zero : ℤ → Bool
is_zero (pos n) = n == 0
is_zero (negsuc n) = false
