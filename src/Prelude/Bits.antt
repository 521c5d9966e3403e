-- ===== src/Prelude/Bits.antt =====
-- `bit_or` of numbers that have no bit in common.
use Prim.Native.Nat.{
  ℕ, zero, suc, ◌+◌, ◌*◌, ◌/◌, ◌%◌, ◌^◌, ◌<◌, ◌≤◌, max, bit_or, digits, bit_or-bitwise,
}
use mathlib.Core.Path.{◌≡◌, refl, ◌∙◌}
use native.Mathlib.Omega.{arith}

-- A number shifted left.
shifted : ℕ → ℕ → ℕ
shifted zero a = a
shifted (suc k) a = shifted k a * 2

-- The native operation stands for a walk over the digits, as many as `n`. Where the low `k` bits of
-- `x` are clear and `y` has no others, it adds the two.
disjoint_digits :
    (n k a x y : ℕ) → x ≡ shifted k a → x ≤ n → y < shifted k 1 → digits (λ d. d) max n x y ≡ x + y
unfolding shifted
disjoint_digits zero k a zero y e fits small = omega arith
disjoint_digits (suc n) k a zero y e fits small = omega arith
disjoint_digits zero k a (suc x) y e fits small = absurd (omega arith)
disjoint_digits (suc n) zero a (suc x) y e fits small =
    let tail =
      disjoint_digits n zero (suc x / 2) (suc x / 2) (y / 2) refl (omega arith) (omega arith) in
    omega (arith, tail)
disjoint_digits (suc n) (suc k) a (suc x) y e fits small =
    let tail =
      disjoint_digits n k a (suc x / 2) (y / 2) (omega arith) (omega arith) (omega arith) in
    omega (arith, tail)

-- The two halves of a number of 64 bits.
pub bit_or_halves :
    (low high : ℕ)
    → low < 2 ^ 32
    → high < 2 ^ 32
    → bit_or (high * 2 ^ 32 % 2 ^ 64) low ≡ high * 2 ^ 32 + low
unfolding shifted
bit_or_halves low high small small' =
    let x = high * 2 ^ 32 % 2 ^ 64 in
    bit_or-bitwise x low
    ∙ disjoint_digits x 32 high x low (omega arith) (omega arith) (omega arith)
    ∙ omega arith
