-- ===== src/Prelude/Bits.antt =====
-- What `| 1` and `& 1` do to a number: the code tests and sets the lowest bit with them.
use native.Mathlib.Omega.{arith}
use mathlib.Core.Path.{refl, ◌≡◌}
use Prim.Native.Nat
use Prim.Native.Nat.{ℕ, zero, suc, digits, bit_or, bit_and, ◌%◌, ◌/◌, ◌-◌, ◌+◌, ◌≤◌, max, min}

-- Above the mask's one digit a number keeps its digits, as long as there are rounds for them.
kept_digits : (rounds x : ℕ) → x ≤ rounds → digits (λ d. d) max rounds x 0 ≡ x
kept_digits (suc rounds) (suc x) enough = ground (arith, kept_digits rounds (suc x / 2))
kept_digits (suc rounds) zero enough = refl
kept_digits zero x enough = ground arith

lost_digits : (rounds x : ℕ) → digits (λ d. zero) min rounds x 0 ≡ 0
lost_digits (suc rounds) (suc x) = ground (arith, lost_digits rounds (suc x / 2))
lost_digits (suc rounds) zero = refl
lost_digits zero x = refl

pub bit_or-one : (x : ℕ) → bit_or x 1 ≡ x + (1 - x % 2)
bit_or-one (suc x) =
    ground (arith, kept_digits x (suc x / 2), Prim.Native.Nat.bit_or-bitwise (suc x) 1)
bit_or-one zero = Prim.Native.Nat.bit_or-bitwise 0 1

pub bit_and-one : (x : ℕ) → bit_and x 1 ≡ x % 2
bit_and-one (suc x) =
    ground (arith, lost_digits x (suc x / 2), Prim.Native.Nat.bit_and-bitwise (suc x) 1)
bit_and-one zero = Prim.Native.Nat.bit_and-bitwise 0 1
