-- ===== src/Prelude/Tables.antt =====
-- Facts about bounded values, checked at each value by evaluation; and the codes of a text.
use Prim.Native.Char.{code}
use Prim.Native.String.{String}
use Prim.Native.Nat.{ℕ, zero, suc, ◌<◌}
use mathlib.Core.Path.{◌≡◌}
use mathlib.Core.Bool.{Bool, true, ◌&&◌}
use mathlib.Core.List.{List, [], ◌∷◌}
use native.Mathlib.Omega.{arith}
use iisintegration.Prelude.Tests.{◌==◌, ==_iff}

unfoldable pub holds_below : (bound : ℕ) → (ℕ → Bool) → Bool
holds_below (suc last) test = holds_below last test && test last
holds_below zero test = true

pub at_below :
    (bound : ℕ) (test : ℕ → Bool) (v : ℕ)
    → holds_below bound test ≡ true
    → v < bound
    → test v ≡ true
unfolding holds_below
at_below (suc last) test v every under = ground (arith, at_below last test v)
at_below zero test v every under = absurd (omega arith)

-- The same for two values.
unfoldable pub holds_on_pairs : ℕ → ℕ → (ℕ → ℕ → Bool) → Bool
unfolding holds_below
holds_on_pairs m n p = holds_below m (λ x. holds_below n (p x))

pub at_pair_below :
    (m n : ℕ) (p : ℕ → ℕ → Bool) (x y : ℕ)
    → holds_on_pairs m n p ≡ true
    → x < m
    → y < n
    → p x y ≡ true
unfolding holds_on_pairs
at_pair_below m n p x y h hx hy =
    at_below n (p x) y (at_below m (λ x. holds_below n (p x)) x h hx) hy

-- Two functions that agree at each value below a bound.
pub equal_below :
    (n : ℕ) (f g : ℕ → ℕ) → holds_below n (λ x. f x == g x) ≡ true → (x : ℕ) → x < n → f x ≡ g x
equal_below n f g t x h = (==_iff _ _).0 (at_below n (λ x. f x == g x) x t h)

pub equal_pairs_below :
    (m n : ℕ) (f g : ℕ → ℕ → ℕ)
    → holds_on_pairs m n (λ x y. f x y == g x y) ≡ true
    → (x y : ℕ) → x < m
    → y < n
    → f x y ≡ g x y
equal_pairs_below m n f g t x y h k =
    (==_iff _ _).0 (at_pair_below m n (λ x y. f x y == g x y) x y t h k)

-- The code points of a text: its bytes, as the source's literals are ASCII.
abbrev pub codes : String → List ℕ
codes String.[] = []
codes (String.◌∷◌ c s) = code c ∷ codes s
