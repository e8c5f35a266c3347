-- ===== src/Prime/Tests.antt =====
-- `GetPrime` at concrete arguments, with an integer square root for `sqrt`.
use iisintegration.Prelude.{
  ℕ, zero, suc, ◌+◌, ◌*◌, ◌≤◌, ◌≡◌, refl, ◌↔◌, true, false, arith, leb, if◌then◌else◌,
}
use iisintegration.Prime.{trial_loop, is_prime, get_prime, first_at_least}
use iisintegration.Prime.Trial.{IsPrimeNumber, IsSqrt, is_prime-IsPrimeNumber}
use iisintegration.Prime.Table.{get_prime-IsPrimeNumber}
use iisintegration.Prime.Search.{IsNextPrime, get_prime-IsNextPrime}

unary_root : ℕ → ℕ
unary_root zero = 0
unary_root (suc n) = let r = unary_root n in if leb ((r + 1) * (r + 1)) (suc n) then r + 1 else r

unary_root-IsSqrt : IsSqrt unary_root
unfolding unary_root
unary_root-IsSqrt zero = (omega arith, omega arith)
unary_root-IsSqrt (suc n) = ground (arith, unary_root-IsSqrt n)

first_count : get_prime unary_root 158 ≡ 163
unfolding get_prime first_at_least
first_count = refl

nine_is_none : is_prime unary_root 9 ≡ false
unfolding is_prime trial_loop unary_root
nine_is_none = refl

get_prime-IsPrimeNumber_example :
    IsPrimeNumber (get_prime unary_root 158) × (158 ≤ get_prime unary_root 158)
get_prime-IsPrimeNumber_example = get_prime-IsPrimeNumber unary_root 158 (omega arith)

get_prime-IsNextPrime_example : IsNextPrime 20000000 (get_prime unary_root 20000000)
get_prime-IsNextPrime_example =
    get_prime-IsNextPrime unary_root 20000000 unary_root-IsSqrt (omega arith)

is_prime-IsPrimeNumber_example : (is_prime unary_root 97 ≡ true) ↔ IsPrimeNumber 97
is_prime-IsPrimeNumber_example =
    is_prime-IsPrimeNumber unary_root 97 unary_root-IsSqrt (omega arith)
