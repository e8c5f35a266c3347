-- ===== src/Prime/Search.antt =====
-- What `GetPrime` returns past its table, and that it is never less than the argument.
use iisintegration.Prelude.{
  ℕ, zero, suc, ◌+◌, ◌*◌, ◌%◌, ◌^◌, ◌≤◌, ◌<◌, ◌≡◌, refl, ◌⊎◌, inl, inr, true, false, [], arith,
  bit_or, bit_or-one, Bool-cases, Option-cases, ltb, ltb→lt, ◌==◌,
}
use iisintegration.Prime.{max_dword, primes, is_prime, first_at_least, search_loop, get_prime}
use iisintegration.Prime.Table.{first_at_least-ge, first_at_least_below}
use iisintegration.Prime.Trial.{IsPrimeNumber, IsSqrt, is_prime-IsPrimeNumber}

search_loop-ge : (rounds : ℕ) (sqrt : ℕ → ℕ) (c m : ℕ) → m ≤ c → m ≤ search_loop rounds sqrt c m
unfolding search_loop
search_loop-ge zero sqrt c m h = omega arith
search_loop-ge (suc rounds) sqrt c m h =
    ground (arith, search_loop-ge rounds sqrt (c + 2) m (omega arith))

-- `GetPrime` never returns less than its argument.
get_prime-ge : (sqrt : ℕ → ℕ) (m : ℕ) → m ≤ get_prime sqrt m
unfolding get_prime
get_prime-ge sqrt m = elim (Option-cases (first_at_least primes m)) [
  | inl e ↦
      rw (e, get_prime) (search_loop-ge (2 ^ 31) sqrt (bit_or m 1) m (omega (arith, bit_or-one m)))
  | inr (p, e) ↦ rw (e, get_prime) (first_at_least-ge primes m p e)
]

pub get_prime_pos : (sqrt : ℕ → ℕ) (m : ℕ) → 0 < get_prime sqrt m
unfolding get_prime first_at_least
get_prime_pos sqrt zero = omega arith
get_prime_pos sqrt (suc m) = omega (arith, get_prime-ge sqrt (suc m))

abbrev Searched : (ℕ → ℕ) → ℕ → ℕ → ℕ → Type 0
Searched sqrt c m r =
    ((is_prime sqrt r ≡ true)
      × (c ≤ r)
      × (r < max_dword)
      × ((d : ℕ) → d % 2 ≡ 1 → c ≤ d → d < r → is_prime sqrt d ≡ false))
    ⊎ ((r ≡ m) × ((d : ℕ) → d % 2 ≡ 1 → c ≤ d → d < max_dword → is_prime sqrt d ≡ false))

-- No candidate from `c` on: `c` itself and those after it.
next_odd :
    (sqrt : ℕ → ℕ) (c top : ℕ)
    → c % 2 ≡ 1
    → is_prime sqrt c ≡ false
    → ((d : ℕ) → d % 2 ≡ 1 → c + 2 ≤ d → d < top → is_prime sqrt d ≡ false)
    → (d : ℕ) → d % 2 ≡ 1
    → c ≤ d
    → d < top
    → is_prime sqrt d ≡ false
next_odd sqrt c top o miss later d p a b = elim (Bool-cases (d == c)) [
  | inl same ↦ let e : d ≡ c = ground arith in rw e miss
  | inr other ↦ later d p (ground arith) b
]

extend :
    (sqrt : ℕ → ℕ) (c m r : ℕ)
    → c % 2 ≡ 1
    → Searched sqrt (c + 2) m r
    → is_prime sqrt c ≡ false
    → Searched sqrt c m r
extend sqrt c m r o (inl (hit, a, b, least)) miss =
    inl (hit, omega arith, b, next_odd sqrt c r o miss least)
extend sqrt c m r o (inr (e, none_left)) miss = inr (e, next_odd sqrt c max_dword o miss none_left)

search_loop-Searched :
    (rounds : ℕ) (sqrt : ℕ → ℕ) (c m : ℕ)
    → c % 2 ≡ 1
    → max_dword ≤ c + 2 * rounds
    → Searched sqrt c m (search_loop rounds sqrt c m)
unfolding search_loop
search_loop-Searched zero sqrt c m o h = inr (refl, λ d p a b. absurd (omega arith))
search_loop-Searched (suc rounds) sqrt c m o h = elim (Bool-cases (ltb c max_dword)) [
  | inr over ↦ rw over (inr (refl, λ d p a b. absurd (ground arith)))
  | inl below ↦ elim (Bool-cases (is_prime sqrt c)) [
    | inl hit ↦
        rw (below, hit)
          (inl (hit, omega arith, ltb→lt c max_dword below, λ d p a b. absurd (omega arith)))
    | inr miss ↦
        rw (below, miss)
          (extend sqrt c m _ o
            (search_loop-Searched rounds sqrt (c + 2) m (omega arith) (omega arith)) miss)
  ]
]

-- Every prime above 2 is odd, so the candidates are all that count.
not_prime :
    (sqrt : ℕ → ℕ) (m top : ℕ)
    → IsSqrt sqrt
    → 2 < m
    → ((d : ℕ) → d % 2 ≡ 1 → bit_or m 1 ≤ d → d < top → is_prime sqrt d ≡ false)
    → (d : ℕ) → m ≤ d
    → d < top
    → ¬ IsPrimeNumber d
not_prime sqrt m top root h miss d a b p = elim (Bool-cases (d % 2 == 0)) [
  | inl even ↦ absurd (p.1 2 (omega arith) (omega arith) (ground arith))
  | inr odd ↦
      let o : d % 2 ≡ 1 = ground arith in
      let hit = (is_prime-IsPrimeNumber sqrt d root (λ one. omega arith)).1 p in
      absurd (ground (arith, miss d o (omega (arith, bit_or-one m)) b))
]

get_prime_past :
    (sqrt : ℕ → ℕ) (m : ℕ)
    → 10049369 < m
    → get_prime sqrt m ≡ search_loop (2 ^ 31) sqrt (bit_or m 1) m
unfolding get_prime first_at_least
get_prime_past sqrt m h = rw (first_at_least_below primes [] m (omega arith), get_prime)

-- The least prime from `m` on below MAXDWORD; or `m` itself, where there is none.
abbrev pub IsNextPrime : ℕ → ℕ → Type 0
IsNextPrime m r =
    (IsPrimeNumber r × (m ≤ r) × (r < max_dword) × ((d : ℕ) → m ≤ d → d < r → ¬ IsPrimeNumber d))
    ⊎ ((r ≡ m) × ((d : ℕ) → m ≤ d → d < max_dword → ¬ IsPrimeNumber d))

Searched-IsNextPrime :
    (sqrt : ℕ → ℕ) (m r : ℕ)
    → IsSqrt sqrt
    → 2 < m
    → Searched sqrt (bit_or m 1) m r
    → IsNextPrime m r
Searched-IsNextPrime sqrt m r root h (inl (hit, a, b, least)) =
    let ge : m ≤ r = omega (arith, bit_or-one m) in
    inl (
      (is_prime-IsPrimeNumber sqrt r root (λ one. omega arith)).0 hit,
      ge,
      b,
      not_prime sqrt m r root h least,
    )
Searched-IsNextPrime sqrt m r root h (inr (e, none_left)) =
    inr (e, not_prime sqrt m max_dword root h none_left)

-- Past the table, and where `sqrt` gives the integer part of the square root, `GetPrime` returns
-- the least prime that is not less than its argument and below MAXDWORD; where there is none, its
-- argument.
pub get_prime-IsNextPrime :
    (sqrt : ℕ → ℕ) (m : ℕ) → IsSqrt sqrt → 10049369 < m → IsNextPrime m (get_prime sqrt m)
get_prime-IsNextPrime sqrt m root h = rw (get_prime_past sqrt m h) (
    Searched-IsNextPrime sqrt m _ root (omega arith) (
      search_loop-Searched (2 ^ 31) sqrt (bit_or m 1) m (omega (arith, bit_or-one m))
        (omega arith)))
