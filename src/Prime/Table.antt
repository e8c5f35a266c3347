-- ===== src/Prime/Table.antt =====
-- What `GetPrime` returns from its table: a prime below the last four entries, which are none.
use iisintegration.Prelude.{
  ℕ, zero, suc, ◌+◌, ◌*◌, ◌%◌, ◌^◌, ◌≤◌, ◌<◌, ◌≡◌, refl, subst, sym, ◌∙◌, ◌≢◌, inl, inr, Bool, true,
  ◌&&◌, List, [], ◌∷◌, ◌++◌, none, some, arith, Bool-cases, Option-cases, ltb, leb, ◌==◌, All,
  if◌then◌else◌,
}
use iisintegration.Prime.{primes, trial_loop, first_at_least, get_prime}
use iisintegration.Prime.Trial.{IsPrimeNumber, trial_loop_lem, no_divisor}

pub first_at_least-ge : (ps : List ℕ) (m p : ℕ) → first_at_least ps m ≡ some p → m ≤ p
unfolding first_at_least
first_at_least-ge [] m p e = cc
first_at_least-ge (q ∷ ps) m p e = ground (arith, first_at_least-ge ps m p)

first_at_least-All {ℓ} :
    (P : ℕ → Type ℓ) (ps : List ℕ) (m p : ℕ) → All P ps → first_at_least ps m ≡ some p → P p
unfolding first_at_least
first_at_least-All P [] m p h e = cc
first_at_least-All P (q ∷ ps) m p h e = elim (Bool-cases (leb m q)) [
  | inl le ↦ subst P (ground arith) h.0
  | inr gt ↦ first_at_least-All P ps m p h.1 (ground arith)
]

first_at_least-append :
    (xs ys : List ℕ) (x m : ℕ)
    → m ≤ x
    → first_at_least (xs ++ x ∷ ys) m ≡ first_at_least (xs ++ x ∷ []) m
unfolding first_at_least
first_at_least-append [] ys x m h = ground arith
first_at_least-append (q ∷ xs) ys x m h = ground (arith, first_at_least-append xs ys x m h)

pub first_at_least_below :
    (xs ys : List ℕ) (m : ℕ)
    → All (λ x. x < m) xs
    → first_at_least (xs ++ ys) m ≡ first_at_least ys m
unfolding first_at_least
first_at_least_below [] ys m h = refl
first_at_least_below (q ∷ xs) ys m h = ground (arith, first_at_least_below xs ys m h.1)

first_at_least-ne_none : (xs ys : List ℕ) (x m : ℕ) → m ≤ x → first_at_least (xs ++ x ∷ ys) m ≢ none
unfolding first_at_least
first_at_least-ne_none [] ys x m h = ground arith
first_at_least-ne_none (q ∷ xs) ys x m h = ground (arith, first_at_least-ne_none xs ys x m h)

-- The last four entries, which are multiples of 11, 3, 3 and 11.
abbrev composites : List ℕ
composites = 7849369 ∷ 8649369 ∷ 9249369 ∷ 10049369 ∷ []

-- The table up to the last entry that is a prime.
abbrev genuine : List ℕ
genuine =
    3 ∷ 7 ∷ 11 ∷ 17 ∷ 23 ∷ 29 ∷ 37 ∷ 47 ∷ 59 ∷ 71 ∷ 89 ∷ 107 ∷ 131 ∷ 163 ∷ 197 ∷ 239 ∷ 293 ∷ 353
    ∷ 431 ∷ 521 ∷ 631 ∷ 761 ∷ 919 ∷ 1103 ∷ 1327 ∷ 1597 ∷ 1931 ∷ 2333 ∷ 2801 ∷ 3371 ∷ 4049 ∷ 4861
    ∷ 5839 ∷ 7013 ∷ 8419 ∷ 10103 ∷ 12143 ∷ 14591 ∷ 17519 ∷ 21023 ∷ 25229 ∷ 30293 ∷ 36353 ∷ 43627
    ∷ 52361 ∷ 62851 ∷ 75431 ∷ 90523 ∷ 108631 ∷ 130363 ∷ 156437 ∷ 187751 ∷ 225307 ∷ 270371 ∷ 324449
    ∷ 389357 ∷ 467237 ∷ 560689 ∷ 672827 ∷ 807403 ∷ 968897 ∷ 1162687 ∷ 1395263 ∷ 1674319 ∷ 2009191
    ∷ 2411033 ∷ 2893249 ∷ 3471899 ∷ 4166287 ∷ 4999559 ∷ 5999471 ∷ []

-- The integer square root of a number below 2 ^ 32, a binary digit a round.
root_loop : ℕ → ℕ → ℕ → ℕ
root_loop zero r n = r
root_loop (suc k) r n = let s = r + 2 ^ k in root_loop k (if leb (s * s) n then s else r) n

abbrev passes : ℕ → ℕ → Bool
passes m p = p % 2 == 1 && leb 2 p && ltb p ((m + 1) * (m + 1)) && trial_loop m 3 m p

all_pass : List ℕ → Bool
all_pass [] = true
all_pass (p ∷ ps) = passes (root_loop 16 0 p) p && all_pass ps

passes-IsPrimeNumber : (m p : ℕ) → passes m p ≡ true → IsPrimeNumber p
passes-IsPrimeNumber m p e = (
  ground arith,
  no_divisor p m (ground arith) (ground arith)
      ((trial_loop_lem m 3 m p (omega arith) (omega arith)).0 (ground arith)),
)

all_pass-IsPrimeNumber : (ps : List ℕ) → all_pass ps ≡ true → All IsPrimeNumber ps
unfolding all_pass
all_pass-IsPrimeNumber [] e = tt
all_pass-IsPrimeNumber (p ∷ ps) e = (
  passes-IsPrimeNumber (root_loop 16 0 p) p (ground arith),
  all_pass-IsPrimeNumber ps (ground arith),
)

genuine-IsPrimeNumber : All IsPrimeNumber (genuine ++ 7199369 ∷ [])
unfolding all_pass root_loop trial_loop
genuine-IsPrimeNumber = all_pass-IsPrimeNumber (genuine ++ 7199369 ∷ []) refl

-- Up to 7199369 `GetPrime` returns a prime that is not less than its argument.
pub get_prime-IsPrimeNumber :
    (sqrt : ℕ → ℕ) (m : ℕ) → m ≤ 7199369 → IsPrimeNumber (get_prime sqrt m) × (m ≤ get_prime sqrt m)
unfolding get_prime
get_prime-IsPrimeNumber sqrt m h = elim (Option-cases (first_at_least primes m)) [
  | inl e ↦ absurd (first_at_least-ne_none genuine composites 7199369 m h e)
  | inr (p, e) ↦
      rw (e, get_prime)
        (
          first_at_least-All IsPrimeNumber (genuine ++ 7199369 ∷ []) m p genuine-IsPrimeNumber
              (sym (first_at_least-append genuine composites 7199369 m h) ∙ e),
          first_at_least-ge primes m p e,
        )
]

composites_lem : All (λ p. ¬ IsPrimeNumber p) composites
composites_lem = (
  λ h. h.1 11 (omega arith) (omega arith) refl,
  (
    λ h. h.1 3 (omega arith) (omega arith) refl,
    (
      λ h. h.1 3 (omega arith) (omega arith) refl,
      (λ h. h.1 11 (omega arith) (omega arith) refl, tt),
    ),
  ),
)

genuine_bound : (m : ℕ) → 7199369 < m → All (λ x. x < m) (genuine ++ 7199369 ∷ [])
genuine_bound m h = omega arith

-- From 7199370 up to 10049369, the end of the table, `GetPrime` returns a number that is no prime.
pub get_prime_composite :
    (sqrt : ℕ → ℕ) (m : ℕ) → 7199369 < m → m ≤ 10049369 → ¬ IsPrimeNumber (get_prime sqrt m)
unfolding get_prime
get_prime_composite sqrt m h k = elim (Option-cases (first_at_least composites m)) [
  | inl e ↦ absurd (first_at_least-ne_none (7849369 ∷ 8649369 ∷ 9249369 ∷ []) [] 10049369 m k e)
  | inr (p, e) ↦
      rw
        (
          first_at_least_below (genuine ++ 7199369 ∷ []) composites m (genuine_bound m h) ∙ e,
          get_prime,
        )
        (first_at_least-All (λ p. ¬ IsPrimeNumber p) composites m p composites_lem e)
]
