-- ===== src/Prime.antt =====
-- PRIME of AspNetCoreModuleV2/IISLib/prime.h: the bucket counts of the hash tables.
pub mod Trial
pub mod Table
pub mod Search
mod Tests
use iisintegration.Prelude.{
  ℕ, zero, suc, ◌+◌, ◌-◌, ◌*◌, ◌/◌, ◌%◌, ◌^◌, Bool, true, false, List, [], ◌∷◌, Option, none, some,
  bit_and, bit_or, ltb, leb, ◌==◌, if◌then◌else◌,
}

abbrev pub max_dword : ℕ
max_dword = 2 ^ 32 - 1

-- `g_Primes`
abbrev pub primes : List ℕ
primes =
    3 ∷ 7 ∷ 11 ∷ 17 ∷ 23 ∷ 29 ∷ 37 ∷ 47 ∷ 59 ∷ 71 ∷ 89 ∷ 107 ∷ 131 ∷ 163 ∷ 197 ∷ 239 ∷ 293 ∷ 353
    ∷ 431 ∷ 521 ∷ 631 ∷ 761 ∷ 919 ∷ 1103 ∷ 1327 ∷ 1597 ∷ 1931 ∷ 2333 ∷ 2801 ∷ 3371 ∷ 4049 ∷ 4861
    ∷ 5839 ∷ 7013 ∷ 8419 ∷ 10103 ∷ 12143 ∷ 14591 ∷ 17519 ∷ 21023 ∷ 25229 ∷ 30293 ∷ 36353 ∷ 43627
    ∷ 52361 ∷ 62851 ∷ 75431 ∷ 90523 ∷ 108631 ∷ 130363 ∷ 156437 ∷ 187751 ∷ 225307 ∷ 270371 ∷ 324449
    ∷ 389357 ∷ 467237 ∷ 560689 ∷ 672827 ∷ 807403 ∷ 968897 ∷ 1162687 ∷ 1395263 ∷ 1674319 ∷ 2009191
    ∷ 2411033 ∷ 2893249 ∷ 3471899 ∷ 4166287 ∷ 4999559 ∷ 5999471 ∷ 7199369 ∷ 7849369 ∷ 8649369
    ∷ 9249369 ∷ 10049369 ∷ []

-- `for (Index = index; Index <= dwMax; Index += 2)`, on the rounds left. `dwMax` is below 2 ^ 16,
-- so the index does not wrap.
unfoldable pub trial_loop : ℕ → ℕ → ℕ → ℕ → Bool
trial_loop zero index dw_max candidate = true
trial_loop (suc rounds) index dw_max candidate =
    let rest = trial_loop rounds (index + 2) dw_max candidate in
    if leb index dw_max then (if candidate % index == 0 then false else rest) else true

-- `sqrt` is the C library's, cut to a DWORD.
unfoldable pub is_prime : (ℕ → ℕ) → ℕ → Bool
is_prime sqrt candidate =
    if bit_and candidate 1 == 0
    then candidate == 2
    else trial_loop (sqrt candidate) 3 (sqrt candidate) candidate

-- The loop over the table.
unfoldable pub first_at_least : List ℕ → ℕ → Option ℕ
first_at_least [] minimum = none
first_at_least (p ∷ ps) minimum = if leb minimum p then some p else first_at_least ps minimum

-- `for (; dwCandidate < MAXDWORD; dwCandidate += 2)`. The candidate is odd and so does not wrap;
-- with as many rounds as there are candidates the loop always ends by its test.
unfoldable pub search_loop : ℕ → (ℕ → ℕ) → ℕ → ℕ → ℕ
search_loop zero sqrt candidate minimum = minimum
search_loop (suc rounds) sqrt candidate minimum =
    let rest = search_loop rounds sqrt (candidate + 2) minimum in
    if ltb candidate max_dword
    then (if is_prime sqrt candidate then candidate else rest)
    else minimum

unfoldable pub get_prime : (ℕ → ℕ) → ℕ → ℕ
get_prime sqrt minimum = elim (first_at_least primes minimum) [
  | some p ↦ p
  | none ↦ search_loop (2 ^ 31) sqrt (bit_or minimum 1) minimum
]
