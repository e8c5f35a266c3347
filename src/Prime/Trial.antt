-- ===== src/Prime/Trial.antt =====
-- The trial division of `IsPrime` decides primality.
use iisintegration.Prelude.{
  ℕ, zero, suc, ◌+◌, ◌*◌, ◌/◌, ◌%◌, ◌≤◌, ◌<◌, ◌≡◌, refl, ◌≢◌, ◌↔◌, ◌⊎◌, inl, inr, true, arith, ap,
  ◌∙◌, bit_and-one, Bool-cases, leb, leb→le, ◌==◌,
}
use native.Mathlib.Nat.{mul_assoc, mul_comm, div-add-mod, mul-mod_left, mul-le-mul, le_refl}
use iisintegration.Prime.{trial_loop, is_prime}

abbrev pub IsPrimeNumber : ℕ → Type 0
IsPrimeNumber n = (2 ≤ n) × ((d : ℕ) → 2 ≤ d → d < n → n % d ≢ 0)

-- What C documents of `sqrt`, for the integers that the code gives it.
abbrev pub IsSqrt : (ℕ → ℕ) → Type 0
IsSqrt sqrt = (n : ℕ) → (sqrt n * sqrt n ≤ n) × (n < (sqrt n + 1) * (sqrt n + 1))

-- The loop looks at each odd index up to `dwMax`.
pub trial_loop_lem :
    (rounds index m n : ℕ)
    → index % 2 ≡ 1
    → m < index + 2 * rounds
    → (trial_loop rounds index m n ≡ true) ↔ ((d : ℕ) → d % 2 ≡ 1 → index ≤ d → d ≤ m → n % d ≢ 0)
unfolding trial_loop
trial_loop_lem zero index m n o h = (λ _ d p q r. absurd (omega arith), λ _. refl)
trial_loop_lem (suc rounds) index m n o h =
    let ih = trial_loop_lem rounds (index + 2) m n (omega arith) (omega arith) in
    elim (Bool-cases (leb index m)) [
      | inl le ↦ elim (Bool-cases (n % index == 0)) [
        | inl divides ↦ (
          λ e. ground arith,
          λ f. absurd (f index o (omega arith) (leb→le index m le) (ground arith)),
        )
        | inr apart ↦
            let later =
              λ (e : trial_loop (suc rounds) index m n ≡ true) (d : ℕ) (p : d % 2 ≡ 1)
                  (q : index ≤ d) (r : d ≤ m).
                (elim (Bool-cases (d == index)) as (λ _. n % d ≢ 0) [
                  | inl same ↦ let s : d ≡ index = ground arith in rw s (ground arith)
                  | inr other ↦ ih.0 (ground arith) d p (ground arith) r
                ]) in
            (
              λ e d p q r. later e d p q r,
              λ f. rw (le, apart) (ih.1 (λ d p q r. f d p (omega arith) r)),
            )
      ]
      | inr above ↦ (λ _ d p q r. absurd (ground arith), λ _. ground arith)
    ]

-- Of two factors of an odd number both are odd.
odd_factor : (d q : ℕ) → d * q % 2 ≡ 1 → d % 2 ≡ 1
odd_factor d q h = elim (Bool-cases (d % 2 == 0)) [
  | inl even ↦
      let half : d ≡ 2 * (d / 2) = ground arith in
      let twice : d * q ≡ 2 * (d / 2 * q) = ap (λ (t : ℕ). t * q) half ∙ mul_assoc 2 (d / 2) q in
      absurd (omega arith)
  | inr odd ↦ ground arith
]

-- Of two factors of a number above 1 one is at most the square root.
small_factor : (d q m : ℕ) → d * q < (m + 1) * (m + 1) → (d ≤ m) ⊎ (q ≤ m)
small_factor d q m h = elim (Bool-cases (leb d m)) [
  | inl le ↦ inl (leb→le d m le)
  | inr above ↦ elim (Bool-cases (leb q m)) [
    | inl le ↦ inr (leb→le q m le)
    | inr over ↦
        let a : m + 1 ≤ d = ground arith in
        let b : m + 1 ≤ q = ground arith in absurd (omega (arith, mul-le-mul a b))
  ]
]

cofactor_ge_two : (n d q : ℕ) → n ≡ d * q → d < n → 2 ≤ q
cofactor_ge_two n d zero e h = absurd (grind arith)
cofactor_ge_two n d (suc zero) e h = absurd (omega arith)
cofactor_ge_two n d (suc (suc q)) e h = omega arith

-- A number with no odd divisor from 3 up to its square root has none at all, if it is odd.
pub no_divisor :
    (n m : ℕ)
    → n % 2 ≡ 1
    → n < (m + 1) * (m + 1)
    → ((d : ℕ) → d % 2 ≡ 1 → 3 ≤ d → d ≤ m → n % d ≢ 0)
    → (d : ℕ) → 2 ≤ d
    → d < n
    → n % d ≢ 0
no_divisor n m o s free d h k z =
    let q = n / d in
    let e : n ≡ d * q = omega (arith, div-add-mod n d) in
    let od : d % 2 ≡ 1 = odd_factor d q (omega arith) in
    let oq : q % 2 ≡ 1 = odd_factor q d (omega (arith, mul_comm d q)) in
    let big = cofactor_ge_two n d q e k in
    elim (small_factor d q m (omega arith)) [
      | inl le ↦ free d od (omega arith) le z
      | inr le ↦ free q oq (omega arith) le (ap (λ (t : ℕ). t % q) e ∙ mul-mod_left d q)
    ]

pub even_prime : (n : ℕ) → n % 2 ≡ 0 → IsPrimeNumber n → (n == 2) ≡ true
even_prime n z p = elim (Bool-cases (n == 2)) [
  | inl two ↦ two
  | inr other ↦ absurd (p.1 2 (omega arith) (ground arith) z)
]

below_square : (d m n : ℕ) → 3 ≤ d → d ≤ m → m * m ≤ n → d < n
below_square d m n h k s =
    let three : 3 ≤ m = omega arith in omega (arith, mul-le-mul three (le_refl m))

-- Where `sqrt` gives the integer part of the square root, `IsPrime` is TRUE exactly of the primes,
-- for every number but 1.
pub is_prime-IsPrimeNumber :
    (sqrt : ℕ → ℕ) (n : ℕ) → IsSqrt sqrt → n ≢ 1 → (is_prime sqrt n ≡ true) ↔ IsPrimeNumber n
unfolding is_prime
is_prime-IsPrimeNumber sqrt n root h = elim (Bool-cases (n % 2 == 0)) [
  | inl even ↦
      let z : n % 2 ≡ 0 = ground arith in
      rw (bit_and-one n, z)
        (
          λ e. let two : n ≡ 2 = ground arith in (omega arith, λ d a b. absurd (omega arith)),
          λ p. even_prime n z p,
        )
  | inr odd ↦
      let t = trial_loop_lem (sqrt n) 3 (sqrt n) n (omega arith) (omega arith) in
      let o : n % 2 ≡ 1 = ground arith in
      rw (bit_and-one n, o)
        (
          λ e. (omega arith, no_divisor n (sqrt n) o (root n).1 (t.0 e)),
          λ p. t.1 (λ d od a b. p.1 d (omega arith) (below_square d (sqrt n) n a b (root n).0)),
        )
]
