-- ===== src/HashTable/Table.antt =====
-- The table as a map from keys to records: its invariant, and what the operations on one key do.
use iisintegration.Prelude.{
  ℕ, zero, suc, ◌+◌, ◌%◌, ◌<◌, ◌≡◌, ap, inl, inr, true, List, [], ◌∷◌, Option, some, arith, ◌==◌,
  if◌then◌else◌, length, get_or, set, get_elem?-get_or, get_or-set_self, get_or-set_ne, All,
  All-mono, Bool-cases,
}
use native.Mathlib.Nat.{mod-lt}
use iisintegration.HashTable.{Virtuals, Bucket, HashTable, bucket_of, dword}
use iisintegration.HashTable.Bucket.{lookup, IsOrdered}

-- The number of nodes.
abbrev pub total {ℓ} : {R : Type ℓ} → List (Bucket R) → ℕ
total [] = 0
total (b ∷ bs) = length b + total bs

pub total-set {ℓ} :
    {R : Type ℓ} (bs : List (Bucket R)) (i : ℕ) (b : Bucket R)
    → i < length bs
    → total (set bs i b) + length (get_or bs i []) ≡ total bs + length b
total-set [] i b h = elim h [ ]
total-set (c ∷ bs) zero b h = omega arith
total-set (c ∷ bs) (suc i) b h = omega (arith, total-set bs i b)

module _ {ℓ} {R K : Type ℓ} (v : Virtuals R K) where
  -- The `i`-th bucket and those after it hold the nodes whose hashes lead there, in order.
  abbrev pub IsPlaced : ℕ → ℕ → List (Bucket R) → Type ℓ
  IsPlaced n i [] = Unit
  IsPlaced n i (b ∷ bs) = All (λ m. m.hash % n ≡ i) b × IsOrdered v b × IsPlaced n (suc i) bs

  pub record IsValid (t : HashTable R) : Type ℓ where
    pub width : length t.buckets ≡ t.n_buckets
    pub some_buckets : 0 < t.n_buckets
    pub placed : IsPlaced t.n_buckets 0 t.buckets
    pub counted : t.n_items ≡ total t.buckets % dword

  abbrev pub home : K → ℕ → ℕ
  home q n = v.calc_key_hash q % n

  pub home-lt : (q : K) (n : ℕ) → 0 < n → home q n < n
  home-lt q n h = mod-lt (v.calc_key_hash q) h

  abbrev pub view_of : ℕ → List (Bucket R) → K → Option R
  view_of n bs q = lookup v q (get_or bs (home q n) [])

  -- What the table maps a key to.
  abbrev pub view : HashTable R → K → Option R
  view t q = view_of t.n_buckets t.buckets q

  pub placed_at :
      (n i j : ℕ) (bs : List (Bucket R))
      → IsPlaced n i bs
      → All (λ m. m.hash % n ≡ i + j) (get_or bs j []) × IsOrdered v (get_or bs j [])
  placed_at n i j [] p = (tt, tt)
  placed_at n i zero (b ∷ bs) p = (All-mono (λ m e. omega arith) b p.0, p.1)
  placed_at n i (suc j) (b ∷ bs) p =
      let (a, o) = placed_at n (suc i) j bs p.2 in
      (All-mono (λ m e. omega arith) (get_or bs j []) a, o)

  pub set-IsPlaced :
      (n i j : ℕ) (bs : List (Bucket R)) (b : Bucket R)
      → IsPlaced n i bs
      → All (λ m. m.hash % n ≡ i + j) b
      → IsOrdered v b
      → IsPlaced n i (set bs j b)
  set-IsPlaced n i j [] b p a o = tt
  set-IsPlaced n i zero (c ∷ bs) b p a o = (All-mono (λ m e. omega arith) b a, o, p.2)
  set-IsPlaced n i (suc j) (c ∷ bs) b p a o =
      (p.0, p.1, set-IsPlaced n (suc i) j bs b p.2 (All-mono (λ m e. omega arith) b a) o)

  pub home_equal : (q k : K) (n : ℕ) → v.equal_keys q k ≡ true → home q n ≡ home k n
  home_equal q k n e = ap (λ (h : ℕ). h % n) (v.hash-equal q k e)

  -- A bucket put in the place of a key's bucket, that reads as the old one but at that key.
  module _ (n : ℕ) (bs : List (Bucket R)) (k : K) (b : Bucket R) (o : Option R)
      (inside : home k n < length bs)
      (reads : (q : K)
        → lookup v q b
          ≡ (if v.equal_keys q k then o else lookup v q (get_or bs (home k n) []))) where
    pub view-set :
        (q : K)
        → view_of n (set bs (home k n) b) q ≡ (if v.equal_keys q k then o else view_of n bs q)
    view-set q = elim (Bool-cases (home q n == home k n)) [
      | inl same ↦
          let e : home q n ≡ home k n = ground arith in
          rw (e, get_or-set_self bs (home k n) b [] inside) (reads q)
      | inr other ↦
          rw (get_or-set_ne bs (home k n) (home q n) b [] (λ e. ground arith))
            (ground (arith, home_equal q k n))
    ]

  module _ (t : HashTable R) (valid : IsValid t) where
    pub bucket_of_lem :
        (q : K)
        → bucket_of t (v.calc_key_hash q)
          ≡ some (home q t.n_buckets, get_or t.buckets (home q t.n_buckets) [])
    unfolding bucket_of
    bucket_of_lem q =
        rw
          (get_elem?-get_or t.buckets (home q t.n_buckets) []
            (omega (arith, home-lt q t.n_buckets valid.some_buckets, valid.width)))
          (ground (arith, valid.some_buckets))
