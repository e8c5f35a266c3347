-- ===== src/HashTable/Setup.antt =====
-- `Initialize` and `Clear`.
use iisintegration.Prelude.{
  ℕ, ◌-◌, ◌/◌, ◌<◌, ◌≡◌, refl, ap, ◌∙◌, ◌⊎◌, true, false, List, [], ◌∷◌, ◌++◌, none, arith, length,
  replicate, get_or,
}
use iisintegration.Prelude.Win32.{s_ok, e_invalidarg, failed}
use iisintegration.HashTable.{
  Virtuals, dereference, Bucket, HashTable, System, dword, pointer_size, deleted, clear_buckets,
  clear, new_table, initialize, is_initialized, bucket_of, find_key,
}
use iisintegration.HashTable.Bucket.{lookup}
use iisintegration.HashTable.Table.{total, IsValid, home, view}
use iisintegration.HashTable.Rehash.{Holds, empty-Holds, entries}
use iisintegration.HashTable.Iterate.{
  keep, keep_all, get_or-keep_all, length-keep_all, keep_all-IsPlaced,
}

keep_none {ℓ} : {R : Type ℓ} (b : Bucket R) → keep (λ r. true) b ≡ []
unfolding keep
keep_none [] = refl
keep_none (n ∷ b) = keep_none b

total_none {ℓ} : {R : Type ℓ} (bs : List (Bucket R)) → total (keep_all (λ r. true) bs) ≡ 0
unfolding keep_all
total_none [] = refl
total_none (b ∷ bs) = omega (arith, ap length (keep_none b), total_none bs)

clear_buckets_lem {ℓ} :
    {R : Type ℓ} (bs : List (Bucket R))
    → clear_buckets bs ≡ (keep_all (λ r. true) bs, deleted (entries bs))
unfolding clear_buckets keep_all
clear_buckets_lem {R} [] = refl
clear_buckets_lem {R} (b ∷ bs) =
    rw (clear_buckets_lem bs, deleted-append b (entries bs), keep_none b)
  where
    deleted-append : (a c : Bucket R) → deleted (a ++ c) ≡ deleted a ++ deleted c
    deleted-append [] c = refl
    deleted-append (n ∷ a) c = ap (◌∷◌ (dereference n.value)) (deleted-append a c)

module _ {ℓ} {R K : Type ℓ} (v : Virtuals R K) (t : HashTable R) (valid : IsValid v t) where
  -- `Clear` of a table whose lock is initialised empties it and gives up one reference to each
  -- record that it held; the table stays valid.
  pub clear_lem :
      t.inited ≡ true
      → let (t', events) = clear t in
        IsValid v t'
        × ((q : K) → view v t' q ≡ none)
        × (t'.n_items ≡ 0)
        × (events ≡ deleted (entries t.buckets))
  unfolding clear lookup
  clear_lem on =
      rw (clear_buckets_lem t.buckets, on)
        (
          record {
            width = length-keep_all (λ r. true) t.buckets ∙ valid.width;
            some_buckets = valid.some_buckets;
            placed = keep_all-IsPlaced v (λ r. true) t.n_buckets 0 t.buckets valid.placed;
            counted = rw (total_none t.buckets);
          },
          λ q. rw (
            get_or-keep_all (λ r. true) t.buckets (home v q t.n_buckets),
            keep_none (get_or t.buckets (home v q t.n_buckets) []),
          ),
          refl,
          refl,
        )

  -- `Initialize` of a table that is in use refuses, and yet frees the table's buckets while it keeps
  -- their count: from then on every `FindKey` faults.
  pub initialize_again :
      (s : System) (n : ℕ)
      → ((initialize s t n).0 ≡ e_invalidarg) × ((k : K) → find_key v (initialize s t n).1 k ≡ none)
  unfolding initialize find_key bucket_of
  initialize_again s n = ground (arith, valid.width, valid.some_buckets)

started {ℓ} :
    {R : Type ℓ} (s : System) (n : ℕ)
    → 0 < n
    → n < (dword - 1) / pointer_size
    → failed s.lock ≡ false
    → s.array ≡ true
    → initialize s (new_table {R = R}) n
      ≡ (s_ok, record { buckets = replicate n []; n_buckets = n; n_items = 0; inited = true })
unfolding initialize new_table
started s n pos small lock array = ground arith

module _ {ℓ} {R K : Type ℓ} (v : Virtuals R K) where
  -- `Initialize` of a fresh table, with a bucket count from 1 to below MAXDWORD / 8, a lock and the
  -- memory for the array, gives a valid table that maps no key and counts no item. In every other
  -- case it reports a failure and the table has no buckets.
  pub initialize_lem :
      (s : System) (n : ℕ)
      → let (hr, t) = initialize s (new_table {R = R}) n in
        (0 < n
          → n < (dword - 1) / pointer_size
          → failed s.lock ≡ false
          → s.array ≡ true
          → (hr ≡ s_ok) × IsValid v t × ((q : K) → view v t q ≡ none) × (t.n_items ≡ 0))
        × ((hr ≡ s_ok) ⊎ ((failed hr ≡ true) × (is_initialized t ≡ false)))
  unfolding initialize new_table is_initialized
  initialize_lem s n = (
    λ pos small lock array. rw (started s n pos small lock array) (
      refl,
      record {
        width = e.width;
        some_buckets = pos;
        placed = e.placed;
        counted = omega (arith, e.nodes);
      },
      e.reads,
      refl,
    ),
    ground arith,
  )
    where
      e : Holds v n 0 (λ _. none) (replicate n [])
      e = empty-Holds v n
