-- ===== src/HashTable/Iterate.antt =====
-- `DeleteIf`, `Apply` and `Clear`, which go through all the nodes.
use iisintegration.Prelude.{
  ℕ, zero, suc, ◌+◌, ◌-◌, ◌%◌, ◌≤◌, ◌≡◌, refl, ap, ◌∙◌, inl, inr, Bool, List, [], ◌∷◌, ◌++◌, Option,
  none, some, arith, if◌then◌else◌, length, length-append, get_or, All, Bool-cases,
}
use iisintegration.HashTable.{
  Virtuals, Node, Bucket, HashTable, dword, delete_if_bucket, delete_if_buckets, delete_if,
  apply_bucket,
}
use iisintegration.HashTable.Bucket.{key_of, lookup, IsOrdered, lookup-equal}
use iisintegration.HashTable.Table.{total, IsPlaced, IsValid, home, view, placed_at}
use iisintegration.HashTable.Rehash.{entries}

module _ {ℓ} {R : Type ℓ} (d : R → Bool) where
  -- The nodes that a callback lets stand, and the records of the others.
  unfoldable pub keep : Bucket R → Bucket R
  keep [] = []
  keep (n ∷ ns) = if d n.value then keep ns else n ∷ keep ns

  unfoldable pub doomed : Bucket R → List R
  doomed [] = []
  doomed (n ∷ ns) = if d n.value then n.value ∷ doomed ns else doomed ns

  unfoldable pub keep_all : List (Bucket R) → List (Bucket R)
  keep_all [] = []
  keep_all (b ∷ bs) = keep b ∷ keep_all bs

  length-keep : (b : Bucket R) → length (keep b) + length (doomed b) ≡ length b
  unfolding keep doomed
  length-keep [] = refl
  length-keep (n ∷ ns) = ground (arith, length-keep ns)

  keep-All {κ} : (P : Node R → Type κ) (b : Bucket R) → All P b → All P (keep b)
  unfolding keep
  keep-All P [] a = tt
  keep-All P (n ∷ ns) a = elim (Bool-cases (d n.value)) [
    | inl gone ↦ rw gone (keep-All P ns a.1)
    | inr stays ↦ rw stays (a.0, keep-All P ns a.1)
  ]

  doomed-append : (a b : Bucket R) → doomed (a ++ b) ≡ doomed a ++ doomed b
  unfolding doomed
  doomed-append [] b = refl
  doomed-append (n ∷ a) b = ground (arith, doomed-append a b)

  total-keep_all :
      (bs : List (Bucket R)) → total (keep_all bs) + length (doomed (entries bs)) ≡ total bs
  unfolding keep_all doomed
  total-keep_all [] = refl
  total-keep_all (b ∷ bs) = omega (
    arith,
    length-keep b,
    total-keep_all bs,
    ap length (doomed-append b (entries bs)),
    length-append (doomed b) (doomed (entries bs)),
  )

  pub length-keep_all : (bs : List (Bucket R)) → length (keep_all bs) ≡ length bs
  unfolding keep_all
  length-keep_all [] = refl
  length-keep_all (b ∷ bs) = ap suc (length-keep_all bs)

  pub get_or-keep_all :
      (bs : List (Bucket R)) (i : ℕ) → get_or (keep_all bs) i [] ≡ keep (get_or bs i [])
  unfolding keep_all keep
  get_or-keep_all [] i = refl
  get_or-keep_all (b ∷ bs) zero = refl
  get_or-keep_all (b ∷ bs) (suc i) = get_or-keep_all bs i

  -- A mapping without what the callback has deleted.
  abbrev pub sift : Option R → Option R
  sift none = none
  sift (some r) = if d r then none else some r

module _ {ℓ} {R K : Type ℓ} (v : Virtuals R K) (d : R → Bool) where
  lookup-keep :
      (q : K) (b : Bucket R) → IsOrdered v b → lookup v q (keep d b) ≡ sift d (lookup v q b)
  unfolding lookup keep
  lookup-keep q [] o = refl
  lookup-keep q (n ∷ ns) o =
      ground (arith, lookup-keep q ns o.3, lookup-equal v q (key_of v n) ns, o.2)

  keep-IsOrdered : (b : Bucket R) → IsOrdered v b → IsOrdered v (keep d b)
  unfolding keep
  keep-IsOrdered [] o = tt
  keep-IsOrdered (n ∷ ns) o = elim (Bool-cases (d n.value)) [
    | inl gone ↦ rw gone (keep-IsOrdered ns o.3)
    | inr stays ↦ rw stays (
      o.0,
      keep-All d (λ m. n.hash ≤ m.hash) ns o.1,
      ground (arith, lookup-keep (key_of v n) ns o.3, o.2),
      keep-IsOrdered ns o.3,
    )
  ]

  pub keep_all-IsPlaced :
      (n i : ℕ) (bs : List (Bucket R)) → IsPlaced v n i bs → IsPlaced v n i (keep_all d bs)
  unfolding keep_all
  keep_all-IsPlaced n i [] p = tt
  keep_all-IsPlaced n i (b ∷ bs) p = (
    keep-All d (λ m. m.hash % n ≡ i) b p.0,
    keep-IsOrdered b p.1,
    keep_all-IsPlaced n (suc i) bs p.2,
  )

module _ {ℓ κ} {R : Type ℓ} {S : Type κ} (p : R → S → Bool × S) (d : R → Bool)
    (decides : (r : R) (s : S) → (p r s).0 ≡ d r) where
  -- The context that the callback leaves.
  abbrev after : R → S → S
  after r s = (p r s).1

  delete_if_bucket_lem :
      (b : Bucket R) (s : S)
      → delete_if_bucket p b s ≡ (keep d b, doomed d b, apply_bucket after b s)
  unfolding delete_if_bucket keep doomed apply_bucket
  delete_if_bucket_lem [] s = refl
  delete_if_bucket_lem (n ∷ ns) s =
      rw (decides n.value s, delete_if_bucket_lem ns (p n.value s).1) (ground arith)

  apply_bucket-append :
      (a b : Bucket R) (s : S)
      → apply_bucket after (a ++ b) s ≡ apply_bucket after b (apply_bucket after a s)
  unfolding apply_bucket
  apply_bucket-append [] b s = refl
  apply_bucket-append (n ∷ a) b s = apply_bucket-append a b (after n.value s)

  delete_if_buckets_lem :
      (bs : List (Bucket R)) (s : S)
      → delete_if_buckets p bs s
        ≡ (keep_all d bs, doomed d (entries bs), apply_bucket after (entries bs) s)
  unfolding delete_if_buckets keep_all doomed apply_bucket
  delete_if_buckets_lem [] s = refl
  delete_if_buckets_lem (b ∷ bs) s = rw (
    delete_if_bucket_lem b s,
    delete_if_buckets_lem bs (apply_bucket after b s),
    doomed-append d b (entries bs),
    apply_bucket-append b (entries bs) s,
  )

module _ {ℓ κ} {R K : Type ℓ} {S : Type κ} (v : Virtuals R K) (t : HashTable R)
    (valid : IsValid v t) where
  -- `DeleteIf` with a callback whose answer depends on the record alone: it keeps the table valid,
  -- removes exactly the mappings to records of which the callback says so, gives up one reference
  -- to each of these records, counts them off, and shows each record to the callback once, bucket
  -- after bucket.
  pub delete_if-Sifted :
      (p : R → S → Bool × S) (d : R → Bool)
      → ((r : R) (s : S) → (p r s).0 ≡ d r)
      → (s : S)
      → let (t', gone, s') = delete_if p t s in
        IsValid v t'
        × ((q : K) → view v t' q ≡ sift d (view v t q))
        × (gone ≡ doomed d (entries t.buckets))
        × (t'.n_items ≡ (t.n_items + dword - length gone % dword) % dword)
        × (s' ≡ apply_bucket (λ r s. (p r s).1) (entries t.buckets) s)
  unfolding delete_if
  delete_if-Sifted p d decides s = rw (delete_if_buckets_lem p d decides t.buckets s) (
    record {
      width = length-keep_all d t.buckets ∙ valid.width;
      some_buckets = valid.some_buckets;
      placed = keep_all-IsPlaced v d t.n_buckets 0 t.buckets valid.placed;
      counted = omega (arith, total-keep_all d t.buckets, valid.counted);
    },
    λ q. rw (get_or-keep_all d t.buckets (home v q t.n_buckets)) (
        lookup-keep v d q (get_or t.buckets (home v q t.n_buckets) [])
          (placed_at v t.n_buckets 0 (home v q t.n_buckets) t.buckets valid.placed).1),
    refl,
    refl,
    refl,
  )
