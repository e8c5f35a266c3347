-- ===== src/HashTable/Rehash.antt =====
-- `RehashTableIfNeeded` moves every node and loses none.
use iisintegration.Prelude.{
  ℕ, zero, suc, ◌+◌, ◌-◌, ◌%◌, ◌<◌, ◌*◌, ◌/◌, ◌≡◌, refl, ap, ◌∙◌, sym, ◌≢◌, inl, inr, Bool, not,
  ◌||◌, List, [], ◌∷◌, ◌++◌, Option, none, some, arith, leb, if◌then◌else◌, length, length-append,
  length-replicate, replicate, get_or, get_or-replicate, set, get_elem?-get_or, length-set, All,
  Bool-cases,
}
use iisintegration.Prime.{get_prime}
use iisintegration.Prime.Search.{get_prime_pos}
use iisintegration.HashTable.{
  Virtuals, Node, Bucket, HashTable, System, dword, pointer_size, insert_sorted, rehash_node,
  rehash_bucket, rehash_all, rehash_table_if_needed,
}
use iisintegration.HashTable.Bucket.{key_of, lookup, IsOrdered, lookup-equal}
use iisintegration.HashTable.Nodes.{
  All-insert_sorted, length-insert_sorted, lookup-insert_sorted, insert_sorted-IsOrdered,
}
use iisintegration.HashTable.Table.{
  total, total-set, IsPlaced, IsValid, home, home-lt, view_of, view, placed_at, set-IsPlaced,
  view-set, home_equal,
}

-- All the nodes, bucket after bucket.
abbrev pub entries {ℓ} : {R : Type ℓ} → List (Bucket R) → Bucket R
entries [] = []
entries (b ∷ bs) = b ++ entries bs

pub length-entries {ℓ} : {R : Type ℓ} (bs : List (Bucket R)) → length (entries bs) ≡ total bs
length-entries [] = refl
length-entries (b ∷ bs) = omega (arith, length-append b (entries bs), length-entries bs)

rehash_bucket-append {ℓ} :
    {R : Type ℓ} (n : ℕ) (a b : Bucket R) (bs : List (Bucket R))
    → rehash_bucket n (a ++ b) bs ≡ rehash_bucket n b (rehash_bucket n a bs)
unfolding rehash_bucket
rehash_bucket-append n [] b bs = refl
rehash_bucket-append n (m ∷ a) b bs = rehash_bucket-append n a b (rehash_node n m bs)

rehash_all-entries {ℓ} :
    {R : Type ℓ} (n : ℕ) (old bs : List (Bucket R))
    → rehash_all n old bs ≡ rehash_bucket n (entries old) bs
unfolding rehash_all rehash_bucket
rehash_all-entries n [] bs = refl
rehash_all-entries n (b ∷ old) bs =
    rehash_all-entries n old (rehash_bucket n b bs)
    ∙ sym (rehash_bucket-append n b (entries old) bs)

abbrev pub first_of {ℓ} : {R : Type ℓ} → Option R → Option R → Option R
first_of none o = o
first_of (some r) o = some r

first_of-none {ℓ} : {R : Type ℓ} (o : Option R) → first_of o none ≡ o
first_of-none none = refl
first_of-none (some r) = refl

module _ {ℓ} {R K : Type ℓ} (v : Virtuals R K) where
  -- Nodes in any order, each under its hash, no key twice.
  abbrev IsDistinct : Bucket R → Type ℓ
  IsDistinct [] = Unit
  IsDistinct (n ∷ ns) =
      (n.hash ≡ v.calc_key_hash (key_of v n)) × (lookup v (key_of v n) ns ≡ none) × IsDistinct ns

  lookup-append :
      (q : K) (a b : Bucket R) → lookup v q (a ++ b) ≡ first_of (lookup v q a) (lookup v q b)
  unfolding lookup
  lookup-append q [] b = refl
  lookup-append q (n ∷ a) b = ground (arith, lookup-append q a b)

  -- A bucket holds no key of another bucket.
  lookup_elsewhere :
      (q : K) (n i : ℕ) (b : Bucket R)
      → All (λ m. m.hash % n ≡ i) b
      → IsOrdered v b
      → home v q n ≢ i
      → lookup v q b ≡ none
  unfolding lookup
  lookup_elsewhere q n i [] a o h = refl
  lookup_elsewhere q n i (m ∷ ms) a o h =
      ground (arith, a.0, o.0, lookup_elsewhere q n i ms a.1 o.3, home_equal v q (key_of v m) n)

  lookup_before :
      (q : K) (n i : ℕ) (bs : List (Bucket R))
      → IsPlaced v n i bs
      → home v q n < i
      → lookup v q (entries bs) ≡ none
  unfolding lookup
  lookup_before q n i [] p h = refl
  lookup_before q n i (b ∷ bs) p h = ground (
    arith,
    lookup-append q b (entries bs),
    lookup_elsewhere q n i b p.0 p.1 (λ e. omega arith),
    lookup_before q n (suc i) bs p.2 (omega arith),
  )

  -- A search of all the nodes finds what a search of the key's bucket does.
  lookup-entries :
      (q : K) (n i j : ℕ) (bs : List (Bucket R))
      → IsPlaced v n i bs
      → home v q n ≡ i + j
      → lookup v q (entries bs) ≡ lookup v q (get_or bs j [])
  unfolding lookup
  lookup-entries q n i j [] p h = refl
  lookup-entries q n i zero (b ∷ bs) p h =
      ground (arith, lookup-append q b (entries bs), lookup_before q n (suc i) bs p.2 (omega arith))
  lookup-entries q n i (suc j) (b ∷ bs) p h = ground (
    arith,
    lookup-append q b (entries bs),
    lookup_elsewhere q n i b p.0 p.1 (λ e. omega arith),
    lookup-entries q n (suc i) j bs p.2 (omega arith),
  )

  append-IsDistinct :
      (b c : Bucket R)
      → IsOrdered v b
      → All (λ m. lookup v (key_of v m) c ≡ none) b
      → IsDistinct c
      → IsDistinct (b ++ c)
  append-IsDistinct [] c o a d = d
  append-IsDistinct (m ∷ b) c o a d = (
    o.0,
    ground (arith, lookup-append (key_of v m) b c, o.2, a.0),
    append-IsDistinct b c o.3 a.1 d,
  )

  apart :
      (n i : ℕ) (b : Bucket R) (bs : List (Bucket R))
      → All (λ m. m.hash % n ≡ i) b
      → IsOrdered v b
      → IsPlaced v n (suc i) bs
      → All (λ m. lookup v (key_of v m) (entries bs) ≡ none) b
  apart n i [] bs a o p = tt
  apart n i (m ∷ b) bs a o p = (
    lookup_before (key_of v m) n (suc i) bs p (omega (arith, ap (λ (h : ℕ). h % n) o.0, a.0)),
    apart n i b bs a.1 o.3 p,
  )

  entries-IsDistinct :
      (n i : ℕ) (bs : List (Bucket R)) → IsPlaced v n i bs → IsDistinct (entries bs)
  entries-IsDistinct n i [] p = tt
  entries-IsDistinct n i (b ∷ bs) p =
      append-IsDistinct b (entries bs) p.1 (apart n i b bs p.0 p.1 p.2)
        (entries-IsDistinct n (suc i) bs p.2)

  -- An array of `n` buckets in place that has `count` nodes and reads as `f`.
  pub record Holds (n count : ℕ) (f : K → Option R) (bs : List (Bucket R)) : Type ℓ where
    pub width : length bs ≡ n
    pub nodes : total bs ≡ count
    pub placed : IsPlaced v n 0 bs
    pub reads : (q : K) → view_of v n bs q ≡ f q

  pub empty-Holds : (n : ℕ) → Holds n 0 (λ _. none) (replicate n [])
  unfolding lookup
  empty-Holds n = record {
    width = length-replicate n [];
    nodes = none_in n;
    placed = in_place n 0;
    reads = λ q. rw (get_or-replicate {A = Bucket R} n (home v q n) []);
  }
    where
      none_in : (k : ℕ) → total {R = R} (replicate k []) ≡ 0
      none_in zero = refl
      none_in (suc k) = omega (arith, none_in k)

      in_place : (k i : ℕ) → IsPlaced v n i (replicate k [])
      in_place zero i = tt
      in_place (suc k) i = (tt, tt, in_place k (suc i))

  -- A node with a new key, put in its place in the key's bucket.
  pub insert_sorted-Holds :
      (n count : ℕ) (f : K → Option R) (m : Node R) (bs : List (Bucket R))
      → 0 < n
      → m.hash ≡ v.calc_key_hash (key_of v m)
      → f (key_of v m) ≡ none
      → Holds n count f bs
      → let i = home v (key_of v m) n in
        Holds n
          (count + 1)
          (λ q. if v.equal_keys q (key_of v m) then some m.value else f q)
          (set bs i (insert_sorted m (get_or bs i [])))
  insert_sorted-Holds n count f m bs pos e fresh t =
      let k = key_of v m in
      let i = home v k n in
      let b = get_or bs i [] in
      let inside : i < length bs = omega (arith, home-lt v k n pos, t.width) in
      let absent : lookup v k b ≡ none = t.reads k ∙ fresh in
      let (a, o) = placed_at v n 0 i bs t.placed in
      record {
        width = length-set bs i _ ∙ t.width;
        nodes =
            omega
              (arith, total-set bs i (insert_sorted m b) inside, length-insert_sorted m b, t.nodes);
        placed =
            set-IsPlaced v n 0 i bs _ t.placed
              (All-insert_sorted (λ x. x.hash % n ≡ 0 + i) m b
                (omega (arith, ap (λ (h : ℕ). h % n) e)) a)
              (insert_sorted-IsOrdered v m b e absent o);
        reads = λ q.
            view-set v n bs k _ (some m.value) inside (λ q. lookup-insert_sorted v m b q absent) q
            ∙ ap (λ (x : Option R). if v.equal_keys q k then some m.value else x) (t.reads q);
      }

  rehash_node-eq-set :
      (n : ℕ) (m : Node R) (bs : List (Bucket R)) (i : ℕ)
      → m.hash % n ≡ i
      → i < length bs
      → rehash_node n m bs ≡ set bs i (insert_sorted m (get_or bs i []))
  unfolding rehash_node
  rehash_node-eq-set n m bs i e h = ground (arith, get_elem?-get_or bs i [] h)

  fresh_rest :
      (k : K) (r : R) (f : K → Option R) (ns : Bucket R)
      → lookup v k ns ≡ none
      → All (λ m. f (key_of v m) ≡ none) ns
      → All (λ m. (if v.equal_keys (key_of v m) k then some r else f (key_of v m)) ≡ none) ns
  unfolding lookup
  fresh_rest k r f [] h a = tt
  fresh_rest k r f (m ∷ ns) h a =
      (ground (arith, v.equal_symm k (key_of v m), a.0), fresh_rest k r f ns (ground arith) a.1)

  -- The nodes go over one by one; what they held is in front of what the array held.
  rehash_bucket-Holds :
      (n count : ℕ) (f : K → Option R) (ns : Bucket R) (bs : List (Bucket R))
      → 0 < n
      → IsDistinct ns
      → All (λ m. f (key_of v m) ≡ none) ns
      → Holds n count f bs
      → Holds n (count + length ns) (λ q. first_of (lookup v q ns) (f q)) (rehash_bucket n ns bs)
  unfolding rehash_bucket lookup
  rehash_bucket-Holds n count f [] bs pos d a t = record {
    width = t.width;
    nodes = omega (arith, t.nodes);
    placed = t.placed;
    reads = t.reads;
  }
  rehash_bucket-Holds n count f (m ∷ ns) bs pos d a t =
      let i = home v (key_of v m) n in
      let step = insert_sorted-Holds n count f m bs pos d.0 a.0 t in
      let e =
        rehash_node-eq-set n m bs i (ap (λ (h : ℕ). h % n) d.0)
          (omega (arith, home-lt v (key_of v m) n pos, t.width)) in
      let r =
        rehash_bucket-Holds n (count + 1) _ ns _ pos d.2
          (fresh_rest (key_of v m) m.value f ns d.1 a.1) step in
      rw e (record {
        width = r.width;
        nodes = omega (arith, r.nodes);
        placed = r.placed;
        reads = λ q. r.reads q ∙ ground (arith, lookup-equal v q (key_of v m) ns, d.1);
      })

  nothing : (ns : Bucket R) → All (λ m. ◌≡◌ {A = Option R} none none) ns
  nothing [] = tt
  nothing (m ∷ ns) = (refl, nothing ns)

  -- Whether it doubles the buckets or not, `RehashTableIfNeeded` keeps the table valid, every
  -- lookup and the number of items.
  pub rehash_table_if_needed_lem :
      (s : System) (t : HashTable R)
      → IsValid v t
      → let t' = rehash_table_if_needed s t in
        IsValid v t' × ((q : K) → view v t' q ≡ view v t q) × (t'.n_items ≡ t.n_items)
  unfolding rehash_table_if_needed
  rehash_table_if_needed_lem s t valid = elim (Bool-cases skip) [
    | inl kept ↦ rw kept (valid, (λ q. refl), refl)
    | inr moved ↦ rw moved (
      record {
        width = r.width;
        some_buckets = pos;
        placed = r.placed;
        counted = omega (arith, valid.counted, r.nodes, length-entries t.buckets);
      },
      (λ q.
          r.reads q
          ∙ first_of-none _
          ∙ lookup-entries q t.n_buckets 0 (home v q t.n_buckets) t.buckets valid.placed
              (omega arith)),
      refl,
    )
  ]
    where
      n : ℕ
      n = get_prime s.sqrt (2 * t.n_buckets % dword)

      skip : Bool
      skip = leb t.n_items n || leb ((dword - 1) / pointer_size) n || not s.array

      pos : 0 < n
      pos = get_prime_pos s.sqrt (2 * t.n_buckets % dword)

      r :
          Holds n
            (0 + length (entries t.buckets))
            (λ q. first_of (lookup v q (entries t.buckets)) none)
            (rehash_all n t.buckets (replicate n []))
      r = rw (rehash_all-entries n t.buckets (replicate n [])) (
          rehash_bucket-Holds n 0 (λ _. none) (entries t.buckets) (replicate n []) pos
            (entries-IsDistinct t.n_buckets 0 t.buckets valid.placed) (nothing (entries t.buckets))
            (empty-Holds n))
