-- ===== src/HashTable/Methods.antt =====
-- The operations on one key: no fault on a valid table, the invariant kept, and the effect on what
-- the table maps each key to.
use iisintegration.Prelude.{
  ◌+◌, ◌-◌, ◌%◌, ◌<◌, ◌≡◌, refl, ◌∙◌, inl, inr, true, false, [], ◌∷◌, none, some, arith,
  if◌then◌else◌, length, get_or, set, length-set, Bool-cases,
}
use iisintegration.Prelude.Win32.{
  s_ok, hresult_from_win32, error_already_exists, error_not_enough_memory,
}
use iisintegration.HashTable.{
  Virtuals, reference, dereference, Node, Bucket, HashTable, System, Located, dword, link, unlink,
  rehash_table_if_needed, find_node, find_key, insert_record, delete_key,
}
use iisintegration.HashTable.Bucket.{erase, find_node-Agrees, Agrees}
use iisintegration.HashTable.Nodes.{lookup-erase, erase-All, erase-IsOrdered, length-erase}
use iisintegration.HashTable.Table.{
  total, total-set, IsValid, home, home-lt, view, placed_at, set-IsPlaced, view-set, bucket_of_lem,
}
use iisintegration.HashTable.Rehash.{Holds, insert_sorted-Holds, rehash_table_if_needed_lem}

module _ {ℓ} {R K : Type ℓ} (v : Virtuals R K) (t : HashTable R) (valid : IsValid v t) where
  home_bucket : K → Bucket R
  home_bucket q = get_or t.buckets (home v q t.n_buckets) []

  agrees : (q : K) → Agrees v q (home_bucket q) (find_node v q (v.calc_key_hash q) (home_bucket q))
  unfolding home_bucket
  agrees q =
      find_node-Agrees v q (home_bucket q)
        (placed_at v t.n_buckets 0 (home v q t.n_buckets) t.buckets valid.placed).1

  -- `FindKey` on a valid table does not fault; it returns the record that the table maps the key
  -- to, with one more reference, or nothing.
  pub find_key-view :
      (q : K)
      → find_key v t q
        ≡ some (elim (view v t q) [ none ↦ (none, []) | some r ↦ (some r, reference r ∷ []) ])
  unfolding find_key home_bucket
  find_key-view q =
      let a = agrees q in
      elim (Bool-cases (find_node v q (v.calc_key_hash q) (home_bucket q)).found) [
        | inl hit ↦
            let (r, e) = a.present hit in
            rw (bucket_of_lem v t valid q, find_key, hit, a.hit hit, e, find_key)
        | inr miss ↦ rw (bucket_of_lem v t valid q, find_key, miss, a.absent miss, find_key)
      ]

  -- What `InsertRecord` leaves where the key is new: the record stands under its key.
  pub record Inserted (r : R) (t' : HashTable R) : Type ℓ where
    pub valid' : IsValid v t'
    pub reads :
        (q : K) → view v t' q ≡ (if v.equal_keys q (v.extract_key r) then some r else view v t q)
    pub items : t'.n_items ≡ (t.n_items + 1) % dword

  linked : (s : System) (r : R) (l : Located R) → HashTable R
  linked s r l =
      let k = v.extract_key r in
      record t {
        buckets =
            set t.buckets (home v k t.n_buckets)
              (link l (record { value = r; hash = v.calc_key_hash k }));
        n_items = (t.n_items + 1) % dword;
      }

  linked-Inserted :
      (s : System) (r : R)
      → view v t (v.extract_key r) ≡ none
      → let l =
          find_node v
            (v.extract_key r)
            (v.calc_key_hash (v.extract_key r))
            (home_bucket (v.extract_key r)) in
        l.found ≡ false → Inserted r (linked s r l)
  unfolding linked home_bucket
  linked-Inserted s r fresh miss =
      let k = v.extract_key r in
      let m : Node R = record { value = r; hash = v.calc_key_hash k } in
      let start : Holds v t.n_buckets (total t.buckets) (view v t) t.buckets = record {
        width = valid.width;
        nodes = refl;
        placed = valid.placed;
        reads = λ q. refl;
      } in
      let h =
        insert_sorted-Holds v t.n_buckets (total t.buckets) (view v t) m t.buckets
          valid.some_buckets refl fresh start in
      rw ((agrees k).place miss r) (record {
        valid' = record {
          width = h.width;
          some_buckets = valid.some_buckets;
          placed = h.placed;
          counted = omega (arith, h.nodes, valid.counted);
        };
        reads = h.reads;
        items = refl;
      })

  -- `InsertRecord` of a key that a valid table does not have, with memory for a node, succeeds,
  -- takes one reference, stores the record under the key and changes no other key, whether the
  -- table grows or not; the table is valid again.
  pub insert_record-Inserted :
      (s : System) (r : R)
      → s.node ≡ true
      → view v t (v.extract_key r) ≡ none
      → (t' : HashTable R) × (insert_record v s t r ≡ some (s_ok, t', reference r ∷ []))
        × Inserted r t'
  unfolding insert_record home_bucket linked
  insert_record-Inserted s r node fresh =
      let k = v.extract_key r in
      elim (Bool-cases (find_node v k (v.calc_key_hash k) (home_bucket k)).found) [
        | inl hit ↦ let (r', e) = (agrees k).present hit in absurd (ground arith)
        | inr miss ↦
            let i = linked-Inserted s r fresh miss in
            let (valid', reads, items) = rehash_table_if_needed_lem v s _ i.valid' in
            (
              rehash_table_if_needed s
                  (linked s r (find_node v k (v.calc_key_hash k) (home_bucket k))),
              ground (arith, bucket_of_lem v t valid k),
              record { valid' = valid'; reads = λ q. reads q ∙ i.reads q; items = items },
            )
      ]

  -- `InsertRecord` on a valid table fails and changes nothing where the key is there already, or
  -- where there is no memory for a node; it takes no reference.
  pub insert_record_fails :
      (s : System) (r : R)
      → (s.node ≡ false
          → insert_record v s t r ≡ some (hresult_from_win32 error_not_enough_memory, t, []))
        × ((old : R)
            → s.node ≡ true
            → view v t (v.extract_key r) ≡ some old
            → insert_record v s t r ≡ some (hresult_from_win32 error_already_exists, t, []))
  unfolding insert_record home_bucket
  insert_record_fails s r = (
    λ node. ground arith,
    λ old node there.
        let k = v.extract_key r in
        elim (Bool-cases (find_node v k (v.calc_key_hash k) (home_bucket k)).found) [
          | inl hit ↦ ground (arith, bucket_of_lem v t valid k)
          | inr miss ↦ let e = (agrees k).absent miss in absurd (ground arith)
        ],
  )

  -- The table without the key.
  pub record Deleted (k : K) (t' : HashTable R) : Type ℓ where
    pub valid' : IsValid v t'
    pub reads : (q : K) → view v t' q ≡ (if v.equal_keys q k then none else view v t q)
    pub items : t'.n_items ≡ (t.n_items + dword - 1) % dword

  unlinked : K → HashTable R
  unlinked k = record t {
    buckets =
        set t.buckets (home v k t.n_buckets)
          (unlink (find_node v k (v.calc_key_hash k) (home_bucket k)));
    n_items = (t.n_items + dword - 1) % dword;
  }

  unlinked-Deleted :
      (k : K) (r : R)
      → (find_node v k (v.calc_key_hash k) (home_bucket k)).found ≡ true
      → view v t k ≡ some r
      → Deleted k (unlinked k)
  unfolding unlinked home_bucket
  unlinked-Deleted k r hit there =
      let i = home v k t.n_buckets in
      let b = get_or t.buckets i [] in
      let inside : i < length t.buckets =
        omega (arith, home-lt v k t.n_buckets valid.some_buckets, valid.width) in
      let (a, o) = placed_at v t.n_buckets 0 i t.buckets valid.placed in
      rw ((agrees k).removed hit) (record {
        valid' = record {
          width = length-set t.buckets i _ ∙ valid.width;
          some_buckets = valid.some_buckets;
          placed =
              set-IsPlaced v t.n_buckets 0 i t.buckets _ valid.placed
                (erase-All v (λ m. m.hash % t.n_buckets ≡ 0 + i) k b a) (erase-IsOrdered v k b o);
          counted = omega (
            arith,
            total-set t.buckets i (erase v k b) inside,
            length-erase v k b r there,
            valid.counted,
          );
        };
        reads = view-set v t.n_buckets t.buckets k _ none inside (λ q. lookup-erase v k q b o);
        items = refl;
      })

  -- `DeleteKey` on a valid table: without the key it leaves the table alone; otherwise it gives up
  -- the reference to the key's record, and the table is valid again, maps the key to nothing and
  -- every other key as before, and counts one item less.
  pub delete_key-Deleted :
      (k : K)
      → (view v t k ≡ none → delete_key v t k ≡ some (t, []))
        × ((r : R)
            → view v t k ≡ some r
            → (t' : HashTable R) × (delete_key v t k ≡ some (t', dereference r ∷ []))
              × Deleted k t')
  unfolding delete_key home_bucket unlinked
  delete_key-Deleted k = (
    λ gone. elim (Bool-cases (find_node v k (v.calc_key_hash k) (home_bucket k)).found) [
      | inl hit ↦ let (r', e) = (agrees k).present hit in absurd (ground arith)
      | inr miss ↦ ground (arith, bucket_of_lem v t valid k)
    ],
    λ r there. elim (Bool-cases (find_node v k (v.calc_key_hash k) (home_bucket k)).found) [
      | inl hit ↦ (
        unlinked k,
        ground (arith, bucket_of_lem v t valid k, (agrees k).hit hit),
        unlinked-Deleted k r hit there,
      )
      | inr miss ↦ let e = (agrees k).absent miss in absurd (ground arith)
    ],
  )
