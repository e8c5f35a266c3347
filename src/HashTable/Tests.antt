-- ===== src/HashTable/Tests.antt =====
-- A table of numbers under their last two digits, and the theorems on it.
use iisintegration.Prelude.{
  ℕ, ◌+◌, ◌-◌, ◌%◌, ◌≡◌, refl, Bool, true, [], ◌∷◌, none, some, arith, ltb, ◌==◌, length,
}
use iisintegration.Prelude.Win32.{s_ok, e_invalidarg}
use iisintegration.HashTable.{
  Virtuals, reference, dereference, HashTable, System, dword, initialize, find_key, find_node,
  bucket_of, insert_record, rehash_table_if_needed, delete_key, delete_if, apply_bucket,
}
use iisintegration.HashTable.Bucket.{lookup}
use iisintegration.HashTable.Table.{IsValid, view}
use iisintegration.HashTable.Rehash.{entries, rehash_table_if_needed_lem}
use iisintegration.HashTable.Methods.{
  find_key-view, Inserted, insert_record-Inserted, Deleted, delete_key-Deleted,
}
use iisintegration.HashTable.Iterate.{sift, doomed, delete_if-Sifted}
use iisintegration.HashTable.Setup.{initialize_again}

abbrev same : ℕ → ℕ → Bool
same a b = a % 100 == b % 100

same_refl : (a : ℕ) → same a a ≡ true
same_refl a = ground arith

same_symm : (a b : ℕ) → same a b ≡ same b a
same_symm a b = ground arith

same_trans : (a b c : ℕ) → same a b ≡ true → same b c ≡ true → same a c ≡ true
same_trans a b c p q = ground arith

same_hash : (a b : ℕ) → same a b ≡ true → a % 100 ≡ b % 100
same_hash a b p = ground arith

abbrev residues : Virtuals ℕ ℕ
residues = record {
  extract_key = λ r. r;
  calc_key_hash = λ k. k % 100;
  equal_keys = same;
  equal_refl = same_refl;
  equal_symm = same_symm;
  equal_trans = same_trans;
  hash-equal = same_hash;
}

abbrev system : System
system = record { lock = s_ok; node = true; array = true; sqrt = λ n. n }

abbrev sample : HashTable ℕ
sample = record {
  buckets =
      [] ∷ (record { value = 4; hash = 4 } ∷ []) ∷ (record { value = 105; hash = 5 } ∷ []) ∷ [];
  n_buckets = 3;
  n_items = 2;
  inited = true;
}

sample-IsValid : IsValid residues sample
unfolding lookup
sample-IsValid = record {
  width = refl;
  some_buckets = omega arith;
  placed = (tt, tt, ((refl, tt), (refl, tt, refl, tt), ((refl, tt), (refl, tt, refl, tt), tt)));
  counted = refl;
}

five : find_key residues sample 5 ≡ some (some 105, reference 105 ∷ [])
unfolding find_key find_node bucket_of
five = refl

find_key-view_example :
    find_key residues sample 5
    ≡ some
        (elim (view residues sample 5) [ none ↦ (none, []) | some r ↦ (some r, reference r ∷ []) ])
find_key-view_example = find_key-view residues sample sample-IsValid 5

insert_record-Inserted_example :
    (t' : HashTable ℕ) × (insert_record residues system sample 208
      ≡ some (s_ok, t', reference 208 ∷ []))
    × Inserted residues sample sample-IsValid 208 t'
insert_record-Inserted_example =
    insert_record-Inserted residues sample sample-IsValid system 208 refl (unfold lookup in refl)

delete_key-Deleted_example :
    (view residues sample 4 ≡ none → delete_key residues sample 4 ≡ some (sample, []))
    × ((r : ℕ)
        → view residues sample 4 ≡ some r
        → (t' : HashTable ℕ) × (delete_key residues sample 4 ≡ some (t', dereference r ∷ []))
          × Deleted residues sample sample-IsValid 4 t')
delete_key-Deleted_example = delete_key-Deleted residues sample sample-IsValid 4

rehash_table_if_needed_lem_example :
    let t' = rehash_table_if_needed system sample in
    IsValid residues t'
    × ((q : ℕ) → view residues t' q ≡ view residues sample q)
    × (t'.n_items ≡ sample.n_items)
rehash_table_if_needed_lem_example =
    rehash_table_if_needed_lem residues system sample sample-IsValid

-- A callback that deletes the records above 100 and counts the records that it sees.
abbrev above_100 : ℕ → ℕ → Bool × ℕ
above_100 r seen = (ltb 100 r, seen + 1)

delete_if-Sifted_example :
    let (t', gone, s') = delete_if above_100 sample 0 in
    IsValid residues t'
    × ((q : ℕ) → view residues t' q ≡ sift (λ r. ltb 100 r) (view residues sample q))
    × (gone ≡ doomed (λ r. ltb 100 r) (entries sample.buckets))
    × (t'.n_items ≡ (sample.n_items + dword - length gone % dword) % dword)
    × (s' ≡ apply_bucket (λ r s. (above_100 r s).1) (entries sample.buckets) 0)
delete_if-Sifted_example =
    delete_if-Sifted residues sample sample-IsValid above_100 (λ r. ltb 100 r) (λ r s. refl) 0

initialize_again_example :
    ((initialize system sample 79).0 ≡ e_invalidarg)
    × ((k : ℕ) → find_key residues (initialize system sample 79).1 k ≡ none)
initialize_again_example = initialize_again residues sample sample-IsValid system 79
