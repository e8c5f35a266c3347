-- ===== src/HashTable.antt =====
-- HASH_TABLE of AspNetCoreModuleV2/IISLib/hashtable.h, a template over a record type and its key.
-- An operation that could read outside the bucket array, or divide by a bucket count of zero,
-- returns an Option whose `none` is that fault.
pub mod Bucket
pub mod Nodes
pub mod Table
pub mod Rehash
pub mod Methods
pub mod Iterate
pub mod Setup
mod Tests
use iisintegration.Prelude.{
  ℕ, zero, suc, ◌+◌, ◌-◌, ◌*◌, ◌/◌, ◌%◌, ◌^◌, ◌≡◌, Bool, true, false, not, ◌||◌, List, [], ◌∷◌,
  ◌++◌, Option, none, some, ltb, leb, ◌==◌, if◌then◌else◌, length, replicate, set, get_elem?,
}
use iisintegration.Prelude.Win32.{
  HResult, s_ok, e_invalidarg, hresult_from_win32, error_already_exists, error_not_enough_memory,
  failed,
}
use iisintegration.Prime.{get_prime}

-- The virtual functions `ExtractKey`, `CalcKeyHash` and `EqualKeys`, and what a table asks of them.
pub record Virtuals {ℓ} (R K : Type ℓ) : Type ℓ where
  pub extract_key : R → K
  pub calc_key_hash : K → ℕ
  pub equal_keys : K → K → Bool
  pub equal_refl : (a : K) → equal_keys a a ≡ true
  pub equal_symm : (a b : K) → equal_keys a b ≡ equal_keys b a
  pub equal_trans :
      (a b c : K) → equal_keys a b ≡ true → equal_keys b c ≡ true → equal_keys a c ≡ true
  pub hash-equal : (a b : K) → equal_keys a b ≡ true → calc_key_hash a ≡ calc_key_hash b

-- A call of `ReferenceRecord` or `DereferenceRecord`.
pub data Event {ℓ} (R : Type ℓ) : Type ℓ where
  reference dereference : R → Event R

pub record Node {ℓ} (R : Type ℓ) : Type ℓ where
  pub value : R
  pub hash : ℕ

abbrev pub Bucket {ℓ} : Type ℓ → Type ℓ
Bucket R = List (Node R)

-- `buckets` is `_ppBuckets`, the empty list for NULL; `inited` is `_tableLock.QueryInited()`.
pub record HashTable {ℓ} (R : Type ℓ) : Type ℓ where
  pub buckets : List (Bucket R)
  pub n_buckets : ℕ
  pub n_items : ℕ
  pub inited : Bool

abbrev pub dword : ℕ
dword = 2 ^ 32

-- `sizeof(HASH_NODE<_Record> *)`, in a 64-bit process
abbrev pub pointer_size : ℕ
pointer_size = 8

unfoldable pub new_table {ℓ} : {R : Type ℓ} → HashTable R
new_table = record { buckets = []; n_buckets = 0; n_items = 0; inited = false }

-- What the calls into Windows return: `lock` of `_tableLock.Init()`, `node` whether `new` of a node
-- succeeds, `array` whether `HeapAlloc` of a bucket array does, `sqrt` the C library's.
pub record System : Type 0 where
  pub lock : HResult
  pub node : Bool
  pub array : Bool
  pub sqrt : ℕ → ℕ

-- The label `Failed` of `Initialize` frees the array that the table has.
initialize_failed {ℓ} : {R : Type ℓ} → HashTable R → HResult → HResult × HashTable R
initialize_failed t hr = (hr, record t { buckets = [] })

unfoldable pub initialize {ℓ} : {R : Type ℓ} → System → HashTable R → ℕ → HResult × HashTable R
unfolding initialize_failed
initialize s t n =
    if n == 0 || leb ((dword - 1) / pointer_size) n || not (length t.buckets == 0)
    then initialize_failed t e_invalidarg
    else if failed s.lock
    then initialize_failed t s.lock
    else if s.array
    then (s_ok, record t { buckets = replicate n []; n_buckets = n; inited = true })
    else initialize_failed (record t { inited = true }) (hresult_from_win32 error_not_enough_memory)

unfoldable pub count {ℓ} : {R : Type ℓ} → HashTable R → ℕ
count t = t.n_items

unfoldable pub is_initialized {ℓ} : {R : Type ℓ} → HashTable R → Bool
is_initialized t = not (length t.buckets == 0)

-- Where `FindNodeInternal` stops: the nodes that it passed, and those from `*ppNode` on.
pub record Located {ℓ} (R : Type ℓ) : Type ℓ where
  pub found : Bool
  pub before : Bucket R
  pub after : Bucket R

abbrev pub pass {ℓ} : {R : Type ℓ} → Node R → Located R → Located R
pass n l = record l { before = n ∷ l.before }

-- `_ppBuckets[dwHash % _nBuckets]`, with its index
unfoldable pub bucket_of {ℓ} : {R : Type ℓ} → HashTable R → ℕ → Option (ℕ × Bucket R)
bucket_of t hash =
    if t.n_buckets == 0 then none else elim (get_elem? t.buckets (hash % t.n_buckets)) [
      | none ↦ none
      | some b ↦ some (hash % t.n_buckets, b)
    ]

-- `*ppPreviousNodeNextPointer = pNewNode`, with `pNewNode->_pNext = pNextNode`
abbrev pub link {ℓ} : {R : Type ℓ} → Located R → Node R → Bucket R
link l new_node = l.before ++ new_node ∷ l.after

abbrev pub skip_one {ℓ} : {R : Type ℓ} → Bucket R → Bucket R
skip_one [] = []
skip_one (n ∷ ns) = ns

-- `*ppPreviousNodeNextPointer = pNode->_pNext`
abbrev pub unlink {ℓ} : {R : Type ℓ} → Located R → Bucket R
unlink l = l.before ++ skip_one l.after

-- The inner loop of `RehashTableIfNeeded`: behind the nodes whose hash is not greater.
unfoldable pub insert_sorted {ℓ} : {R : Type ℓ} → Node R → Bucket R → Bucket R
insert_sorted n [] = n ∷ []
insert_sorted n (m ∷ ms) = if leb m.hash n.hash then m ∷ insert_sorted n ms else n ∷ m ∷ ms

-- One node into the array of the new size.
unfoldable pub rehash_node {ℓ} : {R : Type ℓ} → ℕ → Node R → List (Bucket R) → List (Bucket R)
rehash_node n node bs = elim (get_elem? bs (node.hash % n)) [
  | none ↦ bs
  | some b ↦ set bs (node.hash % n) (insert_sorted node b)
]

unfoldable pub rehash_bucket {ℓ} : {R : Type ℓ} → ℕ → Bucket R → List (Bucket R) → List (Bucket R)
rehash_bucket n [] bs = bs
rehash_bucket n (node ∷ ns) bs = rehash_bucket n ns (rehash_node n node bs)

unfoldable pub rehash_all {ℓ} :
    {R : Type ℓ} → ℕ → List (Bucket R) → List (Bucket R) → List (Bucket R)
rehash_all n [] bs = bs
rehash_all n (b ∷ old) bs = rehash_all n old (rehash_bucket n b bs)

-- The table doubles when it holds more items than the prime that follows twice its buckets.
unfoldable pub rehash_table_if_needed {ℓ} : {R : Type ℓ} → System → HashTable R → HashTable R
rehash_table_if_needed s t =
    let n = get_prime s.sqrt (2 * t.n_buckets % dword) in
    if leb t.n_items n || leb ((dword - 1) / pointer_size) n || not s.array
    then t
    else record t { buckets = rehash_all n t.buckets (replicate n []); n_buckets = n }

-- `DeleteNode` of each node: what it dereferences.
abbrev pub deleted {ℓ} : {R : Type ℓ} → Bucket R → List (Event R)
deleted [] = []
deleted (n ∷ ns) = dereference n.value ∷ deleted ns

unfoldable pub clear_buckets {ℓ} : {R : Type ℓ} → List (Bucket R) → List (Bucket R) × List (Event R)
clear_buckets [] = ([], [])
clear_buckets (b ∷ bs) = let (rest, es) = clear_buckets bs in ([] ∷ rest, deleted b ++ es)

unfoldable pub clear {ℓ} : {R : Type ℓ} → HashTable R → HashTable R × List (Event R)
clear t =
    let (bs, es) = clear_buckets t.buckets in
    if t.inited then (record t { buckets = bs; n_items = 0 }, es) else (t, [])

-- One bucket of `DeleteIf`; the callback sees its context, and the nodes in order.
unfoldable pub delete_if_bucket {ℓ κ} :
    {R : Type ℓ} {S : Type κ} → (R → S → Bool × S) → Bucket R → S → Bucket R × List R × S
delete_if_bucket p [] s = ([], [], s)
delete_if_bucket p (n ∷ ns) s =
    let (doomed, s') = p n.value s in
    let (kept, gone, s'') = delete_if_bucket p ns s' in
    if doomed then (kept, n.value ∷ gone, s'') else (n ∷ kept, gone, s'')

unfoldable pub delete_if_buckets {ℓ κ} :
    {R : Type ℓ} {S : Type κ}
    → (R → S → Bool × S)
    → List (Bucket R)
    → S
    → List (Bucket R) × List R × S
delete_if_buckets p [] s = ([], [], s)
delete_if_buckets p (b ∷ bs) s =
    let (kept, gone, s') = delete_if_bucket p b s in
    let (rest, more, s'') = delete_if_buckets p bs s' in (kept ∷ rest, gone ++ more, s'')

-- The table, the records that were dereferenced, in order, and the context.
unfoldable pub delete_if {ℓ κ} :
    {R : Type ℓ} {S : Type κ} → (R → S → Bool × S) → HashTable R → S → HashTable R × List R × S
delete_if p t s =
    let (bs, gone, s') = delete_if_buckets p t.buckets s in
    (
      record t { buckets = bs; n_items = (t.n_items + dword - length gone % dword) % dword },
      gone,
      s',
    )

unfoldable pub apply_bucket {ℓ κ} : {R : Type ℓ} {S : Type κ} → (R → S → S) → Bucket R → S → S
apply_bucket f [] s = s
apply_bucket f (n ∷ ns) s = apply_bucket f ns (f n.value s)

unfoldable pub apply_buckets {ℓ κ} :
    {R : Type ℓ} {S : Type κ} → (R → S → S) → List (Bucket R) → S → S
apply_buckets f [] s = s
apply_buckets f (b ∷ bs) s = apply_buckets f bs (apply_bucket f b s)

unfoldable pub apply {ℓ κ} : {R : Type ℓ} {S : Type κ} → (R → S → S) → HashTable R → S → S
apply f t s = apply_buckets f t.buckets s

-- `pNode->_pRecord`
abbrev pub first_value {ℓ} : {R : Type ℓ} → Bucket R → Option R
first_value [] = none
first_value (n ∷ ns) = some n.value

module _ {ℓ} {R K : Type ℓ} (v : Virtuals R K) where
  -- The loop of `FindNodeInternal` over one bucket.
  unfoldable pub find_node : K → ℕ → Bucket R → Located R
  find_node key hash [] = record { found = false; before = []; after = [] }
  find_node key hash (n ∷ ns) =
      let rest = pass n (find_node key hash ns) in
      if n.hash == hash
      then (if v.equal_keys key (v.extract_key n.value)
          then record { found = true; before = []; after = n ∷ ns }
          else rest)
      else if ltb hash n.hash
      then record { found = false; before = []; after = n ∷ ns }
      else rest

  -- The record, which the caller now holds a reference to.
  unfoldable pub find_key : HashTable R → K → Option (Option R × List (Event R))
  find_key t key =
      let hash = v.calc_key_hash key in
      elim (bucket_of t hash) [
        | none ↦ none
        | some (i, b) ↦
            let l = find_node key hash b in
            if l.found
            then elim (first_value l.after) [
              | none ↦ none
              | some r ↦ some (some r, reference r ∷ [])
            ]
            else some (none, [])
      ]

  -- A new node takes a reference; a node that is given up has lost its record and takes none.
  unfoldable pub insert_record :
      System → HashTable R → R → Option (HResult × HashTable R × List (Event R))
  insert_record s t r =
      let key = v.extract_key r in
      let hash = v.calc_key_hash key in
      if s.node
      then elim (bucket_of t hash) [
        | none ↦ none
        | some (i, b) ↦
            let l = find_node key hash b in
            if l.found
            then some (hresult_from_win32 error_already_exists, t, [])
            else some (
              s_ok,
              rehash_table_if_needed s (record t {
                buckets = set t.buckets i (link l (record { value = r; hash = hash }));
                n_items = (t.n_items + 1) % dword;
              }),
              reference r ∷ [],
            )
      ]
      else some (hresult_from_win32 error_not_enough_memory, t, [])

  unfoldable pub delete_key : HashTable R → K → Option (HashTable R × List (Event R))
  delete_key t key =
      let hash = v.calc_key_hash key in
      elim (bucket_of t hash) [
        | none ↦ none
        | some (i, b) ↦
            let l = find_node key hash b in
            if l.found
            then elim (first_value l.after) [
              | none ↦ none
              | some r ↦ some (
                record t {
                  buckets = set t.buckets i (unlink l);
                  n_items = (t.n_items + dword - 1) % dword;
                },
                dereference r ∷ [],
              )
            ]
            else some (t, [])
      ]
