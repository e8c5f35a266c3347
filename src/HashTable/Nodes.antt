-- ===== src/HashTable/Nodes.antt =====
-- What linking and unlinking a node does to a bucket.
use iisintegration.Prelude.{
  ◌+◌, ◌≤◌, ◌≡◌, refl, [], ◌∷◌, none, some, arith, leb, leb→le, if◌then◌else◌, length, All,
  All-mono, Bool-cases, inl, inr,
}
use iisintegration.HashTable.{Virtuals, Node, Bucket, insert_sorted}
use iisintegration.HashTable.Bucket.{key_of, lookup, erase, IsOrdered, equal_left, lookup-equal}

module _ {ℓ κ} {R : Type ℓ} (P : Node R → Type κ) where
  pub All-insert_sorted : (n : Node R) (b : Bucket R) → P n → All P b → All P (insert_sorted n b)
  unfolding insert_sorted
  All-insert_sorted n [] p a = (p, tt)
  All-insert_sorted n (m ∷ ms) p a = elim (Bool-cases (leb m.hash n.hash)) [
    | inl le ↦ rw le (a.0, All-insert_sorted n ms p a.1)
    | inr gt ↦ rw gt (p, a)
  ]

pub length-insert_sorted {ℓ} :
    {R : Type ℓ} (n : Node R) (b : Bucket R) → length (insert_sorted n b) ≡ length b + 1
unfolding insert_sorted
length-insert_sorted n [] = refl
length-insert_sorted n (m ∷ ms) = ground (arith, length-insert_sorted n ms)

module _ {ℓ} {R K : Type ℓ} (v : Virtuals R K) where
  -- A node with a new key is found under its key, and the others as before.
  pub lookup-insert_sorted :
      (n : Node R) (b : Bucket R) (q : K)
      → lookup v (key_of v n) b ≡ none
      → lookup v q (insert_sorted n b)
        ≡ (if v.equal_keys q (key_of v n) then some n.value else lookup v q b)
  unfolding lookup insert_sorted
  lookup-insert_sorted n [] q h = refl
  lookup-insert_sorted n (m ∷ ms) q h = ground (
    arith,
    lookup-insert_sorted n ms q,
    v.equal_symm q (key_of v n),
    v.equal_trans (key_of v n) q (key_of v m),
  )

  pub insert_sorted-IsOrdered :
      (n : Node R) (b : Bucket R)
      → n.hash ≡ v.calc_key_hash (key_of v n)
      → lookup v (key_of v n) b ≡ none
      → IsOrdered v b
      → IsOrdered v (insert_sorted n b)
  unfolding lookup insert_sorted
  insert_sorted-IsOrdered n [] e h o = (e, tt, refl, tt)
  insert_sorted-IsOrdered n (m ∷ ms) e h o = elim (Bool-cases (leb m.hash n.hash)) [
    | inl le ↦ rw le (
      o.0,
      All-insert_sorted (λ k. m.hash ≤ k.hash) n ms (leb→le m.hash n.hash le) o.1,
      rw (lookup-insert_sorted n ms (key_of v m) (ground arith))
          (ground (arith, o.2, v.equal_symm (key_of v m) (key_of v n))),
      insert_sorted-IsOrdered n ms e (ground arith) o.3,
    )
    | inr gt ↦ rw gt (e, (ground arith, All-mono (λ k p. ground arith) ms o.1), h, o)
  ]

  pub erase-All {κ} : (P : Node R → Type κ) (q : K) (b : Bucket R) → All P b → All P (erase v q b)
  unfolding erase
  erase-All P q [] a = tt
  erase-All P q (n ∷ ns) a = elim (Bool-cases (v.equal_keys q (key_of v n))) [
    | inl same ↦ rw same a.1
    | inr other ↦ rw other (a.0, erase-All P q ns a.1)
  ]

  pub length-erase :
      (q : K) (b : Bucket R) (r : R) → lookup v q b ≡ some r → length (erase v q b) + 1 ≡ length b
  unfolding erase lookup
  length-erase q [] r e = cc
  length-erase q (n ∷ ns) r e = ground (arith, length-erase q ns r)

  -- With one node to a key, the key is gone, and the others are found as before.
  pub lookup-erase :
      (q k : K) (b : Bucket R)
      → IsOrdered v b
      → lookup v k (erase v q b) ≡ (if v.equal_keys k q then none else lookup v k b)
  unfolding erase lookup
  lookup-erase q k [] o = ground arith
  lookup-erase q k (n ∷ ns) o = ground (
    arith,
    lookup-erase q k ns o.3,
    equal_left v k q (key_of v n),
    lookup-equal v k (key_of v n) ns,
    o.2,
    v.equal_symm q (key_of v n),
    v.equal_trans k (key_of v n) q,
  )

  pub erase-IsOrdered : (q : K) (b : Bucket R) → IsOrdered v b → IsOrdered v (erase v q b)
  unfolding erase
  erase-IsOrdered q [] o = tt
  erase-IsOrdered q (n ∷ ns) o = elim (Bool-cases (v.equal_keys q (key_of v n))) [
    | inl same ↦ rw same o.3
    | inr other ↦ rw other (
      o.0,
      erase-All (λ m. n.hash ≤ m.hash) q ns o.1,
      ground (arith, lookup-erase q (key_of v n) ns o.3, o.2),
      erase-IsOrdered q ns o.3,
    )
  ]
