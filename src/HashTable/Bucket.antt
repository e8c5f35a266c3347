-- ===== src/HashTable/Bucket.antt =====
-- One bucket: `FindNodeInternal` stops early because the hashes rise, and still agrees with a
-- search of the whole bucket.
use iisintegration.Prelude.{
  ℕ, ◌≤◌, ◌<◌, ◌≡◌, refl, ap, inl, inr, true, false, [], ◌∷◌, ◌++◌, Option, none, some, arith, ltb,
  if◌then◌else◌, All, ltb→lt, le→leb, gt→leb, Bool-cases,
}
use iisintegration.HashTable.{
  Virtuals, Node, Bucket, Located, pass, link, unlink, first_value, insert_sorted, find_node,
}

module _ {ℓ} {R K : Type ℓ} (v : Virtuals R K) where
  abbrev pub key_of : Node R → K
  key_of n = v.extract_key n.value

  -- The record stored under a key, by a search of all the nodes.
  unfoldable pub lookup : K → Bucket R → Option R
  lookup q [] = none
  lookup q (n ∷ ns) = if v.equal_keys q (key_of n) then some n.value else lookup q ns

  -- The bucket without the first node of a key.
  unfoldable pub erase : K → Bucket R → Bucket R
  erase q [] = []
  erase q (n ∷ ns) = if v.equal_keys q (key_of n) then ns else n ∷ erase q ns

  -- The hashes rise, each is the hash of the node's key, and no key occurs twice.
  abbrev pub IsOrdered : Bucket R → Type ℓ
  IsOrdered [] = Unit
  IsOrdered (n ∷ ns) =
      (n.hash ≡ v.calc_key_hash (key_of n))
      × All (λ m. n.hash ≤ m.hash) ns
      × (lookup (key_of n) ns ≡ none)
      × IsOrdered ns

  pub equal_left : (a b c : K) → v.equal_keys a b ≡ true → v.equal_keys a c ≡ v.equal_keys b c
  equal_left a b c e = ground (arith, v.equal_symm a b, v.equal_trans a b c, v.equal_trans b a c)

  pub lookup-equal : (a b : K) (ns : Bucket R) → v.equal_keys a b ≡ true → lookup a ns ≡ lookup b ns
  unfolding lookup
  lookup-equal a b [] e = refl
  lookup-equal a b (n ∷ ns) e = ground (arith, equal_left a b (key_of n) e, lookup-equal a b ns e)

  -- Behind a node with a greater hash the key cannot occur.
  lookup_above :
      (q : K) (h : ℕ) (ns : Bucket R)
      → v.calc_key_hash q < h
      → All (λ m. h ≤ m.hash) ns
      → IsOrdered ns
      → lookup q ns ≡ none
  unfolding lookup
  lookup_above q h [] k a o = refl
  lookup_above q h (n ∷ ns) k a o =
      ground (arith, lookup_above q h ns k a.1 o.3, v.hash-equal q (key_of n))

  -- `FindNodeInternal` finds the key exactly where the bucket holds it, at its record, and unlinking
  -- removes that node; where it does not, the new node belongs in front of the node at which it stops.
  pub record Agrees (q : K) (b : Bucket R) (l : Located R) : Type ℓ where
    pub split : l.before ++ l.after ≡ b
    pub hit : l.found ≡ true → first_value l.after ≡ lookup q b
    pub present : l.found ≡ true → (r : R) × (lookup q b ≡ some r)
    pub absent : l.found ≡ false → lookup q b ≡ none
    pub removed : l.found ≡ true → unlink l ≡ erase q b
    pub place :
        l.found ≡ false
        → (r : R)
        → link l (record { value = r; hash = v.calc_key_hash q })
          ≡ insert_sorted (record { value = r; hash = v.calc_key_hash q }) b

  module _ (q : K) (n : Node R) (ns : Bucket R) (o : IsOrdered (n ∷ ns)) where
    find_here :
        v.equal_keys q (key_of n) ≡ true
        → find_node v q (v.calc_key_hash q) (n ∷ ns)
          ≡ record { found = true; before = []; after = n ∷ ns }
    unfolding find_node
    find_here e = ground (arith, v.hash-equal q (key_of n))

    find_above :
        v.calc_key_hash q < n.hash
        → find_node v q (v.calc_key_hash q) (n ∷ ns)
          ≡ record { found = false; before = []; after = n ∷ ns }
    unfolding find_node
    find_above h = ground arith

    find_pass :
        v.equal_keys q (key_of n) ≡ false
        → n.hash ≤ v.calc_key_hash q
        → find_node v q (v.calc_key_hash q) (n ∷ ns) ≡ pass n (find_node v q (v.calc_key_hash q) ns)
    unfolding find_node
    find_pass e h = ground arith

    Agrees-pass :
        v.equal_keys q (key_of n) ≡ false
        → n.hash ≤ v.calc_key_hash q
        → (l : Located R) → Agrees q ns l
        → Agrees q (n ∷ ns) (pass n l)
    unfolding lookup insert_sorted erase
    Agrees-pass e h l a = record {
      split = ap (◌∷◌ n) a.split;
      hit = λ f. rw e (a.hit f);
      present = λ f. rw e (a.present f);
      absent = λ f. rw e (a.absent f);
      removed = λ f. rw e (ap (◌∷◌ n) (a.removed f));
      place = λ f r. rw (le→leb n.hash (v.calc_key_hash q) h) (ap (◌∷◌ n) (a.place f r));
    }

    Agrees-here :
        v.equal_keys q (key_of n) ≡ true
        → Agrees q (n ∷ ns) (record { found = true; before = []; after = n ∷ ns })
    unfolding lookup erase
    Agrees-here e = record {
      split = refl;
      hit = λ f. rw e;
      present = λ f. (n.value, rw e);
      absent = λ f. cc;
      removed = λ f. rw e;
      place = λ f. cc;
    }

    Agrees-above :
        v.calc_key_hash q < n.hash
        → Agrees q (n ∷ ns) (record { found = false; before = []; after = n ∷ ns })
    unfolding lookup insert_sorted
    Agrees-above h = record {
      split = refl;
      hit = λ f. cc;
      present = λ f. cc;
      removed = λ f. cc;
      absent = λ f. lookup_above q n.hash (n ∷ ns) h (omega arith, o.1) o;
      place = λ f r. rw (gt→leb n.hash (v.calc_key_hash q) h);
    }

  pub find_node-Agrees :
      (q : K) (b : Bucket R) → IsOrdered b → Agrees q b (find_node v q (v.calc_key_hash q) b)
  unfolding find_node lookup insert_sorted
  find_node-Agrees q [] o = record {
    split = refl;
    hit = λ f. cc;
    present = λ f. cc;
    absent = λ f. refl;
    removed = λ f. cc;
    place = λ f r. refl;
  }
  find_node-Agrees q (n ∷ ns) o = elim (Bool-cases (v.equal_keys q (key_of n))) [
    | inl same ↦ rw (find_here q n ns o same) (Agrees-here q n ns o same)
    | inr other ↦ elim (Bool-cases (ltb (v.calc_key_hash q) n.hash)) [
      | inl above ↦
          let h = ltb→lt (v.calc_key_hash q) n.hash above in
          rw (find_above q n ns o h) (Agrees-above q n ns o h)
      | inr below ↦
          let h : n.hash ≤ v.calc_key_hash q = ground arith in
          rw (find_pass q n ns o other h)
            (Agrees-pass q n ns o other h _ (find_node-Agrees q ns o.3))
    ]
  ]
