-- ===== src/ServerProcess/Merged.antt =====
-- The environment that OutputEnvironmentVariables of
-- AspNetCoreModuleV2/RequestHandler/outofprocess/serverprocess.cxx writes, as a map from names to values.
use iisintegration.Prelude.{
  ℕ, ◌≡◌, refl, sym, ap, ◌∙◌, inl, inr, arith, true, false, List, [], ◌∷◌, ◌++◌, Option, none, some,
  if-both, All, Bool-cases,
}
use iisintegration.ServerProcess.{Text}
use iisintegration.ServerProcess.Codes.{Code, failed_code}
use iisintegration.ServerProcess.Environment.{
  Entry, Table, OutputAnswers, same_name, find_entry, delete_entry, split_name, append_text,
  copy_rest, merge_found, merge_one, merge, output_environment_variables,
}
use iisintegration.ServerProcess.Names.{
  All-delete_entry, IsName, find_entry-delete_entry, find_entry-same, find_entry-same_right,
  lookup_text, lookup_text-append, or_else, or_else_assoc, or_else-none, pick, same_name-same,
  split_name-append, value_of,
}

module _ (a : OutputAnswers) (lower : ℕ → ℕ) (n : Text)
    (memory : (t : Text) → a.memory t ≡ true) where
  lookup_text-append_text :
      (out : List Text) (v : Text)
      → lookup_text lower n (append_text a.memory out v)
        ≡ or_else (lookup_text lower n out) (pick lower n (split_name v) none)
  lookup_text-append_text out v = rw (memory v) (lookup_text-append lower n out (v ∷ []))

  lookup_text-copy_rest :
      (out : List Text) (t : Table)
      → All (λ (e : Entry). IsName e.name) t
      → lookup_text lower n (copy_rest a.memory out t)
        ≡ or_else (lookup_text lower n out) (value_of (find_entry lower n t))
  lookup_text-copy_rest out [] h = sym (or_else-none (lookup_text lower n out))
  lookup_text-copy_rest out (e ∷ t) (name, h) =
      lookup_text-copy_rest (append_text a.memory out (e.name ++ e.value)) t h
      ∙ ap (λ (o : Option Text). or_else o (value_of (find_entry lower n t)))
          (lookup_text-append_text out (e.name ++ e.value))
      ∙ or_else_assoc (lookup_text lower n out) _ (value_of (find_entry lower n t))
      ∙ ap (or_else (lookup_text lower n out)) (
          rw (split_name-append e.name e.name [] e.value name) (
            if-both
              (λ (o : Option Entry).
                or_else (pick lower n (some (e.name, e.value)) none)
                  (value_of (find_entry lower n t))
                ≡ value_of o)
              (same_name lower e.name n) _ _ (λ y. rw y refl) (λ z. rw z refl)))

  kept :
      (v m r : Text) (t : Table) (rest : Option Text)
      → split_name v ≡ some (m, r)
      → find_entry lower m t ≡ none
      → or_else (pick lower n (split_name v) none) (or_else (value_of (find_entry lower n t)) rest)
        ≡ or_else (value_of (find_entry lower n t)) (pick lower n (split_name v) rest)
  kept v m r t rest s found = elim (Bool-cases (same_name lower m n)) [
    | inl y ↦ rw (s, y, find_entry-same_right lower m n t y, found) refl
    | inr z ↦ rw (s, z) refl
  ]

  replaced :
      (v m r : Text) (e : Entry) (t : Table) (rest : Option Text)
      → split_name v ≡ some (m, r)
      → find_entry lower m t ≡ some e
      → or_else
          (pick lower n (split_name (m ++ e.value)) none)
          (or_else (value_of (find_entry lower n (delete_entry lower e.name t))) rest)
        ≡ or_else (value_of (find_entry lower n t)) (pick lower n (split_name v) rest)
  replaced v m r e t rest s found =
      let begins = split_name-append v m r e.value s in
      let own = same_name-same lower e.name m n (find_entry-same lower m t e found) in
      elim (Bool-cases (same_name lower m n)) [
        | inl y ↦ rw (begins, s, y, find_entry-same_right lower m n t y, found) refl
        | inr z ↦ rw (begins, s, z, find_entry-delete_entry lower e.name n t (own ∙ z)) refl
      ]

  -- One variable of the worker process, before the `rest` of them.
  merge_found-lookup_text :
      (v m r : Text) (o : Option Entry) (out : List Text) (t : Table) (rest : Option Text)
      → split_name v ≡ some (m, r)
      → find_entry lower m t ≡ o
      → failed_code (merge_found a lower v m o out t).0 ≡ false
      → let (out1, t1) = (merge_found a lower v m o out t).1 in
        or_else (lookup_text lower n out1) (or_else (value_of (find_entry lower n t1)) rest)
        ≡ or_else
            (lookup_text lower n out)
            (or_else (value_of (find_entry lower n t)) (pick lower n (split_name v) rest))
  merge_found-lookup_text v m r none out t rest s found ok =
      ap (λ (o : Option Text). or_else o (or_else (value_of (find_entry lower n t)) rest))
        (lookup_text-append_text out v)
      ∙ or_else_assoc (lookup_text lower n out) _ _
      ∙ ap (or_else (lookup_text lower n out)) (kept v m r t rest s found)
  merge_found-lookup_text v m r (some e) out t rest s found ok =
      if-both
        (λ (x : Code × (List Text × Table)).
          failed_code x.0 ≡ false
          → or_else (lookup_text lower n x.1.0) (or_else (value_of (find_entry lower n x.1.1)) rest)
            ≡ or_else (lookup_text lower n out)
                (or_else (value_of (find_entry lower n t)) (pick lower n (split_name v) rest)))
        (failed_code (a.append_value (m ++ e.value))) _ _ (λ no ok'. absurd (ground arith))
        (λ yes ok'.
          ap
            (λ (o : Option Text).
              or_else o
                (or_else (value_of (find_entry lower n (delete_entry lower e.name t))) rest))
            (lookup_text-append_text out (m ++ e.value))
          ∙ or_else_assoc (lookup_text lower n out) _ _
          ∙ ap (or_else (lookup_text lower n out)) (replaced v m r e t rest s found))
        ok

  merge_one-lookup_text :
      (v : Text) (p : Option (Text × Text)) (out : List Text) (t : Table) (rest : Option Text)
      → split_name v ≡ p
      → failed_code (merge_one a lower v p out t).0 ≡ false
      → let (out1, t1) = (merge_one a lower v p out t).1 in
        or_else (lookup_text lower n out1) (or_else (value_of (find_entry lower n t1)) rest)
        ≡ or_else
            (lookup_text lower n out)
            (or_else (value_of (find_entry lower n t)) (pick lower n (split_name v) rest))
  merge_one-lookup_text v none out t rest s ok = absurd (ground arith)
  merge_one-lookup_text v (some (m, r)) out t rest s ok =
      if-both
        (λ (x : Code × (List Text × Table)).
          failed_code x.0 ≡ false
          → or_else (lookup_text lower n x.1.0) (or_else (value_of (find_entry lower n x.1.1)) rest)
            ≡ or_else (lookup_text lower n out)
                (or_else (value_of (find_entry lower n t)) (pick lower n (split_name v) rest)))
        (failed_code (a.copy_name m)) _ _ (λ no ok'. absurd (ground arith))
        (λ yes ok'. merge_found-lookup_text v m r (find_entry lower m t) out t rest s refl ok') ok

  merge_one-names :
      (v : Text) (p : Option (Text × Text)) (out : List Text) (t : Table)
      → All (λ (e : Entry). IsName e.name) t
      → All (λ (e : Entry). IsName e.name) (merge_one a lower v p out t).1.1
  merge_one-names v none out t h = h
  merge_one-names v (some (m, r)) out t h =
      let P = λ (x : Code × (List Text × Table)). All (λ (e : Entry). IsName e.name) x.1.1 in
      if-both P (failed_code (a.copy_name m)) _ _ (λ _. h)
        (λ _. elim (find_entry lower m t) as (λ o. P (merge_found a lower v m o out t)) [
          | none ↦ h
          | some e ↦
              if-both P (failed_code (a.append_value (m ++ e.value))) _ _ (λ _. h)
                (λ _. All-delete_entry lower e.name t h)
        ])

  merge-lookup_text :
      (vs : List Text) (out : List Text) (t : Table)
      → All (λ (e : Entry). IsName e.name) t
      → failed_code (merge a lower vs out t).0 ≡ false
      → lookup_text lower n (merge a lower vs out t).1.0
        ≡ or_else
            (lookup_text lower n out)
            (or_else (value_of (find_entry lower n t)) (lookup_text lower n vs))
  unfolding merge
  merge-lookup_text [] out t h ok =
      lookup_text-copy_rest out t h
      ∙ ap (or_else (lookup_text lower n out))
          (sym (or_else-none (value_of (find_entry lower n t))))
  merge-lookup_text (v ∷ vs) out t h ok =
      let r = merge_one a lower v (split_name v) out t in
      if-both
        (λ (x : Code × (List Text × Table)).
          failed_code x.0 ≡ false
          → lookup_text lower n x.1.0
            ≡ or_else (lookup_text lower n out) (
                or_else (value_of (find_entry lower n t))
                  (pick lower n (split_name v) (lookup_text lower n vs))))
        (failed_code r.0) _ _ (λ no ok'. absurd (ground arith))
        (λ yes ok'.
          merge-lookup_text vs r.1.0 r.1.1 (merge_one-names v (split_name v) out t h) ok'
          ∙ merge_one-lookup_text v (split_name v) out t (lookup_text lower n vs) refl yes)
        ok

-- The environment that OutputEnvironmentVariables writes without a failure, with memory for each text, is
-- under every name what the table has for it, and else what the worker process has. The table's names
-- end with their only '='; case does not count.
pub output_environment_variables-lookup_text :
    (a : OutputAnswers) (lower : ℕ → ℕ) (n : Text) (vs : List Text) (t : Table)
    → ((x : Text) → a.memory x ≡ true)
    → All (λ (e : Entry). IsName e.name) t
    → failed_code (output_environment_variables lower a (some vs) t).0 ≡ false
    → lookup_text lower n (output_environment_variables lower a (some vs) t).1.0
      ≡ or_else (value_of (find_entry lower n t)) (lookup_text lower n vs)
unfolding output_environment_variables
output_environment_variables-lookup_text a lower n vs t memory names ok =
    merge-lookup_text a lower n memory vs [] t names ok
