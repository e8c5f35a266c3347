-- ===== src/ServerProcess/Names.antt =====
-- Variables and their names, as OutputEnvironmentVariables of
-- AspNetCoreModuleV2/RequestHandler/outofprocess/serverprocess.cxx compares them.
use iisintegration.Prelude.{
  ℕ, ◌≡◌, refl, ap, subst, ◌∙◌, inl, inr, arith, true, false, List, [], ◌∷◌, ◌++◌, Option, none,
  some, ◌==◌, if◌then◌else◌, if-both, All, Bool-cases, Option-cases,
}
use iisintegration.FxVer.RoundTrip.{both_true}
use iisintegration.ServerProcess.{Text}
use iisintegration.ServerProcess.Environment.{
  Entry, Table, same_name, find_entry, delete_entry, cons_name, split_name,
}

abbrev pub value_of : Option Entry → Option Text
value_of none = none
value_of (some e) = some e.value

abbrev pub or_else : Option Text → Option Text → Option Text
or_else none o = o
or_else (some v) o = some v

abbrev pub pick : (ℕ → ℕ) → Text → Option (Text × Text) → Option Text → Option Text
pick lower n none rest = rest
pick lower n (some (m, v)) rest = if same_name lower m n then some v else rest

-- What a process finds under a name: the first variable of that name.
abbrev pub lookup_text : (ℕ → ℕ) → Text → List Text → Option Text
lookup_text lower n [] = none
lookup_text lower n (v ∷ vs) = pick lower n (split_name v) (lookup_text lower n vs)

-- A text that ends with its only '='.
abbrev pub IsName : Text → Type 0
IsName n = split_name n ≡ some (n, [])

pub or_else_assoc : (a b c : Option Text) → or_else (or_else a b) c ≡ or_else a (or_else b c)
or_else_assoc none b c = refl
or_else_assoc (some v) b c = refl

pub or_else-none : (a : Option Text) → or_else a none ≡ a
or_else-none none = refl
or_else-none (some v) = refl

module _ (lower : ℕ → ℕ) (n : Text) where
  pick_or :
      (o : Option (Text × Text)) (a b : Option Text)
      → pick lower n o (or_else a b) ≡ or_else (pick lower n o a) b
  pick_or none a b = refl
  pick_or (some (m, v)) a b = elim (Bool-cases (same_name lower m n)) [
    | inl y ↦ rw y refl
    | inr z ↦ rw z refl
  ]

  pub lookup_text-append :
      (xs ys : List Text)
      → lookup_text lower n (xs ++ ys) ≡ or_else (lookup_text lower n xs) (lookup_text lower n ys)
  lookup_text-append [] ys = refl
  lookup_text-append (v ∷ vs) ys =
      ap (pick lower n (split_name v)) (lookup_text-append vs ys)
      ∙ pick_or (split_name v) (lookup_text lower n vs) (lookup_text lower n ys)

pub same_name-same :
    (lower : ℕ → ℕ) (p q r : Text)
    → same_name lower p q ≡ true
    → same_name lower p r ≡ same_name lower q r
same_name-same lower [] [] r h = refl
same_name-same lower [] (d ∷ q) r h = absurd (ground arith)
same_name-same lower (c ∷ p) [] r h = absurd (ground arith)
same_name-same lower (c ∷ p) (d ∷ q) [] h = refl
same_name-same lower (c ∷ p) (d ∷ q) (e ∷ r) h =
    let (a, b) = both_true (lower c == lower d) (same_name lower p q) h in
    rw (same_name-same lower p q r b) (ground arith)

pub find_entry-same :
    (lower : ℕ → ℕ) (n : Text) (t : Table) (e : Entry)
    → find_entry lower n t ≡ some e
    → same_name lower e.name n ≡ true
find_entry-same lower n [] e h = absurd (ground arith)
find_entry-same lower n (d ∷ t) e h =
    if-both (λ (o : Option Entry). o ≡ some e → same_name lower e.name n ≡ true)
      (same_name lower d.name n) _ _ (λ y q. ground arith) (λ _ q. find_entry-same lower n t e q) h

same_name-same_right :
    (lower : ℕ → ℕ) (p q r : Text)
    → same_name lower p q ≡ true
    → same_name lower r p ≡ same_name lower r q
same_name-same_right lower [] [] r h = refl
same_name-same_right lower [] (d ∷ q) r h = absurd (ground arith)
same_name-same_right lower (c ∷ p) [] r h = absurd (ground arith)
same_name-same_right lower (c ∷ p) (d ∷ q) [] h = refl
same_name-same_right lower (c ∷ p) (d ∷ q) (e ∷ r) h =
    let (a, b) = both_true (lower c == lower d) (same_name lower p q) h in
    rw (same_name-same_right lower p q r b) (ground arith)

-- Names that are the same find the same entry.
pub find_entry-same_right :
    (lower : ℕ → ℕ) (m n : Text) (t : Table)
    → same_name lower m n ≡ true
    → find_entry lower n t ≡ find_entry lower m t
find_entry-same_right lower m n [] h = refl
find_entry-same_right lower m n (e ∷ t) h =
    rw (same_name-same_right lower m n e.name h, find_entry-same_right lower m n t h) refl

-- What a deletion leaves under another name.
pub find_entry-delete_entry :
    (lower : ℕ → ℕ) (m n : Text) (t : Table)
    → same_name lower m n ≡ false
    → find_entry lower n (delete_entry lower m t) ≡ find_entry lower n t
find_entry-delete_entry lower m n [] h = refl
find_entry-delete_entry lower m n (e ∷ t) h = elim (Bool-cases (same_name lower e.name m)) [
  | inl y ↦ rw (y, same_name-same lower e.name m n y, h) refl
  | inr z ↦ rw (z, find_entry-delete_entry lower m n t h) refl
]

pub All-delete_entry :
    (lower : ℕ → ℕ) (m : Text) (t : Table)
    → All (λ (e : Entry). IsName e.name) t
    → All (λ (e : Entry). IsName e.name) (delete_entry lower m t)
All-delete_entry lower m [] h = tt
All-delete_entry lower m (e ∷ t) (a, h) =
    if-both (All (λ (e : Entry). IsName e.name)) (same_name lower e.name m) _ _ (λ _. h)
      (λ _. (a, All-delete_entry lower m t h))

abbrev name_of : Option (Text × Text) → Text
name_of none = []
name_of (some (n, v)) = n

none_ne : {o : Text × Text} → ¬ (◌≡◌ {A = Option (Text × Text)} none (some o))
none_ne h = ground arith

-- A text begins with its name, whatever follows.
pub split_name-append :
    (v m r x : Text) → split_name v ≡ some (m, r) → split_name (m ++ x) ≡ some (m, x)
split_name-append [] m r x h = absurd (ground arith)
split_name-append (c ∷ v) m r x h =
    let Named = λ (m : Text). split_name (m ++ x) ≡ some (m, x) in
    if-both (λ (o : Option (Text × Text)). o ≡ some (m, r) → Named m) (c == 61) _ _
      (λ equals q. subst Named (ap name_of q) (rw equals refl))
      (λ other q. elim (Option-cases (split_name v)) [
        | inl e ↦ absurd (none_ne (subst (λ o. cons_name c o ≡ some (m, r)) e q))
        | inr ((n, w), e) ↦
            subst Named (ap name_of (subst (λ o. cons_name c o ≡ some (m, r)) e q))
              (rw (other, split_name-append v n w x e) refl)
      ])
      h
