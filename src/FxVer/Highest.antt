-- ===== src/FxVer/Highest.antt =====
-- UTILITY::FindHighestDotNetVersion of AspNetCoreModuleV2/CommonLib/utility.cxx, on the order of
-- fx_ver_t in CommonLib/fx_ver.cxx.
use iisintegration.Prelude.{
  ℕ, ◌^◌, ◌<◌, ◌≡◌, refl, sym, ap, ◌∙◌, ◌⊎◌, inl, inr, arith, none, some, subst, Bool, false, not,
  List, [], ◌∷◌, All, if-both, if◌then◌else◌, ltb, ltb→lt,
}
use iisintegration.FxVer.{
  FxVer, Text, Sign, compare, negative, positive, none_of_both, more, is_positive, is_empty,
}
use iisintegration.FxVer.Order.{compare_lem, flip, IsVersion}
use iisintegration.FxVer.Parse.{
  Result, refused, thrown, read, and_then, parse, parse_minor, parse_patch, with_suffix, split_at,
  try_stou, value, all_digits, highest_of, max_version, span_digits, no_version, as_str,
  find_highest_dotnet_version,
}

abbrev IsWord : Result ℕ → Type 0
IsWord (read n) = n < 2 ^ 32
IsWord _ = Unit

try_stou-IsWord : (t : Text) → IsWord (try_stou t)
unfolding try_stou
try_stou-IsWord t =
    if-both IsWord (is_empty t) _ _ (λ _. tt)
      (λ _.
        if-both IsWord (not (all_digits t)) _ _ (λ _. tt)
          (λ _.
            if-both IsWord (ltb (value 0 t) (2 ^ 32)) _ _ (λ h. ltb→lt (value 0 t) (2 ^ 32) h)
              (λ _. tt)))

-- What is read fits in 32 bits.
abbrev Fits : Result FxVer → Type 0
Fits (read v) = IsVersion v
Fits _ = Unit

and_then-Fits :
    (r : Result ℕ) (k : ℕ → Result FxVer)
    → IsWord r
    → ((n : ℕ) → n < 2 ^ 32 → Fits (k n))
    → Fits (and_then r k)
and_then-Fits refused k h f = tt
and_then-Fits thrown k h f = tt
and_then-Fits (read n) k h f = f n h

with_suffix-IsVersion :
    (major minor patch : ℕ) (t : Text)
    → major < 2 ^ 32
    → minor < 2 ^ 32
    → patch < 2 ^ 32
    → IsVersion (with_suffix major minor patch t)
with_suffix-IsVersion major minor patch t h k l =
    elim (split_at 43 t)
      as (λ o. IsVersion (elim o as (λ _. FxVer) [
        | none ↦ record { major = major; minor = minor; patch = patch; pre = t; build = [] }
        | some (p, b) ↦ record { major = major; minor = minor; patch = patch; pre = p; build = b }
      ])) [ none ↦ (h, k, l) | some (p, b) ↦ (h, k, l) ]

parse_patch-Fits :
    (major minor : ℕ) (t : Text) (b : Bool)
    → major < 2 ^ 32
    → minor < 2 ^ 32
    → Fits (parse_patch major minor t b)
unfolding parse_patch
parse_patch-Fits major minor t b h k =
    let d = (span_digits t).0 in
    if-both Fits (is_empty (span_digits t).1) _ _
      (λ _. and_then-Fits (try_stou d) _ (try_stou-IsWord d) (λ n l. (h, k, l)))
      (λ _.
        if-both Fits b _ _ (λ _. tt)
          (λ _.
            and_then-Fits (try_stou d) _ (try_stou-IsWord d)
              (λ n l. with_suffix-IsVersion major minor n (span_digits t).1 h k l)))

parse_minor-Fits : (major : ℕ) (t : Text) (b : Bool) → major < 2 ^ 32 → Fits (parse_minor major t b)
parse_minor-Fits major t b h =
    elim (split_at 46 t)
      as (λ o. Fits (elim o as (λ _. Result FxVer) [
        | none ↦ refused
        | some (d, rest) ↦ and_then (try_stou d) (λ minor. parse_patch major minor rest b)
      ])) [
        | none ↦ tt
        | some (d, rest) ↦
            and_then-Fits (try_stou d) (λ minor. parse_patch major minor rest b) (try_stou-IsWord d)
              (λ n l. parse_patch-Fits major n rest b h l)
      ]

parse-Fits : (t : Text) (b : Bool) → Fits (parse t b)
unfolding parse
parse-Fits t b =
    elim (split_at 46 t)
      as (λ o. Fits (elim o as (λ _. Result FxVer) [
        | none ↦ refused
        | some (d, rest) ↦ and_then (try_stou d) (λ major. parse_minor major rest b)
      ])) [
        | none ↦ tt
        | some (d, rest) ↦
            and_then-Fits (try_stou d) (λ major. parse_minor major rest b) (try_stou-IsWord d)
              (λ n l. parse_minor-Fits n rest b l)
      ]

-- `v` is `w` or comes before it.
abbrev pub IsUpTo : FxVer → FxVer → Type 0
IsUpTo w v = (v ≡ w) ⊎ (compare v w ≡ negative)

IsUpTo-trans :
    (a b c : FxVer) → IsVersion a → IsVersion b → IsVersion c → IsUpTo b a → IsUpTo c b → IsUpTo c a
IsUpTo-trans a b c x y z (inl e) k = rw e k
IsUpTo-trans a b c x y z (inr h) (inl e) = inr (rw⁻¹ e h)
IsUpTo-trans a b c x y z (inr h) (inr k) = inr ((compare_lem a b c x y z).2 h k)

-- By the sign of the comparison.
max_by_sign :
    (s : Sign) (a b : FxVer)
    → IsVersion a
    → IsVersion b
    → compare a b ≡ s
    → IsUpTo (if is_positive s then a else b) a × IsUpTo (if is_positive s then a else b) b
max_by_sign positive a b x y e = (inl refl, inr ((compare_lem a b a x y x).1 ∙ ap flip e))
max_by_sign negative a b x y e = (inr e, inl refl)
max_by_sign none_of_both a b x y e = (inl ((compare_lem a b a x y x).0.0 e), inl refl)

max_version-IsUpTo :
    (a b : FxVer)
    → IsVersion a
    → IsVersion b
    → IsUpTo (max_version a b) a × IsUpTo (max_version a b) b
max_version-IsUpTo a b x y = max_by_sign (compare a b) a b x y refl

max_version-IsVersion : (a b : FxVer) → IsVersion a → IsVersion b → IsVersion (max_version a b)
max_version-IsVersion a b x y = if-both IsVersion (more a b) a b (λ _. x) (λ _. y)

-- A folder's version, when it has one, is `w` or comes before it.
abbrev pub IsAtMost : FxVer → Result FxVer → Type 0
IsAtMost w (read v) = IsUpTo w v
IsAtMost w _ = Unit

abbrev pub IsNamed : FxVer → List Text → Type 0
IsNamed w [] = ⊥
IsNamed w (d ∷ ds) = (parse d false ≡ read w) ⊎ IsNamed w ds

abbrev pub HasThrown : List Text → Type 0
HasThrown [] = ⊥
HasThrown (d ∷ ds) = (parse d false ≡ thrown) ⊎ HasThrown ds

-- What the loop finds from `m`.
abbrev pub Finds : List Text → FxVer → Result FxVer → Type 0
Finds ds m (read w) =
    IsVersion w × IsUpTo w m × All (λ d. IsAtMost w (parse d false)) ds × ((w ≡ m) ⊎ IsNamed w ds)
Finds ds m thrown = HasThrown ds
Finds ds m refused = ⊥

max_version-either : (a b : FxVer) → (max_version a b ≡ a) ⊎ (max_version a b ≡ b)
max_version-either a b =
    if-both (λ c. (c ≡ a) ⊎ (c ≡ b)) (more a b) a b (λ _. inl refl) (λ _. inr refl)

skip-Finds :
    (d : Text) (ds : List Text) (m : FxVer) (r : Result FxVer)
    → parse d false ≡ refused
    → Finds ds m r
    → Finds (d ∷ ds) m r
skip-Finds d ds m refused e f = f
skip-Finds d ds m thrown e f = inr f
skip-Finds d ds m (read w) e (x, a, b, c) =
    (x, a, (subst (IsAtMost w) (sym e) tt, b), elim c [ inl i ↦ inl i | inr i ↦ inr (inr i) ])

found_in :
    (d : Text) (ds : List Text) (m v w : FxVer)
    → parse d false ≡ read v
    → (w ≡ max_version m v) ⊎ IsNamed w ds
    → (w ≡ m) ⊎ IsNamed w (d ∷ ds)
found_in d ds m v w e (inr i) = inr (inr i)
found_in d ds m v w e (inl i) = elim (max_version-either m v) [
  | inl j ↦ inl (i ∙ j)
  | inr j ↦ inr (inl (e ∙ ap read (sym (i ∙ j))))
]

take-Finds :
    (d : Text) (ds : List Text) (m v : FxVer) (r : Result FxVer)
    → IsVersion m
    → IsVersion v
    → parse d false ≡ read v
    → Finds ds (max_version m v) r
    → Finds (d ∷ ds) m r
take-Finds d ds m v refused x y e f = f
take-Finds d ds m v thrown x y e f = inr f
take-Finds d ds m v (read w) x y e (z, a, b, c) =
    let n = max_version m v in
    let (to_m, to_v) = max_version-IsUpTo m v x y in
    let k = max_version-IsVersion m v x y in
    (
      z,
      IsUpTo-trans m n w x k z to_m a,
      (subst (IsAtMost w) (sym e) (IsUpTo-trans v n w y k z to_v a), b),
      found_in d ds m v w e c,
    )

-- By what the folder's name is parsed as.
folder-Finds :
    (d : Text) (ds : List Text) (m : FxVer) (r : Result FxVer)
    → IsVersion m
    → Fits r
    → parse d false ≡ r
    → ((n : FxVer) → IsVersion n → Finds ds n (highest_of ds n))
    → Finds (d ∷ ds) m (elim r as (λ _. Result FxVer) [
      | refused ↦ highest_of ds m
      | thrown ↦ thrown
      | read v ↦ highest_of ds (max_version m v)
    ])
folder-Finds d ds m refused x y e f = skip-Finds d ds m (highest_of ds m) e (f m x)
folder-Finds d ds m thrown x y e f = inl e
folder-Finds d ds m (read v) x y e f =
    take-Finds d ds m v (highest_of ds (max_version m v)) x y e
      (f (max_version m v) (max_version-IsVersion m v x y))

highest_of-Finds : (ds : List Text) (m : FxVer) → IsVersion m → Finds ds m (highest_of ds m)
unfolding highest_of
highest_of-Finds [] m x = (x, inl refl, tt, inl refl)
highest_of-Finds (d ∷ ds) m x =
    folder-Finds d ds m (parse d false) x (parse-Fits d false) refl (highest_of-Finds ds)

-- The text is the print of a version that no folder's comes after, and that is the version -1.-1.-1 or
-- a folder's.
abbrev pub IsHighest : List Text → Result Text → Type 0
IsHighest ds (read t) = (w : FxVer) × (t ≡ as_str w) × Finds ds no_version (read w)
IsHighest ds thrown = HasThrown ds
IsHighest ds refused = ⊥

printed-IsHighest :
    (ds : List Text) (r : Result FxVer)
    → Finds ds no_version r
    → IsHighest ds (and_then r (λ m. read (as_str m)))
printed-IsHighest ds refused f = f
printed-IsHighest ds thrown f = f
printed-IsHighest ds (read w) f = (w, refl, f)

-- For every list of folders FindHighestDotNetVersion either throws, and then the parsing of a
-- folder's name has thrown, or prints a version of 32-bit numbers that every folder's version
-- equals or precedes, as -1.-1.-1 does, and that is a folder's version or -1.-1.-1 itself.
pub find_highest_dotnet_version-IsHighest :
    (ds : List Text) → IsHighest ds (find_highest_dotnet_version ds)
unfolding find_highest_dotnet_version
find_highest_dotnet_version-IsHighest ds =
    printed-IsHighest ds (highest_of ds no_version)
      (highest_of-Finds ds no_version (omega arith, omega arith, omega arith))
