-- ===== src/FxVer/RoundTrip.antt =====
-- The text of a version is parsed as that version: fx_ver_t::parse and fx_ver_t::as_str of
-- AspNetCoreModuleV2/CommonLib/fx_ver.cxx.
use iisintegration.Prelude.{
  ℕ, zero, suc, ◌+◌, ◌-◌, ◌*◌, ◌/◌, ◌%◌, ◌^◌, ◌<◌, ◌≡◌, refl, ap, ◌∙◌, ◌⊎◌, inl, inr, arith, Bool,
  true, false, not, ◌&&◌, [], ◌∷◌, ◌++◌, none, some, ltb, ◌==◌, if◌then◌else◌, if-both, Bool-cases,
  All, lt→ltb, ==_refl,
}
use iisintegration.FxVer.{FxVer, Text, is_empty}
use iisintegration.FxVer.Parse.{
  Result, refused, read, is_digit, all_digits, value, try_stou, split_at, span_digits, with_suffix,
  parse_patch, parse_minor, parse, decimal, print_int, suffix, as_str,
}

-- `n` has at most `f` digits.
abbrev HasDigits : ℕ → ℕ → Type 0
HasDigits zero n = ⊥
HasDigits (suc f) n = (n < 10) ⊎ HasDigits f (n / 10)

HasDigits-int : (n : ℕ) → n < 2 ^ 31 → HasDigits 10 n
HasDigits-int n h = inr (inr (inr (inr (inr (inr (inr (inr (inr (inl (omega arith))))))))))

pub both_true : (a b : Bool) → (a && b) ≡ true → (a ≡ true) × (b ≡ true)
both_true true b h = (refl, h)
both_true false b h = absurd (ground arith)

value-append : (n : ℕ) (t : Text) (c : ℕ) → value n (t ++ (c ∷ [])) ≡ value n t * 10 + (c - 48)
value-append n [] c = refl
value-append n (d ∷ t) c = value-append (n * 10 + (d - 48)) t c

all_digits-append :
    (t : Text) (c : ℕ) → all_digits t ≡ true → is_digit c ≡ true → all_digits (t ++ (c ∷ [])) ≡ true
all_digits-append [] c h k = rw k refl
all_digits-append (d ∷ t) c h k =
    let (a, b) = both_true (is_digit d) (all_digits t) h in rw (a, all_digits-append t c b k) refl

is_empty-append : (t : Text) (c : ℕ) → is_empty (t ++ (c ∷ [])) ≡ false
is_empty-append [] c = refl
is_empty-append (d ∷ t) c = refl

-- A text that is read as `n`.
abbrev pub IsNumber : ℕ → Text → Type 0
IsNumber n t = (is_empty t ≡ false) × (all_digits t ≡ true) × (value 0 t ≡ n)

extend : (n : ℕ) (t : Text) → IsNumber (n / 10) t → IsNumber n (t ++ ((48 + n % 10) ∷ []))
extend n t (e, d, v) = (
  is_empty-append t (48 + n % 10),
  all_digits-append t (48 + n % 10) d (ground arith),
  value-append 0 t (48 + n % 10) ∙ omega arith,
)

decimal-IsNumber : (f n : ℕ) → HasDigits f n → IsNumber n (decimal f n)
decimal-IsNumber zero n h = elim h [ ]
decimal-IsNumber (suc f) n h =
    if-both (IsNumber n) (ltb n 10) _ _ (λ s. (refl, ground arith, omega arith))
      (λ l.
        extend n (decimal f (n / 10))
          (decimal-IsNumber f (n / 10) (elim h [ inl a ↦ absurd (ground arith) | inr b ↦ b ])))

pub print_int-IsNumber : (n : ℕ) → n < 2 ^ 31 → IsNumber n (print_int n)
print_int-IsNumber n h = rw (lt→ltb n (2 ^ 31) h) (decimal-IsNumber 10 n (HasDigits-int n h))

try_stou-IsNumber : (n : ℕ) (t : Text) → n < 2 ^ 32 → IsNumber n t → try_stou t ≡ read n
unfolding try_stou
try_stou-IsNumber n t h (e, d, v) = rw (e, d, v, lt→ltb n (2 ^ 32) h) refl

pub digit_ne : (x c : ℕ) → is_digit x ≡ true → is_digit c ≡ false → (x == c) ≡ false
digit_ne x c a h = elim (Bool-cases (x == c)) [
  | inl same ↦ absurd (ground arith)
  | inr other ↦ other
]

-- A character that is no digit comes first after digits.
split_at-digits :
    (c : ℕ) (t rest : Text)
    → is_digit c ≡ false
    → all_digits t ≡ true
    → split_at c (t ++ (c ∷ rest)) ≡ some (t, rest)
split_at-digits c [] rest h d = rw (==_refl c) refl
split_at-digits c (x ∷ t) rest h d =
    let (a, b) = both_true (is_digit x) (all_digits t) d in
    rw (digit_ne x c a h, split_at-digits c t rest h b) refl

-- Nothing, or a character that is no digit.
abbrev pub Stops : Text → Type 0
Stops [] = Unit
Stops (c ∷ t) = is_digit c ≡ false

span_digits-append :
    (t rest : Text) → all_digits t ≡ true → Stops rest → span_digits (t ++ rest) ≡ (t, rest)
span_digits-append [] [] d s = refl
span_digits-append [] (c ∷ rest) d s = rw s refl
span_digits-append (x ∷ t) rest d s =
    let (a, b) = both_true (is_digit x) (all_digits t) d in
    rw (a, span_digits-append t rest b s) refl

Stops-suffix : (pre build : Text) → Stops pre → Stops (suffix pre build)
Stops-suffix [] [] h = tt
Stops-suffix [] (b ∷ build) h = refl
Stops-suffix (c ∷ pre) build h = h

-- No '+'.
abbrev pub HasNoPlus : Text → Type 0
HasNoPlus = All (λ c. (c == 43) ≡ false)

-- What `parse` leaves as the part before '+' after the digits of the patch.
abbrev pub IsPre : Text → Type 0
IsPre pre = HasNoPlus pre × Stops pre

split_at-suffix :
    (pre build : Text)
    → HasNoPlus pre
    → split_at 43 (suffix pre build) ≡ (if is_empty build then none else some (pre, build))
split_at-suffix [] [] h = refl
split_at-suffix [] (b ∷ build) h = refl
split_at-suffix (c ∷ pre) [] (h, k) = rw (h, split_at-suffix pre [] k) refl
split_at-suffix (c ∷ pre) (b ∷ build) (h, k) = rw (h, split_at-suffix pre (b ∷ build) k) refl

append_nil : (t : Text) → t ++ [] ≡ t
append_nil [] = refl
append_nil (c ∷ t) = ap (λ l. c ∷ l) (append_nil t)

with_suffix-suffix :
    (major minor patch : ℕ) (pre build : Text)
    → HasNoPlus pre
    → with_suffix major minor patch (suffix pre build)
      ≡ record { major = major; minor = minor; patch = patch; pre = pre; build = build }
with_suffix-suffix major minor patch pre [] h =
    rw (with_suffix, split_at-suffix pre [] h)
      (ap (λ t. record { major = major; minor = minor; patch = patch; pre = t; build = [] })
        (append_nil pre))
with_suffix-suffix major minor patch pre (b ∷ build) h =
    rw (with_suffix, split_at-suffix pre (b ∷ build) h) refl

is_empty-suffix :
    (pre build : Text) → is_empty (suffix pre build) ≡ (is_empty pre && is_empty build)
is_empty-suffix [] [] = refl
is_empty-suffix [] (b ∷ build) = refl
is_empty-suffix (c ∷ pre) build = refl

abbrev Expected : Bool → FxVer → Result FxVer
Expected production v =
    if production && not (is_empty v.pre && is_empty v.build) then refused else read v

never : (b : Bool) (v : FxVer) → read v ≡ (if b && false then refused else read v)
never true v = refl
never false v = refl

kept :
    (b : Bool) {v w : FxVer}
    → v ≡ w
    → (if b then refused else read v) ≡ (if b && true then refused else read w)
kept true e = refl
kept false e = ap read e

parse_patch_end :
    (major minor patch : ℕ) (t : Text) (production : Bool)
    → patch < 2 ^ 31
    → is_empty t ≡ false
    → Stops t
    → parse_patch major minor (print_int patch ++ t) production
      ≡ (if production then refused else read (with_suffix major minor patch t))
unfolding parse_patch
parse_patch_end major minor patch t production h e s =
    let n = print_int-IsNumber patch h in
    rw
      (
        span_digits-append (print_int patch) t n.1 s,
        e,
        try_stou-IsNumber patch (print_int patch) (omega arith) n,
      )
      refl

parse_patch_lem :
    (major minor patch : ℕ) (pre build : Text) (production : Bool)
    → patch < 2 ^ 31
    → IsPre pre
    → parse_patch major minor (print_int patch ++ suffix pre build) production
      ≡ Expected production
          (record { major = major; minor = minor; patch = patch; pre = pre; build = build })
unfolding parse_patch
parse_patch_lem major minor patch [] [] production h p =
    let n = print_int-IsNumber patch h in
    rw
      (
        span_digits-append (print_int patch) [] n.1 tt,
        try_stou-IsNumber patch (print_int patch) (omega arith) n,
      )
      (never production _)
parse_patch_lem major minor patch [] (b ∷ build) production h p =
    parse_patch_end major minor patch (suffix [] (b ∷ build)) production h refl refl
    ∙ kept production (with_suffix-suffix major minor patch [] (b ∷ build) p.0)
parse_patch_lem major minor patch (c ∷ pre) build production h p =
    parse_patch_end major minor patch (suffix (c ∷ pre) build) production h refl p.1
    ∙ kept production (with_suffix-suffix major minor patch (c ∷ pre) build p.0)

parse_minor_lem :
    (major minor : ℕ) (t : Text) (production : Bool)
    → minor < 2 ^ 31
    → parse_minor major (print_int minor ++ (46 ∷ t)) production
      ≡ parse_patch major minor t production
parse_minor_lem major minor t production h =
    let n = print_int-IsNumber minor h in
    rw
      (
        parse_minor,
        split_at-digits 46 (print_int minor) t refl n.1,
        try_stou-IsNumber minor (print_int minor) (omega arith) n,
      )
      refl

-- The text of a version whose three numbers are not negative is parsed as that version, whatever its
-- build, when the part before the build has no '+' and does not begin with a digit; when only
-- production versions are asked for, one with either part is refused.
pub parse-as_str :
    (v : FxVer) (production : Bool)
    → v.major < 2 ^ 31
    → v.minor < 2 ^ 31
    → v.patch < 2 ^ 31
    → IsPre v.pre
    → parse (as_str v) production
      ≡ (if production && not (is_empty v.pre && is_empty v.build) then refused else read v)
unfolding parse as_str
parse-as_str v production h i j p =
    let n = print_int-IsNumber v.major h in
    rw
      (
        as_str,
        parse,
        split_at-digits 46 (print_int v.major)
            (print_int v.minor ++ (46 ∷ (print_int v.patch ++ suffix v.pre v.build))) refl n.1,
        try_stou-IsNumber v.major (print_int v.major) (omega arith) n,
      )
      (parse_minor_lem v.major v.minor (print_int v.patch ++ suffix v.pre v.build) production i
        ∙ parse_patch_lem v.major v.minor v.patch v.pre v.build production j p)
