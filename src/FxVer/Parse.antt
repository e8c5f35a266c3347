-- ===== src/FxVer/Parse.antt =====
-- fx_ver_t::parse and fx_ver_t::as_str of AspNetCoreModuleV2/CommonLib/fx_ver.cxx. `unsigned long` has
-- 32 bits, as on Windows.
use iisintegration.Prelude.{
  ℕ, zero, suc, ◌+◌, ◌-◌, ◌*◌, ◌/◌, ◌%◌, ◌^◌, Bool, true, false, not, ◌&&◌, List, [], ◌∷◌, ◌++◌,
  Option, none, some, ltb, leb, ◌==◌, if◌then◌else◌,
}
use iisintegration.FxVer.{FxVer, Text, is_empty, more}

-- `false`, an exception of `std::stoul`, or `true` with what has been read.
pub data Result (A : Type 0) : Type 0 where
  refused thrown : Result A
  read : A → Result A

abbrev pub and_then : {A B : Type 0} → Result A → (A → Result B) → Result B
and_then refused k = refused
and_then thrown k = thrown
and_then (read a) k = k a

abbrev pub is_digit : ℕ → Bool
is_digit c = leb 48 c && ltb c 58

abbrev pub all_digits : Text → Bool
all_digits [] = true
all_digits (c ∷ t) = is_digit c && all_digits t

abbrev pub value : ℕ → Text → ℕ
value n [] = n
value n (c ∷ t) = value (n * 10 + (c - 48)) t

unfoldable pub try_stou : Text → Result ℕ
try_stou t =
    if is_empty t
    then refused
    else if not (all_digits t)
    then refused
    else if ltb (value 0 t) (2 ^ 32)
    then read (value 0 t)
    else thrown

abbrev pub cons_left : ℕ → Option (Text × Text) → Option (Text × Text)
cons_left c none = none
cons_left c (some (a, b)) = some (c ∷ a, b)

-- `find` of a character, and the texts before and after it.
abbrev pub split_at : ℕ → Text → Option (Text × Text)
split_at c [] = none
split_at c (d ∷ t) = let rest = split_at c t in if d == c then some ([], t) else cons_left d rest

-- The text before the first character that is no digit, and from it on.
abbrev pub span_digits : Text → Text × Text
span_digits [] = ([], [])
span_digits (c ∷ t) =
    let rest = span_digits t in if is_digit c then (c ∷ rest.0, rest.1) else ([], c ∷ t)

abbrev pub with_suffix : ℕ → ℕ → ℕ → Text → FxVer
with_suffix major minor patch t = elim (split_at 43 t) [
  | none ↦ record { major = major; minor = minor; patch = patch; pre = t; build = [] }
  | some (p, b) ↦ record { major = major; minor = minor; patch = patch; pre = p; build = b }
]

unfoldable pub parse_patch : ℕ → ℕ → Text → Bool → Result FxVer
parse_patch major minor t production =
    let (digits, rest) = span_digits t in
    if is_empty rest
    then (and_then (try_stou digits) (λ patch.
        read (record { major = major; minor = minor; patch = patch; pre = []; build = [] })))
    else if production
    then refused
    else and_then (try_stou digits) (λ patch. read (with_suffix major minor patch rest))

abbrev pub parse_minor : ℕ → Text → Bool → Result FxVer
parse_minor major t production = elim (split_at 46 t) [
  | none ↦ refused
  | some (digits, rest) ↦
      and_then (try_stou digits) (λ minor. parse_patch major minor rest production)
]

-- `parse`, but for the assertion that `as_str` gives the text back.
unfoldable pub parse : Text → Bool → Result FxVer
parse t production = elim (split_at 46 t) [
  | none ↦ refused
  | some (digits, rest) ↦ and_then (try_stou digits) (λ major. parse_minor major rest production)
]

-- A number in decimal, of at most as many digits as the first argument says.
abbrev pub decimal : ℕ → ℕ → Text
decimal zero n = []
decimal (suc f) n =
    let rest = decimal f (n / 10) in
    if ltb n 10 then (48 + n) ∷ [] else rest ++ ((48 + n % 10) ∷ [])

-- An int by its 32 bits.
abbrev pub print_int : ℕ → Text
print_int n = if ltb n (2 ^ 31) then decimal 10 n else 45 ∷ decimal 10 (2 ^ 32 - n)

abbrev pub suffix : Text → Text → Text
suffix pre build = pre ++ (if is_empty build then [] else 43 ∷ build)

unfoldable pub as_str : FxVer → Text
as_str v =
    print_int v.major
    ++ (46 ∷ (print_int v.minor ++ (46 ∷ (print_int v.patch ++ suffix v.pre v.build))))

-- `max(max_ver, fx_ver)`, the macro
abbrev pub max_version : FxVer → FxVer → FxVer
max_version a b = if more a b then a else b

-- The loop of UTILITY::FindHighestDotNetVersion, from the highest version so far.
unfoldable pub highest_of : List Text → FxVer → Result FxVer
highest_of [] m = read m
highest_of (d ∷ ds) m = elim (parse d false) [
  | refused ↦ highest_of ds m
  | thrown ↦ thrown
  | read v ↦ highest_of ds (max_version m v)
]

-- `fx_ver_t(-1, -1, -1)`
abbrev pub no_version : FxVer
no_version = record {
  major = 2 ^ 32 - 1;
  minor = 2 ^ 32 - 1;
  patch = 2 ^ 32 - 1;
  pre = [];
  build = [];
}

-- `FindHighestDotNetVersion`, when there is memory for the copy of its result.
unfoldable pub find_highest_dotnet_version : List Text → Result Text
find_highest_dotnet_version ds = and_then (highest_of ds no_version) (λ m. read (as_str m))
