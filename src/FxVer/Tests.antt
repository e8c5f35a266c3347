-- ===== src/FxVer/Tests.antt =====
-- Versions compared at concrete values.
use iisintegration.Prelude.{◌≡◌, ◌↔◌, refl, arith, true, false, [], ◌∷◌, codes}
use iisintegration.FxVer.{FxVer, negative, none_of_both, compare, compare_text, less}
use iisintegration.FxVer.Order.{flip, compare_lem}
use iisintegration.FxVer.Parse.{
  parse, as_str, read, thrown, find_highest_dotnet_version, highest_of, parse_patch, try_stou,
}
use iisintegration.FxVer.RoundTrip.{parse-as_str}
use iisintegration.FxVer.Highest.{IsHighest, find_highest_dotnet_version-IsHighest}

abbrev preview : FxVer
preview = record { major = 2; minor = 1; patch = 0; pre = codes "-preview1"; build = [] }

abbrev release : FxVer
release = record { major = 2; minor = 1; patch = 0; pre = []; build = [] }

abbrev service : FxVer
service = record { major = 2; minor = 1; patch = 10; pre = []; build = [] }

preview_before_release : less preview release ≡ true
unfolding compare compare_text
preview_before_release = refl

compare_lem_example :
    ((compare preview release ≡ none_of_both) ↔ (preview ≡ release))
    × (compare release preview ≡ flip (compare preview release))
    × (compare preview release ≡ negative
        → compare release service ≡ negative
        → compare preview service ≡ negative)
compare_lem_example = compare_lem preview release service (omega arith) (omega arith) (omega arith)

parse-as_str_example :
    parse (as_str (record release { pre = codes "-rc1"; build = codes "42" })) false
    ≡ read (record release { pre = codes "-rc1"; build = codes "42" })
parse-as_str_example =
    parse-as_str (record release { pre = codes "-rc1"; build = codes "42" }) false (omega arith)
      (omega arith) (omega arith) ((refl, (refl, (refl, (refl, tt)))), refl)

find_highest_dotnet_version-IsHighest_example :
    IsHighest
      (codes "2.1.0" ∷ codes "sdk" ∷ codes "2.1.10" ∷ [])
      (find_highest_dotnet_version (codes "2.1.0" ∷ codes "sdk" ∷ codes "2.1.10" ∷ []))
find_highest_dotnet_version-IsHighest_example =
    find_highest_dotnet_version-IsHighest (codes "2.1.0" ∷ codes "sdk" ∷ codes "2.1.10" ∷ [])

highest :
    find_highest_dotnet_version (codes "2.1.0" ∷ codes "sdk" ∷ codes "2.1.10" ∷ [])
    ≡ read (codes "2.1.10")
unfolding find_highest_dotnet_version highest_of parse parse_patch try_stou as_str compare
    compare_text
highest = refl

-- The assertion of `parse` fails on a number with a leading zero.
leading_zero :
    parse (codes "1.01.0") false
    ≡ read (record { major = 1; minor = 1; patch = 0; pre = []; build = [] })
unfolding parse parse_patch try_stou
leading_zero = refl

-- A number of more than 32 bits is an exception.
large_number : parse (codes "1.4294967296.0") false ≡ thrown
unfolding parse parse_patch try_stou
large_number = refl

-- A folder whose numbers are those of -1, as an int, does not count as a version above another.
wrapped :
    find_highest_dotnet_version (codes "4294967295.0.0" ∷ codes "1.0.0" ∷ []) ≡ read (codes "1.0.0")
unfolding find_highest_dotnet_version highest_of parse parse_patch try_stou as_str compare
    compare_text
wrapped = refl
