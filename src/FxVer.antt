-- ===== src/FxVer.antt =====
-- fx_ver_t of AspNetCoreModuleV2/CommonLib/fx_ver.cxx: the versions of the shared framework and their
-- order. An int is written by its 32 bits.
pub mod Parse
pub mod RoundTrip
pub mod Order
pub mod Highest
mod Tests
use iisintegration.Prelude.{
  ℕ, ◌+◌, ◌%◌, ◌^◌, Bool, true, false, not, ◌&&◌, List, [], ◌∷◌, ltb, ◌==◌, if◌then◌else◌,
}

-- A std::wstring by the codes of its characters.
abbrev pub Text : Type 0
Text = List ℕ

pub record FxVer : Type 0 where
  pub major : ℕ
  pub minor : ℕ
  pub patch : ℕ
  pub pre : Text
  pub build : Text

-- The sign of an int that a comparison returns.
pub data Sign : Type 0 where
  negative none_of_both positive : Sign

abbrev pub signed : ℕ → ℕ
signed n = (n + 2 ^ 31) % 2 ^ 32

-- `std::wstring::compare`: lexicographic, and a proper prefix is less.
unfoldable pub compare_text : Text → Text → Sign
compare_text [] [] = none_of_both
compare_text [] (b ∷ q) = negative
compare_text (a ∷ p) [] = positive
compare_text (a ∷ p) (b ∷ q) =
    let rest = compare_text p q in if ltb a b then negative else if ltb b a then positive else rest

abbrev pub is_empty : Text → Bool
is_empty [] = true
is_empty (a ∷ p) = false

abbrev pub differ : Bool → Bool → Bool
differ true b = not b
differ false b = b

abbrev pub is_zero : Sign → Bool
is_zero none_of_both = true
is_zero _ = false

-- `(a > b) ? 1 : -1` on ints
abbrev pub greater : ℕ → ℕ → Sign
greater a b = if ltb (signed b) (signed a) then positive else negative

unfoldable pub compare : FxVer → FxVer → Sign
unfolding compare_text
compare a b =
    if not (a.major == b.major)
    then greater a.major b.major
    else if not (a.minor == b.minor)
    then greater a.minor b.minor
    else if not (a.patch == b.patch)
    then greater a.patch b.patch
    else if differ (is_empty a.pre) (is_empty b.pre)
    then (if is_empty a.pre then positive else negative)
    else if not (is_zero (compare_text a.pre b.pre))
    then compare_text a.pre b.pre
    else compare_text a.build b.build

-- The operators == != < > <= >=
abbrev pub equals : FxVer → FxVer → Bool
equals a b = is_zero (compare a b)

abbrev pub differs : FxVer → FxVer → Bool
differs a b = not (equals a b)

abbrev pub is_negative : Sign → Bool
is_negative negative = true
is_negative _ = false

abbrev pub is_positive : Sign → Bool
is_positive positive = true
is_positive _ = false

abbrev pub less : FxVer → FxVer → Bool
less a b = is_negative (compare a b)

abbrev pub more : FxVer → FxVer → Bool
more a b = is_positive (compare a b)

abbrev pub less_equal : FxVer → FxVer → Bool
less_equal a b = not (is_positive (compare a b))

abbrev pub more_equal : FxVer → FxVer → Bool
more_equal a b = not (is_negative (compare a b))
