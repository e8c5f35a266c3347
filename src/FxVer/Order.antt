-- ===== src/FxVer/Order.antt =====
-- The order of versions in AspNetCoreModuleV2/CommonLib/fx_ver.cxx.
use iisintegration.Prelude.{
  ℕ, ◌^◌, ◌<◌, ◌≡◌, ◌↔◌, refl, arith, false, not, [], ◌∷◌, ◌==◌, if◌then◌else◌, Bool-cases, inl,
  inr,
}
use iisintegration.FxVer.{
  Text, FxVer, Sign, negative, none_of_both, positive, greater, compare_text, compare, is_empty,
  differ, is_zero,
}

abbrev pub flip : Sign → Sign
flip negative = positive
flip none_of_both = none_of_both
flip positive = negative

compare_text-flip : (p q : Text) → compare_text q p ≡ flip (compare_text p q)
unfolding compare_text
compare_text-flip [] [] = refl
compare_text-flip [] (b ∷ q) = refl
compare_text-flip (a ∷ p) [] = refl
compare_text-flip (a ∷ p) (b ∷ q) = ground (arith, compare_text-flip p q)

compare_text-equal : (p q : Text) → compare_text p q ≡ none_of_both → p ≡ q
unfolding compare_text
compare_text-equal [] [] h = refl
compare_text-equal [] (b ∷ q) h = absurd (ground arith)
compare_text-equal (a ∷ p) [] h = absurd (ground arith)
compare_text-equal (a ∷ p) (b ∷ q) h = ground (arith, compare_text-equal p q)

compare_text_same : (p : Text) → compare_text p p ≡ none_of_both
unfolding compare_text
compare_text_same [] = refl
compare_text_same (a ∷ p) = ground (arith, compare_text_same p)

-- The numbers are 32-bit patterns.
abbrev pub IsVersion : FxVer → Type 0
IsVersion v = (v.major < 2 ^ 32) × (v.minor < 2 ^ 32) × (v.patch < 2 ^ 32)

greater-flip :
    (a b : ℕ) → a < 2 ^ 32 → b < 2 ^ 32 → (a == b) ≡ false → greater b a ≡ flip (greater a b)
greater-flip a b h k e = ground arith

compare-flip : (a b : FxVer) → IsVersion a → IsVersion b → compare b a ≡ flip (compare a b)
unfolding compare
compare-flip a b h k = ground (
  arith,
  greater-flip a.major b.major,
  greater-flip a.minor b.minor,
  greater-flip a.patch b.patch,
  compare_text-flip a.pre b.pre,
  compare_text-flip a.build b.build,
)

compare-equal : (a b : FxVer) → compare a b ≡ none_of_both → a ≡ b
unfolding compare
compare-equal a b e =
    ground (arith, compare_text-equal a.pre b.pre, compare_text-equal a.build b.build)

compare_same : (a : FxVer) → compare a a ≡ none_of_both
unfolding compare
compare_same a = ground (arith, compare_text_same a.pre, compare_text_same a.build)

compare_text_trans :
    (p q r : Text)
    → compare_text p q ≡ negative
    → compare_text q r ≡ negative
    → compare_text p r ≡ negative
unfolding compare_text
compare_text_trans [] [] r h k = absurd (ground arith)
compare_text_trans (a ∷ p) [] r h k = absurd (ground arith)
compare_text_trans [] (b ∷ q) [] h k = absurd (ground arith)
compare_text_trans [] (b ∷ q) (c ∷ r) h k = refl
compare_text_trans (a ∷ p) (b ∷ q) [] h k = absurd (ground arith)
compare_text_trans (a ∷ p) (b ∷ q) (c ∷ r) h k = ground (arith, compare_text_trans p q r)

-- One level of the comparison, and what decides below it.
abbrev level : ℕ → ℕ → Sign → Sign
level a b rest = if not (a == b) then greater a b else rest

level_trans :
    (a b c : ℕ) (x y z : Sign)
    → a < 2 ^ 32
    → b < 2 ^ 32
    → c < 2 ^ 32
    → (x ≡ negative → y ≡ negative → z ≡ negative)
    → level a b x ≡ negative
    → level b c y ≡ negative
    → level a c z ≡ negative
level_trans a b c x y z i j k f h g = elim (Bool-cases (a == b)) [
  | inl e ↦ elim (Bool-cases (b == c)) [
    | inl d ↦ let below = f (ground arith) (ground arith) in ground arith
    | inr d ↦ ground arith
  ]
  | inr e ↦ ground arith
]

-- The level of the texts.
abbrev compare_texts : FxVer → FxVer → Sign
compare_texts a b =
    if differ (is_empty a.pre) (is_empty b.pre)
    then (if is_empty a.pre then positive else negative)
    else if not (is_zero (compare_text a.pre b.pre))
    then compare_text a.pre b.pre
    else compare_text a.build b.build

compare_texts_trans :
    (a b c : FxVer)
    → compare_texts a b ≡ negative
    → compare_texts b c ≡ negative
    → compare_texts a c ≡ negative
compare_texts_trans a b c h k = ground (
  arith,
  compare_text_trans a.pre b.pre c.pre,
  compare_text_trans a.build b.build c.build,
  compare_text-equal a.pre b.pre,
  compare_text-equal b.pre c.pre,
  compare_text_same b.pre,
)

-- On versions whose numbers fit in 32 bits compare is a total order: it answers zero exactly of
-- equal versions, the other way round it answers with the opposite sign, and with a less than b
-- and b less than c it finds a less than c.
pub compare_lem :
    (a b c : FxVer)
    → IsVersion a
    → IsVersion b
    → IsVersion c
    → ((compare a b ≡ none_of_both) ↔ (a ≡ b))
      × (compare b a ≡ flip (compare a b))
      × (compare a b ≡ negative → compare b c ≡ negative → compare a c ≡ negative)
unfolding compare
compare_lem a b c x y z = (
  (compare-equal a b, λ e. rw e (compare_same b)),
  compare-flip a b x y,
  level_trans a.major b.major c.major _ _ _ x.0 y.0 z.0 (
      level_trans a.minor b.minor c.minor _ _ _ x.1 y.1 z.1
        (level_trans a.patch b.patch c.patch _ _ _ x.2 y.2 z.2 (compare_texts_trans a b c))),
)
