-- ===== src/Semver.antt =====
-- lib/semver.ts: strict semantic versions, read from text and compared. A number that a comparison
-- returns is only read for its sign, which is the result here.
pub mod Order
pub mod Numeric
pub mod Parse
mod Tests
use familyfi.Base.{
  ℕ, suc, ◌+◌, Bool, true, false, not, ◌&&◌, ◌||◌, Option, none, some, List, [], ◌∷◌, ◌++◌, ltb,
  leb, ◌==◌, if◌then◌else◌, Text, codes, text_eq, length, every, any, trim,
}

pub record Semver : Type 0 where
  pub major : Text
  pub minor : Text
  pub patch : Text
  pub prerelease : List Text
  pub version : Text

-- Older, the same, or newer.
pub data Sign : Type 0 where
  less equal more : Sign

-- `left < right` on strings: the first code unit that differs decides.
pub text_before : Text → Text → Bool
text_before [] [] = false
text_before [] (b ∷ t) = true
text_before (a ∷ s) [] = false
text_before (a ∷ s) (b ∷ t) = if a == b then text_before s t else ltb a b

-- `compareNumeric`.
pub compare_numeric : Text → Text → Sign
unfolding text_before
compare_numeric left right =
    if not (length left == length right)
    then if ltb (length left) (length right) then less else more
    else if text_eq left right
    then equal
    else if text_before left right
    then less
    else more

abbrev pub is_digit : ℕ → Bool
is_digit c = leb 48 c && leb c 57

abbrev pub is_nil {ℓ} : {A : Type ℓ} → List A → Bool
is_nil [] = true
is_nil (x ∷ xs) = false

-- `NUMERIC`: `0`, or digits that do not start with 0.
abbrev pub is_numeral : Text → Bool
is_numeral [] = false
is_numeral (c ∷ []) = is_digit c
is_numeral (c ∷ d ∷ s) = leb 49 c && leb c 57 && every is_digit (d ∷ s)

-- `/^\d+$/`.
is_numeric : Text → Bool
is_numeric s = not (is_nil s) && every is_digit s

-- Two parts that differ.
compare_part : Text → Text → Sign
unfolding compare_numeric is_numeric text_before
compare_part left right =
    if is_numeric left && is_numeric right
    then compare_numeric left right
    else if is_numeric left
    then less
    else if is_numeric right
    then more
    else if text_before left right
    then less
    else more

-- The loop over the parts.
compare_parts : List Text → List Text → Sign
unfolding compare_part
compare_parts [] [] = equal
compare_parts [] (b ∷ right) = less
compare_parts (a ∷ left) [] = more
compare_parts (a ∷ left) (b ∷ right) =
    let rest = compare_parts left right in if text_eq a b then rest else compare_part a b

-- `comparePrerelease`: a release is newer than its prereleases.
compare_prerelease : List Text → List Text → Sign
unfolding compare_parts
compare_prerelease [] [] = equal
compare_prerelease [] (b ∷ right) = more
compare_prerelease (a ∷ left) [] = less
compare_prerelease (a ∷ left) (b ∷ right) = compare_parts (a ∷ left) (b ∷ right)

abbrev pub first_difference : Sign → Sign → Sign
first_difference less rest = less
first_difference equal rest = rest
first_difference more rest = more

-- `compareSemver`.
pub compare_semver : Semver → Semver → Sign
unfolding compare_numeric compare_prerelease
compare_semver left right = first_difference (compare_numeric left.major right.major) (
    first_difference (compare_numeric left.minor right.minor) (
      first_difference (compare_numeric left.patch right.patch)
        (compare_prerelease left.prerelease right.prerelease)))

abbrev pub flip : Sign → Sign
flip less = more
flip equal = equal
flip more = less
