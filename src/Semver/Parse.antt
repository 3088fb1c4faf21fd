-- ===== src/Semver/Parse.antt =====
-- `parseSemver` of lib/semver.ts: the regular expression as a parser. What follows a number is never a
-- digit, and no identifier holds a `.` or a `+`, so it never has to go back.
pub mod Reads
pub mod RoundTrip
pub mod Texts
mod Tests
use familyfi.Base.{
  ℕ, suc, ◌+◌, Bool, true, false, not, ◌&&◌, ◌||◌, Option, none, some, List, [], ◌∷◌, ◌++◌, ltb,
  leb, ◌==◌, if◌then◌else◌, Text, codes, every, any, trim,
}
use familyfi.Semver.{Semver, is_digit, is_nil, is_numeral}

infixl 5 ◌>>=◌
abbrev pub ◌>>=◌ : {A B : Type 0} → Option A → (A → Option B) → Option B
◌>>=◌ none k = none
◌>>=◌ (some a) k = k a

abbrev pub dot : ℕ
dot = 46

abbrev pub hyphen : ℕ
hyphen = 45

abbrev pub plus : ℕ
plus = 43

-- `[0-9A-Za-z-]`.
abbrev pub is_identifier_char : ℕ → Bool
is_identifier_char c = is_digit c || leb 65 c && leb c 90 || leb 97 c && leb c 122 || c == hyphen

abbrev pub is_identifier : Text → Bool
is_identifier s = not (is_nil s) && every is_identifier_char s

-- `replace(/^v/, "")`.
abbrev strip_v : Text → Text
strip_v [] = []
strip_v (c ∷ s) = if c == 118 then s else c ∷ s

-- The digits that a text starts with, and the rest.
abbrev with_char : ℕ → Text × Text → Text × Text
with_char c (s, rest) = (c ∷ s, rest)

span_digits : Text → Text × Text
span_digits [] = ([], [])
span_digits (c ∷ s) =
    let spanned = span_digits s in if is_digit c then with_char c spanned else ([], c ∷ s)

-- One number of a version.
abbrev numeral_of : Text × Text → Option (Text × Text)
numeral_of (digits, rest) = if is_numeral digits then some (digits, rest) else none

pub read_numeral : Text → Option (Text × Text)
unfolding span_digits
read_numeral s = numeral_of (span_digits s)

abbrev drop_dot : Text → Option Text
drop_dot [] = none
drop_dot (c ∷ s) = if c == dot then some s else none

-- `text.split(".")`.
abbrev onto_first : ℕ → List Text → List Text
onto_first c [] = (c ∷ []) ∷ []
onto_first c (part ∷ parts) = (c ∷ part) ∷ parts

unfoldable pub split_dots : Text → List Text
split_dots [] = [] ∷ []
split_dots (c ∷ s) = let parts = split_dots s in if c == dot then [] ∷ parts else onto_first c parts

-- What stands before the first `+`, and after it.
abbrev before_plus : ℕ → Text × Option Text → Text × Option Text
before_plus c (s, build) = (c ∷ s, build)

cut_plus : Text → Text × Option Text
cut_plus [] = ([], none)
cut_plus (c ∷ s) = let cut = cut_plus s in if c == plus then ([], some s) else before_plus c cut

abbrev is_build : Option Text → Bool
is_build none = true
is_build (some build) = every is_identifier (split_dots build)

-- `/^0\d+$/`.
abbrev pub has_leading_zero : Text → Bool
has_leading_zero [] = false
has_leading_zero (c ∷ []) = false
has_leading_zero (c ∷ d ∷ s) = c == 48 && every is_digit (d ∷ s)

abbrev prerelease_of : Text × Option Text → Option (List Text)
prerelease_of (pre, build) =
    if every is_identifier (split_dots pre) && is_build build then some (split_dots pre) else none

-- What follows the three numbers: the prerelease parts.
pub read_suffix : Text → Option (List Text)
unfolding cut_plus split_dots
read_suffix [] = some []
read_suffix (c ∷ s) =
    if c == hyphen
    then prerelease_of (cut_plus s)
    else if c == plus && is_build (some s)
    then some []
    else none

-- `prerelease.join(".")`.
unfoldable pub join_dots : List Text → Text
join_dots [] = []
join_dots (part ∷ []) = part
join_dots (part ∷ p ∷ parts) = part ++ dot ∷ join_dots (p ∷ parts)

abbrev suffix_text : List Text → Text
suffix_text [] = []
suffix_text (p ∷ parts) = hyphen ∷ join_dots (p ∷ parts)

-- The version that the parts make.
pub version_text : Text → Text → Text → List Text → Text
unfolding join_dots
version_text major minor patch prerelease =
    major ++ dot ∷ (minor ++ dot ∷ (patch ++ suffix_text prerelease))

pub built : Text → Text → Text → List Text → Semver
unfolding version_text
built major minor patch prerelease = record {
  major = major;
  minor = minor;
  patch = patch;
  prerelease = prerelease;
  version = version_text major minor patch prerelease;
}

made : Text → Text → Text → List Text → Option Semver
unfolding built
made major minor patch prerelease =
    if any has_leading_zero prerelease then none else some (built major minor patch prerelease)

-- `parseSemver`.
pub parse_semver : Text → Option Semver
unfolding read_numeral read_suffix made
parse_semver input = do
  (major, after_major) ← read_numeral (strip_v (trim input))
  rest ← drop_dot after_major
  (minor, after_minor) ← read_numeral rest
  rest ← drop_dot after_minor
  (patch, suffix) ← read_numeral rest
  prerelease ← read_suffix suffix
  made major minor patch prerelease
