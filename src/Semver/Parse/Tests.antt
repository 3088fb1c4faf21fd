-- ===== src/Semver/Parse/Tests.antt =====
-- A version read from a tag.
use familyfi.Base.{◌≡◌, refl, true, some, [], ◌∷◌, codes, every, any, trim, trim_start, trim_end}
use familyfi.Semver.{Semver, is_numeral}
use familyfi.Semver.Parse.{
  parse_semver, read_numeral, span_digits, read_suffix, cut_plus, split_dots, join_dots,
  version_text, built, made,
}
use familyfi.Semver.Parse.RoundTrip.{parse_semver_version}

abbrev tagged : Semver
tagged = record {
  major = codes "1";
  minor = codes "20";
  patch = codes "3";
  prerelease = codes "rc" ∷ codes "4" ∷ [];
  version = codes "1.20.3-rc.4";
}

parse_semver_tag : parse_semver (codes " v1.20.3-rc.4+build.5") ≡ some tagged
unfolding parse_semver read_numeral span_digits read_suffix cut_plus split_dots join_dots
    version_text built made every any trim trim_start trim_end
parse_semver_tag = refl

parse_semver_version_example :
    (parse_semver (codes "1.20.3-rc.4") ≡ some tagged)
    × (is_numeral (codes "1") ≡ true)
    × (is_numeral (codes "20") ≡ true)
    × (is_numeral (codes "3") ≡ true)
parse_semver_version_example =
    parse_semver_version (codes " v1.20.3-rc.4+build.5") tagged parse_semver_tag
