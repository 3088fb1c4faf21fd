-- ===== src/Semver/Tests.antt =====
-- Versions and numerals compared.
use familyfi.Base.{◌≡◌, refl, [], ◌∷◌, codes, every}
use familyfi.Semver.{Semver, compare_numeric, compare_semver, flip}
use familyfi.Semver.Order.{compare_semver-flip}
use familyfi.Semver.Numeric.{value, compare_nat, compare_numeric-compare_nat}

abbrev release : Semver
release = record {
  major = codes "1";
  minor = codes "9";
  patch = codes "0";
  prerelease = [];
  version = codes "1.9.0";
}

abbrev candidate : Semver
candidate = record {
  major = codes "1";
  minor = codes "10";
  patch = codes "0";
  prerelease = codes "rc" ∷ codes "2" ∷ [];
  version = codes "1.10.0-rc.2";
}

compare_semver-flip_example :
    compare_semver release candidate ≡ flip (compare_semver candidate release)
compare_semver-flip_example = compare_semver-flip release candidate

compare_numeric-compare_nat_example :
    compare_numeric (codes "9") (codes "10") ≡ compare_nat (value (codes "9")) (value (codes "10"))
unfolding every
compare_numeric-compare_nat_example = compare_numeric-compare_nat (codes "9") (codes "10") refl refl
