-- ===== src/Semver/Parse/RoundTrip.antt =====
-- The version that `parseSemver` returns reads back as itself.
use familyfi.Base.{
  ℕ, ◌≡◌, refl, sym, ap, ◌∙◌, Bool, true, false, not, some, List, [], ◌∷◌, ◌++◌, ◌==◌, Text, every,
  is_space, arith,
}
use familyfi.Semver.{Semver, is_digit, is_numeral}
use familyfi.Semver.Parse.{
  dot, is_identifier, strip_v, join_dots, suffix_text, version_text, built, made, parse_semver,
}
use familyfi.Semver.Parse.Texts.{
  every-append, trim_solid, read_numeral-append, is_numeral-digits, starts_elsewhere, is_solid,
  join_dots-solid, read_suffix-suffix_text,
}
use familyfi.Semver.Parse.Reads.{IsSemver, parse_semver-IsSemver}

abbrev no_space : ℕ → Bool
no_space c = not (is_space c)

digits-no_space : (s : Text) → every is_digit s ≡ true → every no_space s ≡ true
unfolding every
digits-no_space [] h = refl
digits-no_space (c ∷ s) h = ground (arith, digit c (ground arith), digits-no_space s (ground arith))
  where
    digit : (c : ℕ) → is_digit c ≡ true → is_space c ≡ false
    digit c h = unfold is_space in ground arith

solid-no_space : (s : Text) → every is_solid s ≡ true → every no_space s ≡ true
unfolding every
solid-no_space [] h = refl
solid-no_space (c ∷ s) h = ground (arith, solid-no_space s (ground arith))

dot-no_space : (s : Text) → every no_space s ≡ true → every no_space (dot ∷ s) ≡ true
unfolding every is_space
dot-no_space s h = h

suffix_text-no_space :
    (parts : List Text)
    → every is_identifier parts ≡ true
    → every no_space (suffix_text parts) ≡ true
unfolding every is_space
suffix_text-no_space [] h = refl
suffix_text-no_space (p ∷ parts) h =
    solid-no_space (join_dots (p ∷ parts)) (join_dots-solid p parts h)

suffix_text-starts_elsewhere : (parts : List Text) → starts_elsewhere (suffix_text parts) ≡ true
suffix_text-starts_elsewhere [] = refl
suffix_text-starts_elsewhere (p ∷ parts) = refl

strip_v-numeral : (s rest : Text) → is_numeral s ≡ true → strip_v (s ++ rest) ≡ s ++ rest
strip_v-numeral [] rest h = absurd (cc)
strip_v-numeral (c ∷ []) rest h = rw (let e : (c == 118) ≡ false = ground arith in e) refl
strip_v-numeral (c ∷ d ∷ s) rest h = rw (let e : (c == 118) ≡ false = ground arith in e) refl

module _ (s : Semver) (h : IsSemver s) where
  version_no_space : every no_space (version_text s.major s.minor s.patch s.prerelease) ≡ true
  unfolding version_text
  version_no_space =
      every-append no_space s.major _
        (digits-no_space s.major (is_numeral-digits s.major h.major_numeral))
        (dot-no_space _ (
          every-append no_space s.minor _
            (digits-no_space s.minor (is_numeral-digits s.minor h.minor_numeral))
            (dot-no_space _ (
              every-append no_space s.patch (suffix_text s.prerelease)
                (digits-no_space s.patch (is_numeral-digits s.patch h.patch_numeral))
                (suffix_text-no_space s.prerelease h.identifiers)))))

  -- Printed from its parts, a version reads as itself.
  parse_semver-version_text :
      parse_semver (version_text s.major s.minor s.patch s.prerelease)
      ≡ some (built s.major s.minor s.patch s.prerelease)
  unfolding parse_semver made
  parse_semver-version_text =
      rw (trim_solid (version_text s.major s.minor s.patch s.prerelease) version_no_space) (
        unfold version_text in
        rw
          (
            strip_v-numeral s.major (dot ∷ (s.minor ++ dot ∷ (s.patch ++ suffix_text s.prerelease)))
                h.major_numeral,
            read_numeral-append s.major
                (dot ∷ (s.minor ++ dot ∷ (s.patch ++ suffix_text s.prerelease))) h.major_numeral
                refl,
            read_numeral-append s.minor (dot ∷ (s.patch ++ suffix_text s.prerelease))
                h.minor_numeral refl,
            read_numeral-append s.patch (suffix_text s.prerelease) h.patch_numeral
                (suffix_text-starts_elsewhere s.prerelease),
            read_suffix-suffix_text s.prerelease h.identifiers,
            h.no_leading_zero,
          )
          refl)

-- The version that `parseSemver` makes of a text, without its `v`, its build and the space around it,
-- reads back as the same version; and its three numbers are numerals without leading zeros.
pub parse_semver_version :
    (input : Text) (s : Semver)
    → parse_semver input ≡ some s
    → (parse_semver s.version ≡ some s)
      × (is_numeral s.major ≡ true)
      × (is_numeral s.minor ≡ true)
      × (is_numeral s.patch ≡ true)
parse_semver_version input s e =
    let h = parse_semver-IsSemver input s e in
    let whole : built s.major s.minor s.patch s.prerelease ≡ s =
      unfold built in ap (λ v. record s { version = v }) (sym h.printed) in
    (
      ap parse_semver h.printed ∙ parse_semver-version_text s h ∙ ap some whole,
      h.major_numeral,
      h.minor_numeral,
      h.patch_numeral,
    )
