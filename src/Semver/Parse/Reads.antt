-- ===== src/Semver/Parse/Reads.antt =====
-- What `parseSemver` accepts.
use familyfi.Base.{
  ◌≡◌, refl, subst, inl, inr, true, false, ◌&&◌, Option, none, some, List, [], ◌∷◌, ◌==◌, Text,
  every, any, trim, Bool-cases,
}
use familyfi.Semver.{Semver, is_numeral}
use familyfi.Semver.Parse.{
  ◌>>=◌, hyphen, plus, is_identifier, strip_v, span_digits, numeral_of, read_numeral, drop_dot,
  split_dots, cut_plus, is_build, has_leading_zero, prerelease_of, read_suffix, version_text, built,
  made, parse_semver,
}

-- What the parts of a version are.
pub record IsSemver (s : Semver) : Type 0 where
  pub major_numeral : is_numeral s.major ≡ true
  pub minor_numeral : is_numeral s.minor ≡ true
  pub patch_numeral : is_numeral s.patch ≡ true
  pub identifiers : every is_identifier s.prerelease ≡ true
  pub no_leading_zero : any has_leading_zero s.prerelease ≡ false
  pub printed : s.version ≡ version_text s.major s.minor s.patch s.prerelease

pub bind_some :
    {A B : Type 0} (o : Option A) (k : A → Option B) (b : B)
    → (o >>= k) ≡ some b
    → (a : A) × (o ≡ some a) × (k a ≡ some b)
bind_some none k b e = absurd (cc)
bind_some (some a) k b e = (a, refl, e)

pub read_numeral-some :
    (s digits rest : Text) → read_numeral s ≡ some (digits, rest) → is_numeral digits ≡ true
unfolding read_numeral
read_numeral-some s digits rest e = go (span_digits s) e
  where
    go : (r : Text × Text) → numeral_of r ≡ some (digits, rest) → is_numeral digits ≡ true
    go (d, t) e = elim (Bool-cases (is_numeral d)) [
      | inl good ↦
          let e' : ◌≡◌ {A = Option (Text × Text)} (some (d, t)) (some (digits, rest)) =
            (rw good at e) in
          let same : d ≡ digits = cc in rw same at good
      | inr bad ↦ absurd (let e' : none ≡ some (digits, rest) = (rw bad at e) in cc)
    ]

prerelease_of-some :
    (cut : Text × Option Text) (parts : List Text)
    → prerelease_of cut ≡ some parts
    → every is_identifier parts ≡ true
prerelease_of-some (pre, build) parts e = elim (Bool-cases (every is_identifier (split_dots pre))) [
  | inl good ↦ elim (Bool-cases (is_build build)) [
    | inl built ↦
        let e' : some (split_dots pre) ≡ some parts = (rw (good, built) at e) in
        let same : split_dots pre ≡ parts = cc in rw same at good
    | inr unbuilt ↦ absurd (let e' = rw (good, unbuilt) at e in cc)
  ]
  | inr bad ↦ absurd (let e' = rw bad at e in cc)
]

pub read_suffix-some :
    (s : Text) (parts : List Text) → read_suffix s ≡ some parts → every is_identifier parts ≡ true
unfolding read_suffix every
read_suffix-some [] parts e = let same : [] ≡ parts = cc in rw (← same) refl
read_suffix-some (c ∷ s) parts e = elim (Bool-cases (c == hyphen)) [
  | inl pre ↦ prerelease_of-some (cut_plus s) parts (rw pre at e)
  | inr other ↦ elim (Bool-cases (c == plus && is_build (some s))) [
    | inl built ↦
        let e' : some [] ≡ some parts = (rw (other, built) at e) in
        let same : [] ≡ parts = cc in rw (← same) refl
    | inr bad ↦ absurd (let e' = rw (other, bad) at e in cc)
  ]
]

made-some :
    (major minor patch : Text) (prerelease : List Text) (s : Semver)
    → is_numeral major ≡ true
    → is_numeral minor ≡ true
    → is_numeral patch ≡ true
    → every is_identifier prerelease ≡ true
    → made major minor patch prerelease ≡ some s
    → IsSemver s
unfolding made
made-some major minor patch prerelease s h0 h1 h2 h3 e =
    elim (Bool-cases (any has_leading_zero prerelease)) [
      | inl bad ↦ absurd (let e' = rw bad at e in cc)
      | inr good ↦
          let e' : some (built major minor patch prerelease) ≡ some s = (rw good at e) in
          let same : built major minor patch prerelease ≡ s = cc in
          subst IsSemver same (record {
            major_numeral = h0;
            minor_numeral = h1;
            patch_numeral = h2;
            identifiers = h3;
            no_leading_zero = good;
            printed = unfold built in refl;
          })
    ]

-- A text that is read as a version is one.
pub parse_semver-IsSemver : (input : Text) (s : Semver) → parse_semver input ≡ some s → IsSemver s
unfolding parse_semver
parse_semver-IsSemver input s e =
    let ((major, after_major), e0, k0) = bind_some (read_numeral (strip_v (trim input))) _ s e in
    let (minor_text, e1, k1) = bind_some (drop_dot after_major) _ s k0 in
    let ((minor, after_minor), e2, k2) = bind_some (read_numeral minor_text) _ s k1 in
    let (patch_text, e3, k3) = bind_some (drop_dot after_minor) _ s k2 in
    let ((patch, suffix), e4, k4) = bind_some (read_numeral patch_text) _ s k3 in
    let (prerelease, e5, k5) = bind_some (read_suffix suffix) _ s k4 in
    made-some major minor patch prerelease s
      (read_numeral-some (strip_v (trim input)) major after_major e0)
      (read_numeral-some minor_text minor after_minor e2)
      (read_numeral-some patch_text patch suffix e4) (read_suffix-some suffix prerelease e5) k5
