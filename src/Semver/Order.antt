-- ===== src/Semver/Order.antt =====
-- The comparison of versions is consistent.
use familyfi.Base.{
  ◌≡◌, refl, Bool, true, false, not, List, [], ◌∷◌, if◌then◌else◌, Text, text_eq, arith,
}
use familyfi.Semver.{
  Semver, Sign, less, equal, more, text_before, compare_numeric, compare_part, compare_parts,
  compare_prerelease, first_difference, compare_semver, flip,
}

text_eq_sym : (s t : Text) → text_eq s t ≡ text_eq t s
unfolding text_eq
text_eq_sym [] [] = refl
text_eq_sym [] (b ∷ t) = refl
text_eq_sym (a ∷ s) [] = refl
text_eq_sym (a ∷ s) (b ∷ t) = ground (arith, text_eq_sym s t)

-- Of two different texts, one stands before the other.
pub text_before_flip : (s t : Text) → text_eq s t ≡ false → text_before s t ≡ not (text_before t s)
unfolding text_before text_eq
text_before_flip [] [] e = absurd (cc)
text_before_flip [] (b ∷ t) e = refl
text_before_flip (a ∷ s) [] e = refl
text_before_flip (a ∷ s) (b ∷ t) e = ground (arith, text_before_flip s t)

compare_numeric-flip : (s t : Text) → compare_numeric s t ≡ flip (compare_numeric t s)
unfolding compare_numeric
compare_numeric-flip s t = ground (arith, text_eq_sym s t, text_before_flip s t)

compare_part-flip : (s t : Text) → text_eq s t ≡ false → compare_part s t ≡ flip (compare_part t s)
unfolding compare_part
compare_part-flip s t e = ground (arith, text_before_flip s t e, compare_numeric-flip s t)

choice_flip :
    (same same' : Bool) (x y u v : Sign)
    → same ≡ same'
    → x ≡ flip y
    → (same ≡ false → u ≡ flip v)
    → (if same then x else u) ≡ flip (if same' then y else v)
choice_flip true true x y u v e h k = h
choice_flip true false x y u v e h k = absurd (cc)
choice_flip false true x y u v e h k = absurd (cc)
choice_flip false false x y u v e h k = k refl

compare_parts-flip : (l r : List Text) → compare_parts l r ≡ flip (compare_parts r l)
unfolding compare_parts
compare_parts-flip [] [] = refl
compare_parts-flip [] (b ∷ r) = refl
compare_parts-flip (a ∷ l) [] = refl
compare_parts-flip (a ∷ l) (b ∷ r) =
    choice_flip (text_eq a b) (text_eq b a) (compare_parts l r) (compare_parts r l)
      (compare_part a b) (compare_part b a) (text_eq_sym a b) (compare_parts-flip l r)
      (compare_part-flip a b)

compare_prerelease-flip : (l r : List Text) → compare_prerelease l r ≡ flip (compare_prerelease r l)
unfolding compare_prerelease
compare_prerelease-flip [] [] = refl
compare_prerelease-flip [] (b ∷ r) = refl
compare_prerelease-flip (a ∷ l) [] = refl
compare_prerelease-flip (a ∷ l) (b ∷ r) = compare_parts-flip (a ∷ l) (b ∷ r)

flip-first_difference :
    (x y : Sign) → flip (first_difference x y) ≡ first_difference (flip x) (flip y)
flip-first_difference less y = refl
flip-first_difference equal y = refl
flip-first_difference more y = refl

-- Comparing two versions the other way round gives the opposite sign, whatever texts their parts
-- are.
pub compare_semver-flip : (a b : Semver) → compare_semver a b ≡ flip (compare_semver b a)
unfolding compare_semver
compare_semver-flip a b =
    rw
      (
        flip-first_difference,
        flip-first_difference,
        flip-first_difference,
        compare_numeric-flip a.major b.major,
        compare_numeric-flip a.minor b.minor,
        compare_numeric-flip a.patch b.patch,
        compare_prerelease-flip a.prerelease b.prerelease,
      )
      refl
