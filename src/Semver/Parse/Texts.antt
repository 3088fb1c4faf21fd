-- ===== src/Semver/Parse/Texts.antt =====
-- How the printed parts of a version read back.
use familyfi.Base.{
  ℕ, ◌≡◌, refl, sym, ap, ◌∙◌, Bool, true, false, not, ◌&&◌, none, some, List, [], ◌∷◌, ◌++◌, ◌==◌,
  Text, every, trim, trim_start, trim_end, trim_end-append, is_space, arith,
}
use familyfi.Semver.{is_digit, is_numeral}
use familyfi.Semver.Parse.{
  dot, plus, is_identifier_char, is_identifier, span_digits, read_numeral, split_dots, cut_plus,
  read_suffix, join_dots, suffix_text,
}

pub every-append :
    (f : ℕ → Bool) (s t : Text) → every f s ≡ true → every f t ≡ true → every f (s ++ t) ≡ true
unfolding every
every-append f [] t h k = k
every-append f (c ∷ s) t h k = ground (arith, every-append f s t (ground arith) k)

append_nil : (s : Text) → s ++ [] ≡ s
append_nil [] = refl
append_nil (c ∷ s) = ap (λ t. c ∷ t) (append_nil s)

pub trim_solid : (s : Text) → every (λ c. not (is_space c)) s ≡ true → trim s ≡ s
unfolding trim trim_start trim_end every
trim_solid [] h = refl
trim_solid (c ∷ s) h =
    let first : is_space c ≡ false = ground arith in
    rw first (
      let e = trim_end-append (c ∷ s) [] h in
      ap trim_end (sym (append_nil (c ∷ s))) ∙ e ∙ append_nil (c ∷ s))

-- The text does not start with a digit.
abbrev pub starts_elsewhere : Text → Bool
starts_elsewhere [] = true
starts_elsewhere (c ∷ s) = not (is_digit c)

span_digits-append :
    (s rest : Text)
    → every is_digit s ≡ true
    → starts_elsewhere rest ≡ true
    → span_digits (s ++ rest) ≡ (s, rest)
unfolding span_digits every
span_digits-append [] [] h k = refl
span_digits-append [] (c ∷ rest) h k = rw (let e : is_digit c ≡ false = ground arith in e) refl
span_digits-append (c ∷ s) rest h k =
    rw (span_digits-append s rest (ground arith) k, (let e : is_digit c ≡ true = ground arith in e))
      refl

pub is_numeral-digits : (s : Text) → is_numeral s ≡ true → every is_digit s ≡ true
unfolding every
is_numeral-digits [] h = refl
is_numeral-digits (c ∷ []) h = ground arith
is_numeral-digits (c ∷ d ∷ s) h = ground arith

pub read_numeral-append :
    (s rest : Text)
    → is_numeral s ≡ true
    → starts_elsewhere rest ≡ true
    → read_numeral (s ++ rest) ≡ some (s, rest)
unfolding read_numeral
read_numeral-append s rest h k =
    rw (span_digits-append s rest (is_numeral-digits s h) k) (rw h refl)

-- No identifier holds a dot, a plus or white space.
abbrev is_plain : ℕ → Bool
is_plain c = not (c == dot) && not (c == plus) && not (is_space c)

identifier_char-plain : (c : ℕ) → is_identifier_char c ≡ true → is_plain c ≡ true
unfolding is_space
identifier_char-plain c h = ground arith

identifier-plain : (s : Text) → is_identifier s ≡ true → every is_plain s ≡ true
unfolding every
identifier-plain [] h = refl
identifier-plain (c ∷ []) h = ground (arith, identifier_char-plain c (ground arith))
identifier-plain (c ∷ d ∷ s) h =
    ground (arith, identifier_char-plain c (ground arith), identifier-plain (d ∷ s) (ground arith))

split_dots-plain : (s : Text) → every is_plain s ≡ true → split_dots s ≡ s ∷ []
unfolding split_dots every
split_dots-plain [] h = refl
split_dots-plain (c ∷ s) h =
    rw (split_dots-plain s (ground arith), (let e : (c == dot) ≡ false = ground arith in e)) refl

split_dots-part :
    (s rest : Text) → every is_plain s ≡ true → split_dots (s ++ dot ∷ rest) ≡ s ∷ split_dots rest
unfolding split_dots every
split_dots-part [] rest h = refl
split_dots-part (c ∷ s) rest h =
    rw (split_dots-part s rest (ground arith), (let e : (c == dot) ≡ false = ground arith in e))
      refl

split_dots-join_dots :
    (p : Text) (parts : List Text)
    → every is_identifier (p ∷ parts) ≡ true
    → split_dots (join_dots (p ∷ parts)) ≡ p ∷ parts
unfolding join_dots every
split_dots-join_dots p [] h = split_dots-plain p (identifier-plain p (ground arith))
split_dots-join_dots p (q ∷ parts) h =
    split_dots-part p (join_dots (q ∷ parts)) (identifier-plain p (ground arith))
    ∙ ap (λ l. p ∷ l) (split_dots-join_dots q parts (ground arith))

abbrev pub is_solid : ℕ → Bool
is_solid c = not (c == plus) && not (is_space c)

plain-solid : (s : Text) → every is_plain s ≡ true → every is_solid s ≡ true
unfolding every
plain-solid [] h = refl
plain-solid (c ∷ s) h = ground (arith, plain-solid s (ground arith))

dot_first : (s : Text) → every is_solid s ≡ true → every is_solid (dot ∷ s) ≡ true
unfolding every is_space
dot_first s h = h

pub join_dots-solid :
    (p : Text) (parts : List Text)
    → every is_identifier (p ∷ parts) ≡ true
    → every is_solid (join_dots (p ∷ parts)) ≡ true
unfolding join_dots every
join_dots-solid p [] h = plain-solid p (identifier-plain p (ground arith))
join_dots-solid p (q ∷ parts) h =
    every-append is_solid p (dot ∷ join_dots (q ∷ parts))
      (plain-solid p (identifier-plain p (ground arith)))
      (dot_first (join_dots (q ∷ parts)) (join_dots-solid q parts (ground arith)))

cut_plus-none : (s : Text) → every is_solid s ≡ true → cut_plus s ≡ (s, none)
unfolding cut_plus every
cut_plus-none [] h = refl
cut_plus-none (c ∷ s) h =
    rw (cut_plus-none s (ground arith), (let e : (c == plus) ≡ false = ground arith in e)) refl

pub read_suffix-suffix_text :
    (parts : List Text)
    → every is_identifier parts ≡ true
    → read_suffix (suffix_text parts) ≡ some parts
unfolding read_suffix
read_suffix-suffix_text [] h = refl
read_suffix-suffix_text (p ∷ parts) h =
    rw
      (
        cut_plus-none (join_dots (p ∷ parts)) (join_dots-solid p parts h),
        split_dots-join_dots p parts h,
        h,
      )
      refl
