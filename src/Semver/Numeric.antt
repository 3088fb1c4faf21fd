-- ===== src/Semver/Numeric.antt =====
-- Numerals compare as the numbers that they write.
use familyfi.Base.{
  ℕ, suc, ◌+◌, ◌-◌, ◌*◌, ◌≤◌, ◌<◌, ◌≡◌, refl, sym, inl, inr, true, [], ◌∷◌, ltb, ◌==◌,
  if◌then◌else◌, Text, text_eq, text_eq_iff, length, every, arith, Bool-cases,
}
use familyfi.Semver.{Sign, less, equal, more, text_before, compare_numeric, is_digit, is_numeral}
use familyfi.Semver.Order.{text_before_flip}

-- The number that decimal digits write, after a number that was written before them.
abbrev pub value_from : ℕ → Text → ℕ
value_from n [] = n
value_from n (c ∷ s) = value_from (n * 10 + (c - 48)) s

abbrev pub value : Text → ℕ
value s = value_from 0 s

abbrev pub compare_nat : ℕ → ℕ → Sign
compare_nat m n = if m == n then equal else if ltb m n then less else more

-- A smaller number stays smaller with as many digits after it.
value_from-less :
    (m n : ℕ) (s t : Text)
    → every is_digit s ≡ true
    → every is_digit t ≡ true
    → length s ≡ length t
    → m < n
    → value_from m s < value_from n t
unfolding every
value_from-less m n [] [] ds dt e l = l
value_from-less m n [] (d ∷ t) ds dt e l = absurd (omega arith)
value_from-less m n (c ∷ s) [] ds dt e l = absurd (omega arith)
value_from-less m n (c ∷ s) (d ∷ t) ds dt e l =
    value_from-less (m * 10 + (c - 48)) (n * 10 + (d - 48)) s t (ground arith) (ground arith)
      (omega arith) (let low : c ≤ 57 = ground arith in omega arith)

value_from-before :
    (n : ℕ) (s t : Text)
    → every is_digit s ≡ true
    → every is_digit t ≡ true
    → length s ≡ length t
    → text_before s t ≡ true
    → value_from n s < value_from n t
unfolding every text_before
value_from-before n [] [] ds dt e b = absurd (cc)
value_from-before n [] (d ∷ t) ds dt e b = absurd (omega arith)
value_from-before n (c ∷ s) [] ds dt e b = absurd (omega arith)
value_from-before n (c ∷ s) (d ∷ t) ds dt e b = elim (Bool-cases (c == d)) [
  | inl same ↦
      let same' : c ≡ d = ground arith in
      let later : text_before s t ≡ true = ground arith in
      rw (← same') (
        value_from-before (n * 10 + (c - 48)) s t (ground arith) (ground arith) (omega arith) later)
  | inr apart ↦
      let smaller : c < d = ground arith in
      let low : 48 ≤ c = ground arith in
      value_from-less (n * 10 + (c - 48)) (n * 10 + (d - 48)) s t (ground arith) (ground arith)
        (omega arith) (omega arith)
]

-- Fewer digits write a smaller number than digits after one that is not 0.
value_from-shorter :
    (n : ℕ) (s t : Text)
    → every is_digit s ≡ true
    → every is_digit t ≡ true
    → length s ≤ length t
    → 0 < n
    → value_from 0 s < value_from n t
unfolding every
value_from-shorter n [] [] ds dt e l = l
value_from-shorter n (c ∷ s) [] ds dt e l = absurd (omega arith)
value_from-shorter n s (d ∷ t) ds dt e l = elim (Bool-cases (length s == suc (length t))) [
  | inl same ↦ value_from-less 0 n s (d ∷ t) ds dt (ground arith) l
  | inr apart ↦
      value_from-shorter (n * 10 + (d - 48)) s t ds (ground arith) (ground arith) (omega arith)
]

is_numeral-digits : (s : Text) → is_numeral s ≡ true → every is_digit s ≡ true
unfolding every
is_numeral-digits [] h = refl
is_numeral-digits (c ∷ []) h = ground arith
is_numeral-digits (c ∷ d ∷ s) h = ground arith

value-shorter :
    (s t : Text)
    → is_numeral s ≡ true
    → is_numeral t ≡ true
    → length s < length t
    → value s < value t
value-shorter [] t hs ht l = absurd (cc)
value-shorter (c ∷ s) [] hs ht l = absurd (omega arith)
value-shorter (c ∷ s) (d ∷ []) hs ht l = absurd (omega arith)
value-shorter (c ∷ s) (d ∷ e ∷ t) hs ht l =
    let first : 49 ≤ d = ground arith in
    value_from-shorter (0 * 10 + (d - 48)) (c ∷ s) (e ∷ t) (is_numeral-digits (c ∷ s) hs)
      (ground arith) (omega arith) (omega arith)

compare_nat-less : (m n : ℕ) → m < n → compare_nat m n ≡ less
compare_nat-less m n l = ground arith

compare_nat-more : (m n : ℕ) → n < m → compare_nat m n ≡ more
compare_nat-more m n l = ground arith

compare_nat_self : (m : ℕ) → compare_nat m m ≡ equal
compare_nat_self m = ground arith

compare_numeric-same_length :
    (s t : Text)
    → is_numeral s ≡ true
    → is_numeral t ≡ true
    → length s ≡ length t
    → (if text_eq s t then equal else if text_before s t then less else more)
      ≡ compare_nat (value s) (value t)
compare_numeric-same_length s t hs ht e =
    let ds = is_numeral-digits s hs in
    let dt = is_numeral-digits t ht in
    elim (Bool-cases (text_eq s t)) [
      | inl same ↦ rw (same, (text_eq_iff s t).0 same) (sym (compare_nat_self (value t)))
      | inr apart ↦ elim (Bool-cases (text_before s t)) [
        | inl before ↦
            rw (apart, before)
              (sym (compare_nat-less (value s) (value t) (value_from-before 0 s t ds dt e before)))
        | inr after ↦
            let turned : text_before t s ≡ true = ground (arith, text_before_flip s t apart) in
            rw (apart, after)
              (sym (
                compare_nat-more (value s) (value t)
                  (value_from-before 0 t s dt ds (sym e) turned)))
      ]
    ]

-- `compareNumeric` never reads a number, so numerals of any length compare; and what it answers of
-- two numerals is how the numbers that they write compare.
pub compare_numeric-compare_nat :
    (s t : Text)
    → is_numeral s ≡ true
    → is_numeral t ≡ true
    → compare_numeric s t ≡ compare_nat (value s) (value t)
unfolding compare_numeric
compare_numeric-compare_nat s t hs ht = elim (Bool-cases (length s == length t)) [
  | inl same ↦ rw same (compare_numeric-same_length s t hs ht (ground arith))
  | inr apart ↦ elim (Bool-cases (ltb (length s) (length t))) [
    | inl shorter ↦
        rw (apart, shorter)
          (sym (compare_nat-less (value s) (value t) (value-shorter s t hs ht (ground arith))))
    | inr longer ↦
        rw (apart, longer)
          (sym (compare_nat-more (value s) (value t) (value-shorter t s ht hs (ground arith))))
  ]
]
