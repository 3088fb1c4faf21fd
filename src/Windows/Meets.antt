-- ===== src/Windows/Meets.antt =====
-- Two sets of spans meet exactly when some minute of the week lies in both.
use familyfi.Base.{
  ℕ, ◌+◌, ◌*◌, ◌<◌, ◌≤◌, ◌≡◌, inl, inr, true, List, [], ◌∷◌, arith, leb, any, max, unique, All,
  All-unique, Bool-cases, Option-cases,
}
use familyfi.Windows.{
  RuleWindowSpec, Span, day, times, crosses, meets, spans_of, week_spans_at, week_spans,
}
use familyfi.Windows.Bands.{times-ne}
use familyfi.Windows.Week.{within, HasDayTimes}

-- A span that holds a minute and ends within the week.
abbrev pub IsSpan : Span → Type 0
IsSpan (x, y) = (x < y) × (y ≤ 7 * day)

abbrev pub Shares : List Span → List Span → Type 0
Shares xs ys = (t : ℕ) × (t < 7 * day) × (within xs t ≡ true) × (within ys t ≡ true)

Shares-cons_right : (xs ys : List Span) (y : Span) → Shares xs ys → Shares xs (y ∷ ys)
unfolding within
Shares-cons_right xs ys (y0, y1) (t, l, a, b) = (t, l, a, ground arith)

Shares-cons_left : (xs ys : List Span) (x : Span) → Shares xs ys → Shares (x ∷ xs) ys
unfolding within
Shares-cons_left xs ys (x0, x1) (t, l, a, b) = (t, l, ground arith, b)

crosses_sound :
    (x : Span) (xs ys : List Span)
    → IsSpan x
    → All IsSpan ys
    → any (crosses x) ys ≡ true
    → Shares (x ∷ xs) ys
unfolding any within crosses
crosses_sound (x0, x1) xs [] h hs e = absurd (cc)
crosses_sound (x0, x1) xs ((y0, y1) ∷ ys) h (k, ks) e =
    elim (Bool-cases (crosses (x0, x1) (y0, y1))) [
      | inl hit ↦ (max x0 y0, ground arith, ground arith, ground arith)
      | inr miss ↦
          Shares-cons_right ((x0, x1) ∷ xs) ys (y0, y1)
            (crosses_sound (x0, x1) xs ys h ks (ground arith))
    ]

meets_sound :
    (xs ys : List Span) → All IsSpan xs → All IsSpan ys → meets xs ys ≡ true → Shares xs ys
unfolding any meets
meets_sound [] ys h k e = absurd (cc)
meets_sound (x ∷ xs) ys (h, hs) k e = elim (Bool-cases (any (crosses x) ys)) [
  | inl hit ↦ crosses_sound x xs ys h k hit
  | inr miss ↦ Shares-cons_left xs ys x (meets_sound xs ys hs k (ground arith))
]

crosses_complete :
    (x0 x1 : ℕ) (ys : List Span) (t : ℕ)
    → x0 ≤ t
    → t < x1
    → within ys t ≡ true
    → any (crosses (x0, x1)) ys ≡ true
unfolding any within crosses
crosses_complete x0 x1 [] t a b e = e
crosses_complete x0 x1 ((y0, y1) ∷ ys) t a b e = ground (arith, crosses_complete x0 x1 ys t a b)

meets_complete :
    (xs ys : List Span) (t : ℕ) → within xs t ≡ true → within ys t ≡ true → meets xs ys ≡ true
unfolding any meets within
meets_complete [] ys t a b = a
meets_complete ((x0, x1) ∷ xs) ys t a b =
    ground (arith, meets_complete xs ys t, crosses_complete x0 x1 ys t)

spans_of-IsSpan :
    (start length : ℕ) (days : List ℕ)
    → start < day
    → 0 < length
    → length < day
    → All (λ d. d < 7) days
    → All IsSpan (spans_of start length days)
unfolding spans_of
spans_of-IsSpan start length [] a b c h = tt
spans_of-IsSpan start length (d ∷ days) a b c (h, hs) =
    let rest = spans_of-IsSpan start length days a b c hs in
    elim (Bool-cases (leb (d * day + start + length) (7 * day))) [
      | inl fits ↦ rw fits ((omega arith, ground arith), rest)
      | inr wraps ↦ rw wraps ((omega arith, omega arith), ((ground arith, omega arith), rest))
    ]

pub week_spans-IsSpan :
    (w : RuleWindowSpec) → All (λ d. d < 7) w.days → HasDayTimes w → All IsSpan (week_spans w)
unfolding week_spans
week_spans-IsSpan w h ht = elim (Bool-cases w.always) [
  | inl on ↦ rw on ((omega arith, omega arith), tt)
  | inr off ↦ elim (Option-cases (times w)) [
    | inl bad ↦ simp (off, bad) (unfold week_spans_at in tt)
    | inr ((start, end_), e) ↦
        let (s, t) = ht start end_ e in
        let apart = times-ne w start end_ e in
        simp (off, e)
          (unfold week_spans_at in
            spans_of-IsSpan start _ (unique w.days) s (ground arith) (ground arith)
              (All-unique _ w.days h))
  ]
]

pub meets_iff_Shares :
    (xs ys : List Span)
    → All IsSpan xs
    → All IsSpan ys
    → (meets xs ys ≡ true → Shares xs ys) × (Shares xs ys → meets xs ys ≡ true)
meets_iff_Shares xs ys h k = (meets_sound xs ys h k, λ (t, l, a, b). meets_complete xs ys t a b)
