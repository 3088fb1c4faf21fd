-- ===== src/Windows/Week.antt =====
-- The spans of the week hold exactly the minutes at which the window is active.
use familyfi.Base.{
  ℕ, ◌+◌, ◌*◌, ◌%◌, ◌<◌, ◌≡◌, ◌≢◌, inl, inr, refl, Bool, false, ◌&&◌, ◌||◌, some, List, [], ◌∷◌,
  ◌++◌, arith, ltb, leb, ◌==◌, has, unique, Bool-cases, Option-cases, All, ◌∙◌, has-unique,
  All-unique,
}
use familyfi.Windows.{
  RuleWindowSpec, Span, day, times, active_at, is_window_active, spans_of, week_spans_at,
  week_spans,
}
use familyfi.Windows.Bands.{times-ne}

-- A minute of the week lies in one of the spans.
unfoldable pub within : List Span → ℕ → Bool
within [] t = false
within ((x, y) ∷ spans) t = leb x t && ltb t y || within spans t

within-append : (xs ys : List Span) (t : ℕ) → within (xs ++ ys) t ≡ (within xs t || within ys t)
unfolding within
within-append [] ys t = refl
within-append ((x, y) ∷ xs) ys t = ground (arith, within-append xs ys t)

module _ (weekday minutes start length : ℕ) (a : weekday < 7) (b : minutes < day) (c : start < day)
    (short : length < day) where
  -- The spans of the occurrence that starts on day `d`, at a minute of the week.
  occurrence-within :
      (d : ℕ)
      → d < 7
      → within (spans_of start length (d ∷ [])) (weekday * day + minutes) ≡ (
          (d == weekday && leb start minutes && ltb minutes (start + length))
          || (d == (weekday + 6) % 7 && ltb (minutes + day) (start + length)))
  unfolding within spans_of
  occurrence-within d h = ground arith

  spans_of-cons :
      (d : ℕ) (days : List ℕ) (t : ℕ)
      → within (spans_of start length (d ∷ days)) t
        ≡ (within (spans_of start length (d ∷ [])) t || within (spans_of start length days) t)
  unfolding within spans_of
  spans_of-cons d days t = ground arith

  spans_of-within :
      (days : List ℕ)
      → All (λ d. d < 7) days
      → within (spans_of start length days) (weekday * day + minutes) ≡ (
          (has days weekday && leb start minutes && ltb minutes (start + length))
          || (has days ((weekday + 6) % 7) && ltb (minutes + day) (start + length)))
  unfolding has
  spans_of-within [] h = unfold within spans_of in refl
  spans_of-within (d ∷ days) (h, hs) =
      spans_of-cons d days _ ∙ ground (arith, occurrence-within d h, spans_of-within days hs)

week_spans_at-within :
    (days : List ℕ) (weekday minutes start end_ : ℕ)
    → weekday < 7
    → minutes < day
    → start < day
    → end_ < day
    → start ≢ end_
    → All (λ d. d < 7) days
    → within (week_spans_at days (some (start, end_))) (weekday * day + minutes)
      ≡ active_at days weekday minutes (some (start, end_))
unfolding week_spans_at active_at
week_spans_at-within days weekday minutes start end_ a b c d apart h =
    spans_of-within weekday minutes start _ a b c (ground arith) (unique days) (All-unique _ days h)
    ∙ rw (has-unique days weekday, has-unique days ((weekday + 6) % 7)) (ground arith)

-- The times of a window, where they can be read, are within a day.
abbrev pub HasDayTimes : RuleWindowSpec → Type 0
HasDayTimes w = (start end_ : ℕ) → times w ≡ some (start, end_) → (start < day) × (end_ < day)

-- A minute of the week lies in `weekSpans` exactly when `isWindowActive` holds at that minute of
-- that weekday, if the days are weekdays and the times are within a day.
pub week_spans-within :
    (w : RuleWindowSpec) (weekday minutes : ℕ)
    → weekday < 7
    → minutes < day
    → All (λ d. d < 7) w.days
    → HasDayTimes w
    → within (week_spans w) (weekday * day + minutes) ≡ is_window_active w weekday minutes
unfolding week_spans is_window_active
week_spans-within w weekday minutes a b h ht = elim (Bool-cases w.always) [
  | inl on ↦ rw on (unfold within in ground arith)
  | inr off ↦ elim (Option-cases (times w)) [
    | inl bad ↦ simp (off, bad) (unfold within week_spans_at active_at in refl)
    | inr ((start, end_), e) ↦
        let (s, t) = ht start end_ e in
        simp (off, e)
          (week_spans_at-within w.days weekday minutes start end_ a b s t (times-ne w start end_ e)
            h)
  ]
]
