-- ===== src/Windows.antt =====
-- lib/rule-windows.ts: the recurring windows of a rule, on one day and on the week. `days` are the
-- days a window starts on, 0 = Sunday. The household's clock enters as a weekday and the minutes
-- after midnight.
pub mod Bands
pub mod Week
pub mod Meets
pub mod Overlaps
pub mod Internet
mod Tests
use familyfi.Base.{
  ℕ, zero, suc, ◌+◌, ◌-◌, ◌*◌, ◌%◌, Bool, true, false, ◌&&◌, ◌||◌, Option, none, some, List, [],
  ◌∷◌, ◌++◌, ltb, leb, ◌==◌, if◌then◌else◌, Text, has, unique, any,
}
use familyfi.Clock.{minutes_from_hhmm}

pub record RuleWindowSpec : Type 0 where
  pub name : Text
  pub days : List ℕ
  pub start : Text
  pub end_ : Text
  pub always : Bool

abbrev pub day : ℕ
day = 1440

-- The two times of a window in minutes, or nothing when one cannot be read or they are the same:
-- the guard that every function below begins with.
pub times : RuleWindowSpec → Option (ℕ × ℕ)
times w = elim (minutes_from_hhmm w.start) [
  | none ↦ none
  | some start ↦ elim (minutes_from_hhmm w.end_) [
    | none ↦ none
    | some end_ ↦ if start == end_ then none else some (start, end_)
  ]
]

active_at : List ℕ → ℕ → ℕ → Option (ℕ × ℕ) → Bool
active_at days weekday minutes none = false
active_at days weekday minutes (some (start, end_)) =
    if ltb start end_
    then has days weekday && leb start minutes && ltb minutes end_
    else if has days weekday && leb start minutes
    then true
    else has days ((weekday + 6) % 7) && ltb minutes end_

-- `isWindowActive`, at a reading of the household's clock.
pub is_window_active : RuleWindowSpec → ℕ → ℕ → Bool
unfolding active_at
is_window_active w weekday minutes =
    if w.always then true else active_at w.days weekday minutes (times w)

pub record Band : Type 0 where
  pub from : ℕ
  pub to : ℕ
  pub carried : Bool

abbrev band_if : Bool → Band → List Band
band_if true b = b ∷ []
band_if false b = []

bands_at : List ℕ → ℕ → Option (ℕ × ℕ) → List Band
bands_at days weekday none = []
bands_at days weekday (some (start, end_)) =
    band_if (ltb end_ start && has days ((weekday + 6) % 7))
      (record { from = 0; to = end_; carried = true })
    ++ band_if (has days weekday)
        (record { from = start; to = if ltb start end_ then end_ else day; carried = false })

-- `windowDayBands`: the window's bands on a day that is `weekday`.
pub window_day_bands : RuleWindowSpec → ℕ → List Band
unfolding bands_at
window_day_bands w weekday =
    if w.always
    then record { from = 0; to = day; carried = false } ∷ []
    else bands_at w.days weekday (times w)

abbrev pub Span : Type 0
Span = ℕ × ℕ

-- The spans of the occurrences that start on the given days, wrapped at the week's end.
spans_of : ℕ → ℕ → List ℕ → List Span
spans_of start length [] = []
spans_of start length (d ∷ days) =
    let from = d * day + start in
    let to = from + length in
    (if leb to (7 * day) then (from, to) ∷ [] else (from, 7 * day) ∷ (0, to - 7 * day) ∷ [])
    ++ spans_of start length days

week_spans_at : List ℕ → Option (ℕ × ℕ) → List Span
unfolding spans_of
week_spans_at days none = []
week_spans_at days (some (start, end_)) =
    spans_of start (if ltb start end_ then end_ - start else day - start + end_) (unique days)

-- `weekSpans`: a window's occurrences in minutes of the week from Sunday midnight.
pub week_spans : RuleWindowSpec → List Span
unfolding week_spans_at
week_spans w = if w.always then (0, 7 * day) ∷ [] else week_spans_at w.days (times w)

-- `x0 < y1 && y0 < x1`.
pub crosses : Span → Span → Bool
crosses (x0, x1) (y0, y1) = ltb x0 y1 && ltb y0 x1

pub meets : List Span → List Span → Bool
unfolding crosses
meets xs ys = any (λ x. any (crosses x) ys) xs

-- The inner loop of `windowOverlaps`: the window at `a` against those from index `b` on.
pairs_with : ℕ → List Span → ℕ → List (List Span) → List (ℕ × ℕ)
unfolding meets
pairs_with a xs b [] = []
pairs_with a xs b (ys ∷ spans) =
    let rest = pairs_with a xs (suc b) spans in if meets xs ys then (a, b) ∷ rest else rest

pairs_from : ℕ → List (List Span) → List (ℕ × ℕ)
unfolding pairs_with
pairs_from a [] = []
pairs_from a (xs ∷ spans) = pairs_with a xs (suc a) spans ++ pairs_from (suc a) spans

all_spans : List RuleWindowSpec → List (List Span)
unfolding week_spans
all_spans [] = []
all_spans (w ∷ ws) = week_spans w ∷ all_spans ws

-- `windowOverlaps`: the pairs of windows, by index, that block at the same time on some day.
pub window_overlaps : List RuleWindowSpec → List (ℕ × ℕ)
unfolding pairs_from all_spans
window_overlaps windows = pairs_from 0 (all_spans windows)
