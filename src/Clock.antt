-- ===== src/Clock.antt =====
-- lib/clock.ts: "HH:MM" texts and the next time a clock reading falls on given days. Instants are
-- milliseconds since 1970. What the source asks of `Intl.DateTimeFormat` and of `Date` is the
-- parameter `Zone`.
pub mod Next
pub mod Tests
use familyfi.Base.{
  ℕ, ◌+◌, ◌-◌, ◌*◌, ◌/◌, ◌%◌, Bool, true, false, ◌&&◌, Option, none, some, List, [], ◌∷◌, map, max,
  ltb, leb, ◌==◌, if◌then◌else◌, Text, has, unique, sort, keep, find,
}

unfoldable pub is_digit : ℕ → Bool
is_digit c = leb b'0' c && leb c b'9'

-- `Number` of two decimal digits.
unfoldable pub two_digits : ℕ → ℕ → ℕ
two_digits a b = (a - b'0') * 10 + (b - b'0')

-- `/^(\d{2}):(\d{2})$/`: any two digits on either side of the colon.
unfoldable pub minutes_from_hhmm : Text → Option ℕ
unfolding is_digit two_digits
minutes_from_hhmm (a ∷ b ∷ c ∷ d ∷ e ∷ []) =
    if is_digit a && is_digit b && c == b':' && is_digit d && is_digit e
    then some (two_digits a b * 60 + two_digits d e)
    else none
minutes_from_hhmm _ = none

-- The days on which an occurrence that starts on `days` ends.
pub bedtime_end_days : List ℕ → Text → Text → List ℕ
bedtime_end_days days start end_ = elim (minutes_from_hhmm start) [
  | none ↦ days
  | some from ↦ elim (minutes_from_hhmm end_) [
    | none ↦ days
    | some to ↦ if ltb from to then days else unique (map (λ day. (day + 1) % 7) days)
  ]
]

pub record ZonedParts : Type 0 where
  pub year : ℕ
  pub month : ℕ
  pub day : ℕ
  pub weekday : ℕ
  pub hour : ℕ
  pub minute : ℕ

pub record CalendarDay : Type 0 where
  pub year : ℕ
  pub month : ℕ
  pub day : ℕ

-- The time zone database and the calendar: `zonedParts`, `Date.UTC` (with the month from 1) and
-- the UTC date of an instant.
pub record Zone : Type 0 where
  pub zoned_parts : ℕ → ZonedParts
  pub date_utc : ℕ → ℕ → ℕ → ℕ → ℕ → ℕ
  pub utc_date : ℕ → CalendarDay

abbrev pub day_ms : ℕ
day_ms = 24 * 60 * 60 * 1000

abbrev next_eight_days : List ℕ
next_eight_days = 0 ∷ 1 ∷ 2 ∷ 3 ∷ 4 ∷ 5 ∷ 6 ∷ 7 ∷ []

abbrev is_empty : List ℕ → Bool
is_empty [] = true
is_empty (_ ∷ _) = false

-- `Math.max(...candidates)` of the three candidates.
abbrev latest : List ℕ → ℕ
latest [] = 0
latest (t ∷ ts) = max t (latest ts)

abbrev or_latest : List ℕ → List ℕ → List ℕ
or_latest candidates [] = latest candidates ∷ []
or_latest candidates (t ∷ ts) = sort (t ∷ ts)

module _ (z : Zone) where
  pub add_calendar_days : ℕ → ℕ → ℕ → ℕ → CalendarDay
  add_calendar_days year month day offset = z.utc_date (z.date_utc year month (day + offset) 0 0)

  -- The zone's clock reading at an instant, as if that reading were UTC.
  wall_clock : ℕ → ℕ
  wall_clock instant =
      let seen = z.zoned_parts instant in
      z.date_utc seen.year seen.month seen.day seen.hour seen.minute

  -- `wall - (wallClock(probe) - probe)`, with the terms that are added first.
  reading_at : ℕ → ℕ → ℕ
  unfolding wall_clock
  reading_at wall probe = wall + probe - wall_clock probe

  -- Every instant when the zone's clock reads the given wall time; a skipped time is read with the
  -- offset from before the jump.
  pub zoned_wall_times_to_utc : CalendarDay → ℕ → ℕ → List ℕ
  unfolding wall_clock reading_at
  zoned_wall_times_to_utc on hour minute =
      let wall = z.date_utc on.year on.month on.day hour minute in
      let candidates = map (reading_at wall) ((wall - day_ms) ∷ wall ∷ (wall + day_ms) ∷ []) in
      or_latest candidates (unique (keep (λ t. wall_clock t == wall) candidates))

  -- `days.includes(seen.weekday) && instant > now`.
  pub due_instant : List ℕ → ℕ → ℕ → Bool
  due_instant days now t = has days (z.zoned_parts t).weekday && ltb now t

  -- The loop over the day offsets, with the loop over the instants of one day inside.
  next_from : List ℕ → ℕ → ℕ → List ℕ → Option ℕ
  unfolding add_calendar_days zoned_wall_times_to_utc due_instant
  next_from days minutes now [] = none
  next_from days minutes now (offset ∷ offsets) =
      let today = z.zoned_parts now in
      let wall = add_calendar_days today.year today.month today.day offset in
      let later = next_from days minutes now offsets in
      elim (find (due_instant days now)
        (zoned_wall_times_to_utc wall (minutes / 60) (minutes % 60))) [
          | none ↦ later
          | some t ↦ some t
        ]

  pub next_clock_on_days : List ℕ → Text → ℕ → Option ℕ
  unfolding next_from
  next_clock_on_days days hhmm now = elim (minutes_from_hhmm hhmm) [
    | none ↦ none
    | some minutes ↦ if is_empty days then none else next_from days minutes now next_eight_days
  ]
