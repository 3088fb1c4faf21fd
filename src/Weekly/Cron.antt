-- ===== src/Weekly/Cron.antt =====
-- server/weekly-schedule.ts: a weekly schedule as cron, `weeklyCron` and `parseWeeklyCron`. The regular
-- expressions are parsers: what follows a number or a day is never a digit.
pub mod RoundTrip
mod Tests
use familyfi.Base.{
  ℕ, ◌+◌, ◌-◌, ◌*◌, ◌/◌, ◌%◌, Bool, true, false, not, ◌&&◌, ◌||◌, Option, none, some, List, [], ◌∷◌,
  ◌++◌, ltb, leb, ◌==◌, if◌then◌else◌, Text, codes, unique, sort, trim,
}
use familyfi.Clock.{is_digit, two_digits}
use familyfi.Weekly.{default_weekly_time, default_weekly_days}

pub record WeeklySchedule : Type 0 where
  pub days : List ℕ
  pub time : Text

-- `([01]\d|2[0-3])`.
abbrev is_clock_hour : ℕ → ℕ → Bool
is_clock_hour a b = leb b'0' a && leb a b'1' && is_digit b || a == b'2' && leb b'0' b && leb b b'3'

-- `([0-5]\d)`.
abbrev is_clock_minute : ℕ → ℕ → Bool
is_clock_minute a b = leb b'0' a && leb a b'5' && is_digit b

-- The match of the time: its hour and its minute.
hour_and_minute : Text → Option (ℕ × ℕ)
hour_and_minute (a ∷ b ∷ c ∷ d ∷ e ∷ []) =
    if is_clock_hour a b && c == b':' && is_clock_minute d e
    then some (two_digits a b, two_digits d e)
    else none
hour_and_minute _ = none

-- Every day is from 0 to 6.
are_days : List ℕ → Bool
are_days [] = true
are_days (d ∷ days) = leb d 6 && are_days days

-- A number below 100 in decimal.
abbrev short_decimal : ℕ → Text
short_decimal n = if ltb n 10 then (b'0' + n) ∷ [] else (b'0' + n / 10) ∷ (b'0' + n % 10) ∷ []

-- `unique.join(",")`, of days of one digit.
join_days : List ℕ → Text
join_days [] = []
join_days (d ∷ []) = (b'0' + d) ∷ []
join_days (d ∷ e ∷ days) = (b'0' + d) ∷ b',' ∷ join_days (e ∷ days)

cron_text : ℕ → ℕ → List ℕ → Text
unfolding join_days
cron_text hour minute days =
    short_decimal minute ++ b' ' ∷ (short_decimal hour ++ (codes " * * " ++ join_days days))

-- The checks of the match of the time and of the days, which are natural numbers here.
cron_on : Option (ℕ × ℕ) → List ℕ → Option Text
unfolding are_days cron_text
cron_on none days = none
cron_on (some time) [] = none
cron_on (some (hour, minute)) (d ∷ days) =
    if are_days (d ∷ days) then some (cron_text hour minute (d ∷ days)) else none

-- `weeklyCron`; `none` is the exception.
pub weekly_cron : WeeklySchedule → Option Text
unfolding hour_and_minute cron_on
weekly_cron s = cron_on (hour_and_minute s.time) (sort (unique s.days))

-- `(\d{1,2})`, and the space after it.
abbrev after_space : ℕ → Text → Option (ℕ × Text)
after_space n [] = none
after_space n (c ∷ s) = if c == b' ' then some (n, s) else none

abbrev one_digit : ℕ → ℕ
one_digit a = a - b'0'

second_digit : ℕ → Text → Option (ℕ × Text)
second_digit a [] = none
second_digit a (b ∷ s) =
    if is_digit b then after_space (two_digits a b) s else after_space (one_digit a) (b ∷ s)

read_number : Text → Option (ℕ × Text)
unfolding second_digit
read_number [] = none
read_number (a ∷ s) = if is_digit a then second_digit a s else none

-- `\* \* `.
abbrev after_stars : Text → Option Text
after_stars (a ∷ b ∷ c ∷ d ∷ s) =
    if a == b'*' && b == b' ' && c == b'*' && d == b' ' then some s else none
after_stars _ = none

abbrev with_day : ℕ → Option (List ℕ) → Option (List ℕ)
with_day d none = none
with_day d (some days) = some (d ∷ days)

abbrev is_day : ℕ → Bool
is_day c = leb b'0' c && leb c b'6'

-- `([0-6](?:,[0-6])*)$`.
read_days : Text → Option (List ℕ)
read_days [] = none
read_days (c ∷ []) = if is_day c then some (one_digit c ∷ []) else none
read_days (c ∷ comma ∷ s) =
    let rest = read_days s in
    if is_day c && comma == b',' then with_day (one_digit c) rest else none

abbrev padded : ℕ → Text
padded n = (b'0' + n / 10) ∷ (b'0' + n % 10) ∷ []

abbrev default_schedule : WeeklySchedule
default_schedule = record { days = default_weekly_days; time = default_weekly_time }

-- What the match makes.
scheduled : ℕ → ℕ → List ℕ → WeeklySchedule
scheduled minute hour days =
    if ltb 59 minute || ltb 23 hour
    then default_schedule
    else record { days = sort (unique days); time = padded hour ++ b':' ∷ padded minute }

abbrev or_default : Option WeeklySchedule → WeeklySchedule
or_default none = default_schedule
or_default (some s) = s

infixl 5 ◌>>=◌
abbrev ◌>>=◌ : {A B : Type 0} → Option A → (A → Option B) → Option B
◌>>=◌ none k = none
◌>>=◌ (some a) k = k a

match_cron : Text → Option WeeklySchedule
unfolding read_number read_days scheduled
match_cron s = do
  (minute, after_minute) ← read_number s
  (hour, after_hour) ← read_number after_minute
  rest ← after_stars after_hour
  days ← read_days rest
  some (scheduled minute hour days)

-- `parseWeeklyCron`.
pub parse_weekly_cron : Text → WeeklySchedule
unfolding match_cron
parse_weekly_cron cron = or_default (match_cron (trim cron))
