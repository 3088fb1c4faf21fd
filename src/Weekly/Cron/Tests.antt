-- ===== src/Weekly/Cron/Tests.antt =====
-- Runs of the weekly schedule as cron.
use familyfi.Base.{◌≡◌, refl, some, none, [], ◌∷◌, codes, has, ℕ, sort, unique, trim}
use familyfi.Clock.{is_digit, two_digits}
use familyfi.Weekly.Cron.{WeeklySchedule, weekly_cron, parse_weekly_cron}
use familyfi.Weekly.Cron.RoundTrip.{weekly_cron-parse_weekly_cron}

abbrev school_week : WeeklySchedule
school_week = record { days = 5 ∷ 1 ∷ 3 ∷ 1 ∷ []; time = codes "06:45" }

abbrev no_days : WeeklySchedule
no_days = record { days = []; time = codes "06:45" }

abbrev day_seven : WeeklySchedule
day_seven = record { days = 7 ∷ []; time = codes "06:45" }

weekly_cron_test : weekly_cron school_week ≡ some (codes "45 6 * * 1,3,5")
unfolding weekly_cron is_digit sort unique two_digits
weekly_cron_test = refl

no_days_test : weekly_cron no_days ≡ none
unfolding weekly_cron is_digit sort unique
no_days_test = refl

day_seven_test : weekly_cron day_seven ≡ none
unfolding weekly_cron is_digit sort unique
day_seven_test = refl

bad_hour_test : (parse_weekly_cron (codes "5 24 * * 1")).days ≡ 0 ∷ []
unfolding parse_weekly_cron trim is_digit two_digits
bad_hour_test = refl

weekly_cron-parse_weekly_cron_example :
    ((parse_weekly_cron (codes "45 6 * * 1,3,5")).time ≡ codes "06:45")
    × ((d : ℕ)
        → has (parse_weekly_cron (codes "45 6 * * 1,3,5")).days d ≡ has (5 ∷ 1 ∷ 3 ∷ 1 ∷ []) d)
weekly_cron-parse_weekly_cron_example =
    weekly_cron-parse_weekly_cron school_week (codes "45 6 * * 1,3,5") weekly_cron_test
