-- ===== src/Schedule/Tests.antt =====
-- A schedule of every day of the week.
use familyfi.Base.{
  ◌≡◌, refl, arith, true, some, [], ◌∷◌, codes, has, text_eq, any, unique, unique_from, sort,
  insert_sorted,
}
use familyfi.Schedule.{
  Schedule, TimeFilter, every_day, assert_schedule, to_unifi_schedule, mapped, parse_hm, is_hour,
  is_minute,
}
use familyfi.Schedule.Days.{applies_on, times_of, to_unifi_schedule-applies_on}

abbrev daily : Schedule
daily = record {
  enabled = true;
  days = 0 ∷ 1 ∷ 2 ∷ 3 ∷ 4 ∷ 5 ∷ 6 ∷ 0 ∷ [];
  start = codes "21:00";
  end_ = codes "06:30";
}

abbrev night : TimeFilter
night = record { start_time = codes "21:00"; stop_time = codes "06:30" }

to_unifi_schedule-daily : to_unifi_schedule daily ≡ some (some (every_day night))
unfolding to_unifi_schedule assert_schedule mapped parse_hm is_hour is_minute text_eq any unique
    unique_from sort insert_sorted has
to_unifi_schedule-daily = refl

to_unifi_schedule-applies_on_example :
    (assert_schedule daily ≡ true)
    × (applies_on (every_day night) 3 ≡ has daily.days 3)
    × (times_of (every_day night) ≡ night)
to_unifi_schedule-applies_on_example =
    to_unifi_schedule-applies_on daily (every_day night) 3 to_unifi_schedule-daily (omega arith)
