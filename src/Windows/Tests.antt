-- ===== src/Windows/Tests.antt =====
-- The properties of the windows at concrete windows.
use familyfi.Base.{◌+◌, ◌*◌, ◌≡◌, ◌↔◌, refl, false, some, [], ◌∷◌, arith, All, Memᴰ, codes}
use familyfi.Clock.{minutes_from_hhmm, two_digits, is_digit}
use familyfi.Windows.{
  RuleWindowSpec, day, times, is_window_active, window_day_bands, week_spans, window_overlaps,
}
use familyfi.Windows.Bands.{covers, window_day_bands-covers}
use familyfi.Windows.Week.{within, week_spans-within, HasDayTimes}
use familyfi.Windows.Overlaps.{window_overlaps_iff, BlockTogether, IsWeekly}

abbrev overnight : RuleWindowSpec
overnight = record {
  name = codes "Night";
  days = 6 ∷ 0 ∷ [];
  start = codes "21:30";
  end_ = codes "06:15";
  always = false;
}

abbrev sunday : RuleWindowSpec
sunday = record {
  name = [];
  days = 0 ∷ [];
  start = codes "05:00";
  end_ = codes "07:00";
  always = false;
}

window_day_bands-covers_example :
    covers (window_day_bands overnight 0) 300 ≡ is_window_active overnight 0 300
window_day_bands-covers_example = window_day_bands-covers overnight 0 300 (omega arith)

times-overnight : times overnight ≡ some (1290, 375)
unfolding times minutes_from_hhmm is_digit two_digits
times-overnight = refl

times-sunday : times sunday ≡ some (300, 420)
unfolding times minutes_from_hhmm is_digit two_digits
times-sunday = refl

overnight-HasDayTimes : HasDayTimes overnight
overnight-HasDayTimes start end_ e = ground (arith, times-overnight)

sunday-HasDayTimes : HasDayTimes sunday
sunday-HasDayTimes start end_ e = ground (arith, times-sunday)

week_spans-within_example :
    within (week_spans overnight) (0 * day + 300) ≡ is_window_active overnight 0 300
week_spans-within_example =
    week_spans-within overnight 0 300 (omega arith) (omega arith) (omega arith, (omega arith, tt))
      overnight-HasDayTimes

two_windows-IsWeekly : All IsWeekly (overnight ∷ sunday ∷ [])
two_windows-IsWeekly = (
  record { weekdays = (omega arith, (omega arith, tt)); within_day = overnight-HasDayTimes },
  (record { weekdays = (omega arith, tt); within_day = sunday-HasDayTimes }, tt),
)

window_overlaps_iff_example :
    Memᴰ (0, 1) (window_overlaps (overnight ∷ sunday ∷ []))
    ↔ BlockTogether (overnight ∷ sunday ∷ []) 0 1
window_overlaps_iff_example = window_overlaps_iff (overnight ∷ sunday ∷ []) 0 1 two_windows-IsWeekly
