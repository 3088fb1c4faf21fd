-- ===== src/Clock/Tests.antt =====
-- The next time of a clock reading, in a zone that is UTC and numbers its days from 1970.
use familyfi.Base.{ℕ, ◌+◌, ◌*◌, ◌/◌, ◌%◌}
use familyfi.Clock.{Zone}

abbrev pub utc : Zone
utc = record {
  zoned_parts = λ t. record {
    year = 1970;
    month = 1;
    day = t / 86400000;
    weekday = (t / 86400000 + 4) % 7;
    hour = t / 3600000 % 24;
    minute = t / 60000 % 60;
  };
  date_utc = λ year month day hour minute. day * 86400000 + hour * 3600000 + minute * 60000;
  utc_date = λ t. record { year = 1970; month = 1; day = t / 86400000 };
}

-- 1970-01-03 07:30, the first Saturday.
abbrev saturday : ℕ
saturday = 2 * 86400000 + 27000000
