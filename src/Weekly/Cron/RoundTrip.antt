-- ===== src/Weekly/Cron/RoundTrip.antt =====
-- The cron text of a schedule reads back as the schedule.
use familyfi.Base.{
  ℕ, ◌+◌, ◌-◌, ◌*◌, ◌/◌, ◌%◌, ◌≤◌, ◌<◌, ◌≡◌, refl, sym, ap, ◌∙◌, inl, inr, true, false, ◌&&◌, ◌||◌,
  Option, none, some, List, [], ◌∷◌, ◌++◌, ltb, leb, Text, codes, unique, sort, has, has-sort,
  has-unique, trim, trim_start, trim_end, trim_end-before, is_space, arith, Bool-cases,
}
use familyfi.Clock.{is_digit, two_digits}
use familyfi.Weekly.Cron.{
  WeeklySchedule, is_clock_hour, is_clock_minute, hour_and_minute, are_days, short_decimal,
  join_days, cron_text, cron_on, weekly_cron, second_digit, read_number, read_days, padded,
  scheduled, match_cron, parse_weekly_cron, or_default,
}

read_number-short_decimal :
    (n : ℕ) (rest : Text) → n < 100 → read_number (short_decimal n ++ b' ' ∷ rest) ≡ some (n, rest)
unfolding read_number second_digit is_digit two_digits
read_number-short_decimal n rest l = elim (Bool-cases (ltb n 10)) [
  | inl short ↦
      let digit : (leb 48 (48 + n) && leb (48 + n) 57) ≡ true = ground arith in
      let back : 48 + n - 48 ≡ n = omega arith in rw (short) (rw digit (rw back refl))
  | inr long ↦
      let first : (leb 48 (48 + n / 10) && leb (48 + n / 10) 57) ≡ true = ground arith in
      let second : (leb 48 (48 + n % 10) && leb (48 + n % 10) 57) ≡ true = ground arith in
      let back : (48 + n / 10 - 48) * 10 + (48 + n % 10 - 48) ≡ n = omega arith in
      rw long (rw (first, second) (rw back refl))
]

read_days-join_days :
    (d : ℕ) (days : List ℕ)
    → are_days (d ∷ days) ≡ true
    → read_days (join_days (d ∷ days)) ≡ some (d ∷ days)
unfolding read_days join_days are_days
read_days-join_days d [] h =
    let day : (leb 48 (48 + d) && leb (48 + d) 54) ≡ true = ground arith in
    let back : 48 + d - 48 ≡ d = omega arith in rw day (rw back refl)
read_days-join_days d (e ∷ days) h =
    let day : (leb 48 (48 + d) && leb (48 + d) 54) ≡ true = ground arith in
    let back : 48 + d - 48 ≡ d = omega arith in
    rw (read_days-join_days e days (ground arith), day) (rw back refl)

digit-solid : (d : ℕ) → d ≤ 6 → is_space (48 + d) ≡ false
unfolding is_space
digit-solid d l = ground arith

trim_end-join_days :
    (d : ℕ) (days : List ℕ)
    → are_days (d ∷ days) ≡ true
    → trim_end (join_days (d ∷ days)) ≡ join_days (d ∷ days)
unfolding join_days are_days trim_end
trim_end-join_days d [] h =
    let solid : is_space (48 + d) ≡ false = digit-solid d (ground arith) in rw solid refl
trim_end-join_days d (e ∷ []) h =
    trim_end-before ((48 + d) ∷ 44 ∷ []) (48 + e) [] (trim_end-join_days e [] (ground arith))
trim_end-join_days d (e ∷ f ∷ days) h =
    trim_end-before ((48 + d) ∷ 44 ∷ []) (48 + e) (44 ∷ join_days (f ∷ days))
      (trim_end-join_days e (f ∷ days) (ground arith))

is_clock_hour-two_digits :
    (a b : ℕ)
    → is_clock_hour a b ≡ true
    → (a ∷ b ∷ [] ≡ padded (two_digits a b)) × (two_digits a b ≤ 23)
unfolding is_digit two_digits
is_clock_hour-two_digits a b h =
    let first : 48 ≤ a = ground (arith, h) in
    let second : (48 ≤ b) × (b ≤ 57) = ground (arith, h) in
    let bound : (a - 48) * 10 + (b - 48) ≤ 23 = ground (arith, h) in
    let tens : a ≡ 48 + ((a - 48) * 10 + (b - 48)) / 10 =
      omega (arith, first, second.0, second.1) in
    let ones : b ≡ 48 + ((a - 48) * 10 + (b - 48)) % 10 =
      omega (arith, first, second.0, second.1) in
    (cc, bound)

is_clock_minute-two_digits :
    (a b : ℕ)
    → is_clock_minute a b ≡ true
    → (a ∷ b ∷ [] ≡ padded (two_digits a b)) × (two_digits a b ≤ 59)
unfolding is_digit two_digits
is_clock_minute-two_digits a b h =
    let first : (48 ≤ a) × (a ≤ 53) = ground (arith, h) in
    let second : (48 ≤ b) × (b ≤ 57) = ground (arith, h) in
    let bound : (a - 48) * 10 + (b - 48) ≤ 59 =
      omega (arith, first.0, first.1, second.0, second.1) in
    let tens : a ≡ 48 + ((a - 48) * 10 + (b - 48)) / 10 =
      omega (arith, first.0, second.0, second.1) in
    let ones : b ≡ 48 + ((a - 48) * 10 + (b - 48)) % 10 =
      omega (arith, first.0, second.0, second.1) in
    (cc, bound)

hour_and_minute-padded :
    (time : Text) (hour minute : ℕ)
    → hour_and_minute time ≡ some (hour, minute)
    → (time ≡ padded hour ++ b':' ∷ padded minute) × (hour ≤ 23) × (minute ≤ 59)
unfolding hour_and_minute is_digit two_digits
hour_and_minute-padded [] hour minute h = absurd (cc)
hour_and_minute-padded (a ∷ []) hour minute h = absurd (cc)
hour_and_minute-padded (a ∷ b ∷ []) hour minute h = absurd (cc)
hour_and_minute-padded (a ∷ b ∷ c ∷ []) hour minute h = absurd (cc)
hour_and_minute-padded (a ∷ b ∷ c ∷ d ∷ []) hour minute h = absurd (cc)
hour_and_minute-padded (a ∷ b ∷ c ∷ d ∷ e ∷ f ∷ s) hour minute h = absurd (cc)
hour_and_minute-padded (a ∷ b ∷ c ∷ d ∷ e ∷ []) hour minute h =
    let hourly : is_clock_hour a b ≡ true = ground (arith, h) in
    let colon : c ≡ 58 = ground (arith, h) in
    let minutely : is_clock_minute d e ≡ true = ground (arith, h) in
    let hours : two_digits a b ≡ hour = ground (arith, h) in
    let minutes : two_digits d e ≡ minute = ground (arith, h) in
    let (left, left_bound) = is_clock_hour-two_digits a b hourly in
    let (right, right_bound) = is_clock_minute-two_digits d e minutely in
    let before : a ∷ b ∷ [] ≡ padded hour = left ∙ ap padded hours in
    let after : d ∷ e ∷ [] ≡ padded minute = right ∙ ap padded minutes in
    let text : a ∷ b ∷ c ∷ d ∷ e ∷ [] ≡ padded hour ++ b':' ∷ padded minute =
      ap (λ x. x ++ c ∷ d ∷ e ∷ []) before
      ∙ ap (λ x. padded hour ++ x ∷ d ∷ e ∷ []) colon
      ∙ ap (λ x. padded hour ++ b':' ∷ x) after in
    (text, omega (arith, left_bound, hours), omega (arith, right_bound, minutes))

trim_start-short_decimal :
    (n : ℕ) (s : Text) → n < 100 → trim_start (short_decimal n ++ s) ≡ short_decimal n ++ s
unfolding trim_start is_space
trim_start-short_decimal n s l = elim (Bool-cases (ltb n 10)) [
  | inl short ↦ let solid : is_space (48 + n) ≡ false = ground arith in rw short (rw solid refl)
  | inr long ↦ let solid : is_space (48 + n / 10) ≡ false = ground arith in rw long (rw solid refl)
]

trim_end-before-join_days :
    (s : Text) (d : ℕ) (days : List ℕ)
    → are_days (d ∷ days) ≡ true
    → trim_end (s ++ join_days (d ∷ days)) ≡ s ++ join_days (d ∷ days)
unfolding join_days
trim_end-before-join_days s d [] h = trim_end-before s (48 + d) [] (trim_end-join_days d [] h)
trim_end-before-join_days s d (e ∷ days) h =
    trim_end-before s (48 + d) (44 ∷ join_days (e ∷ days)) (trim_end-join_days d (e ∷ days) h)

trim-cron_text :
    (hour minute d : ℕ) (days : List ℕ)
    → minute < 100
    → are_days (d ∷ days) ≡ true
    → trim (cron_text hour minute (d ∷ days)) ≡ cron_text hour minute (d ∷ days)
unfolding trim cron_text
trim-cron_text hour minute d days l h =
    let stars : Text = codes " * * " ++ join_days (d ∷ days) in
    ap trim_end (trim_start-short_decimal minute (b' ' ∷ (short_decimal hour ++ stars)) l)
    ∙ trim_end-before (short_decimal minute) b' ' (short_decimal hour ++ stars) (
        trim_end-before (b' ' ∷ short_decimal hour) b' ' (codes "* * " ++ join_days (d ∷ days))
          (trim_end-before-join_days (codes " * * ") d days h))

match_cron-cron_text :
    (hour minute d : ℕ) (days : List ℕ)
    → hour ≤ 23
    → minute ≤ 59
    → are_days (d ∷ days) ≡ true
    → match_cron (cron_text hour minute (d ∷ days)) ≡ some (scheduled minute hour (d ∷ days))
unfolding match_cron cron_text
match_cron-cron_text hour minute d days hour_bound minute_bound h =
    let stars : Text = codes "* * " ++ join_days (d ∷ days) in
    let first : read_number (short_decimal minute ++ b' ' ∷ (short_decimal hour ++ b' ' ∷ stars))
        ≡ some (minute, short_decimal hour ++ b' ' ∷ stars) =
      read_number-short_decimal minute (short_decimal hour ++ b' ' ∷ stars)
        (omega (arith, minute_bound)) in
    let second : read_number (short_decimal hour ++ b' ' ∷ stars) ≡ some (hour, stars) =
      read_number-short_decimal hour stars (omega (arith, hour_bound)) in
    let third : read_days (join_days (d ∷ days)) ≡ some (d ∷ days) = read_days-join_days d days h in
    rw first (rw second (rw third refl))

scheduled-time :
    (hour minute : ℕ) (days : List ℕ)
    → hour ≤ 23
    → minute ≤ 59
    → ((scheduled minute hour days).time ≡ padded hour ++ b':' ∷ padded minute)
      × ((scheduled minute hour days).days ≡ sort (unique days))
unfolding scheduled
scheduled-time hour minute days l k =
    let inside : (ltb 59 minute || ltb 23 hour) ≡ false = ground (arith, l, k) in
    rw inside (refl, refl)

cron_on-parse_weekly_cron :
    (time : Option (ℕ × ℕ)) (days : List ℕ) (s text : Text)
    → hour_and_minute s ≡ time
    → cron_on time days ≡ some text
    → ((parse_weekly_cron text).time ≡ s)
      × ((d : ℕ) → has (parse_weekly_cron text).days d ≡ has days d)
unfolding cron_on parse_weekly_cron
cron_on-parse_weekly_cron none days s text m h = absurd cc
cron_on-parse_weekly_cron (some t) [] s text m h = absurd cc
cron_on-parse_weekly_cron (some (hour, minute)) (d ∷ days) s text m h =
    let valid : are_days (d ∷ days) ≡ true = ground (arith, h) in
    let written : cron_text hour minute (d ∷ days) ≡ text = ground (arith, h) in
    let (same, hour_bound, minute_bound) = hour_and_minute-padded s hour minute m in
    let (time, kept) = scheduled-time hour minute (d ∷ days) hour_bound minute_bound in
    let read : parse_weekly_cron text ≡ scheduled minute hour (d ∷ days) =
      sym (ap parse_weekly_cron written)
      ∙ ap (λ x. or_default (match_cron x))
          (trim-cron_text hour minute d days (omega (arith, minute_bound)) valid)
      ∙ ap or_default (match_cron-cron_text hour minute d days hour_bound minute_bound valid) in
    (
      ap (λ x. x.time) read ∙ time ∙ sym same,
      λ k.
          ap (λ x. has x.days k) read
          ∙ ap (λ x. has x k) kept
          ∙ has-sort (unique (d ∷ days)) k
          ∙ has-unique (d ∷ days) k,
    )

-- When `weeklyCron` accepts a schedule, `parseWeeklyCron` of its text has the schedule's time and
-- exactly the schedule's days.
pub weekly_cron-parse_weekly_cron :
    (s : WeeklySchedule) (text : Text)
    → weekly_cron s ≡ some text
    → ((parse_weekly_cron text).time ≡ s.time)
      × ((d : ℕ) → has (parse_weekly_cron text).days d ≡ has s.days d)
unfolding weekly_cron
weekly_cron-parse_weekly_cron s text h =
    let (time, days) =
      cron_on-parse_weekly_cron (hour_and_minute s.time) (sort (unique s.days)) s.time text refl
        h in
    (time, λ d. days d ∙ has-sort (unique s.days) d ∙ has-unique s.days d)
