-- ===== src/Schedule.antt =====
-- lib/schedule.ts and server/unifi/schedule-map.ts: a rule window's schedule, checked and put into
-- UniFi's form. `none` stands for the exception of `parseHm` and of `assertSchedule`.
pub mod Days
mod Tests
use familyfi.Base.{
  ℕ, ◌+◌, ◌-◌, ◌*◌, Bool, true, false, not, ◌&&◌, ◌||◌, Option, none, some, List, [], ◌∷◌, ltb, leb,
  ◌==◌, if◌then◌else◌, Text, text_eq, any, unique, sort, length,
}

pub record Schedule : Type 0 where
  pub enabled : Bool
  pub days : List ℕ
  pub start : Text
  pub end_ : Text

pub record Suspension : Type 0 where
  pub active : Bool
  pub until : Option ℕ

pub record HourMinute : Type 0 where
  pub hour : ℕ
  pub minute : ℕ

abbrev is_digit : ℕ → Bool
is_digit c = leb b'0' c && leb c b'9'

-- `[01]\d|2[0-3]`.
is_hour : ℕ → ℕ → Bool
is_hour a b = (a == b'0' || a == b'1') && is_digit b || a == b'2' && leb b'0' b && leb b b'3'

-- `[0-5]\d`.
is_minute : ℕ → ℕ → Bool
is_minute a b = leb b'0' a && leb a b'5' && is_digit b

abbrev number_of : ℕ → ℕ → ℕ
number_of a b = (a - b'0') * 10 + (b - b'0')

-- `parseHm`.
pub parse_hm : Text → Option HourMinute
unfolding is_hour is_minute
parse_hm (a ∷ b ∷ c ∷ d ∷ e ∷ []) =
    if is_hour a b && c == b':' && is_minute d e
    then some (record { hour = number_of a b; minute = number_of d e })
    else none
parse_hm _ = none

abbrev is_read : Option HourMinute → Bool
is_read none = false
is_read (some t) = true

abbrev is_empty : List ℕ → Bool
is_empty [] = true
is_empty (d ∷ days) = false

-- `assertSchedule`: whether it returns; days are whole numbers of the model already.
pub assert_schedule : Schedule → Bool
unfolding parse_hm
assert_schedule s =
    is_read (parse_hm s.start)
    && is_read (parse_hm s.end_)
    && not (text_eq s.start s.end_)
    && not (s.enabled && is_empty s.days)
    && not (any (λ day. ltb 6 day) s.days)

-- `isSuspended`.
pub is_suspended : Suspension → ℕ → Bool
is_suspended s now = s.active && before s.until
  where
    before : Option ℕ → Bool
    before none = true
    before (some until) = ltb now until

-- `extendSuspensionUntil`.
pub extend_suspension_until : Option ℕ → ℕ → ℕ → ℕ
extend_suspension_until none now add_ms = now + add_ms
extend_suspension_until (some until) now add_ms = (if ltb now until then until else now) + add_ms

pub record TimeFilter : Type 0 where
  pub start_time : Text
  pub stop_time : Text

-- The weekdays of `repeatOnDays` by their place in `UNIFI_DAYS`, 0 for SUNDAY.
pub data UnifiFirewallSchedule : Type 0 where
  every_day : TimeFilter → UnifiFirewallSchedule
  every_week : List ℕ → TimeFilter → UnifiFirewallSchedule

mapped : List ℕ → TimeFilter → UnifiFirewallSchedule
mapped days times = if length days == 7 then every_day times else every_week days times

-- `toUnifiSchedule`: `some none` for a schedule that is off.
pub to_unifi_schedule : Schedule → Option (Option UnifiFirewallSchedule)
unfolding assert_schedule mapped
to_unifi_schedule s =
    if not s.enabled
    then some none
    else if assert_schedule s
    then some
        (some (mapped (sort (unique s.days)) (record { start_time = s.start; stop_time = s.end_ })))
    else none
