-- ===== src/Weekly.antt =====
-- server/weekly-schedule.ts: the next and the due run of a weekly schedule, at instants at least
-- eight days after the epoch. What the time zone says is the parameter `Zone` of the clock.
pub mod Cron
pub mod Due
mod Tests
use familyfi.Base.{
  ℕ, zero, suc, ◌+◌, ◌-◌, ◌*◌, Option, none, some, List, [], ◌∷◌, or_else, ltb, leb, if◌then◌else◌,
  Text, codes,
}
use familyfi.Clock.{Zone, day_ms, next_clock_on_days}

abbrev pub default_weekly_time : Text
default_weekly_time = codes "00:00"

abbrev pub default_weekly_days : List ℕ
default_weekly_days = 0 ∷ []

module _ (z : Zone) (hhmm : Text) (days : List ℕ) where
  -- `nextWeeklyRunAt`.
  unfoldable pub next_weekly_run_at : ℕ → ℕ
  next_weekly_run_at now =
      or_else (next_clock_on_days z days hhmm now)
        (or_else (next_clock_on_days z default_weekly_days default_weekly_time now) (now + day_ms))

  -- The loop of `dueWeeklyRunAt` from a run on, with fuel.
  due_from : ℕ → ℕ → ℕ → Option ℕ
  due_from zero now due = none
  due_from (suc fuel) now due =
      let next = next_weekly_run_at due in
      let later = due_from fuel now next in
      if leb due now then (if ltb now next then some due else later) else some due

  -- `dueWeeklyRunAt`.
  pub due_weekly_run_at : ℕ → Option ℕ
  unfolding due_from
  due_weekly_run_at now = due_from (suc now) now (next_weekly_run_at (now - 8 * day_ms))
