-- ===== src/Weekly/Due.antt =====
-- The run that is due.
use familyfi.Base.{
  ℕ, zero, suc, ◌+◌, ◌-◌, ◌*◌, ◌≤◌, ◌<◌, ◌≡◌, ◌⊎◌, refl, inl, inr, true, Option, none, some, List,
  or_else, ltb, leb, Text, arith, Bool-cases,
}
use familyfi.Clock.{Zone, day_ms, next_clock_on_days}
use familyfi.Clock.Next.{next_clock_on_days_after}
use familyfi.Weekly.{
  next_weekly_run_at, due_from, due_weekly_run_at, default_weekly_days, default_weekly_time,
}

or_else-later :
    (o : Option ℕ) (now other : ℕ)
    → ((t : ℕ) → o ≡ some t → now < t)
    → now < other
    → now < or_else o other
or_else-later none now other h l = l
or_else-later (some t) now other h l = h t refl

module _ (z : Zone) (hhmm : Text) (days : List ℕ) where
  next_weekly_run_at_later : (now : ℕ) → now < next_weekly_run_at z hhmm days now
  unfolding next_weekly_run_at
  next_weekly_run_at_later now =
      or_else-later (next_clock_on_days z days hhmm now) now _
        (λ t e. (next_clock_on_days_after z days now hhmm t e).0)
        (or_else-later (next_clock_on_days z default_weekly_days default_weekly_time now) now
          (now + day_ms)
          (λ t e. (next_clock_on_days_after z default_weekly_days now default_weekly_time t e).0)
          (omega arith))

  -- The instant is a run, the next one after an instant at most eight days before `now`.
  abbrev pub IsRun : ℕ → ℕ → Type 0
  IsRun now t =
      (before : ℕ) × (now - 8 * day_ms ≤ before) × (t ≡ next_weekly_run_at z hhmm days before)

  -- The run is the last one that is not in the future; or it is the first after eight days ago, and
  -- in the future.
  abbrev pub IsDue : ℕ → ℕ → Type 0
  IsDue now t =
      (IsRun now t × (t ≤ now) × (now < next_weekly_run_at z hhmm days t))
      ⊎ ((now < t) × (t ≡ next_weekly_run_at z hhmm days (now - 8 * day_ms)))

  IsRun-after : (now due : ℕ) → IsRun now due → now - 8 * day_ms ≤ due
  IsRun-after now due (before, since, e) =
      let later = next_weekly_run_at_later before in omega (arith, since, e, later)

  due_from_ends :
      (fuel now due : ℕ)
      → now < due + fuel
      → due ≤ now
      → IsRun now due
      → (t : ℕ) × (due_from z hhmm days fuel now due ≡ some t) × IsDue now t
  unfolding due_from
  due_from_ends zero now due h l run = absurd (omega arith)
  due_from_ends (suc fuel) now due h l run =
      let next = next_weekly_run_at z hhmm days due in
      let later = next_weekly_run_at_later due in
      let past : leb due now ≡ true = ground arith in
      elim (Bool-cases (ltb now next)) [
        | inl future ↦ rw (past, future) (due, refl, inl (run, l, ground arith))
        | inr again ↦
            rw (past, again)
              (due_from_ends fuel now next (omega arith) (ground arith)
                (due, IsRun-after now due run, refl))
      ]

  -- `dueWeeklyRunAt` ends, with fuel for as many rounds as there are milliseconds up to now, whatever
  -- the schedule and the time zone are: its answer is either a run, the next after an instant at most
  -- eight days before now, that is not after now while the run next after it is, or the first run after eight days before now, when that one is after now.
  pub due_weekly_run_at_ends :
      (now : ℕ) → (t : ℕ) × (due_weekly_run_at z hhmm days now ≡ some t) × IsDue now t
  unfolding due_weekly_run_at
  due_weekly_run_at_ends now =
      let first = next_weekly_run_at z hhmm days (now - 8 * day_ms) in
      elim (Bool-cases (leb first now)) [
        | inl past ↦
            due_from_ends (suc now) now first (omega arith) (ground arith)
              (now - 8 * day_ms, omega arith, refl)
        | inr future ↦ unfold due_from in rw future (first, refl, inr (ground arith, refl))
      ]
