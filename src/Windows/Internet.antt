-- ===== src/Windows/Internet.antt =====
-- lib/rule-windows.ts: a group's internet state at an instant. Instants are milliseconds; the
-- source keeps a pause's end as an ISO text and prints ends as ISO texts, here they stay instants.
pub mod State
mod Tests
use familyfi.Base.{
  ℕ, ◌+◌, ◌-◌, ◌*◌, ◌^◌, Bool, true, false, ◌&&◌, Option, none, some, List, [], ◌∷◌, map, ltb, leb,
  if◌then◌else◌, or_else, Text, trim, keep, longest, soonest, sort_by,
}
use familyfi.Clock.{Zone, next_clock_on_days, bedtime_end_days}
use familyfi.Windows.{RuleWindowSpec, is_window_active}

pub record InternetWindow : Type 0 where
  pub spec : RuleWindowSpec
  pub rule_name : Text

pub record Actor : Type 0 where
  pub account_id : Option Text
  pub name : Text

-- A pause or an allowance.
pub record Lift : Type 0 where
  pub active : Bool
  pub until : Option ℕ
  pub by : Option Actor

pub record InternetGroup : Type 0 where
  pub suspension : Lift
  pub allowance : Lift

pub data InternetState : Type 0 where
  paused : Option ℕ → Option Actor → InternetState
  blocked : Text → Option ℕ → InternetState
  allowed : Option Text → Option ℕ → Option Actor → InternetState
  online : Option (Text × ℕ) → InternetState
  no_rule : InternetState

abbrev nonempty_or : Text → Text → Text
nonempty_or [] d = d
nonempty_or (c ∷ s) d = c ∷ s

pub window_title : InternetWindow → Text
window_title w = nonempty_or (trim w.spec.name) w.rule_name

unfoldable pub is_active_until : Lift → ℕ → Bool
is_active_until l now = l.active && or_else_forever l.until
  where
    or_else_forever : Option ℕ → Bool
    or_else_forever none = true
    or_else_forever (some until) = ltb now until

-- `end?.getTime() ?? Number.MAX_SAFE_INTEGER`.
abbrev pub lasts : Option ℕ → ℕ
lasts end_ = or_else end_ (2 ^ 53 - 1)

abbrev pub Ending : Type 0
Ending = InternetWindow × Option ℕ

abbrev pub ending_lasts : Ending → ℕ
ending_lasts e = lasts e.1

abbrev first_start : List (InternetWindow × ℕ) → Option (Text × ℕ)
first_start [] = none
first_start ((w, at) ∷ rest) = some (window_title w, at)

abbrev first_title : List Ending → Option Text
first_title [] = none
first_title ((w, end_) ∷ rest) = some (window_title w)

module _ (z : Zone) where
  local_weekday : ℕ → ℕ
  local_weekday now = (z.zoned_parts now).weekday

  local_minutes : ℕ → ℕ
  local_minutes now = let parts = z.zoned_parts now in parts.hour * 60 + parts.minute

  -- `isWindowActive(window, now, timeZone)`.
  pub is_active_now : RuleWindowSpec → ℕ → Bool
  unfolding local_weekday local_minutes
  is_active_now w now = is_window_active w (local_weekday now) (local_minutes now)

  pub window_ends_at : RuleWindowSpec → ℕ → Option ℕ
  window_ends_at w now =
      if w.always
      then none
      else if is_active_now w now
      then next_clock_on_days z (bedtime_end_days w.days w.start w.end_) w.end_ now
      else none

  pub next_window_start : RuleWindowSpec → ℕ → Option ℕ
  next_window_start w now = if w.always then none else next_clock_on_days z w.days w.start now

  -- The active windows with their ends, the one active longest first.
  pub active_endings : List InternetWindow → ℕ → List Ending
  active_endings windows now =
      sort_by (longest ending_lasts)
        (map (λ w. (w, window_ends_at w.spec now)) (keep (λ w. is_active_now w.spec now) windows))

  -- Each window with a next start, paired with it.
  starts : List InternetWindow → ℕ → List (InternetWindow × ℕ)
  starts [] now = []
  starts (w ∷ ws) now = elim (next_window_start w.spec now) [
    | none ↦ starts ws now
    | some at ↦ (w, at) ∷ starts ws now
  ]

  -- What is left when neither a pause nor an allowance stands.
  by_windows : List InternetWindow → ℕ → List Ending → InternetState
  unfolding starts
  by_windows windows now ((w, end_) ∷ rest) = blocked (window_title w) end_
  by_windows [] now [] = no_rule
  by_windows (w ∷ ws) now [] =
      online (first_start (sort_by (soonest (λ s. s.1)) (starts (w ∷ ws) now)))

  pub internet_state : InternetGroup → List InternetWindow → ℕ → InternetState
  unfolding by_windows active_endings
  internet_state g windows now =
      if is_active_until g.suspension now
      then paused g.suspension.until g.suspension.by
      else if is_active_until g.allowance now
      then allowed (first_title (active_endings windows now)) g.allowance.until g.allowance.by
      else by_windows windows now (active_endings windows now)
