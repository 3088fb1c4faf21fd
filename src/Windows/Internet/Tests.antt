-- ===== src/Windows/Internet/Tests.antt =====
-- The group's internet state at a concrete group, in a zone that is UTC.
use familyfi.Base.{
  ◌≡◌, ◌↔◌, refl, true, false, none, some, List, [], ◌∷◌, All, codes, sort_by, keep, insert_by,
  trim,
}
use familyfi.Clock.Tests.{utc}
use familyfi.Windows.{RuleWindowSpec, is_window_active}
use familyfi.Windows.Internet.{
  InternetWindow, InternetGroup, internet_state, is_active_until, is_active_now, window_ends_at,
  active_endings, by_windows, window_title,
}
use familyfi.Windows.Internet.State.{
  internet_state-blocked, internet_state_open_iff, LastsLongest, is_open,
}

abbrev always_on : RuleWindowSpec
always_on = record { name = []; days = []; start = []; end_ = []; always = true }

abbrev open_group : InternetGroup
open_group = record {
  suspension = record { active = false; until = none; by = none };
  allowance = record { active = true; until = some 5; by = none };
}

abbrev block_all : List InternetWindow
block_all = record { spec = always_on; rule_name = codes "Off" } ∷ []

internet_state-blocked_example :
    (is_active_until open_group.suspension 900 ≡ false)
    × (is_active_until open_group.allowance 900 ≡ false)
    × LastsLongest utc block_all 900 (codes "Off") none
unfolding internet_state active_endings by_windows is_active_now is_window_active window_ends_at
    keep sort_by insert_by is_active_until window_title trim
internet_state-blocked_example =
    internet_state-blocked utc 900 open_group block_all (codes "Off") none refl

internet_state_open_iff_example :
    (is_open utc 900 (internet_state utc open_group block_all 900) ≡ true) ↔ (
      (is_active_until open_group.suspension 900 ≡ false)
      × (is_active_until open_group.allowance 900 ≡ false)
      × All (λ v. is_active_now utc v.spec 900 ≡ false) block_all)
internet_state_open_iff_example = internet_state_open_iff utc 900 open_group block_all
