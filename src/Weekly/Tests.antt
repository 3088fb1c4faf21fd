-- ===== src/Weekly/Tests.antt =====
-- The run that is due on the second Sunday.
use familyfi.Base.{ℕ, ◌*◌, ◌≡◌, some, [], ◌∷◌, codes}
use familyfi.Clock.Tests.{utc}
use familyfi.Weekly.{due_weekly_run_at}
use familyfi.Weekly.Due.{IsDue, due_weekly_run_at_ends}

-- 1970-01-15.
abbrev thursday : ℕ
thursday = 14 * 86400000

due_weekly_run_at_ends_example :
    (t : ℕ) × (due_weekly_run_at utc (codes "03:00") (0 ∷ []) thursday ≡ some t)
    × IsDue utc (codes "03:00") (0 ∷ []) thursday t
due_weekly_run_at_ends_example = due_weekly_run_at_ends utc (codes "03:00") (0 ∷ []) thursday
