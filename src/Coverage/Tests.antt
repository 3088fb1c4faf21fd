-- ===== src/Coverage/Tests.antt =====
-- An enforced group with one device and no policy.
use familyfi.Base.{true, none, some, List, [], ◌∷◌, keep, codes}
use familyfi.Plan.{assigned}
use familyfi.Coverage.{CoveredGroup, CoverageDevice, coverage_issues}
use familyfi.Coverage.Sound.{ReportOf, lacks_policy, coverage_issues-ReportOf}

abbrev kids : List CoveredGroup
kids = record { id = codes "g1"; name = codes "Kids"; enforced = true } ∷ []

abbrev tablet : List CoverageDevice
tablet =
    record {
      group_id = some (codes "g1");
      assignment = assigned;
      zone_id = some (codes "z1");
      in_scope = none;
    }
    ∷ []

coverage_issues-ReportOf_example :
    ReportOf (keep (lacks_policy []) kids) tablet (coverage_issues kids tablet [])
coverage_issues-ReportOf_example = coverage_issues-ReportOf kids tablet []
