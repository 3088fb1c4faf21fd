-- ===== src/Verdict/Tests.antt =====
-- A sweep with one blocked domain and one that is not.
use familyfi.Base.{◌≤◌, true, false, some, List, [], ◌∷◌}
use familyfi.Verdict.{DomainProbe, roll_up_verdict}
use familyfi.Verdict.Sound.{Claims, roll_up_verdict-Claims}

abbrev probes : List DomainProbe
probes = record { blocked = some true } ∷ record { blocked = some false } ∷ []

roll_up_verdict-Claims_example :
    Claims (roll_up_verdict probes).verdict probes
    × ((roll_up_verdict probes).blocked_count ≤ (roll_up_verdict probes).total_count)
roll_up_verdict-Claims_example = roll_up_verdict-Claims probes
