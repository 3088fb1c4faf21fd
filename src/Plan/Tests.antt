-- ===== src/Plan/Tests.antt =====
-- A quarantined device and a group's.
use familyfi.Base.{◌≡◌, true, none, some, List, [], ◌∷◌, codes}
use familyfi.Plan.{PlanDevice, assigned, quarantined, plan_policies}
use familyfi.Plan.Quarantine.{covers_mac, to_quarantine, plan_policies-covers_mac}

abbrev devices : List PlanDevice
devices =
    record {
      mac = codes "aa";
      assignment = quarantined;
      group_id = none;
      zone_id = some (codes "z1");
      in_scope = some true;
    }
    ∷ record {
      mac = codes "bb";
      assignment = assigned;
      group_id = some (codes "g1");
      zone_id = some (codes "z1");
      in_scope = none;
    }
    ∷ []

plan_policies-covers_mac_example :
    covers_mac
      (codes "z1")
      (codes "aa")
      (plan_policies (λ _. none) (codes "wan") none (codes "g1" ∷ []) devices).0
    ≡ to_quarantine (codes "g1" ∷ []) (codes "z1") (codes "aa") devices
plan_policies-covers_mac_example =
    plan_policies-covers_mac (λ _. none) (codes "wan") none (codes "g1" ∷ []) devices (codes "z1")
      (codes "aa")
