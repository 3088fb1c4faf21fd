-- ===== src/RulePlan/Tests.antt =====
-- A rule on one group with one device.
use familyfi.Base.{◌≡◌, true, false, none, some, List, [], ◌∷◌, codes}
use familyfi.Names.{always}
use familyfi.Plan.{PlanDevice, assigned}
use familyfi.RulePlan.Rule.{PlanRule, domain, groups}
use familyfi.RulePlan.Gather.{gather_devices, nothing_gathered}
use familyfi.RulePlan.Gather.Live.{is_listed, is_covered, gather_devices-is_listed}

abbrev no_games : PlanRule
no_games = record {
  id = codes "r1";
  name = codes "No games";
  use_generated_name = false;
  kind = domain;
  scope = groups;
  group_ids = codes "g1" ∷ [];
  network_ids = [];
  target_ids = [];
  domains = codes "games.example" ∷ [];
  countries = none;
  block_private_relay = none;
  enabled = true;
  paused = false;
  system = false;
  lifted_group_ids = [];
  mode = always;
  windows = [];
}

abbrev tablet : List PlanDevice
tablet =
    record {
      mac = codes "aa";
      assignment = assigned;
      group_id = some (codes "g1");
      zone_id = some (codes "z1");
      in_scope = none;
    }
    ∷ []

gather_devices-is_listed_example :
    is_listed true
      (codes "z1")
      (codes "aa")
      (gather_devices (codes "g1" ∷ []) no_games tablet nothing_gathered).buckets
    ≡ is_covered (codes "g1" ∷ []) no_games true (codes "z1") (codes "aa") tablet
gather_devices-is_listed_example =
    gather_devices-is_listed no_games true (codes "z1") (codes "aa") (codes "g1" ∷ []) tablet
