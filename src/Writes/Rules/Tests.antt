-- ===== src/Writes/Rules/Tests.antt =====
-- The write of a planned block of two apps for a network.
use familyfi.Base.{
  includes, false, sort_by, ◌≡◌, refl, true, none, some, [], ◌∷◌, Text, codes, unique, unique_from,
  sort, insert_sorted, has,
}
use familyfi.Payload.{undefined, bool, str, arr, FirewallPolicyWrite}
use familyfi.Sync.Drift.{sorted_unique}
use familyfi.RulePlan.Rule.{app, LockDnsTargets, PlannedRulePolicy}
use familyfi.Writes.{
  BlockInput, two_fields, text_items, to_applications, dpi_app_network_block_policy,
  network_source_filter, application_ids, block_write,
}
use familyfi.Writes.Rules.{
  common_input, schedule_value, rule_policy_write, write_for_part, unlocked_write, kind_write,
}
use familyfi.Writes.Rules.Faithful.{IsWriteOf, rule_policy_write-IsWriteOf}

abbrev no_targets : LockDnsTargets
no_targets = record { allowed = []; ipv4 = []; ipv6 = []; hosts = [] }

abbrev block_apps : PlannedRulePolicy
block_apps = record {
  key = codes "r:w:z1";
  rule_id = codes "r";
  window_key = codes "w";
  zone_id = codes "z1";
  destination_zone_id = codes "wan";
  kind = app;
  target_ids = 9 ∷ 7 ∷ [];
  domains = [];
  countries = [];
  mac_addresses = [];
  network_ids = codes "n1" ∷ [];
  by_network = true;
  enabled = true;
  schedule = none;
  name = codes "FamilyFi Games";
  lock_dns = none;
  lock_dns_targets = none;
}

abbrev as_is : Text → Text
as_is s = s

abbrev given : BlockInput
given = record {
  name = codes "FamilyFi Games";
  source_zone_id = codes "z1";
  destination_zone_id = codes "wan";
  enabled = some true;
  action = none;
  schedule = undefined;
  description = none;
}

abbrev written : FirewallPolicyWrite
written =
    block_write given (codes "FamilyFi managed network app block.")
      (two_fields (codes "type") (str (codes "NETWORK")) (codes "networkFilter") (
        two_fields (codes "matchOpposite") (bool false) (codes "networkIds")
          (arr (text_items (codes "n1" ∷ [])))))
      (to_applications given (7 ∷ 9 ∷ []))

block_apps-written : rule_policy_write as_is no_targets block_apps ≡ some written
unfolding rule_policy_write write_for_part unlocked_write kind_write dpi_app_network_block_policy
    network_source_filter application_ids common_input schedule_value sorted_unique sort_by unique
    unique_from sort insert_sorted has includes
block_apps-written = refl

rule_policy_write-IsWriteOf_example : IsWriteOf as_is no_targets block_apps written
rule_policy_write-IsWriteOf_example =
    rule_policy_write-IsWriteOf as_is no_targets block_apps written block_apps-written
