-- ===== src/Names/Tests.antt =====
-- The names of a rule with two windows.
use familyfi.Base.{◌≡◌, false, [], ◌∷◌, codes, length, All}
use familyfi.Names.{NamedRule, scheduled, rule_policy_names}
use familyfi.Names.Bounded.{IsPolicyName, policy_count, rule_policy_names-IsPolicyName}

abbrev homework : NamedRule
homework = record {
  id = codes "abcd1234";
  name = codes " Homework ";
  use_generated_name = false;
  mode = scheduled;
  windows = codes "Evening" ∷ [] ∷ [];
}

rule_policy_names-IsPolicyName_example :
    All IsPolicyName (rule_policy_names homework (codes "IoT"))
    × (length (rule_policy_names homework (codes "IoT")) ≡ policy_count homework)
rule_policy_names-IsPolicyName_example = rule_policy_names-IsPolicyName homework (codes "IoT")
