-- ===== src/RulePlan/Policies.antt =====
-- The policies that `planRulePolicies` makes of the rules and what they gathered.
use familyfi.Base.{
  Bool, not, ◌&&◌, ◌||◌, Option, none, some, List, [], ◌∷◌, ◌++◌, map, if◌then◌else◌, Text, text_eq,
  sort_by, or_else,
}
use familyfi.Names.{always, scheduled, rule_policy_names, ports, lock_dns_policy_name}
use familyfi.Plan.{PlanDevice}
use familyfi.Scope.{NetworkScope}
use familyfi.Sync.Drift.{text_leb}
use familyfi.RulePlan.Rule.{
  PlanRule, PlanRuleNetwork, LockDnsTargets, PlannedRulePolicy, lock_dns_rule_id, planned_rule_key,
  RuleWindow, is_nonempty, rule_windows,
}
use familyfi.RulePlan.Gather.{RuleBucket, Gathered, nothing_gathered, is_network, gather}

-- The names of the rule's policies in a zone, in the order of its windows.
policy_names : PlanRule → List RuleWindow → Text → List Text
policy_names rule windows zone_name =
    if text_eq rule.id lock_dns_rule_id
    then map (λ w. lock_dns_policy_name (or_else w.part ports) zone_name) windows
    else rule_policy_names
        (record {
          id = rule.id;
          name = rule.name;
          use_generated_name = rule.use_generated_name;
          mode = rule.mode;
          windows = elim rule.mode [ always ↦ [] | scheduled ↦ map (λ w. w.name) windows ];
        })
        zone_name

module _ (destination : Text) (targets : LockDnsTargets) (rule : PlanRule) (b : RuleBucket) where
  -- One policy of the rule, for one window in one zone.
  pub rule_policy : RuleWindow → Text → PlannedRulePolicy
  rule_policy w name = record {
    key = planned_rule_key rule.id w.id b.zone;
    rule_id = rule.id;
    window_key = w.id;
    zone_id = b.zone;
    destination_zone_id = destination;
    kind = rule.kind;
    target_ids = rule.target_ids;
    domains = rule.domains;
    countries = or_else rule.countries [];
    mac_addresses =
        if is_network rule.scope then [] else if is_nonempty b.live then b.live else b.macs;
    network_ids = if is_network rule.scope then sort_by text_leb b.network_ids else [];
    by_network = is_network rule.scope;
    enabled = rule.enabled && not rule.paused && (is_network rule.scope || is_nonempty b.live);
    schedule = w.schedule;
    name = name;
    lock_dns = if text_eq rule.id lock_dns_rule_id then w.part else none;
    lock_dns_targets = if text_eq rule.id lock_dns_rule_id then some targets else none;
  }

  -- `windows.forEach`; there is a name for every window.
  window_policies : List RuleWindow → List Text → List PlannedRulePolicy
  unfolding rule_policy
  window_policies [] titles = []
  window_policies (w ∷ ws) [] = rule_policy w [] ∷ window_policies ws []
  window_policies (w ∷ ws) (title ∷ titles) = rule_policy w title ∷ window_policies ws titles

  bucket_is_empty : Bool
  bucket_is_empty =
      if is_network rule.scope then not (is_nonempty b.network_ids) else not (is_nonempty b.macs)

module _ (zone_name : Text → Option Text) (destination : Text) (targets : LockDnsTargets) where
  -- The loop over the buckets.
  rule_policies : PlanRule → List RuleWindow → List RuleBucket → List PlannedRulePolicy
  unfolding window_policies bucket_is_empty policy_names
  rule_policies rule windows [] = []
  rule_policies rule windows (b ∷ bs) =
      let later = rule_policies rule windows bs in
      if bucket_is_empty destination targets rule b
      then later
      else window_policies destination targets rule b windows
          (policy_names rule windows (or_else (zone_name b.zone) b.zone))
        ++ later

  module _ (known : List Text) (devices : List PlanDevice) (networks : List PlanRuleNetwork)
      (scope : NetworkScope) where
    -- What one rule adds.
    pub plan_rule : PlanRule → Option (List PlannedRulePolicy × Gathered)
    unfolding rule_policies
    plan_rule rule =
        if rule.system && not rule.enabled
        then some ([], nothing_gathered)
        else elim (rule_windows rule targets) [
          | none ↦ none
          | some windows ↦
              if is_nonempty windows
              then (let found = gather known devices scope networks rule in
                  some (rule_policies rule windows found.buckets, found))
              else some ([], nothing_gathered)
        ]

    -- `planRulePolicies`: the policies, `retainRuleIds` and `orphanRuleIds`.
    pub plan_rule_policies : List PlanRule → Option (List PlannedRulePolicy × List Text × List Text)
    unfolding plan_rule
    plan_rule_policies [] = some ([], [], [])
    plan_rule_policies (rule ∷ rules) = elim (plan_rule rule) [
      | none ↦ none
      | some (policies, found) ↦ elim (plan_rule_policies rules) [
        | none ↦ none
        | some (later, retained, orphaned) ↦ some (
          policies ++ later,
          (if found.retained then rule.id ∷ retained else retained),
          (if found.orphaned then rule.id ∷ orphaned else orphaned),
        )
      ]
    ]
