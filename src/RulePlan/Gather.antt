-- ===== src/RulePlan/Gather.antt =====
-- The loops of `planRulePolicies` over the devices and the networks of one rule.
pub mod Live
use familyfi.Base.{
  ℕ, zero, suc, Bool, true, false, not, ◌&&◌, ◌||◌, Option, none, some, List, [], ◌∷◌, ◌++◌, map,
  ltb, if◌then◌else◌, Text, codes, text_eq, includes, keep, length, sort_by, soonest, or_else,
}
use familyfi.Names.{
  NamedRule, PolicyMode, always, scheduled, rule_policy_names, LockDnsPart, ports, addresses,
  addresses_v6, names, private_relay, lock_dns_parts, lock_dns_policy_name,
}
use familyfi.Plan.{PlanDevice, AssignmentState, assigned, quarantined, given, is_out_of_scope}
use familyfi.Schedule.{UnifiFirewallSchedule, to_unifi_schedule}
use familyfi.Scope.{NetworkScope, network_in_scope}
use familyfi.Sync.Drift.{text_leb, unique_texts}
use familyfi.RulePlan.Rule.{
  RuleKind, internet, domain, category, app, RuleScope, groups, network, PlanRuleWindow, PlanRule,
  PlanRuleNetwork, LockDnsTargets, PlannedRulePolicy, lock_dns_rule_id, countries_rule_id,
  always_window, planned_rule_key, RuleWindow, is_nonempty, rule_windows,
}

pub record RuleBucket : Type 0 where
  pub zone : Text
  pub macs : List Text
  pub live : List Text
  pub network_ids : List Text

abbrev empty_bucket : Text → RuleBucket
empty_bucket zone = record { zone = zone; macs = []; live = []; network_ids = [] }

-- `bucket(zoneId)`, with what is then pushed on it.
pub with_bucket : Text → (RuleBucket → RuleBucket) → List RuleBucket → List RuleBucket
with_bucket zone change [] = change (empty_bucket zone) ∷ []
with_bucket zone change (b ∷ bs) =
    if text_eq b.zone zone then change b ∷ bs else b ∷ with_bucket zone change bs

-- What the devices or networks of one rule come to: its buckets, and whether the rule is put into
-- `retainRuleIds` and `orphanRuleIds`.
pub record Gathered : Type 0 where
  pub buckets : List RuleBucket
  pub retained : Bool
  pub orphaned : Bool

abbrev pub nothing_gathered : Gathered
nothing_gathered = record { buckets = []; retained = false; orphaned = false }

abbrev pub is_assigned : AssignmentState → Bool
is_assigned assigned = true
is_assigned quarantined = false

-- The group of a device that the rule covers: the filter on `input.devices`.
pub covered_group : List Text → PlanRule → PlanDevice → Option Text
covered_group known rule d = elim (given d.group_id) [
  | none ↦ none
  | some g ↦
      if includes (keep (includes known) rule.group_ids) g
        && is_assigned d.assignment
        && is_nonempty d.mac
      then some g
      else none
]

push_device : PlanRule → Text → Text → RuleBucket → RuleBucket
push_device rule g mac b = record b {
  macs = b.macs ++ mac ∷ [];
  live = if includes rule.lifted_group_ids g then b.live else b.live ++ mac ∷ [];
}

place_device : PlanRule → Text → Text → Option Text → Gathered → Gathered
unfolding push_device with_bucket
place_device rule g mac none s = record s { retained = true }
place_device rule g mac (some zone) s = record s {
  buckets = with_bucket zone (push_device rule g mac) s.buckets;
}

-- One round of the loop over the devices.
pub gather_device : List Text → PlanRule → PlanDevice → Gathered → Gathered
unfolding covered_group place_device
gather_device known rule d s = elim (covered_group known rule d) [
  | none ↦ s
  | some g ↦
      place_device rule g d.mac (if is_out_of_scope d.in_scope then none else given d.zone_id) s
]

pub gather_devices : List Text → PlanRule → List PlanDevice → Gathered → Gathered
unfolding gather_device
gather_devices known rule [] s = s
gather_devices known rule (d ∷ ds) s = gather_devices known rule ds (gather_device known rule d s)

find_network : List PlanRuleNetwork → Text → Option PlanRuleNetwork
find_network [] id = none
find_network (n ∷ ns) id =
    let later = find_network ns id in
    elim later [ some last ↦ some last | none ↦ if text_eq n.id id then some n else none ]

network_zone : List PlanRuleNetwork → Text → Option Text
unfolding find_network
network_zone networks id = elim (find_network networks id) [
  | none ↦ none
  | some n ↦ given n.zone_id
]

gather_networks : List PlanRuleNetwork → List Text → Gathered → Gathered
unfolding network_zone with_bucket
gather_networks networks [] s = s
gather_networks networks (id ∷ ids) s = elim (network_zone networks id) [
  | none ↦ gather_networks networks ids (record s { retained = true })
  | some zone ↦ gather_networks networks ids (record s {
    buckets = with_bucket zone (λ b. record b { network_ids = b.network_ids ++ id ∷ [] }) s.buckets;
  })
]

abbrev is_internet : RuleKind → Bool
is_internet internet = true
is_internet _ = false

-- The part for a rule on networks.
gather_network_rule : NetworkScope → List PlanRuleNetwork → PlanRule → Gathered
unfolding gather_networks
gather_network_rule scope networks rule =
    let ids =
      sort_by text_leb
        (keep (λ id. network_in_scope scope (some id)) (unique_texts [] rule.network_ids)) in
    if is_internet rule.kind
    then nothing_gathered
    else if is_nonempty ids
    then gather_networks networks ids
        (record nothing_gathered { retained = ltb (length ids) (length rule.network_ids) })
    else record nothing_gathered {
      orphaned = not (text_eq rule.id lock_dns_rule_id || text_eq rule.id countries_rule_id);
    }

abbrev pub is_network : RuleScope → Bool
is_network network = true
is_network groups = false

pub gather : List Text → List PlanDevice → NetworkScope → List PlanRuleNetwork → PlanRule → Gathered
unfolding gather_network_rule gather_devices
gather known devices scope networks rule =
    if is_network rule.scope
    then gather_network_rule scope networks rule
    else gather_devices known rule devices nothing_gathered
