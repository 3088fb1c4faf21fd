-- ===== src/RulePlan/Rule.antt =====
-- The rules of a plan and `ruleWindows`. `none` stands for the exception of `toUnifiSchedule`. The Lock
-- DNS targets, which lock-dns.ts computes, are an argument.
use familyfi.Base.{
  ℕ, Bool, true, false, Option, none, some, List, [], ◌∷◌, ◌++◌, map, if◌then◌else◌, Text, codes,
  text_eq, keep, sort_by, soonest, or_else,
}
use familyfi.Names.{
  PolicyMode, always, scheduled, LockDnsPart, ports, addresses, addresses_v6, names, private_relay,
  lock_dns_parts,
}
use familyfi.Schedule.{UnifiFirewallSchedule, to_unifi_schedule}

pub data RuleKind : Type 0 where
  internet domain category app : RuleKind

pub data RuleScope : Type 0 where
  groups network : RuleScope

pub record PlanRuleWindow : Type 0 where
  pub id : Text
  pub position : ℕ
  pub name : Text
  pub days : List ℕ
  pub start : Text
  pub end_ : Text

pub record PlanRule : Type 0 where
  pub id : Text
  pub name : Text
  pub use_generated_name : Bool
  pub kind : RuleKind
  pub scope : RuleScope
  pub group_ids : List Text
  pub network_ids : List Text
  pub target_ids : List ℕ
  pub domains : List Text
  pub countries : Option (List Text)
  pub block_private_relay : Option Bool
  pub enabled : Bool
  pub paused : Bool
  pub system : Bool
  pub lifted_group_ids : List Text
  pub mode : PolicyMode
  pub windows : List PlanRuleWindow

pub record PlanRuleNetwork : Type 0 where
  pub id : Text
  pub name : Text
  pub zone_id : Option Text

pub record LockDnsTargets : Type 0 where
  pub allowed : List Text
  pub ipv4 : List Text
  pub ipv6 : List Text
  pub hosts : List Text

pub record PlannedRulePolicy : Type 0 where
  pub key : Text
  pub rule_id : Text
  pub window_key : Text
  pub zone_id : Text
  pub destination_zone_id : Text
  pub kind : RuleKind
  pub target_ids : List ℕ
  pub domains : List Text
  pub countries : List Text
  pub mac_addresses : List Text
  pub network_ids : List Text
  pub by_network : Bool
  pub enabled : Bool
  pub schedule : Option UnifiFirewallSchedule
  pub name : Text
  pub lock_dns : Option LockDnsPart
  pub lock_dns_targets : Option LockDnsTargets

abbrev pub lock_dns_rule_id : Text
lock_dns_rule_id = codes "dns"

abbrev pub countries_rule_id : Text
countries_rule_id = codes "countries"

abbrev pub always_window : Text
always_window = codes "always"

-- `plannedRuleKey`.
pub planned_rule_key : Text → Text → Text → Text
planned_rule_key rule_id window_key zone_id =
    codes "rule:" ++ rule_id ++ codes ":" ++ window_key ++ codes "|" ++ zone_id

-- What `ruleWindows` answers; a Lock DNS part is kept beside the id that names it.
pub record RuleWindow : Type 0 where
  pub id : Text
  pub name : Text
  pub schedule : Option UnifiFirewallSchedule
  pub part : Option LockDnsPart

abbrev part_id : LockDnsPart → Text
part_id ports = codes "ports"
part_id addresses = codes "addresses"
part_id addresses_v6 = codes "addresses-v6"
part_id names = codes "names"
part_id private_relay = codes "private-relay"

abbrev pub is_nonempty {ℓ} : {A : Type ℓ} → List A → Bool
is_nonempty [] = false
is_nonempty (x ∷ xs) = true

-- A part with a list of targets has a policy only while the list has any.
part_has_targets : LockDnsTargets → LockDnsPart → Bool
part_has_targets t ports = true
part_has_targets t addresses = is_nonempty t.ipv4
part_has_targets t addresses_v6 = is_nonempty t.ipv6
part_has_targets t names = is_nonempty t.hosts
part_has_targets t private_relay = true

part_window : LockDnsPart → RuleWindow
part_window part = record { id = part_id part; name = []; schedule = none; part = some part }

scheduled_windows : List PlanRuleWindow → Option (List RuleWindow)
scheduled_windows [] = some []
scheduled_windows (w ∷ ws) =
    elim (to_unifi_schedule
      (record { enabled = true; days = w.days; start = w.start; end_ = w.end_ })) [
        | none ↦ none
        | some schedule ↦ elim (scheduled_windows ws) [
          | none ↦ none
          | some rest ↦
              some (record { id = w.id; name = w.name; schedule = schedule; part = none } ∷ rest)
        ]
      ]

-- `ruleWindows`.
pub rule_windows : PlanRule → LockDnsTargets → Option (List RuleWindow)
unfolding part_has_targets part_window scheduled_windows
rule_windows rule targets =
    if text_eq rule.id lock_dns_rule_id
    then some (
        map part_window (
          keep (part_has_targets targets)
            (lock_dns_parts (or_else rule.block_private_relay false))))
    else elim rule.mode [
      | always ↦ some (record { id = always_window; name = []; schedule = none; part = none } ∷ [])
      | scheduled ↦ scheduled_windows (sort_by (soonest (λ w. w.position)) rule.windows)
    ]
