-- ===== src/Writes/Rules.antt =====
-- server/unifi/payloads.ts: the writes that block websites, DNS servers and countries, and
-- `rulePolicyWrite` of server/unifi/plan-rules.ts, which chooses the write of a planned policy. What
-- the runtime's `toLowerCase` does, and what Lock DNS blocks when its targets are not given, are
-- parameters.
pub mod Faithful
mod Tests
use familyfi.Base.{
  ℕ, Bool, true, false, Option, none, some, List, [], ◌∷◌, map, if◌then◌else◌, Text, codes, trim,
  has, keep, or_else, get_elem?,
}
use familyfi.Names.{LockDnsPart, ports, addresses, addresses_v6, names, private_relay}
use familyfi.Payload.{
  Value, undefined, bool, num, str, arr, obj, Items, no_items, item, no_fields, field,
  FirewallPolicyWrite,
}
use familyfi.Schedule.{UnifiFirewallSchedule, every_day, every_week, TimeFilter}
use familyfi.RulePlan.Rule.{
  RuleKind, internet, domain, category, app, LockDnsTargets, PlannedRulePolicy,
}
use familyfi.Sync.Drift.{sorted_unique}
use familyfi.Writes.{
  BlockInput, is_empty, text_items, num_items, one_field, two_fields, mac_filter, source_macs,
  network_source_filter, block_write, to_destination, internet_block_policy,
  dpi_category_block_policy, dpi_app_block_policy, dpi_category_network_block_policy,
  dpi_app_network_block_policy,
}

-- `{ networkIds }` or `{ macAddresses }`.
pub data Sources : Type 0 where
  of_networks of_macs : List Text → Sources

-- `deviceSourceFilter`.
device_source_filter : Sources → Option Value
device_source_filter (of_networks ids) = network_source_filter ids
device_source_filter (of_macs macs) = elim (source_macs macs) [
  | none ↦ none
  | some read ↦ some (mac_filter read)
]

-- A write that takes no description and no action of its own.
abbrev plain_input : BlockInput → BlockInput
plain_input input = record input { description = none; action = none }

module _ (to_lower_case : Text → Text) where
  -- The distinct domains, without the empty ones.
  clean_domains : List Text → List Text
  clean_domains domains = sorted_unique (keep non_empty (map (λ d. to_lower_case (trim d)) domains))
    where
      non_empty : Text → Bool
      non_empty [] = false
      non_empty (c ∷ s) = true

  website_write : BlockInput → Text → List Text → Value → FirewallPolicyWrite
  website_write input description domains source =
      block_write (plain_input input) description source (
        to_destination input (codes "DOMAIN") (codes "domainFilter") (
          two_fields (codes "type") (str (codes "DOMAINS")) (codes "domains")
            (arr (text_items domains))))

  -- `domainBlockPolicy`, under the description that is given for it.
  domain_block : Text → BlockInput → Sources → List Text → Option FirewallPolicyWrite
  unfolding clean_domains website_write device_source_filter
  domain_block description input sources domains =
      if is_empty (clean_domains domains) then none else elim (device_source_filter sources) [
        | none ↦ none
        | some source ↦ some (website_write input description (clean_domains domains) source)
      ]

  pub domain_block_policy : BlockInput → Sources → List Text → Option FirewallPolicyWrite
  unfolding domain_block
  domain_block_policy = domain_block (codes "FamilyFi managed website block.")

lock_dns_description : Text
lock_dns_description = codes "FamilyFi managed Lock DNS: blocks DNS servers other than the gateway."

abbrev private_relay_hosts : List Text
private_relay_hosts = codes "mask.icloud.com" ∷ codes "mask-h2.icloud.com" ∷ []

-- `addressItems`: an address with a slash is a subnet.
address_items : List Text → Items
address_items [] = no_items
address_items (a ∷ l) =
    item
      (two_fields (codes "type") (str (if has a b'/' then codes "SUBNET" else codes "IP_ADDRESS"))
        (codes "value") (str a))
      (address_items l)

port_item : ℕ → Value
port_item port = two_fields (codes "type") (str (codes "PORT_NUMBER")) (codes "value") (num port)

-- `portFilter`, for 53 and 853.
port_filter : Value
unfolding port_item
port_filter = obj (
    field (codes "type") (str (codes "PORTS")) (
      field (codes "matchOpposite") (bool false) (
        field (codes "items") (arr (item (port_item 53) (item (port_item 853) no_items)))
          no_fields)))

ip_filter : Bool → List Text → Value
unfolding address_items
ip_filter opposite list = obj (
    field (codes "type") (str (codes "IP_ADDRESSES")) (
      field (codes "matchOpposite") (bool opposite)
        (field (codes "items") (arr (address_items list)) no_fields)))

-- The filter of the `ports` part: every address but the household's own DNS servers.
ports_filter : List Text → Value
unfolding port_filter ip_filter
ports_filter [] = two_fields (codes "type") (str (codes "PORT")) (codes "portFilter") port_filter
ports_filter (a ∷ l) = obj (
    field (codes "type") (str (codes "IP_ADDRESS")) (
      field (codes "ipAddressFilter") (ip_filter true (a ∷ l))
        (field (codes "portFilter") port_filter no_fields)))

tcp_udp : Value
tcp_udp = two_fields (codes "ipVersion") (str (codes "IPV4_AND_IPV6")) (codes "protocolFilter") (
    two_fields (codes "type") (str (codes "PRESET")) (codes "preset")
      (one_field (codes "name") (str (codes "TCP_UDP"))))

-- A Lock DNS write around its source, of the given protocols and destination filter: none of them has
-- a schedule.
lock_dns_write : BlockInput → Value → Value → Value → FirewallPolicyWrite
lock_dns_write input source protocols filter =
    record (block_write (plain_input input) lock_dns_description source (
      two_fields (codes "zoneId") (str input.destination_zone_id) (codes "trafficFilter") filter)) {
        ip_protocol_scope = protocols;
        schedule = undefined;
      }

addresses_write : BlockInput → Value → Text → List Text → FirewallPolicyWrite
unfolding lock_dns_write ip_filter
addresses_write input source version list =
    lock_dns_write input source (one_field (codes "ipVersion") (str version)) (
      two_fields (codes "type") (str (codes "IP_ADDRESS")) (codes "ipAddressFilter")
        (ip_filter false list))

-- The parts that block ports or addresses.
part_write : BlockInput → LockDnsTargets → LockDnsPart → Value → FirewallPolicyWrite
unfolding addresses_write lock_dns_write tcp_udp ports_filter
part_write input targets ports source =
    lock_dns_write input source tcp_udp (ports_filter targets.allowed)
part_write input targets addresses source = addresses_write input source (codes "IPV4") targets.ipv4
part_write input targets _ source = addresses_write input source (codes "IPV6") targets.ipv6

from_source : Option Value → (Value → FirewallPolicyWrite) → Option FirewallPolicyWrite
from_source none make = none
from_source (some source) make = some (make source)

-- `regionBlockPolicy`.
pub region_block_policy : BlockInput → Sources → List Text → Option FirewallPolicyWrite
unfolding device_source_filter from_source
region_block_policy input sources regions =
    if is_empty (sorted_unique regions)
    then none
    else from_source (device_source_filter sources) (λ source.
      block_write (plain_input input) (codes "FamilyFi managed country block.") source (
        to_destination input (codes "REGION") (codes "regionFilter")
          (one_field (codes "regions") (arr (text_items (sorted_unique regions))))))

module _ (to_lower_case : Text → Text) (lock_dns_targets : LockDnsTargets) where
  -- `lockDnsBlockPolicy`.
  pub lock_dns_block_policy :
      BlockInput → LockDnsPart → Sources → Option LockDnsTargets → Option FirewallPolicyWrite
  unfolding domain_block part_write device_source_filter from_source
  lock_dns_block_policy input names sources targets =
      domain_block to_lower_case lock_dns_description input sources
        (or_else targets lock_dns_targets).hosts
  lock_dns_block_policy input private_relay sources targets =
      domain_block to_lower_case lock_dns_description input sources private_relay_hosts
  lock_dns_block_policy input part sources targets =
      from_source (device_source_filter sources)
        (part_write input (or_else targets lock_dns_targets) part)

  -- The schedule as the object that the write takes.
  abbrev day_name : ℕ → Text
  day_name day =
      or_else
        (get_elem?
          (codes "SUNDAY"
            ∷ codes "MONDAY"
            ∷ codes "TUESDAY"
            ∷ codes "WEDNESDAY"
            ∷ codes "THURSDAY"
            ∷ codes "FRIDAY"
            ∷ codes "SATURDAY"
            ∷ [])
          day)
        []

  abbrev time_filter : TimeFilter → Value
  time_filter times =
      two_fields (codes "startTime") (str times.start_time) (codes "stopTime") (str times.stop_time)

  pub schedule_value : Option UnifiFirewallSchedule → Value
  schedule_value none = undefined
  schedule_value (some (every_day times)) =
      two_fields (codes "mode") (str (codes "EVERY_DAY")) (codes "timeFilter") (time_filter times)
  schedule_value (some (every_week days times)) = obj (
      field (codes "mode") (str (codes "EVERY_WEEK")) (
        field (codes "repeatOnDays") (arr (text_items (map day_name days)))
          (field (codes "timeFilter") (time_filter times) no_fields)))

  common_input : PlannedRulePolicy → BlockInput
  unfolding schedule_value
  common_input planned = record {
    name = planned.name;
    source_zone_id = planned.zone_id;
    destination_zone_id = planned.destination_zone_id;
    enabled = some planned.enabled;
    action = none;
    schedule = schedule_value planned.schedule;
    description = none;
  }

  sources_of : PlannedRulePolicy → Sources
  sources_of planned =
      if planned.by_network then of_networks planned.network_ids else of_macs planned.mac_addresses

  -- The `switch` over the kind.
  kind_write : PlannedRulePolicy → RuleKind → Option FirewallPolicyWrite
  unfolding common_input sources_of domain_block_policy
  kind_write planned internet = internet_block_policy (common_input planned) planned.mac_addresses
  kind_write planned domain =
      domain_block_policy to_lower_case (common_input planned) (sources_of planned) planned.domains
  kind_write planned category =
      if planned.by_network
      then dpi_category_network_block_policy (common_input planned) planned.network_ids
          planned.target_ids
      else dpi_category_block_policy (common_input planned) planned.mac_addresses planned.target_ids
  kind_write planned app =
      if planned.by_network
      then dpi_app_network_block_policy (common_input planned) planned.network_ids
          planned.target_ids
      else dpi_app_block_policy (common_input planned) planned.mac_addresses planned.target_ids

  unlocked_write : PlannedRulePolicy → Option FirewallPolicyWrite
  unfolding kind_write
  unlocked_write planned =
      if is_empty planned.countries
      then kind_write planned planned.kind
      else region_block_policy (common_input planned) (sources_of planned) planned.countries

  write_for_part : PlannedRulePolicy → Option LockDnsPart → Option FirewallPolicyWrite
  unfolding unlocked_write lock_dns_block_policy
  write_for_part planned none = unlocked_write planned
  write_for_part planned (some part) =
      lock_dns_block_policy (common_input planned) part (sources_of planned)
        planned.lock_dns_targets

  -- `rulePolicyWrite`.
  pub rule_policy_write : PlannedRulePolicy → Option FirewallPolicyWrite
  unfolding write_for_part
  rule_policy_write planned = write_for_part planned planned.lock_dns
