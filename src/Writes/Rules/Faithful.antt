-- ===== src/Writes/Rules/Faithful.antt =====
-- Whatever kind of write a planned policy gets, it is the planned policy's.
use familyfi.Base.{
  ℕ, ◌≡◌, refl, subst, inl, inr, true, Option, none, some, List, Text, codes, or_else, Bool-cases,
  Option-cases,
}
use familyfi.Names.{LockDnsPart, ports, addresses, addresses_v6, names, private_relay}
use familyfi.Payload.{Value, str, obj, Fields, field, FirewallPolicyWrite}
use familyfi.RulePlan.Rule.{
  RuleKind, internet, domain, category, app, LockDnsTargets, PlannedRulePolicy,
}
use familyfi.Sync.Drift.{sorted_unique}
use familyfi.Writes.{
  BlockInput, is_empty, source_macs, target_ids, application_ids, network_source_filter,
  block_write, to_destination, to_categories, to_applications, internet_block_policy,
  dpi_category_block_policy, dpi_app_block_policy, dpi_category_network_block_policy,
  dpi_app_network_block_policy,
}
use familyfi.Writes.Rules.{
  Sources, device_source_filter, clean_domains, website_write, domain_block, domain_block_policy,
  lock_dns_description, private_relay_hosts, lock_dns_write, addresses_write, part_write,
  from_source, region_block_policy, lock_dns_block_policy, schedule_value, common_input, sources_of,
  kind_write, unlocked_write, write_for_part, rule_policy_write,
}

-- What is so of the write, if there is one.
abbrev Made : (FirewallPolicyWrite → Type 0) → Option FirewallPolicyWrite → Type 0
Made P none = Unit
Made P (some w) = P w

-- The endpoint is in the zone.
abbrev pub IsIn : Text → Value → Type 0
IsIn zone v = (rest : Fields) × (v ≡ obj (field (codes "zoneId") (str zone) rest))

abbrev IsAt : BlockInput → FirewallPolicyWrite → Type 0
IsAt input w =
    (w.name ≡ input.name)
    × (w.enabled ≡ or_else input.enabled true)
    × IsIn input.source_zone_id w.source
    × IsIn input.destination_zone_id w.destination

abbrev IsOf : BlockInput → FirewallPolicyWrite → Type 0
IsOf input w = IsAt input w × (w.schedule ≡ input.schedule)

internet_block_policy-Made :
    (input : BlockInput) (macs : List Text) → Made (IsOf input) (internet_block_policy input macs)
unfolding internet_block_policy block_write
internet_block_policy-Made input macs = elim (Option-cases (source_macs macs)) [
  | inl bad ↦ rw (bad, internet_block_policy) tt
  | inr (read, e) ↦ rw (e, internet_block_policy) ((refl, refl, (_, refl), (_, refl)), refl)
]

dpi_category_block_policy-Made :
    (input : BlockInput) (macs : List Text) (ids : List ℕ)
    → Made (IsOf input) (dpi_category_block_policy input macs ids)
unfolding dpi_category_block_policy block_write to_categories to_destination
dpi_category_block_policy-Made input macs ids = elim (Option-cases (source_macs macs)) [
  | inl bad ↦ rw (bad, dpi_category_block_policy) tt
  | inr (read, e) ↦ elim (Option-cases (target_ids ids)) [
    | inl empty ↦ rw (e, empty, dpi_category_block_policy) tt
    | inr (found, f) ↦
        rw (e, f, dpi_category_block_policy) ((refl, refl, (_, refl), (_, refl)), refl)
  ]
]

dpi_app_block_policy-Made :
    (input : BlockInput) (macs : List Text) (ids : List ℕ)
    → Made (IsOf input) (dpi_app_block_policy input macs ids)
unfolding dpi_app_block_policy block_write to_applications to_destination
dpi_app_block_policy-Made input macs ids = elim (Option-cases (source_macs macs)) [
  | inl bad ↦ rw (bad, dpi_app_block_policy) tt
  | inr (read, e) ↦ elim (Option-cases (application_ids ids)) [
    | inl empty ↦ rw (e, empty, dpi_app_block_policy) tt
    | inr (found, f) ↦ rw (e, f, dpi_app_block_policy) ((refl, refl, (_, refl), (_, refl)), refl)
  ]
]

dpi_category_network_block_policy-Made :
    (input : BlockInput) (networks : List Text) (ids : List ℕ)
    → Made (IsOf input) (dpi_category_network_block_policy input networks ids)
unfolding dpi_category_network_block_policy block_write to_categories to_destination
dpi_category_network_block_policy-Made input networks ids = elim (Option-cases (target_ids ids)) [
  | inl bad ↦ rw (bad, dpi_category_network_block_policy) tt
  | inr (found, e) ↦ elim (Option-cases (network_source_filter networks)) [
    | inl empty ↦ rw (e, empty, dpi_category_network_block_policy) tt
    | inr (filter, f) ↦
        rw (e, f, dpi_category_network_block_policy) ((refl, refl, (_, refl), (_, refl)), refl)
  ]
]

dpi_app_network_block_policy-Made :
    (input : BlockInput) (networks : List Text) (ids : List ℕ)
    → Made (IsOf input) (dpi_app_network_block_policy input networks ids)
unfolding dpi_app_network_block_policy block_write to_applications to_destination
dpi_app_network_block_policy-Made input networks ids = elim (Option-cases (application_ids ids)) [
  | inl bad ↦ rw (bad, dpi_app_network_block_policy) tt
  | inr (found, e) ↦ elim (Option-cases (network_source_filter networks)) [
    | inl empty ↦ rw (e, empty, dpi_app_network_block_policy) tt
    | inr (filter, f) ↦
        rw (e, f, dpi_app_network_block_policy) ((refl, refl, (_, refl), (_, refl)), refl)
  ]
]

from_source-Made :
    (P : FirewallPolicyWrite → Type 0) (source : Option Value) (make : Value → FirewallPolicyWrite)
    → ((v : Value) → P (make v))
    → Made P (from_source source make)
unfolding from_source
from_source-Made P none make h = tt
from_source-Made P (some v) make h = h v

region_block_policy-Made :
    (input : BlockInput) (sources : Sources) (regions : List Text)
    → Made (IsOf input) (region_block_policy input sources regions)
unfolding region_block_policy block_write to_destination
region_block_policy-Made input sources regions =
    elim (Bool-cases (is_empty (sorted_unique regions))) [
      | inl empty ↦ rw empty tt
      | inr some_given ↦ rw some_given (
          from_source-Made (IsOf input) (device_source_filter sources) _
            (λ v. ((refl, refl, (_, refl), (_, refl)), refl)))
    ]

module _ (to_lower_case : Text → Text) where
  domain_block-Made :
      (description : Text) (input : BlockInput) (sources : Sources) (domains : List Text)
      → Made (IsOf input) (domain_block to_lower_case description input sources domains)
  unfolding domain_block website_write block_write to_destination
  domain_block-Made description input sources domains =
      elim (Bool-cases (is_empty (clean_domains to_lower_case domains))) [
        | inl empty ↦ rw empty tt
        | inr some_given ↦ elim (Option-cases (device_source_filter sources)) [
          | inl bad ↦ rw (some_given, bad, domain_block) tt
          | inr (source, e) ↦
              rw (some_given, e, domain_block) ((refl, refl, (_, refl), (_, refl)), refl)
        ]
      ]

  Made-weaken :
      (input : BlockInput) (o : Option FirewallPolicyWrite)
      → Made (IsOf input) o
      → Made (IsAt input) o
  Made-weaken input none h = tt
  Made-weaken input (some w) h = h.0

  part_write-IsAt :
      (input : BlockInput) (targets : LockDnsTargets) (part : LockDnsPart) (source : Value)
      → IsAt input (part_write input targets part source)
  unfolding part_write addresses_write lock_dns_write block_write
  part_write-IsAt input targets ports source = (refl, refl, (_, refl), (_, refl))
  part_write-IsAt input targets addresses source = (refl, refl, (_, refl), (_, refl))
  part_write-IsAt input targets addresses_v6 source = (refl, refl, (_, refl), (_, refl))
  part_write-IsAt input targets names source = (refl, refl, (_, refl), (_, refl))
  part_write-IsAt input targets private_relay source = (refl, refl, (_, refl), (_, refl))

  module _ (lock_dns_targets : LockDnsTargets) where
    lock_dns_block_policy-Made :
        (input : BlockInput) (part : LockDnsPart) (sources : Sources)
        (targets : Option LockDnsTargets)
        → Made
            (IsAt input)
            (lock_dns_block_policy to_lower_case lock_dns_targets input part sources targets)
    unfolding lock_dns_block_policy
    lock_dns_block_policy-Made input names sources targets =
        Made-weaken input
          (domain_block to_lower_case lock_dns_description input sources
            (or_else targets lock_dns_targets).hosts)
          (domain_block-Made lock_dns_description input sources
            (or_else targets lock_dns_targets).hosts)
    lock_dns_block_policy-Made input private_relay sources targets =
        Made-weaken input
          (domain_block to_lower_case lock_dns_description input sources private_relay_hosts)
          (domain_block-Made lock_dns_description input sources private_relay_hosts)
    lock_dns_block_policy-Made input ports sources targets =
        from_source-Made (IsAt input) (device_source_filter sources) _
          (part_write-IsAt input (or_else targets lock_dns_targets) ports)
    lock_dns_block_policy-Made input addresses sources targets =
        from_source-Made (IsAt input) (device_source_filter sources) _
          (part_write-IsAt input (or_else targets lock_dns_targets) addresses)
    lock_dns_block_policy-Made input addresses_v6 sources targets =
        from_source-Made (IsAt input) (device_source_filter sources) _
          (part_write-IsAt input (or_else targets lock_dns_targets) addresses_v6)

    input_of : PlannedRulePolicy → BlockInput
    unfolding common_input
    input_of planned = common_input to_lower_case lock_dns_targets planned

    kind_write-Made :
        (planned : PlannedRulePolicy) (kind : RuleKind)
        → Made (IsOf (input_of planned)) (kind_write to_lower_case lock_dns_targets planned kind)
    unfolding kind_write domain_block_policy input_of
    kind_write-Made planned internet = internet_block_policy-Made _ planned.mac_addresses
    kind_write-Made planned domain = domain_block-Made _ _ _ planned.domains
    kind_write-Made planned category = elim (Bool-cases planned.by_network) [
      | inl on ↦
          rw on (dpi_category_network_block_policy-Made _ planned.network_ids planned.target_ids)
      | inr off ↦ rw off (dpi_category_block_policy-Made _ planned.mac_addresses planned.target_ids)
    ]
    kind_write-Made planned app = elim (Bool-cases planned.by_network) [
      | inl on ↦ rw on (dpi_app_network_block_policy-Made _ planned.network_ids planned.target_ids)
      | inr off ↦ rw off (dpi_app_block_policy-Made _ planned.mac_addresses planned.target_ids)
    ]

    unlocked_write-Made :
        (planned : PlannedRulePolicy)
        → Made (IsOf (input_of planned)) (unlocked_write to_lower_case lock_dns_targets planned)
    unfolding unlocked_write input_of
    unlocked_write-Made planned = elim (Bool-cases (is_empty planned.countries)) [
      | inl free ↦ rw free (kind_write-Made planned planned.kind)
      | inr listed ↦ rw listed (region_block_policy-Made _ _ planned.countries)
    ]

    -- The write bears the planned policy's name, is switched as it is, goes from its zone to its
    -- destination zone, and has its schedule unless it is a part of Lock DNS.
    abbrev pub IsWriteOf : PlannedRulePolicy → FirewallPolicyWrite → Type 0
    IsWriteOf planned w =
        (w.name ≡ planned.name)
        × (w.enabled ≡ planned.enabled)
        × IsIn planned.zone_id w.source
        × IsIn planned.destination_zone_id w.destination
        × (planned.lock_dns ≡ none
            → w.schedule ≡ schedule_value to_lower_case lock_dns_targets planned.schedule)

    write_for_part-IsWriteOf :
        (planned : PlannedRulePolicy) (part : Option LockDnsPart) (w : FirewallPolicyWrite)
        → planned.lock_dns ≡ part
        → write_for_part to_lower_case lock_dns_targets planned part ≡ some w
        → IsWriteOf planned w
    unfolding write_for_part input_of common_input
    write_for_part-IsWriteOf planned none w is e =
        go (unlocked_write to_lower_case lock_dns_targets planned) (unlocked_write-Made planned) e
      where
        go :
            (o : Option FirewallPolicyWrite)
            → Made (IsOf (input_of planned)) o
            → o ≡ some w
            → IsWriteOf planned w
        go none h e = absurd (cc)
        go (some v) ((n, s, f, t), h) e =
            let same : v ≡ w = cc in subst (IsWriteOf planned) same (n, s, f, t, λ _. h)
    write_for_part-IsWriteOf planned (some part) w is e =
        go
          (lock_dns_block_policy to_lower_case lock_dns_targets (input_of planned) part
            (sources_of to_lower_case lock_dns_targets planned) planned.lock_dns_targets)
          (lock_dns_block_policy-Made (input_of planned) part _ planned.lock_dns_targets) e
      where
        go :
            (o : Option FirewallPolicyWrite)
            → Made (IsAt (input_of planned)) o
            → o ≡ some w
            → IsWriteOf planned w
        go none h e = absurd (cc)
        go (some v) (n, s, f, t) e =
            let same : v ≡ w = cc in
            subst (IsWriteOf planned) same
              (n, s, f, t, λ free. absurd (let both = (rw free at is) in cc))

    -- What `rulePolicyWrite` makes of a planned policy, of any kind and source, bears its name, is
    -- switched on or off as planned, goes from the planned zone to the planned destination zone and,
    -- but for the parts of Lock DNS, has the planned schedule.
    pub rule_policy_write-IsWriteOf :
        (planned : PlannedRulePolicy) (w : FirewallPolicyWrite)
        → rule_policy_write to_lower_case lock_dns_targets planned ≡ some w
        → IsWriteOf planned w
    unfolding rule_policy_write
    rule_policy_write-IsWriteOf planned w e =
        write_for_part-IsWriteOf planned planned.lock_dns w refl e
