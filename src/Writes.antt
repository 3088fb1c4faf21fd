-- ===== src/Writes.antt =====
-- server/unifi/payloads.ts: the writes that block the internet, app categories and apps for devices or
-- for whole networks. `none` stands for the exception of a write that would block nothing or no one;
-- a schedule enters as the object it is, or `undefined`.
pub mod Refused
pub mod Rules
mod Tests
use familyfi.Base.{
  ℕ, Bool, true, false, Option, none, some, List, [], ◌∷◌, ltb, if◌then◌else◌, Text, codes, length,
  or_else, unique, sort,
}
use familyfi.Payload.{
  Value, undefined, bool, num, str, arr, obj, Items, no_items, item, no_fields, field,
  FirewallPolicyWrite,
}
use familyfi.Sync.Drift.{normalize_mac, sorted_unique}

-- What every one of the writes is given.
pub record BlockInput : Type 0 where
  pub name : Text
  pub source_zone_id : Text
  pub destination_zone_id : Text
  pub enabled : Option Bool
  pub action : Option Text
  pub schedule : Value
  pub description : Option Text

-- `map(normalizeMac)`.
pub normalize_all : List Text → Option (List Text)
normalize_all [] = some []
normalize_all (m ∷ ms) = elim (normalize_mac m) [
  | none ↦ none
  | some mac ↦ elim (normalize_all ms) [ none ↦ none | some macs ↦ some (mac ∷ macs) ]
]

abbrev pub is_empty {ℓ} : {A : Type ℓ} → List A → Bool
is_empty [] = true
is_empty (x ∷ xs) = false

abbrev text_items : List Text → Items
text_items [] = no_items
text_items (t ∷ ts) = item (str t) (text_items ts)

abbrev num_items : List ℕ → Items
num_items [] = no_items
num_items (n ∷ ns) = item (num n) (num_items ns)

abbrev one_field : Text → Value → Value
one_field key v = obj (field key v no_fields)

abbrev two_fields : Text → Value → Text → Value → Value
two_fields k v l w = obj (field k v (field l w no_fields))

-- `{ type: "MAC_ADDRESS", macAddressFilter: { macAddresses } }`.
mac_filter : List Text → Value
mac_filter macs =
    two_fields (codes "type") (str (codes "MAC_ADDRESS")) (codes "macAddressFilter")
      (one_field (codes "macAddresses") (arr (text_items macs)))

-- The addresses of a device write, which throws on one it cannot read and when there are none.
pub source_macs : List Text → Option (List Text)
unfolding normalize_all
source_macs macs = elim (normalize_all macs) [
  | none ↦ none
  | some read ↦
      let addresses = sorted_unique read in if is_empty addresses then none else some addresses
]

-- `networkSourceFilter`.
pub network_source_filter : List Text → Option Value
network_source_filter ids =
    let sorted = sorted_unique ids in
    if is_empty sorted
    then none
    else some (
        two_fields (codes "type") (str (codes "NETWORK")) (codes "networkFilter") (
          two_fields (codes "matchOpposite") (bool false) (codes "networkIds")
            (arr (text_items sorted))))

-- The write around a source's filter and a destination's.
block_write : BlockInput → Text → Value → Value → FirewallPolicyWrite
block_write input description source destination = record {
  name = input.name;
  description = str (or_else input.description description);
  enabled = or_else input.enabled true;
  logging_enabled = bool false;
  action = one_field (codes "type") (str (or_else input.action (codes "BLOCK")));
  ip_protocol_scope = one_field (codes "ipVersion") (str (codes "IPV4_AND_IPV6"));
  source = two_fields (codes "zoneId") (str input.source_zone_id) (codes "trafficFilter") source;
  destination = destination;
  connection_state_filter = undefined;
  ipsec_filter = undefined;
  schedule = input.schedule;
}

-- `internetBlockPolicy`.
pub internet_block_policy : BlockInput → List Text → Option FirewallPolicyWrite
unfolding source_macs mac_filter block_write
internet_block_policy input macs = elim (source_macs macs) [
  | none ↦ none
  | some addresses ↦ some (
      block_write input (codes "FamilyFi managed internet block.") (mac_filter addresses)
        (one_field (codes "zoneId") (str input.destination_zone_id)))
]

-- A destination that one filter of the given type narrows.
to_destination : BlockInput → Text → Text → Value → Value
to_destination input kind key filter =
    two_fields (codes "zoneId") (str input.destination_zone_id) (codes "trafficFilter")
      (two_fields (codes "type") (str kind) key filter)

to_categories : BlockInput → List ℕ → Value
unfolding to_destination
to_categories input ids =
    to_destination input (codes "APPLICATION_CATEGORY") (codes "applicationCategoryFilter")
      (one_field (codes "applicationCategoryIds") (arr (num_items ids)))

to_applications : BlockInput → List ℕ → Value
unfolding to_destination
to_applications input ids =
    to_destination input (codes "APPLICATION") (codes "applicationFilter")
      (one_field (codes "applicationIds") (arr (num_items ids)))

-- The distinct ids, if there are any.
pub target_ids : List ℕ → Option (List ℕ)
target_ids ids = let sorted = sort (unique ids) in if is_empty sorted then none else some sorted

-- The same for apps, of which a policy takes at most a hundred.
pub application_ids : List ℕ → Option (List ℕ)
application_ids ids =
    let sorted = sort (unique ids) in
    if is_empty sorted then none else if ltb 100 (length sorted) then none else some sorted

-- `dpiCategoryBlockPolicy`.
pub dpi_category_block_policy : BlockInput → List Text → List ℕ → Option FirewallPolicyWrite
unfolding source_macs target_ids mac_filter block_write to_categories
dpi_category_block_policy input macs ids = elim (source_macs macs) [
  | none ↦ none
  | some addresses ↦ elim (target_ids ids) [
    | none ↦ none
    | some categories ↦ some (
        block_write input (codes "FamilyFi managed category block.") (mac_filter addresses)
          (to_categories input categories))
  ]
]

-- `dpiAppBlockPolicy`.
pub dpi_app_block_policy : BlockInput → List Text → List ℕ → Option FirewallPolicyWrite
unfolding source_macs application_ids mac_filter block_write to_applications
dpi_app_block_policy input macs ids = elim (source_macs macs) [
  | none ↦ none
  | some addresses ↦ elim (application_ids ids) [
    | none ↦ none
    | some apps ↦ some (
        block_write input (codes "FamilyFi managed app block.") (mac_filter addresses)
          (to_applications input apps))
  ]
]

-- `dpiCategoryNetworkBlockPolicy`.
pub dpi_category_network_block_policy : BlockInput → List Text → List ℕ → Option FirewallPolicyWrite
unfolding network_source_filter target_ids block_write to_categories
dpi_category_network_block_policy input networks ids = elim (target_ids ids) [
  | none ↦ none
  | some categories ↦ elim (network_source_filter networks) [
    | none ↦ none
    | some filter ↦ some (
        block_write input (codes "FamilyFi managed network category block.") filter
          (to_categories input categories))
  ]
]

-- `dpiAppNetworkBlockPolicy`.
pub dpi_app_network_block_policy : BlockInput → List Text → List ℕ → Option FirewallPolicyWrite
unfolding network_source_filter application_ids block_write to_applications
dpi_app_network_block_policy input networks ids = elim (application_ids ids) [
  | none ↦ none
  | some apps ↦ elim (network_source_filter networks) [
    | none ↦ none
    | some filter ↦ some (
        block_write input (codes "FamilyFi managed network app block.") filter
          (to_applications input apps))
  ]
]
