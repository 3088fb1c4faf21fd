-- ===== src/Scope.antt =====
-- server/unifi/scope.ts: which networks FamilyFi manages.
use familyfi.Base.{
  ℕ, Bool, true, false, Option, none, some, List, [], ◌∷◌, Text, includes, if◌then◌else◌, or_else,
}
use familyfi.Sync.Drift.{unique_texts}

pub record NetworkScope : Type 0 where
  pub manage_all_networks : Bool
  pub managed_network_ids : List Text

-- `networkInScope`: an unknown network is never in scope.
pub network_in_scope : NetworkScope → Option Text → Bool
network_in_scope scope none = false
network_in_scope scope (some []) = false
network_in_scope scope (some (c ∷ s)) =
    if scope.manage_all_networks then true else includes scope.managed_network_ids (c ∷ s)

abbrev no_scope : NetworkScope
no_scope = record { manage_all_networks = false; managed_network_ids = [] }

-- `resolveNetworkScope`.
pub resolve_network_scope : Option Bool → Option (List Text) → Option NetworkScope → NetworkScope
resolve_network_scope all ids previous =
    let before = or_else previous no_scope in
    if or_else all before.manage_all_networks
    then record { manage_all_networks = true; managed_network_ids = [] }
    else record {
      manage_all_networks = false;
      managed_network_ids = unique_texts [] (or_else ids before.managed_network_ids);
    }

pub record PublicUnifiNetwork : Type 0 where
  pub id : Text
  pub name : Text
  pub vlan_id : ℕ
  pub zone_id : Option Text

-- A network as the client answers with it: the zone may be absent, or `null`.
pub record ListedNetwork : Type 0 where
  pub id : Text
  pub name : Text
  pub vlan_id : ℕ
  pub zone_id : Option (Option Text)

-- `publicUnifiNetwork`.
pub public_unifi_network : ListedNetwork → PublicUnifiNetwork
public_unifi_network network = record {
  id = network.id;
  name = network.name;
  vlan_id = network.vlan_id;
  zone_id = or_else network.zone_id none;
}
