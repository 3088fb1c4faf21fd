-- ===== src/Sync/LostCreates/Tests.antt =====
-- A creation whose answer was lost, settled against two lists of gateway policies.
use familyfi.Base.{
  ◌≡◌, refl, false, arith, none, some, [], ◌∷◌, Text, codes, text_eq, All, Memᴰ, sort_by, keep,
}
use familyfi.Payload.{no_fields}
use familyfi.Sync.Store.{PolicyOperation, PolicyRow, create, pending, Store, same_status}
use familyfi.Sync.Gateway.Tests.{block_policy}
use familyfi.Sync.LostCreates.{
  operation_in, pending_creations, claimed_ids, settle_each, settle_lost_creates,
}
use familyfi.Sync.LostCreates.Settled.{IsMatch, HasDistinctIds, IsOpen, settle_lost_creates_matches}
use familyfi.Sync.LostCreates.Closed.{IsClosedIn, settle_lost_creates_closes}

abbrev pub default_site : Text
default_site = codes "default"

-- A creation whose answer was lost, and the database that holds it.
abbrev lost : PolicyOperation
lost = record {
  id = 1;
  intent = create;
  status = pending;
  connection_identity = codes "console";
  site_id = codes "default";
  payload_fingerprint = none;
  payload = some no_fields;
  unifi_policy_id = none;
  created_at = 7;
}

abbrev lost_store : Store
lost_store = record { app_policies = []; rule_policies = []; operations = lost ∷ []; next_id = 2 }

settle_lost_creates_matches_example :
    All
      (IsMatch
        (claimed_ids (codes "console") default_site lost_store)
        (block_policy ∷ [])
        (pending_creations (codes "console") default_site lost_store))
      (settle_lost_creates (codes "console") default_site (block_policy ∷ []) 5 lost_store).0
    × HasDistinctIds
        (settle_lost_creates (codes "console") default_site (block_policy ∷ []) 5 lost_store).0
settle_lost_creates_matches_example =
    settle_lost_creates_matches (codes "console") default_site (block_policy ∷ []) 5 lost_store

lost-IsOpen : IsOpen (codes "console") default_site lost
unfolding operation_in text_eq
lost-IsOpen = record { here = refl; creates = refl; is_pending = refl }

settle_lost_creates_closes_example :
    IsClosedIn
      (settle_lost_creates (codes "console") default_site [] 9 lost_store).0
      lost
      ((settle_lost_creates (codes "console") default_site [] 9 lost_store).1).operations
    × ((y : PolicyOperation)
        → Memᴰ y ((settle_lost_creates (codes "console") default_site [] 9 lost_store).1).operations
        → y.id ≡ 1
        → same_status y.status pending ≡ false)
settle_lost_creates_closes_example =
    settle_lost_creates_closes (codes "console") default_site [] 9 lost_store lost (Memᴰ.head refl)
      lost-IsOpen (omega arith)

abbrev pub empty_store : Store
empty_store = record { app_policies = []; rule_policies = []; operations = []; next_id = 1 }

pub settle_lost_creates_run :
    settle_lost_creates (codes "console") default_site [] 0 empty_store ≡ ([], empty_store)
unfolding settle_lost_creates settle_each pending_creations sort_by keep
settle_lost_creates_run = refl

-- A row of a policy that was never created.
abbrev pub stale_row : PolicyRow
stale_row = record {
  id = 0;
  key = codes "app:9";
  connection_identity = codes "console";
  site_id = codes "default";
  unifi_policy_id = none;
  desired_fingerprint = codes "f9";
  desired_revision = 1;
  observed_enabled = none;
  observed_fingerprint = none;
  last_error = none;
  gateway_drift = none;
  drift_seen_at = none;
}

abbrev pub stale_store : Store
stale_store = record empty_store { app_policies = stale_row ∷ [] }

pub settle_lost_creates_stale :
    settle_lost_creates (codes "console") default_site [] 0 stale_store ≡ ([], stale_store)
unfolding settle_lost_creates settle_each pending_creations sort_by keep
settle_lost_creates_stale = refl
