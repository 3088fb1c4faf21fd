-- ===== src/Plan.antt =====
-- server/unifi/plan.ts: `planPolicies`, the quarantine policies that a pass wants on the gateway, and
-- `plannedKey`. A `Map` is an association list in insertion order; group ids are the groups.
pub mod Quarantine
mod Tests
use familyfi.Names.{quarantine_policy_name}
use familyfi.Base.{
  Bool, true, false, not, ◌&&◌, Option, none, some, List, [], ◌∷◌, ◌++◌, if◌then◌else◌, Text, codes,
  text_eq, includes,
}

pub data AssignmentState : Type 0 where
  assigned quarantined : AssignmentState

pub record PlanDevice : Type 0 where
  pub mac : Text
  pub assignment : AssignmentState
  pub group_id : Option Text
  pub zone_id : Option Text
  pub in_scope : Option Bool

pub data OwnerScope : Type 0 where
  group quarantine : OwnerScope

pub record PlannedPolicy : Type 0 where
  pub key : Text
  pub owner_scope : OwnerScope
  pub group_id : Option Text
  pub zone_id : Text
  pub destination_zone_id : Text
  pub mac_addresses : List Text
  pub enabled : Bool
  pub name : Text

abbrev pub is_quarantined : AssignmentState → Bool
is_quarantined quarantined = true
is_quarantined _ = false

-- `!text`: an empty text is none.
abbrev pub given : Option Text → Option Text
given none = none
given (some []) = none
given (some (c ∷ s)) = some (c ∷ s)

-- Who the device's policy belongs to: its group, or the quarantine. `ownerKey`.
pub data Owner : Type 0 where
  quarantined_owner : Owner
  group_owner : Text → Owner

pub owner_key : PlanDevice → Owner
owner_key d = if is_quarantined d.assignment then quarantined_owner else of_group (given d.group_id)
  where
    of_group : Option Text → Owner
    of_group none = quarantined_owner
    of_group (some g) = group_owner g

-- After the lookup of the group: a group that is not known leaves the device in quarantine, and a
-- known one's devices are covered by its rules.
is_ours : List Text → Owner → Bool
is_ours groups quarantined_owner = true
is_ours groups (group_owner g) = not (includes groups g)

abbrev pub is_out_of_scope : Option Bool → Bool
is_out_of_scope (some false) = true
is_out_of_scope _ = false

pub record Bucket : Type 0 where
  pub zone : Text
  pub macs : List Text

-- `buckets.get(key) ?? …`, `macs.push` and `buckets.set`; the owner of every bucket is the quarantine.
pub add_to_bucket : Text → Text → List Bucket → List Bucket
add_to_bucket zone mac [] = record { zone = zone; macs = mac ∷ [] } ∷ []
add_to_bucket zone mac (b ∷ bs) =
    if text_eq b.zone zone
    then record b { macs = b.macs ++ mac ∷ [] } ∷ bs
    else b ∷ add_to_bucket zone mac bs

-- What the loop builds: the buckets, and whether `retainOwners` has the quarantine.
pub record Planning : Type 0 where
  pub buckets : List Bucket
  pub retained : Bool

place : Option Text → Text → Planning → Planning
unfolding add_to_bucket
place none mac s = record s { retained = true }
place (some zone) mac s = record s { buckets = add_to_bucket zone mac s.buckets }

-- One round of the loop over the devices.
pub plan_device : List Text → PlanDevice → Planning → Planning
unfolding owner_key is_ours place
plan_device groups d s =
    if is_ours groups (owner_key d)
    then (if is_out_of_scope d.in_scope then s else place (given d.zone_id) d.mac s)
    else s

pub plan_devices : List Text → List PlanDevice → Planning → Planning
unfolding plan_device
plan_devices groups [] s = s
plan_devices groups (d ∷ ds) s = plan_devices groups ds (plan_device groups d s)

-- `plannedKey`.
pub planned_key : OwnerScope → Option Text → Text → Text
planned_key quarantine group_id zone = codes "quarantine|" ++ zone
planned_key group none zone = codes "group:null|" ++ zone
planned_key group (some g) zone = codes "group:" ++ g ++ codes "|" ++ zone

abbrev not_false : Option Bool → Bool
not_false (some false) = false
not_false _ = true

abbrev is_empty : List Text → Bool
is_empty [] = true
is_empty (mac ∷ macs) = false

-- The zones' names, where they are known.
module _ (zone_name : Text → Option Text) (destination : Text) (enforced : Option Bool) where
  abbrev name_or : Text → Option Text → Text
  name_or zone none = zone
  name_or zone (some name) = name

  pub bucket_policy : Bucket → PlannedPolicy
  unfolding planned_key
  bucket_policy b = record {
    key = codes "quarantine" ++ codes "|" ++ b.zone;
    owner_scope = quarantine;
    group_id = none;
    zone_id = b.zone;
    destination_zone_id = destination;
    mac_addresses = b.macs;
    enabled = not_false enforced;
    name = quarantine_policy_name (name_or b.zone (zone_name b.zone));
  }

  bucket_policies : List Bucket → List PlannedPolicy
  unfolding bucket_policy
  bucket_policies [] = []
  bucket_policies (b ∷ bs) =
      let policies = bucket_policies bs in
      if is_empty b.macs then policies else bucket_policy b ∷ policies

  -- `planPolicies`: the policies, and whether the quarantine's rows are retained.
  pub plan_policies : List Text → List PlanDevice → List PlannedPolicy × Bool
  unfolding bucket_policies plan_devices
  plan_policies groups devices =
      let s = plan_devices groups devices (record { buckets = []; retained = false }) in
      (bucket_policies s.buckets, s.retained)
