-- ===== src/Sync/LostCreates.antt =====
-- server/unifi/lost-creates.ts: `settleLostCreates`, over the database as a value. A pass holds the
-- reconcile lock while it runs, so no other write falls between its statements.
pub mod Closed
pub mod Confirmations
pub mod Settled
pub mod Tests
use familyfi.Base.{
  ℕ, Bool, true, false, not, ◌&&◌, Option, none, some, List, [], ◌∷◌, ◌++◌, ltb, if◌then◌else◌,
  Text, text_eq, includes, keep, find, soonest, sort_by,
}
use familyfi.Payload.{obj, carries_write, whole, FirewallPolicy}
use familyfi.Sync.Store.{
  PolicyOperation, create, pending, PolicyRow, Store, OwnershipScope, same_intent, same_status,
  is_creation, update_operation,
}
use familyfi.Sync.Gateway.{to_failed, to_applied}

-- `where: { connectionIdentity, siteId }`.
unfoldable pub row_in : Text → Text → PolicyRow → Bool
row_in identity site r = text_eq r.connection_identity identity && text_eq r.site_id site

unfoldable pub operation_in : Text → Text → PolicyOperation → Bool
operation_in identity site o = text_eq o.connection_identity identity && text_eq o.site_id site

abbrev pub ids_of_rows : List PolicyRow → List Text
ids_of_rows [] = []
ids_of_rows (r ∷ rs) = elim r.unifi_policy_id [
  | none ↦ ids_of_rows rs
  | some policy ↦ policy ∷ ids_of_rows rs
]

abbrev pub ids_of_operations : List PolicyOperation → List Text
ids_of_operations [] = []
ids_of_operations (o ∷ os) = elim o.unifi_policy_id [
  | none ↦ ids_of_operations os
  | some policy ↦ policy ∷ ids_of_operations os
]

abbrev is_pending_creation : PolicyOperation → Bool
is_pending_creation o = same_intent o.intent create && same_status o.status pending

-- The pending creations of this console and site, the oldest first.
pub pending_creations : Text → Text → Store → List PolicyOperation
unfolding operation_in
pending_creations identity site st =
    sort_by (soonest (λ o. o.created_at))
      (keep (λ o. operation_in identity site o && is_pending_creation o) st.operations)

-- The set `claimed`.
pub claimed_ids : Text → Text → Store → List Text
unfolding row_in operation_in
claimed_ids identity site st =
    ids_of_rows (keep (row_in identity site) st.app_policies)
    ++ ids_of_rows (keep (row_in identity site) st.rule_policies)
    ++ ids_of_operations (keep (λ o. operation_in identity site o && is_creation o) st.operations)

-- `unclaimed.find(…)` of a creation that still has its payload.
match_of : List Text → List FirewallPolicy → PolicyOperation → Option FirewallPolicy
match_of claimed unclaimed o = elim o.payload [
  | none ↦ none
  | some sent ↦
      find
        (λ policy.
          not (includes claimed policy.id) && carries_write (obj (whole policy)) (obj sent))
        unclaimed
]

abbrev abandon : ℕ → PolicyOperation → List PolicyOperation → List PolicyOperation
abandon abandon_before o operations =
    if ltb o.created_at abandon_before
    then update_operation o.id to_failed operations
    else operations

-- The loop over the pending creations: the policies matched and the operations as they are then.
pub settle_each :
    ℕ
    → List FirewallPolicy
    → List Text
    → List PolicyOperation
    → List PolicyOperation
    → List FirewallPolicy × List PolicyOperation
unfolding match_of
settle_each abandon_before unclaimed claimed [] operations = ([], operations)
settle_each abandon_before unclaimed claimed (o ∷ os) operations =
    elim (match_of claimed unclaimed o) [
      | none ↦ settle_each abandon_before unclaimed claimed os (abandon abandon_before o operations)
      | some policy ↦
          let (matched, operations') =
            settle_each abandon_before unclaimed (policy.id ∷ claimed) os
              (update_operation o.id (to_applied policy.id) operations) in
          (policy ∷ matched, operations')
    ]

-- `settleLostCreates`.
pub settle_lost_creates :
    Text → Text → List FirewallPolicy → ℕ → Store → List FirewallPolicy × Store
unfolding settle_each pending_creations claimed_ids
settle_lost_creates identity site gateway abandon_before st =
    let claimed = claimed_ids identity site st in
    let (matched, operations) =
      settle_each abandon_before (keep (λ policy. not (includes claimed policy.id)) gateway) claimed
        (pending_creations identity site st) st.operations in
    (matched, record st { operations = operations })
