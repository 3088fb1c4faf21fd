-- ===== src/Sync/Sweep.antt =====
-- The orphan sweep of server/reconciliation.ts: `removeOrphanedPolicies`, which deletes the policies
-- that FamilyFi created and that no ownership record points at.
pub mod Clean
pub mod Orphans
pub mod Owned
pub mod Tests
use familyfi.Base.{
  ℕ, Bool, true, false, not, ◌&&◌, ◌||◌, Option, none, some, List, [], ◌∷◌, ◌++◌, if◌then◌else◌,
  Text, includes, keep, is_some,
}
use familyfi.Sync.Store.{PolicyOperation, removed, Store, OwnershipScope, is_creation}
use familyfi.Sync.LostCreates.{row_in, operation_in, ids_of_rows}
use familyfi.Sync.Gateway.{
  Console, Pass, Failure, Result, ok, err, M, pure, and_then, ◌>>=◌, ◌>>◌, catching, modify,
  still_held, delete_from_gateway, set_operation,
}

-- The set `recorded`.
pub recorded_ids : Text → Text → Store → List Text
recorded_ids identity site st =
    ids_of_rows (keep (row_in identity site) st.app_policies)
    ++ ids_of_rows (keep (row_in identity site) st.rule_policies)

-- The applied creations of this console and site that name a policy.
pub creations_in : Text → Text → Store → List PolicyOperation
creations_in identity site st =
    keep (λ o. operation_in identity site o && is_creation o && is_some o.unifi_policy_id)
      st.operations

abbrev pub to_removed : PolicyOperation → PolicyOperation
to_removed o = record o { status = removed }

module _ (c : Console) (scope : OwnershipScope) (site : Text) where
  mark_removed : ℕ → M (Unit {0})
  unfolding set_operation
  mark_removed id = modify (set_operation id to_removed)

  -- The part in `try`.
  remove_policy : PolicyOperation → Text → M (Unit {0})
  unfolding mark_removed
  remove_policy creation policy =
      delete_from_gateway c scope site policy >>= λ _. mark_removed creation.id

  no_error : Unit {0} → M (List Failure)
  no_error _ = pure []

  report_error : Failure → M (List Failure)
  report_error f = pure (f ∷ [])

  remove_quietly : PolicyOperation → Text → M (List Failure)
  unfolding remove_policy no_error
  remove_quietly creation policy = remove_policy creation policy >>= no_error

  -- `try` and `catch`: the errors it adds.
  remove_or_report : PolicyOperation → Text → M (List Failure)
  unfolding remove_quietly report_error
  remove_or_report creation policy = catching (remove_quietly creation policy) report_error

  -- One round of the loop; a lock that is lost ends the sweep.
  sweep_one : PolicyOperation → Text → M (List Failure)
  unfolding remove_or_report
  sweep_one creation policy = still_held c scope site >>= λ _. remove_or_report creation policy

  abbrev add_errors : List Failure → List Failure → M (List Failure)
  add_errors errors rest = pure (errors ++ rest)

  sweep_policy : List Text → PolicyOperation → Option Text → M (List Failure)
  unfolding sweep_one
  sweep_policy recorded creation none p = (ok [], p)
  sweep_policy recorded creation (some policy) p =
      if includes recorded policy then (ok [], p) else sweep_one creation policy p

  sweep_next : List Text → PolicyOperation → M (List Failure)
  unfolding sweep_policy
  sweep_next recorded creation = sweep_policy recorded creation creation.unifi_policy_id

  -- The loop over the creations.
  sweep : List Text → List PolicyOperation → M (List Failure)
  unfolding sweep_next
  sweep recorded [] = pure []
  sweep recorded (creation ∷ creations) =
      sweep_next recorded creation >>= λ errors. (sweep recorded creations >>= add_errors errors)

  -- `removeOrphanedPolicies`.
  pub remove_orphaned_policies : M (List Failure)
  unfolding sweep
  remove_orphaned_policies p =
      sweep (recorded_ids scope.connection_identity site p.store)
        (creations_in scope.connection_identity site p.store) p
