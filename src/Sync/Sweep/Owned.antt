-- ===== src/Sync/Sweep/Owned.antt =====
-- The sweep only deletes gateway policies that are on record.
use familyfi.Base.{refl, inl, inr, Option, none, some, List, [], ◌∷◌, Text, includes, Bool-cases}
use familyfi.Sync.Store.{PolicyOperation, OwnershipScope}
use familyfi.Sync.Gateway.{Console, Pass, ◌>>=◌, still_held, delete_from_gateway, set_operation}
use familyfi.Sync.Gateway.Invariant.{AllAuthorised, IsGuarded, Keeps, >>=-Keeps, catching-Keeps}
use familyfi.Sync.Gateway.Guard.{
  AllAuthorised-IsGuarded, delete_from_gateway-Keeps, still_held-Keeps,
}
use familyfi.Sync.Sweep.{
  mark_removed, remove_policy, no_error, report_error, remove_quietly, remove_or_report, sweep_one,
  sweep_next, sweep_policy, sweep, add_errors, remove_orphaned_policies, recorded_ids, creations_in,
  to_removed,
}

module _ (scope : OwnershipScope) (site : Text) (I : Pass → Type 0) (g : IsGuarded scope site I)
    (c : Console) where
  remove_policy-Keeps :
      (creation : PolicyOperation) (policy : Text)
      → Keeps I (remove_policy c scope site creation policy)
  unfolding remove_policy mark_removed set_operation
  remove_policy-Keeps creation policy =
      >>=-Keeps I (delete_from_gateway c scope site policy)
        (λ _. mark_removed c scope site creation.id)
        (delete_from_gateway-Keeps scope site I g c policy)
        (λ _ p a. g.settles creation.id to_removed p (λ o. refl) a)

  remove_quietly-Keeps :
      (creation : PolicyOperation) (policy : Text)
      → Keeps I (remove_quietly c scope site creation policy)
  unfolding remove_quietly no_error
  remove_quietly-Keeps creation policy =
      >>=-Keeps I (remove_policy c scope site creation policy) (no_error c scope site)
        (remove_policy-Keeps creation policy) (λ _ p a. a)

  remove_or_report-Keeps :
      (creation : PolicyOperation) (policy : Text)
      → Keeps I (remove_or_report c scope site creation policy)
  unfolding remove_or_report report_error
  remove_or_report-Keeps creation policy =
      catching-Keeps I (remove_quietly c scope site creation policy) (report_error c scope site)
        (remove_quietly-Keeps creation policy) (λ f p a. a)

  sweep_one-Keeps :
      (creation : PolicyOperation) (policy : Text)
      → Keeps I (sweep_one c scope site creation policy)
  unfolding sweep_one
  sweep_one-Keeps creation policy =
      >>=-Keeps I (still_held c scope site) (λ _. remove_or_report c scope site creation policy)
        (still_held-Keeps scope site I g c) (λ _. remove_or_report-Keeps creation policy)

  sweep_policy-Keeps :
      (recorded : List Text) (creation : PolicyOperation) (named : Option Text)
      → Keeps I (sweep_policy c scope site recorded creation named)
  unfolding sweep_policy
  sweep_policy-Keeps recorded creation none p a = a
  sweep_policy-Keeps recorded creation (some policy) p a =
      elim (Bool-cases (includes recorded policy)) [
        | inl kept ↦ rw kept a
        | inr orphan ↦ rw orphan (sweep_one-Keeps creation policy p a)
      ]

  sweep_next-Keeps :
      (recorded : List Text) (creation : PolicyOperation)
      → Keeps I (sweep_next c scope site recorded creation)
  unfolding sweep_next
  sweep_next-Keeps recorded creation = sweep_policy-Keeps recorded creation creation.unifi_policy_id

  sweep-Keeps :
      (recorded : List Text) (creations : List PolicyOperation)
      → Keeps I (sweep c scope site recorded creations)
  unfolding sweep
  sweep-Keeps recorded [] p a = a
  sweep-Keeps recorded (creation ∷ creations) p a =
      >>=-Keeps I (sweep_next c scope site recorded creation)
        (λ errors. sweep c scope site recorded creations >>= add_errors c scope site errors)
        (sweep_next-Keeps recorded creation)
        (λ errors.
          >>=-Keeps I (sweep c scope site recorded creations) (add_errors c scope site errors)
            (sweep-Keeps recorded creations) (λ rest p a. a))
        p a

  pub remove_orphaned_policies-Keeps : Keeps I (remove_orphaned_policies c scope site)
  unfolding remove_orphaned_policies
  remove_orphaned_policies-Keeps p a =
      sweep-Keeps (recorded_ids scope.connection_identity site p.store)
        (creations_in scope.connection_identity site p.store) p a

module _ (c : Console) (scope : OwnershipScope) (site : Text) where
  -- Whatever the console answers and whenever the lock is lost, `removeOrphanedPolicies` sends a
  -- delete only of a policy that is on record for this console and site when it is sent, or whose
  -- deletion an administrator confirmed so that the confirmation still stands by the clock when it is
  -- sent, if that held of all requests sent before.
  pub remove_orphaned_policies-AllAuthorised :
      (p : Pass)
      → AllAuthorised scope site p
      → AllAuthorised scope site (remove_orphaned_policies c scope site p).1
  remove_orphaned_policies-AllAuthorised =
      remove_orphaned_policies-Keeps scope site (AllAuthorised scope site)
        (AllAuthorised-IsGuarded scope site) c
