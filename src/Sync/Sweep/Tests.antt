-- ===== src/Sync/Sweep/Tests.antt =====
-- A sweep that finds nothing to delete.
use familyfi.Base.{◌≡◌, refl, [], codes, text_eq, includes, keep}
use familyfi.Sync.Gateway.{Pass, ok}
use familyfi.Sync.Gateway.Tests.{console, home, empty_pass}
use familyfi.Sync.Store.{is_creation}
use familyfi.Sync.Apply.Tests.{applied_pass}
use familyfi.Sync.LostCreates.{row_in, operation_in}
use familyfi.Sync.Sweep.{
  remove_orphaned_policies, sweep, sweep_next, sweep_policy, recorded_ids, creations_in,
}

pub remove_orphaned_policies_run :
    remove_orphaned_policies console home (codes "default") applied_pass ≡ (ok [], applied_pass)
unfolding remove_orphaned_policies sweep sweep_next sweep_policy recorded_ids creations_in
    is_creation row_in operation_in text_eq includes keep
remove_orphaned_policies_run = refl

-- A pass with nothing recorded and nothing created.
abbrev pub cleared_pass : Pass
cleared_pass = record empty_pass { checks = 1 }

pub remove_orphaned_policies_idle :
    remove_orphaned_policies console home (codes "default") cleared_pass ≡ (ok [], cleared_pass)
unfolding remove_orphaned_policies sweep recorded_ids creations_in row_in keep
remove_orphaned_policies_idle = refl
