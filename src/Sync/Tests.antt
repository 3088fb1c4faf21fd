-- ===== src/Sync/Tests.antt =====
-- The properties of the reconciler at concrete states.
use familyfi.Base.{
  ◌+◌, ◌≡◌, ◌↔◌, refl, arith, true, false, none, some, [], ◌∷◌, Text, codes, if◌then◌else◌, text_eq,
}
use familyfi.Sync.Lock.{no_hold, acquire_lock, after_acquire}
use familyfi.Sync.Lock.Exclusion.{
  World, Reach, here, next, wait, acquires, Live, start, update, row_of, MayTake, lock_exclusive,
  acquire_lock_iff,
}
use familyfi.Sync.Store.{PolicyOperation, create, applied}
use familyfi.Sync.Gateway.{Pass}
use familyfi.Sync.Gateway.Tests.{console, home, empty_pass}
use familyfi.Sync.Gateway.Invariant.{AllAuthorised}
use familyfi.Sync.Sweep.{remove_orphaned_policies}
use familyfi.Sync.Sweep.Owned.{remove_orphaned_policies-AllAuthorised}
use familyfi.Sync.Sweep.Orphans.{IsSwept, remove_orphaned_policies_clean}

abbrev mine : Text
mine = codes "me"

abbrev locked : World
locked = record {
  clock = 5;
  row = row_of mine 35;
  holds = update (λ _. no_hold) mine (record { until = some 35; lost = false });
}

locked-Reach : Reach 30 (start 0 none) locked
unfolding acquire_lock after_acquire
locked-Reach = next (next here (wait 5 (omega arith))) (acquires mine 5 none (omega arith))

mine-Live : Live locked mine 35
unfolding text_eq
mine-Live = (refl, omega arith)

lock_exclusive_example : (mine ≡ mine) × (locked.row ≡ row_of mine 35)
lock_exclusive_example =
    lock_exclusive 30 0 none locked mine mine 35 35 locked-Reach mine-Live mine-Live

acquire_lock_iff_example :
    ((acquire_lock 30 mine 50 (row_of mine 35) (row_of mine 35)).1 ≡ true
      ↔ MayTake mine 50 (row_of mine 35))
    × ((acquire_lock 30 mine 50 (row_of mine 35) (row_of mine 35)).0 ≡ (
        if (acquire_lock 30 mine 50 (row_of mine 35) (row_of mine 35)).1
        then row_of mine (50 + 30)
        else row_of mine 35))
acquire_lock_iff_example = acquire_lock_iff 30 mine 50 (row_of mine 35)

-- A creation that was applied, whose policy no row records.
abbrev orphan : PolicyOperation
orphan = record {
  id = 1;
  intent = create;
  status = applied;
  connection_identity = codes "console";
  site_id = codes "default";
  payload_fingerprint = none;
  payload = none;
  unifi_policy_id = some (codes "p1");
  created_at = 7;
}

abbrev orphan_pass : Pass
orphan_pass = record empty_pass {
  store = record { app_policies = []; rule_policies = []; operations = orphan ∷ []; next_id = 2 };
  on_gateway = codes "p1" ∷ [];
}

abbrev default_site : Text
default_site = codes "default"

remove_orphaned_policies-AllAuthorised_example :
    AllAuthorised home default_site
      (remove_orphaned_policies console home default_site orphan_pass).1
remove_orphaned_policies-AllAuthorised_example =
    remove_orphaned_policies-AllAuthorised console home default_site orphan_pass tt

remove_orphaned_policies_clean_example :
    IsSwept console
      (codes "console")
      default_site
      orphan_pass
      (remove_orphaned_policies console home default_site orphan_pass)
remove_orphaned_policies_clean_example =
    remove_orphaned_policies_clean console home default_site orphan_pass
