-- ===== src/Sync/Outcome/Tests.antt =====
-- A first pass that plans one policy, to its end.
use familyfi.Base.{◌≡◌, refl, none, some, []}
use familyfi.Sync.Gateway.{still_held}
use familyfi.Sync.Gateway.Tests.{console, home, empty_pass}
use familyfi.Sync.Run.Tests.{
  stale_pass, write_pass_stale, stale-IsLeftover, default_site, input, one_app, no_rules,
  write_pass_run, first-IsSound,
}
use familyfi.Sync.Run.Whole.{AllConfirmed}
use familyfi.Sync.Outcome.{applied, checked, settled, settle_changes, finish, reconcile}
use familyfi.Sync.Outcome.Settled.{reconcile_confirms, reconcile_clears}
use familyfi.Sync.Apply.{app}
use familyfi.Sync.LostCreates.Tests.{stale_row}
use familyfi.Sync.Run.Cleared.{IsGone}

reconcile_run :
    (reconcile console home default_site input [] 0 one_app no_rules (λ _. []) empty_pass).0.changes
    ≡ some (applied, none)
unfolding reconcile finish settle_changes checked settled still_held
reconcile_run = rw write_pass_run refl

reconcile_confirms_example :
    AllConfirmed console home default_site input one_app no_rules
      (reconcile console home default_site input [] 0 one_app no_rules (λ _. []) empty_pass).1
reconcile_confirms_example =
    reconcile_confirms console home default_site input [] 0 one_app no_rules (λ _. []) empty_pass
      none first-IsSound reconcile_run

reconcile_stale :
    (reconcile console home default_site input [] 0 no_rules no_rules
      (λ _. [])
      stale_pass).0.changes
    ≡ some (applied, none)
unfolding reconcile finish settle_changes checked settled still_held
reconcile_stale = rw write_pass_stale refl

reconcile_clears_example :
    IsGone console home default_site input app no_rules stale_row
      (reconcile console home default_site input [] 0 no_rules no_rules (λ _. []) stale_pass).1
reconcile_clears_example =
    reconcile_clears console home default_site input [] 0 no_rules no_rules (λ _. []) stale_pass
      none app stale_row stale-IsLeftover reconcile_stale
