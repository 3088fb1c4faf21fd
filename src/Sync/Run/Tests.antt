-- ===== src/Sync/Run/Tests.antt =====
-- A first pass that plans one policy.
use familyfi.Base.{
  includes, text_eq, arith, ◌≡◌, refl, false, none, [], ◌∷◌, Text, codes, keep, find,
}
use mathlib.Core.List.Memᴰ
use familyfi.Sync.Store.{expire_delete_confirmations}
use familyfi.Sync.Gateway.{Pass, ok, still_held}
use familyfi.Sync.Gateway.Tests.{console, home, empty_pass, block_write}
use familyfi.Sync.Apply.{app}
use familyfi.Sync.Apply.Tests.{applied_pass, apply_or_record_run}
use familyfi.Sync.Sweep.Tests.{
  cleared_pass, remove_orphaned_policies_idle, remove_orphaned_policies_run,
}
use familyfi.Sync.LostCreates.{row_in}
use familyfi.Sync.LostCreates.Tests.{
  stale_row, stale_store, settle_lost_creates_stale, settle_lost_creates_run,
}
use familyfi.Sync.Run.{
  clean_row, clean_if, clear_row, forget_row, delete_row, keeps_row, Enforcement, PassInput,
  existing_row, joined, apply_built, apply_planned, apply_all, clean_all, enforce, sweep_messages,
  begin_pass, write_pass,
}
use familyfi.Sync.Run.Recorded.{AllOnRecord, write_pass-AllOnRecord}
use familyfi.Sync.Run.Whole.{IsSound}
use familyfi.Sync.Run.Finished.{IsLeftover}

abbrev pub default_site : Text
default_site = codes "default"

abbrev pub input : PassInput
input = record {
  copies = λ _. none;
  message = λ _. codes "failed";
  policy_fingerprint = λ _. codes "f1";
  revision = 1;
}

abbrev pub one_app : Enforcement
one_app = record {
  planned = (codes "app:1", ok block_write) ∷ [];
  retains = λ _. false;
  troubles = [];
}

abbrev pub no_rules : Enforcement
no_rules = record { planned = []; retains = λ _. false; troubles = [] }

begin_pass_run : begin_pass console home default_site input [] 0 empty_pass ≡ empty_pass
unfolding begin_pass expire_delete_confirmations
begin_pass_run = rw settle_lost_creates_run refl

pub write_pass_run :
    write_pass console home default_site input one_app no_rules
      (λ _. [])
      (begin_pass console home default_site input [] 0 empty_pass)
    ≡ (ok [], applied_pass)
unfolding write_pass enforce apply_all apply_planned apply_built existing_row clean_all joined
    still_held sweep_messages row_in keep find
write_pass_run = rw begin_pass_run (rw apply_or_record_run (rw remove_orphaned_policies_run refl))

pub first-IsSound : IsSound console home default_site input one_app no_rules empty_pass
first-IsSound = record {
  distinct_apps = (λ m. Memᴰ.not-nil m, tt);
  distinct_rules = tt;
  app_ids = λ x m. absurd (Memᴰ.not-nil m);
  rule_ids = λ x m. absurd (Memᴰ.not-nil m);
}

write_pass-AllOnRecord_example :
    AllOnRecord home default_site
      (write_pass console home default_site input one_app no_rules
        (λ _. [])
        (begin_pass console home default_site input [] 0 empty_pass)).1
write_pass-AllOnRecord_example =
    write_pass-AllOnRecord home default_site console input [] 0 one_app no_rules (λ _. [])
      empty_pass tt

-- A pass that starts with a row that nothing plans.
abbrev pub stale_pass : Pass
stale_pass = record empty_pass { store = stale_store }

begin_pass_stale : begin_pass console home default_site input [] 0 stale_pass ≡ stale_pass
unfolding begin_pass expire_delete_confirmations
begin_pass_stale = rw settle_lost_creates_stale refl

pub write_pass_stale :
    write_pass console home default_site input no_rules no_rules
      (λ _. [])
      (begin_pass console home default_site input [] 0 stale_pass)
    ≡ (ok [], cleared_pass)
unfolding write_pass enforce apply_all clean_all clean_row clean_if clear_row forget_row delete_row
    keeps_row joined still_held sweep_messages row_in keep text_eq includes
write_pass_stale = rw begin_pass_stale (rw remove_orphaned_policies_idle refl)

pub stale-IsLeftover : IsLeftover console home default_site input app no_rules stale_row stale_pass
unfolding row_in text_eq includes
stale-IsLeftover = record {
  recorded = Memᴰ.head refl;
  here = refl;
  issued = omega arith;
  unwanted = (refl, refl);
}
