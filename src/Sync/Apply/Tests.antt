-- ===== src/Sync/Apply/Tests.antt =====
-- A policy that a first pass creates.
use familyfi.Base.{◌≡◌, refl, true, none, some, [], ◌∷◌, codes, text_eq}
use familyfi.Sync.Store.{PolicyRow}
use familyfi.Sync.Gateway.{Pass}
use familyfi.Sync.Gateway.Tests.{
  block_write, console, home, checked_pass, created_pass, create_owned_policy_run,
}
use familyfi.Sync.Apply.{
  app, Desired, add_row, drift_cleared, confirmed_row, record_created, create_and_record,
  write_policy, apply_desired, after_apply, apply_or_record,
}
use familyfi.Sync.Apply.Confirmed.{Confirmed}

abbrev pub block_everyone : Desired
block_everyone = record {
  key = codes "app:1";
  write = block_write;
  fingerprint = codes "f1";
  revision = 1;
}

abbrev pub block_row : PolicyRow
block_row = record {
  id = 2;
  key = codes "app:1";
  connection_identity = codes "console";
  site_id = codes "default";
  unifi_policy_id = some (codes "p1");
  desired_fingerprint = codes "f1";
  desired_revision = 1;
  observed_enabled = some true;
  observed_fingerprint = some (codes "f1");
  last_error = none;
  gateway_drift = none;
  drift_seen_at = none;
}

abbrev pub applied_pass : Pass
applied_pass = record created_pass {
  store = record (created_pass.store) { app_policies = block_row ∷ []; next_id = 3 };
}

pub apply_or_record_run :
    apply_or_record console home
      (codes "default")
      (λ _. none)
      app
      block_everyone
      (λ _. codes "failed")
      none
      checked_pass
    ≡ (applied_pass, [])
unfolding apply_or_record after_apply apply_desired write_policy create_and_record record_created
    confirmed_row drift_cleared add_row text_eq
apply_or_record_run = rw create_owned_policy_run refl
