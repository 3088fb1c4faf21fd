-- ===== src/Sync/Gateway/Tests.antt =====
-- A console, a policy and an empty database, and what a creation there records.
use familyfi.Base.{◌+◌, ◌≡◌, refl, true, none, some, [], ◌∷◌, codes, length}
use familyfi.Payload.{
  write_fields, undefined, null, str, no_fields, FirewallPolicy, FirewallPolicyWrite,
}
use familyfi.Sync.Store.{PolicyOperation, create, pending, update_operation, OwnershipScope}
use familyfi.Sync.Gateway.{
  creates, to_applied, time_now, Console, Pass, accepted, Result, ok, create_owned_policy,
  create_new_policy, attempt_creation, begin_creation, settle_creation, fail_creation, send,
  take_adopted, set_operation, update_policy, delete_policy, updates, deletes, settle,
}
use familyfi.Sync.Gateway.Creation.{
  IsCreated, answer_to, create_owned_policy_records, create_owned_policy_on_record,
}

abbrev pub block_write : FirewallPolicyWrite
block_write = record {
  name = codes "Block";
  description = undefined;
  enabled = true;
  logging_enabled = undefined;
  action = str (codes "BLOCK");
  ip_protocol_scope = undefined;
  source = null;
  destination = null;
  connection_state_filter = undefined;
  ipsec_filter = undefined;
  schedule = undefined;
}

abbrev pub block_policy : FirewallPolicy
block_policy = record { id = codes "p1"; content = block_write; extra = no_fields }

-- A console that accepts each write.
abbrev pub console : Console
console = record {
  answer = λ n r. accepted block_policy;
  clock = λ n. 1000000 + n;
  held = λ n. true;
}

abbrev pub home : OwnershipScope
home = record { connection_identity = codes "console"; site_id = some (codes "default") }

abbrev pub empty_pass : Pass
empty_pass = record {
  store = record { app_policies = []; rule_policies = []; operations = []; next_id = 1 };
  on_gateway = [];
  adopted = [];
  requests = [];
  checks = 0;
}

abbrev created : Result FirewallPolicy × Pass
created = create_owned_policy console home (codes "default") block_write (codes "f1") empty_pass

none_adopted : take_adopted block_write [] ≡ none
unfolding take_adopted
none_adopted = refl

create_owned_policy_records_example :
    IsCreated console home
      (codes "default")
      block_write
      (codes "f1")
      empty_pass
      (answer_to console home (codes "default") block_write (codes "f1") empty_pass)
      created
create_owned_policy_records_example =
    create_owned_policy_records console home (codes "default") block_write (codes "f1") empty_pass
      tt none_adopted

created-ok : created ≡ (ok block_policy, created.1)
unfolding create_owned_policy create_new_policy attempt_creation begin_creation settle_creation
    fail_creation send take_adopted set_operation
created-ok = refl

create_owned_policy_on_record_example :
    (update_policy console home (codes "default") (codes "p1") block_write created.1
      ≡ settle
          (console.answer (length created.1.requests) (updates (codes "p1") block_write))
          (record created.1 {
            requests =
                (
                  updates (codes "p1") block_write,
                  created.1.store,
                  console.clock (length created.1.requests),
                )
                ∷ created.1.requests;
          }))
    × (delete_policy console home (codes "default") (codes "p1") created.1
        ≡ settle
            (console.answer (length created.1.requests) (deletes (codes "p1")))
            (record created.1 {
              requests =
                  (deletes (codes "p1"), created.1.store, console.clock (length created.1.requests))
                  ∷ created.1.requests;
            }))
create_owned_policy_on_record_example =
    create_owned_policy_on_record console home b'd' (codes "efault") block_write block_write
      (codes "f1") empty_pass created.1 block_policy tt none_adopted refl created-ok

-- A pass that has asked once whether the lock is held, and the same after it created the policy.
abbrev pub checked_pass : Pass
checked_pass = record empty_pass { checks = 1 }

abbrev pending_creation : PolicyOperation
pending_creation = record {
  id = 1;
  intent = create;
  status = pending;
  connection_identity = codes "console";
  site_id = codes "default";
  payload_fingerprint = some (codes "f1");
  payload = some (write_fields block_write);
  unifi_policy_id = none;
  created_at = 1000000;
}

abbrev pub created_pass : Pass
created_pass = record {
  store = record {
    app_policies = [];
    rule_policies = [];
    operations = to_applied (codes "p1") pending_creation ∷ [];
    next_id = 2;
  };
  on_gateway = codes "p1" ∷ [];
  adopted = [];
  requests =
      (
        creates block_write,
        record {
          app_policies = [];
          rule_policies = [];
          operations = pending_creation ∷ [];
          next_id = 2;
        },
        1000000,
      )
      ∷ [];
  checks = 1;
}

pub create_owned_policy_run :
    create_owned_policy console home (codes "default") block_write (codes "f1") checked_pass
    ≡ (ok block_policy, created_pass)
unfolding create_owned_policy create_new_policy attempt_creation begin_creation settle_creation
    fail_creation send take_adopted set_operation time_now update_operation
create_owned_policy_run = refl
