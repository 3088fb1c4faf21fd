-- ===== src/Sync/Gateway.antt =====
-- The gateway writes of server/reconciliation.ts behind the ownership guard of
-- server/unifi/policy-ownership.ts. The UniFi console is the parameter `Console`: it answers each
-- request as it likes, also differently each time, and every request sent is kept in a log.
pub mod Creation
pub mod Deletion
pub mod Guard
pub mod Invariant
pub mod Names
pub mod Tests
use familyfi.Base.{
  ℕ, zero, suc, ◌+◌, Bool, true, false, not, ◌&&◌, ◌||◌, Option, none, some, List, [], ◌∷◌, ◌++◌,
  ltb, leb, ◌==◌, if◌then◌else◌, Text, text_eq, includes, length, keep, opt_text_eq,
}
use familyfi.Payload.{FirewallPolicy, FirewallPolicyWrite, write_fields, reclaims}
use familyfi.Sync.Store.{
  PolicyOperation, PolicyOperationIntent, OperationStatus, create, pending, applied, failed,
  removed, PolicyRow, Store, OwnershipScope, policy_on_record, delete_confirmed, update_operation,
  is_creation,
}

pub data Request : Type 0 where
  gets : Text → Request
  creates : FirewallPolicyWrite → Request
  updates : Text → FirewallPolicyWrite → Request
  deletes : Text → Request

-- An answer of the console: the policy, an HTTP error, or none at all.
pub data Answer : Type 0 where
  accepted : FirewallPolicy → Answer
  refused : ℕ → Answer
  unanswered : Answer

pub data Failure : Type 0 where
  http : ℕ → Failure
  no_answer : Failure
  ownership : Failure
  lock_lost : Failure
  bad_mac : Failure

-- The console's answer to a request and the time, given how many requests were sent before, and
-- whether the lock is still held at each check of it.
pub record Console : Type 0 where
  pub answer : ℕ → Request → Answer
  pub clock : ℕ → ℕ
  pub held : ℕ → Bool

-- The state of a pass: the database, what the gateway is known to hold, the policies of lost creates
-- not yet taken, the requests sent so far (latest first, each with the database and the
-- time as they were then) and the checks of the lock made.
pub record Pass : Type 0 where
  pub store : Store
  pub on_gateway : List Text
  pub adopted : List FirewallPolicy
  pub requests : List (Request × Store × ℕ)
  pub checks : ℕ

pub data Result {ℓ} (A : Type ℓ) : Type ℓ where
  ok : A → Result A
  err : Failure → Result A

-- A call that may throw; what it changed before it threw stays changed.
abbrev pub M : Type 0 → Type 0
M A = Pass → Result A × Pass

abbrev pub pure : {A : Type 0} → A → M A
pure a p = (ok a, p)

abbrev pub throw : {A : Type 0} → Failure → M A
throw f p = (err f, p)

abbrev pub and_then : {A B : Type 0} → Result A × Pass → (A → M B) → Result B × Pass
and_then (ok a, p) k = k a p
and_then (err f, p) k = (err f, p)

infixl 5 ◌>>=◌ ◌>>◌
abbrev pub ◌>>=◌ : {A B : Type 0} → M A → (A → M B) → M B
◌>>=◌ m k p = and_then (m p) k

abbrev pub ◌>>◌ : {B : Type 0} → M (Unit {0}) → M B → M B
m >> k = m >>= λ _. k

abbrev pub caught : {A : Type 0} → Result A × Pass → (Failure → M A) → Result A × Pass
caught (ok a, p) handler = (ok a, p)
caught (err f, p) handler = handler f p

-- `try { … } catch`.
abbrev pub catching : {A : Type 0} → M A → (Failure → M A) → M A
catching m handler p = caught (m p) handler

abbrev pub modify : (Pass → Pass) → M (Unit {0})
modify f p = (ok tt, f p)

abbrev pub is_not_found : Failure → Bool
is_not_found (http status) = status == 404
is_not_found _ = false

-- `400 <= status < 500`: the gateway refused, and created nothing.
abbrev pub is_refusal : Failure → Bool
is_refusal (http status) = leb 400 status && ltb status 500
is_refusal _ = false

abbrev settle : Answer → M FirewallPolicy
settle (accepted policy) = pure policy
settle (refused status) = throw (http status)
settle unanswered = throw no_answer

unfoldable pub set_operation : ℕ → (PolicyOperation → PolicyOperation) → Pass → Pass
set_operation id change p = record p {
  store = record (p.store) { operations = update_operation id change (p.store).operations };
}

abbrev pub add_gateway : Text → Pass → Pass
add_gateway id p = record p { on_gateway = id ∷ p.on_gateway }

abbrev pub drop_gateway : Text → Pass → Pass
drop_gateway id p = record p { on_gateway = keep (λ other. not (text_eq other id)) p.on_gateway }

-- `findIndex` of a policy that can stand for the write, and `splice` of it.
pub take_adopted :
    FirewallPolicyWrite → List FirewallPolicy → Option (FirewallPolicy × List FirewallPolicy)
take_adopted write [] = none
take_adopted write (a ∷ l) = elim (reclaims a write) [
  | true ↦ some (a, l)
  | false ↦ elim (take_adopted write l) [ none ↦ none | some (b, left) ↦ some (b, a ∷ left) ]
]

-- `policyOperation.create` of a pending creation.
abbrev new_creation : Text → Text → Text → FirewallPolicyWrite → ℕ → ℕ → PolicyOperation
new_creation identity site fingerprint write id now = record {
  id = id;
  intent = create;
  status = pending;
  connection_identity = identity;
  site_id = site;
  payload_fingerprint = some fingerprint;
  payload = some (write_fields write);
  unifi_policy_id = none;
  created_at = now;
}

unfoldable pub begin_creation : PolicyOperation → Pass → Pass
begin_creation o p = record p {
  store = record (p.store) {
    operations = (p.store).operations ++ o ∷ [];
    next_id = suc (p.store).next_id;
  };
}

abbrev pub to_failed : PolicyOperation → PolicyOperation
to_failed o = record o { status = failed; payload = none }

abbrev pub to_applied : Text → PolicyOperation → PolicyOperation
to_applied policy o = record o { status = applied; unifi_policy_id = some policy; payload = none }

module _ (c : Console) (scope : OwnershipScope) (site : Text) where
  -- `new Date()`.
  pub time_now : Pass → ℕ
  time_now p = c.clock (length p.requests)

  -- One request to the console.
  pub send : Request → M FirewallPolicy
  unfolding time_now
  send r p =
      settle (c.answer (length p.requests) r)
        (record p { requests = (r, p.store, time_now p) ∷ p.requests })

  -- `stillHeld`.
  unfoldable pub still_held : M (Unit {0})
  still_held p =
      let next = record p { checks = suc p.checks } in
      if c.held p.checks then (ok tt, next) else (err lock_lost, next)

  may_update : Text → Store → Bool
  may_update policy st = policy_on_record scope site policy st

  may_delete : Text → ℕ → Store → Bool
  may_delete policy now st =
      policy_on_record scope site policy st || delete_confirmed scope site policy now st

  -- `updatePolicy` and `deletePolicy` of `withPolicyOwnership`.
  pub update_policy : Text → FirewallPolicyWrite → M FirewallPolicy
  unfolding may_update send
  update_policy policy body p =
      if may_update policy p.store then send (updates policy body) p else (err ownership, p)

  pub delete_policy : Text → M FirewallPolicy
  unfolding may_delete send time_now
  delete_policy policy p =
      if may_delete policy (time_now p) p.store then send (deletes policy) p else (err ownership, p)

  -- One already gone from the gateway counts as deleted.
  tolerate_not_found : Failure → M (Unit {0})
  tolerate_not_found f p = if is_not_found f then (ok tt, p) else (err f, p)

  delete_policy_only : Text → M (Unit {0})
  unfolding delete_policy
  delete_policy_only policy = delete_policy policy >>= λ _. pure tt

  delete_or_gone : Text → M (Unit {0})
  unfolding delete_policy_only tolerate_not_found
  delete_or_gone policy = catching (delete_policy_only policy) tolerate_not_found

  -- `deleteFromGateway`.
  pub delete_from_gateway : Text → M (Unit {0})
  unfolding delete_or_gone
  delete_from_gateway policy p =
      if includes p.on_gateway policy
      then (delete_or_gone policy >>= λ _. modify (drop_gateway policy)) p
      else (ok tt, drop_gateway policy p)

  -- What `createOwnedPolicy` does with the console's answer to its creation `id`.
  settle_creation : ℕ → FirewallPolicy → M FirewallPolicy
  unfolding set_operation
  settle_creation id created p =
      (ok created, set_operation id (to_applied created.id) (add_gateway created.id p))

  fail_creation : ℕ → Failure → M FirewallPolicy
  unfolding set_operation
  fail_creation id f p = (err f, if is_refusal f then set_operation id to_failed p else p)

  attempt_creation : ℕ → FirewallPolicyWrite → M FirewallPolicy
  unfolding send fail_creation
  attempt_creation id write = catching (send (creates write)) (fail_creation id)

  create_new_policy : FirewallPolicyWrite → Text → M FirewallPolicy
  unfolding attempt_creation begin_creation settle_creation time_now
  create_new_policy write fingerprint p =
      let id = (p.store).next_id in
      let begun =
        begin_creation
          (new_creation scope.connection_identity site fingerprint write id (time_now p)) p in
      (attempt_creation id write >>= settle_creation id) begun

  -- `createOwnedPolicy`.
  pub create_owned_policy : FirewallPolicyWrite → Text → M FirewallPolicy
  unfolding create_new_policy take_adopted
  create_owned_policy write fingerprint p = elim (take_adopted write p.adopted) [
    | some (reclaimed, left) ↦ (ok reclaimed, record p { adopted = left })
    | none ↦ create_new_policy write fingerprint p
  ]
