-- ===== src/Sync/Gateway/Creation.antt =====
-- What `createOwnedPolicy` records for each answer of the console.
use familyfi.Base.{
  ℕ, ◌<◌, ◌≡◌, refl, sym, ◌∙◌, ap, arith, inl, inr, Bool, true, false, none, some, List, [], ◌∷◌,
  ◌++◌, ◌==◌, Text, text_eq_refl, any, All, if◌then◌else◌, Option, leb, length, Bool-cases, ◌&&◌,
}
use familyfi.Payload.{FirewallPolicy, FirewallPolicyWrite, Fields, write_fields}
use familyfi.Sync.Store.{
  PolicyOperation, Store, OwnershipScope, policy_on_record, operation_names, is_creation,
  update_operation, OperationStatus, create, pending, applied, failed,
}
use familyfi.Sync.Gateway.{
  Console, Pass, creates, Answer, accepted, refused, unanswered, http, Result, ok, err, caught,
  and_then, settle, send, is_refusal, begin_creation, to_failed, to_applied, set_operation,
  settle_creation, fail_creation, attempt_creation, create_new_policy, create_owned_policy,
  take_adopted, time_now, no_answer, may_update, may_delete, update_policy, delete_policy, updates,
  deletes,
}

-- Row ids are issued in turn.
abbrev pub HasFreshId : Store → Type 0
HasFreshId st = All (λ o. o.id < st.next_id) st.operations

update_operation-last :
    (id : ℕ) (change : PolicyOperation → PolicyOperation) (os : List PolicyOperation)
    (o : PolicyOperation)
    → All (λ o. o.id < id) os
    → o.id ≡ id
    → update_operation id change (os ++ o ∷ []) ≡ os ++ change o ∷ []
unfolding update_operation
update_operation-last id change [] o h e = rw (let t : (o.id == id) ≡ true = ground arith in t) refl
update_operation-last id change (p ∷ ps) o (l, h) e =
    rw (let t : (p.id == id) ≡ false = ground arith in t)
      (ap (λ rest. p ∷ rest) (update_operation-last id change ps o h e))

-- What the record of a creation says after each answer: the console accepted the policy, refused it
-- with a status of the four hundreds, or may have made it all the same.
pub status_after : Answer → OperationStatus
status_after (accepted policy) = applied
status_after (refused status) = if leb 400 status && leb status 499 then failed else pending
status_after unanswered = pending

pub payload_after : FirewallPolicyWrite → Answer → Option Fields
payload_after write (accepted policy) = none
payload_after write (refused status) =
    if leb 400 status && leb status 499 then none else some (write_fields write)
payload_after write unanswered = some (write_fields write)

pub policy_after : Answer → Option Text
policy_after (accepted policy) = some policy.id
policy_after (refused status) = none
policy_after unanswered = none

pub result_after : Answer → Result FirewallPolicy
result_after (accepted policy) = ok policy
result_after (refused status) = err (http status)
result_after unanswered = err no_answer

module _ (c : Console) (scope : OwnershipScope) (site : Text) (write : FirewallPolicyWrite)
    (fingerprint : Text) where
  -- The record of a creation that the console gave this answer to.
  pub record_after : Pass → Answer → PolicyOperation
  unfolding status_after payload_after policy_after
  record_after p a = record {
    id = (p.store).next_id;
    intent = create;
    status = status_after a;
    connection_identity = scope.connection_identity;
    site_id = site;
    payload_fingerprint = some fingerprint;
    payload = payload_after write a;
    unifi_policy_id = policy_after a;
    created_at = c.clock (length p.requests);
  }

  -- The console's answer to the next request, if that is the creation.
  abbrev pub answer_to : Pass → Answer
  answer_to p = c.answer (length p.requests) (creates write)

  -- One creation was sent, with its record pending in the database; its answer `a` is what the call
  -- ends with and what the record says in the end.
  pub record IsCreated (p : Pass) (a : Answer) (r : Result FirewallPolicy × Pass) : Type 0 where
    pub answered : r.0 ≡ result_after a
    pub recorded : (r.1.store).operations ≡ (p.store).operations ++ record_after p a ∷ []
    pub before : Store
    pub sent : r.1.requests ≡ (creates write, before, c.clock (length p.requests)) ∷ p.requests
    pub was_pending : before.operations ≡ (p.store).operations ++ record_after p unanswered ∷ []

  create_new_policy-IsCreated :
      (p : Pass)
      → HasFreshId p.store
      → IsCreated p (answer_to p) (create_new_policy c scope site write fingerprint p)
  unfolding create_new_policy begin_creation attempt_creation settle_creation fail_creation
      set_operation send time_now record_after result_after status_after payload_after policy_after
  create_new_policy-IsCreated p fresh = go (answer_to p)
    where
      pending_record : PolicyOperation
      pending_record = record_after p unanswered

      begun : Pass
      begun = begin_creation pending_record p

      sent_pass : Pass
      sent_pass = record begun {
        requests = (creates write, begun.store, c.clock (length p.requests)) ∷ begun.requests;
      }

      go :
          (a : Answer)
          → IsCreated p a (
              and_then
                (caught (settle a sent_pass) (fail_creation c scope site (p.store).next_id))
                (settle_creation c scope site (p.store).next_id))
      go (accepted policy) = record {
        answered = refl;
        recorded =
            update_operation-last (p.store).next_id (to_applied policy.id) (p.store).operations
              pending_record fresh refl;
        before = begun.store;
        sent = refl;
        was_pending = refl;
      }
      go (refused status) = elim (Bool-cases (leb 400 status && leb status 499)) [
        | inl lo ↦
            let lo' : is_refusal (http status) ≡ true = ground (arith, lo) in
            record {
              answered = refl;
              recorded =
                  rw (lo', lo)
                    (update_operation-last (p.store).next_id to_failed (p.store).operations
                      pending_record fresh refl);
              before = begun.store;
              sent = rw lo' refl;
              was_pending = refl;
            }
        | inr hi ↦
            let hi' : is_refusal (http status) ≡ false = ground (arith, hi) in
            record {
              answered = refl;
              recorded = rw (hi', hi) refl;
              before = begun.store;
              sent = rw hi' refl;
              was_pending = refl;
            }
      ]
      go unanswered = record {
        answered = refl;
        recorded = refl;
        before = begun.store;
        sent = refl;
        was_pending = refl;
      }

  -- A creation that no adopted policy can stand for sends one request, with a record of it pending in
  -- the database, and changes no other record. In the end that record is applied under the policy's
  -- id when the console accepted the creation, failed and without its payload when the console
  -- refused it with a status from 400 to 499, and otherwise still pending with the payload that was
  -- sent; and the call answers the policy, or throws what the console answered.
  pub create_owned_policy_records :
      (p : Pass)
      → HasFreshId p.store
      → take_adopted write p.adopted ≡ none
      → IsCreated p (answer_to p) (create_owned_policy c scope site write fingerprint p)
  unfolding create_owned_policy
  create_owned_policy_records p fresh none_fits =
      rw (none_fits, create_owned_policy) (create_new_policy-IsCreated p fresh)

any-last :
    (f : PolicyOperation → Bool) (os : List PolicyOperation) (o : PolicyOperation)
    → f o ≡ true
    → any f (os ++ o ∷ []) ≡ true
unfolding any
any-last f [] o h = ground arith
any-last f (p ∷ ps) o h = ground (arith, any-last f ps o h)

result_after-ok :
    (a : Answer) (policy : FirewallPolicy) → result_after a ≡ ok policy → a ≡ accepted policy
unfolding result_after
result_after-ok (accepted made) policy e = cc
result_after-ok (refused status) policy e = absurd (cc)
result_after-ok unanswered policy e = absurd (cc)

-- A policy that `createOwnedPolicy` made, and not adopted, is on record as soon as the call ends: an
-- update and a delete of it right after the call are not refused by the ownership guard, but sent to
-- the console.
pub create_owned_policy_on_record :
    (c : Console) (scope : OwnershipScope) (c0 : ℕ) (tail : Text) (write body : FirewallPolicyWrite)
    (fingerprint : Text) (p q : Pass) (created : FirewallPolicy)
    → HasFreshId p.store
    → take_adopted write p.adopted ≡ none
    → scope.site_id ≡ some (c0 ∷ tail)
    → create_owned_policy c scope (c0 ∷ tail) write fingerprint p ≡ (ok created, q)
    → (update_policy c scope (c0 ∷ tail) created.id body q
        ≡ settle (c.answer (length q.requests) (updates created.id body)) (record q {
          requests = (updates created.id body, q.store, c.clock (length q.requests)) ∷ q.requests;
        }))
      × (delete_policy c scope (c0 ∷ tail) created.id q
          ≡ settle (c.answer (length q.requests) (deletes created.id)) (record q {
            requests = (deletes created.id, q.store, c.clock (length q.requests)) ∷ q.requests;
          }))
unfolding policy_on_record operation_names is_creation update_policy delete_policy may_update
    may_delete send record_after status_after policy_after
create_owned_policy_on_record c scope c0 tail write body fingerprint p q created fresh none_fits
      here e =
    let site : Text = c0 ∷ tail in
    let made = create_owned_policy_records c scope site write fingerprint p fresh none_fits in
    let accepted_as = result_after-ok _ created (sym made.answered ∙ ap (λ r. r.0) e) in
    let last : (q.store).operations
        ≡ (p.store).operations
          ++ record_after c scope site write fingerprint p (accepted created) ∷ [] =
      sym (ap (λ r. (r.1.store).operations) e)
      ∙ made.recorded
      ∙ ap (λ a. (p.store).operations ++ record_after c scope site write fingerprint p a ∷ [])
          accepted_as in
    let found =
      any-last (λ o. operation_names scope.connection_identity site created.id o && is_creation o)
        (p.store).operations (record_after c scope site write fingerprint p (accepted created))
        (ground (
          arith,
          text_eq_refl created.id,
          text_eq_refl scope.connection_identity,
          text_eq_refl site,
        )) in
    let known : policy_on_record scope site created.id q.store ≡ true =
      rw (here, last) (ground (arith, text_eq_refl site)) in
    (rw known refl, rw known refl)
