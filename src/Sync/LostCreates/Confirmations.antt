-- ===== src/Sync/LostCreates/Confirmations.antt =====
-- Settling lost creates confirms no deletion and changes no row.
use familyfi.Base.{
  ℕ, ◌≡◌, refl, inl, inr, List, [], ◌∷◌, Text, All, ltb, keep, not, includes, Bool-cases,
  Option-cases,
}
use familyfi.Payload.{FirewallPolicy}
use familyfi.Sync.Store.{PolicyOperation, Store, update_operation}
use familyfi.Sync.Store.Confirmations.{Unconfirmed, NoneConfirmed, update_operation-Unconfirmed}
use familyfi.Sync.Gateway.{to_failed, to_applied}
use familyfi.Sync.LostCreates.{
  match_of, abandon, settle_each, pending_creations, claimed_ids, settle_lost_creates,
}

abandon-Unconfirmed :
    (before : ℕ) (o : PolicyOperation) (operations : List PolicyOperation)
    → All Unconfirmed operations
    → All Unconfirmed (abandon before o operations)
abandon-Unconfirmed before o operations a = elim (Bool-cases (ltb o.created_at before)) [
  | inl old ↦ rw old (update_operation-Unconfirmed o.id to_failed operations (λ o. refl) a)
  | inr young ↦ rw young a
]

settle_each-Unconfirmed :
    (before : ℕ) (unclaimed : List FirewallPolicy) (claimed : List Text)
    (os operations : List PolicyOperation)
    → All Unconfirmed operations
    → All Unconfirmed (settle_each before unclaimed claimed os operations).1
unfolding settle_each
settle_each-Unconfirmed before unclaimed claimed [] operations a = a
settle_each-Unconfirmed before unclaimed claimed (o ∷ os) operations a =
    elim (Option-cases (match_of claimed unclaimed o)) [
      | inl lost ↦
          rw (lost, settle_each)
            (settle_each-Unconfirmed before unclaimed claimed os (abandon before o operations)
              (abandon-Unconfirmed before o operations a))
      | inr (policy, e) ↦
          rw (e, settle_each)
            (settle_each-Unconfirmed before unclaimed (policy.id ∷ claimed) os
              (update_operation o.id (to_applied policy.id) operations)
              (update_operation-Unconfirmed o.id (to_applied policy.id) operations (λ o. refl) a))
    ]

pub settle_lost_creates-NoneConfirmed :
    (identity site : Text) (gateway : List FirewallPolicy) (before : ℕ) (st : Store)
    → NoneConfirmed st
    → NoneConfirmed (settle_lost_creates identity site gateway before st).1
unfolding settle_lost_creates
settle_lost_creates-NoneConfirmed identity site gateway before st a =
    settle_each-Unconfirmed before
      (keep (λ policy. not (includes (claimed_ids identity site st) policy.id)) gateway)
      (claimed_ids identity site st) (pending_creations identity site st) st.operations a

pub settle_lost_creates-rows :
    (identity site : Text) (gateway : List FirewallPolicy) (before : ℕ) (st : Store)
    → let after = (settle_lost_creates identity site gateway before st).1 in
      (after.app_policies ≡ st.app_policies)
      × (after.rule_policies ≡ st.rule_policies)
      × (after.next_id ≡ st.next_id)
unfolding settle_lost_creates
settle_lost_creates-rows identity site gateway before st = (refl, refl, refl)
