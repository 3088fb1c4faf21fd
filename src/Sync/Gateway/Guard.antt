-- ===== src/Sync/Gateway/Guard.antt =====
-- Every call of the reconciler that reaches the console keeps an invariant that authorised requests
-- keep; the first such invariant is that all requests were authorised.
use familyfi.Base.{ℕ, ◌≡◌, refl, inl, inr, true, arith, Text, includes, Bool-cases, Option-cases}
use familyfi.Payload.{FirewallPolicy, FirewallPolicyWrite}
use familyfi.Sync.Store.{Store, OwnershipScope, policy_on_record}
use familyfi.Sync.Gateway.{
  Console, Pass, Request, gets, creates, updates, deletes, Failure, pure, modify, send, time_now,
  may_update, may_delete, update_policy, delete_policy, delete_from_gateway, settle_creation,
  fail_creation, attempt_creation, new_creation, tolerate_not_found, delete_policy_only,
  delete_or_gone, create_new_policy, take_adopted, create_owned_policy, begin_creation, still_held,
  drop_gateway, add_gateway, is_not_found, is_refusal, to_failed, to_applied, set_operation,
}
use familyfi.Sync.Gateway.Invariant.{
  IsAuthorised, AllAuthorised, IsGuarded, Keeps, >>=-Keeps, catching-Keeps, settle-Keeps,
}

pub AllAuthorised-IsGuarded :
    (scope : OwnershipScope) (site : Text) → IsGuarded scope site (AllAuthorised scope site)
unfolding begin_creation set_operation
AllAuthorised-IsGuarded scope site = record {
  quiet = λ p q same _ a. rw same at a;
  sends = λ r p now h a. (h, a);
  begins = λ o p _ a. a;
  settles = λ id change p _ a. a;
}

module _ (scope : OwnershipScope) (site : Text) (I : Pass → Type 0) (g : IsGuarded scope site I)
    (c : Console) where
  send-Keeps :
      (r : Request) (p : Pass)
      → IsAuthorised scope site (r, p.store, time_now c scope site p)
      → I p
      → I (send c scope site r p).1
  unfolding send
  send-Keeps r p h a = settle-Keeps I (c.answer _ r) _ (g.sends r p (time_now c scope site p) h a)

  pub still_held-Keeps : Keeps I (still_held c scope site)
  unfolding still_held
  still_held-Keeps p a = elim (Bool-cases (c.held p.checks)) [
    | inl held ↦ rw held (g.quiet p _ refl refl a)
    | inr lost ↦ rw lost (g.quiet p _ refl refl a)
  ]

  pub gets-Keeps : (policy : Text) → Keeps I (send c scope site (gets policy))
  gets-Keeps policy p a = send-Keeps (gets policy) p tt a

  pub update_policy-Keeps :
      (policy : Text) (body : FirewallPolicyWrite)
      → Keeps I (update_policy c scope site policy body)
  unfolding update_policy may_update
  update_policy-Keeps policy body p a =
      elim (Bool-cases (policy_on_record scope site policy p.store)) [
        | inl on ↦ rw on (send-Keeps (updates policy body) p on a)
        | inr off ↦ rw off (g.quiet p _ refl refl a)
      ]

  may_delete-IsAuthorised :
      (policy : Text) (now : ℕ) (st : Store)
      → may_delete c scope site policy now st ≡ true
      → IsAuthorised scope site (deletes policy, st, now)
  unfolding may_delete
  may_delete-IsAuthorised policy now st e =
      elim (Bool-cases (policy_on_record scope site policy st)) [
        | inl on ↦ inl on
        | inr off ↦ inr (ground arith)
      ]

  delete_policy-Keeps : (policy : Text) → Keeps I (delete_policy c scope site policy)
  unfolding delete_policy
  delete_policy-Keeps policy p a =
      elim (Bool-cases (may_delete c scope site policy (time_now c scope site p) p.store)) [
        | inl on ↦
            rw on (send-Keeps (deletes policy) p (may_delete-IsAuthorised policy _ p.store on) a)
        | inr off ↦ rw off (g.quiet p _ refl refl a)
      ]

  delete_policy_only-Keeps : (policy : Text) → Keeps I (delete_policy_only c scope site policy)
  unfolding delete_policy_only
  delete_policy_only-Keeps policy =
      >>=-Keeps I (delete_policy c scope site policy) (λ _. pure tt) (delete_policy-Keeps policy)
        (λ _ p a. a)

  tolerate_not_found-Keeps : (f : Failure) → Keeps I (tolerate_not_found c scope site f)
  unfolding tolerate_not_found
  tolerate_not_found-Keeps f p a = elim (Bool-cases (is_not_found f)) [
    | inl gone ↦ rw gone a
    | inr other ↦ rw other a
  ]

  delete_or_gone-Keeps : (policy : Text) → Keeps I (delete_or_gone c scope site policy)
  unfolding delete_or_gone
  delete_or_gone-Keeps policy =
      catching-Keeps I (delete_policy_only c scope site policy) (tolerate_not_found c scope site)
        (delete_policy_only-Keeps policy) tolerate_not_found-Keeps

  pub delete_from_gateway-Keeps :
      (policy : Text) → Keeps I (delete_from_gateway c scope site policy)
  unfolding delete_from_gateway
  delete_from_gateway-Keeps policy p a = elim (Bool-cases (includes p.on_gateway policy)) [
    | inl on ↦ rw on (
        >>=-Keeps I (delete_or_gone c scope site policy) (λ _. modify (drop_gateway policy))
          (delete_or_gone-Keeps policy) (λ _ p a. g.quiet p _ refl refl a) p a)
    | inr off ↦ rw off (g.quiet p _ refl refl a)
  ]

  fail_creation-Keeps : (id : ℕ) (f : Failure) → Keeps I (fail_creation c scope site id f)
  unfolding fail_creation
  fail_creation-Keeps id f p a = elim (Bool-cases (is_refusal f)) [
    | inl lo ↦ rw lo (g.settles id to_failed p (λ o. refl) a)
    | inr hi ↦ rw hi a
  ]

  attempt_creation-Keeps :
      (id : ℕ) (write : FirewallPolicyWrite) → Keeps I (attempt_creation c scope site id write)
  unfolding attempt_creation
  attempt_creation-Keeps id write =
      catching-Keeps I (send c scope site (creates write)) (fail_creation c scope site id)
        (λ p a. send-Keeps (creates write) p tt a) (fail_creation-Keeps id)

  settle_creation-Keeps :
      (id : ℕ) (created : FirewallPolicy) → Keeps I (settle_creation c scope site id created)
  unfolding settle_creation
  settle_creation-Keeps id created p a =
      g.settles id (to_applied created.id) (add_gateway created.id p) (λ o. refl)
        (g.quiet p _ refl refl a)

  create_new_policy-Keeps :
      (write : FirewallPolicyWrite) (fingerprint : Text)
      → Keeps I (create_new_policy c scope site write fingerprint)
  unfolding create_new_policy
  create_new_policy-Keeps write fingerprint p a =
      let id = (p.store).next_id in
      >>=-Keeps I (attempt_creation c scope site id write) (settle_creation c scope site id)
        (attempt_creation-Keeps id write) (settle_creation-Keeps id)
        (begin_creation
          (new_creation scope.connection_identity site fingerprint write id
            (time_now c scope site p))
          p)
        (g.begins _ p refl a)

  -- Creating a policy sends no update and no delete.
  pub create_owned_policy-Keeps :
      (write : FirewallPolicyWrite) (fingerprint : Text)
      → Keeps I (create_owned_policy c scope site write fingerprint)
  unfolding create_owned_policy
  create_owned_policy-Keeps write fingerprint p a =
      elim (Option-cases (take_adopted write p.adopted)) [
        | inl gone ↦ rw (gone, create_owned_policy) (create_new_policy-Keeps write fingerprint p a)
        | inr (found, e) ↦ rw (e, create_owned_policy) (g.quiet p _ refl refl a)
      ]
