-- ===== src/Sync/Gateway/Names.antt =====
-- Which policies the gateway writes answer: what the console accepted, or one of a lost create.
use familyfi.Base.{
  ℕ, ◌≡◌, refl, sym, ap, ◌∙◌, arith, inl, inr, some, List, [], ◌∷◌, Memᴰ, Text, length, Bool-cases,
  Option-cases,
}
use familyfi.Payload.{FirewallPolicy, FirewallPolicyWrite, reclaims}
use familyfi.Sync.Store.{OwnershipScope}
use familyfi.Sync.Gateway.{
  Console, Pass, Request, gets, updates, creates, Answer, accepted, refused, unanswered, Result, ok,
  err, and_then, caught, settle, send, may_update, update_policy, take_adopted, create_new_policy,
  create_owned_policy, attempt_creation, fail_creation, settle_creation, begin_creation,
}

-- The policy that a call answers has an id that is `Given`.
abbrev pub Names : (Text → Type 0) → Result FirewallPolicy × Pass → Type 0
Names Given (ok policy, q) = Given policy.id
Names Given (err f, q) = Unit

-- Every lost create that is not yet taken has an id that is `Given`.
abbrev pub AdoptsGiven : (Text → Type 0) → Pass → Type 0
AdoptsGiven Given p = (a : FirewallPolicy) → Memᴰ a p.adopted → Given a.id

take_adopted-Memᴰ :
    (write : FirewallPolicyWrite) (l left : List FirewallPolicy) (a : FirewallPolicy)
    → take_adopted write l ≡ some (a, left)
    → Memᴰ a l
unfolding take_adopted
take_adopted-Memᴰ write [] left a e = absurd (cc)
take_adopted-Memᴰ write (x ∷ l) left a e = elim (Bool-cases (reclaims x write)) [
  | inl fits ↦
      let e' = rw (fits, take_adopted) at e in
      let same : x ≡ a = ground (arith, e') in Memᴰ.head (sym same)
  | inr misses ↦ elim (Option-cases (take_adopted write l)) [
    | inl gone ↦ absurd (let e' = rw (misses, gone, take_adopted) at e in cc)
    | inr ((b, rest), found) ↦
        let e' = rw (misses, found, take_adopted) at e in
        Memᴰ.tail (
          take_adopted-Memᴰ write l rest a
            (let same : b ≡ a = ground (arith, e') in found ∙ ap (λ y. some (y, rest)) same))
  ]
]

module _ (c : Console) (scope : OwnershipScope) (site : Text) (Given : Text → Type 0)
    (answers : (n : ℕ) (r : Request) (policy : FirewallPolicy)
      → c.answer n r ≡ accepted policy
      → Given policy.id) where
  settle-Names :
      (n : ℕ) (r : Request) (p : Pass) (a : Answer) → c.answer n r ≡ a → Names Given (settle a p)
  settle-Names n r p (accepted policy) e = answers n r policy e
  settle-Names n r p (refused status) e = tt
  settle-Names n r p unanswered e = tt

  settle-AdoptsGiven :
      (a : Answer) (p : Pass) → AdoptsGiven Given p → AdoptsGiven Given (settle a p).1
  settle-AdoptsGiven (accepted policy) p h = h
  settle-AdoptsGiven (refused status) p h = h
  settle-AdoptsGiven unanswered p h = h

  pub gets-Names : (policy : Text) (p : Pass) → Names Given (send c scope site (gets policy) p)
  unfolding send
  gets-Names policy p = settle-Names (length p.requests) (gets policy) _ _ refl

  pub gets-AdoptsGiven :
      (policy : Text) (p : Pass)
      → AdoptsGiven Given p
      → AdoptsGiven Given (send c scope site (gets policy) p).1
  unfolding send
  gets-AdoptsGiven policy p h = settle-AdoptsGiven (c.answer _ (gets policy)) _ h

  pub update_policy-Names :
      (policy : Text) (body : FirewallPolicyWrite) (p : Pass)
      → Names Given (update_policy c scope site policy body p)
  unfolding update_policy send
  update_policy-Names policy body p = elim (Bool-cases (may_update c scope site policy p.store)) [
    | inl may ↦ rw may (settle-Names (length p.requests) (updates policy body) _ _ refl)
    | inr not_may ↦ rw not_may tt
  ]

  pub update_policy-AdoptsGiven :
      (policy : Text) (body : FirewallPolicyWrite) (p : Pass)
      → AdoptsGiven Given p
      → AdoptsGiven Given (update_policy c scope site policy body p).1
  unfolding update_policy send
  update_policy-AdoptsGiven policy body p h =
      elim (Bool-cases (may_update c scope site policy p.store)) [
        | inl may ↦ rw may (settle-AdoptsGiven (c.answer _ (updates policy body)) _ h)
        | inr not_may ↦ rw not_may h
      ]

  create_new_policy-Names :
      (write : FirewallPolicyWrite) (fingerprint : Text) (p : Pass)
      → Names Given (create_new_policy c scope site write fingerprint p)
  unfolding create_new_policy attempt_creation fail_creation settle_creation send begin_creation
  create_new_policy-Names write fingerprint p =
      go (c.answer (length p.requests) (creates write)) refl _
    where
      go :
          (a : Answer)
          → c.answer (length p.requests) (creates write) ≡ a
          → (sent : Pass)
          → Names Given (
              and_then
                (caught (settle a sent) (fail_creation c scope site (p.store).next_id))
                (settle_creation c scope site (p.store).next_id))
      go (accepted policy) e sent = answers (length p.requests) (creates write) policy e
      go (refused status) e sent = tt
      go unanswered e sent = tt

  pub create_owned_policy-Names :
      (write : FirewallPolicyWrite) (fingerprint : Text) (p : Pass)
      → AdoptsGiven Given p
      → Names Given (create_owned_policy c scope site write fingerprint p)
  unfolding create_owned_policy
  create_owned_policy-Names write fingerprint p h =
      elim (Option-cases (take_adopted write p.adopted)) [
        | inl gone ↦ rw (gone, create_owned_policy) (create_new_policy-Names write fingerprint p)
        | inr ((a, left), e) ↦
            rw (e, create_owned_policy) (h a (take_adopted-Memᴰ write p.adopted left a e))
      ]
