-- ===== src/Sync/Gateway/Invariant.antt =====
-- Invariants of a pass: what a property of its state needs for every call of the reconciler to keep
-- it.
use familyfi.Base.{ℕ, ◌≡◌, ◌⊎◌, false, true, ◌∷◌, Text, All}
use familyfi.Sync.Store.{
  PolicyOperation, create, confirmed, same_status, Store, OwnershipScope, policy_on_record,
  delete_confirmed,
}
use familyfi.Sync.Gateway.{
  Pass, Request, gets, creates, updates, deletes, Answer, accepted, refused, unanswered, Failure,
  Result, ok, err, M, and_then, catching, caught, ◌>>=◌, settle, set_operation, begin_creation,
}

module _ (scope : OwnershipScope) (site : Text) where
  -- An update or a delete was of a policy that was on record when it was sent; or, for a delete
  -- only, its confirmation by an administrator still stood at the time.
  abbrev pub IsAuthorised : Request × Store × ℕ → Type 0
  IsAuthorised (gets policy, st, now) = Unit
  IsAuthorised (creates write, st, now) = Unit
  IsAuthorised (updates policy write, st, now) = policy_on_record scope site policy st ≡ true
  IsAuthorised (deletes policy, st, now) =
      (policy_on_record scope site policy st ≡ true)
      ⊎ (delete_confirmed scope site policy now st ≡ true)

  abbrev pub AllAuthorised : Pass → Type 0
  AllAuthorised p = All IsAuthorised p.requests

  -- A property of a pass that an authorised request, the start of a creation, a change of an
  -- operation that does not confirm it, and a change of what the pass knows
  -- besides the database and the requests keep.
  pub record IsGuarded (I : Pass → Type 0) : Type 0 where
    pub quiet : (p q : Pass) → p.requests ≡ q.requests → p.store ≡ q.store → I p → I q
    pub sends :
        (r : Request) (p : Pass) (now : ℕ)
        → IsAuthorised (r, p.store, now)
        → I p
        → I (record p { requests = (r, p.store, now) ∷ p.requests })
    pub begins : (o : PolicyOperation) (p : Pass) → o.intent ≡ create → I p → I (begin_creation o p)
    pub settles :
        (id : ℕ) (change : PolicyOperation → PolicyOperation) (p : Pass)
        → ((o : PolicyOperation) → same_status (change o).status confirmed ≡ false)
        → I p
        → I (set_operation id change p)

module _ (I : Pass → Type 0) where
  -- A call that keeps the property, whether it succeeds or throws.
  abbrev pub Keeps : {A : Type 0} → M A → Type 0
  Keeps m = (p : Pass) → I p → I (m p).1

  pub and_then-Keeps :
      {A B : Type 0} (r : Result A × Pass) (k : A → M B)
      → I r.1
      → ((a : A) → Keeps (k a))
      → I (and_then r k).1
  and_then-Keeps (ok a, p) k h f = f a p h
  and_then-Keeps (err e, p) k h f = h

  pub >>=-Keeps :
      {A B : Type 0} (m : M A) (k : A → M B) → Keeps m → ((a : A) → Keeps (k a)) → Keeps (m >>= k)
  >>=-Keeps m k h f p a = and_then-Keeps (m p) k (h p a) f

  caught-Keeps :
      {A : Type 0} (r : Result A × Pass) (handler : Failure → M A)
      → I r.1
      → ((e : Failure) → Keeps (handler e))
      → I (caught r handler).1
  caught-Keeps (ok a, p) handler h f = h
  caught-Keeps (err e, p) handler h f = f e p h

  pub catching-Keeps :
      {A : Type 0} (m : M A) (handler : Failure → M A)
      → Keeps m
      → ((e : Failure) → Keeps (handler e))
      → Keeps (catching m handler)
  catching-Keeps m handler h f p a = caught-Keeps (m p) handler (h p a) f

  pub settle-Keeps : (a : Answer) → Keeps (settle a)
  settle-Keeps (accepted policy) p h = h
  settle-Keeps (refused status) p h = h
  settle-Keeps unanswered p h = h
