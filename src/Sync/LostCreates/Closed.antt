-- ===== src/Sync/LostCreates/Closed.antt =====
-- That `settleLostCreates` closes the old creations.
use mathlib.Core.List.Memᴰ
use familyfi.Base.{
  ℕ, ◌<◌, ◌≡◌, ◌⊎◌, inl, inr, refl, sym, ap, true, false, not, none, some, List, [], ◌∷◌, arith,
  ltb, ◌==◌, Text, includes, keep, Memᴰ, sort_by-Memᴰ, keep-Memᴰ, Bool-cases, Option-cases,
}
use familyfi.Payload.{FirewallPolicy}
use familyfi.Sync.Store.{
  PolicyOperation, pending, applied, failed, Store, update_operation, same_status,
}
use familyfi.Sync.Gateway.{to_failed, to_applied}
use familyfi.Sync.LostCreates.{
  pending_creations, claimed_ids, match_of, abandon, settle_each, settle_lost_creates,
}
use familyfi.Sync.LostCreates.Settled.{IsOpen, All-Memᴰ, settle_each-pending}

-- A record of the creation that says what became of it: it failed, or a policy stands for it.
pub record IsClosed (matched : List FirewallPolicy) (o x : PolicyOperation) : Type 0 where
  pub same_id : x.id ≡ o.id
  pub no_payload : x.payload ≡ none
  pub ended :
      (x.status ≡ failed)
      ⊎ ((x.status ≡ applied)
          × ((policy : FirewallPolicy) × Memᴰ policy matched
              × (x.unifi_policy_id ≡ some policy.id)))

abbrev pub IsClosedIn : List FirewallPolicy → PolicyOperation → List PolicyOperation → Type 0
IsClosedIn matched o operations = (x : PolicyOperation) × Memᴰ x operations × IsClosed matched o x

update_operation-hit :
    (id : ℕ) (change : PolicyOperation → PolicyOperation) (operations : List PolicyOperation)
    (x : PolicyOperation)
    → Memᴰ x operations
    → x.id ≡ id
    → Memᴰ (change x) (update_operation id change operations)
unfolding update_operation
update_operation-hit id change [] x m e = absurd (Memᴰ.not-nil m)
update_operation-hit id change (p ∷ ps) x m e = elim (Memᴰ.cases_cons m) [
  | inl h ↦
      let same : (p.id == id) ≡ true = ground (arith, rw h at e) in rw same (Memᴰ.head (rw h refl))
  | inr m' ↦ Memᴰ.tail (update_operation-hit id change ps x m' e)
]

update_operation-miss :
    (id : ℕ) (change : PolicyOperation → PolicyOperation) (operations : List PolicyOperation)
    (x : PolicyOperation)
    → Memᴰ x operations
    → (x.id == id) ≡ false
    → Memᴰ x (update_operation id change operations)
unfolding update_operation
update_operation-miss id change [] x m e = absurd (Memᴰ.not-nil m)
update_operation-miss id change (p ∷ ps) x m e = elim (Memᴰ.cases_cons m) [
  | inl h ↦ let apart : (p.id == id) ≡ false = rw h at e in rw apart (Memᴰ.head h)
  | inr m' ↦ Memᴰ.tail (update_operation-miss id change ps x m' e)
]

module _ (abandon_before : ℕ) (gateway matched : List FirewallPolicy) (o : PolicyOperation) where
  to_failed-IsClosed : (x : PolicyOperation) → x.id ≡ o.id → IsClosed matched o (to_failed x)
  to_failed-IsClosed x e = record { same_id = e; no_payload = refl; ended = inl refl }

  to_applied-IsClosed :
      (policy : FirewallPolicy) (x : PolicyOperation)
      → Memᴰ policy matched
      → x.id ≡ o.id
      → IsClosed matched o (to_applied policy.id x)
  to_applied-IsClosed policy x m e = record {
    same_id = e;
    no_payload = refl;
    ended = inr (refl, (policy, m, refl));
  }

  -- A change that closes what it changes leaves the creation closed.
  update_operation-IsClosedIn :
      (id : ℕ) (change : PolicyOperation → PolicyOperation) (operations : List PolicyOperation)
      → ((x : PolicyOperation) → x.id ≡ o.id → IsClosed matched o (change x))
      → IsClosedIn matched o operations
      → IsClosedIn matched o (update_operation id change operations)
  update_operation-IsClosedIn id change operations closes (x, m, h) =
      elim (Bool-cases (x.id == id)) [
        | inl same ↦ (
          change x,
          update_operation-hit id change operations x m (ground arith),
          closes x h.same_id,
        )
        | inr apart ↦ (x, update_operation-miss id change operations x m apart, h)
      ]

  abandon-IsClosedIn :
      (p : PolicyOperation) (operations : List PolicyOperation)
      → IsClosedIn matched o operations
      → IsClosedIn matched o (abandon abandon_before p operations)
  abandon-IsClosedIn p operations h = elim (Bool-cases (ltb p.created_at abandon_before)) [
    | inl old ↦ rw old (update_operation-IsClosedIn p.id to_failed operations to_failed-IsClosed h)
    | inr young ↦ rw young h
  ]

  settle_each-IsClosedIn :
      (claimed : List Text) (os operations : List PolicyOperation)
      → ((policy : FirewallPolicy)
          → Memᴰ policy (settle_each abandon_before gateway claimed os operations).0
          → Memᴰ policy matched)
      → IsClosedIn matched o operations
      → IsClosedIn matched o (settle_each abandon_before gateway claimed os operations).1
  unfolding settle_each
  settle_each-IsClosedIn claimed [] operations within h = h
  settle_each-IsClosedIn claimed (p ∷ ps) operations within h =
      elim (Option-cases (match_of claimed gateway p)) [
        | inl missed ↦
            rw (missed, settle_each)
              (settle_each-IsClosedIn claimed ps (abandon abandon_before p operations)
                (rw (missed, settle_each) at within) (abandon-IsClosedIn p operations h))
        | inr (policy, e) ↦
            let within' = rw (e, settle_each) at within in
            rw (e, settle_each)
              (settle_each-IsClosedIn (policy.id ∷ claimed) ps
                (update_operation p.id (to_applied policy.id) operations)
                (λ other k. within' other (Memᴰ.tail k))
                (update_operation-IsClosedIn p.id (to_applied policy.id) operations
                  (λ x same. to_applied-IsClosed policy x (within' policy (Memᴰ.head refl)) same)
                  h))
      ]

  update_operation-closes :
      (id : ℕ) (change : PolicyOperation → PolicyOperation) (operations : List PolicyOperation)
      → ((x : PolicyOperation) → x.id ≡ o.id → IsClosed matched o (change x))
      → Memᴰ o operations
      → IsClosedIn matched o (update_operation id change operations)
        ⊎ Memᴰ o (update_operation id change operations)
  update_operation-closes id change operations closes m = elim (Bool-cases (o.id == id)) [
    | inl same ↦
        inl (change o, update_operation-hit id change operations o m (ground arith), closes o refl)
    | inr apart ↦ inr (update_operation-miss id change operations o m apart)
  ]

  abandon-closes :
      (p : PolicyOperation) (operations : List PolicyOperation)
      → Memᴰ o operations
      → IsClosedIn matched o (abandon abandon_before p operations)
        ⊎ Memᴰ o (abandon abandon_before p operations)
  abandon-closes p operations m = elim (Bool-cases (ltb p.created_at abandon_before)) [
    | inl past ↦ rw past (update_operation-closes p.id to_failed operations to_failed-IsClosed m)
    | inr young ↦ rw young (inr m)
  ]

  -- The round of an old creation that nothing matches gives it up.
  abandon-old :
      (p : PolicyOperation) (operations : List PolicyOperation)
      → o.created_at < abandon_before
      → o ≡ p
      → Memᴰ o operations
      → IsClosedIn matched o (abandon abandon_before p operations)
  abandon-old p operations old e m =
      let past : ltb p.created_at abandon_before ≡ true = ground (arith, rw e at old) in
      rw past (
        to_failed o,
        update_operation-hit p.id to_failed operations o m (ap (λ x. x.id) e),
        to_failed-IsClosed o refl,
      )

  settle_each-closes :
      (claimed : List Text) (os operations : List PolicyOperation)
      → o.created_at < abandon_before
      → ((policy : FirewallPolicy)
          → Memᴰ policy (settle_each abandon_before gateway claimed os operations).0
          → Memᴰ policy matched)
      → Memᴰ o operations
      → Memᴰ o os
      → IsClosedIn matched o (settle_each abandon_before gateway claimed os operations).1
  unfolding settle_each
  settle_each-closes claimed [] operations old within m listed = absurd (Memᴰ.not-nil listed)
  settle_each-closes claimed (p ∷ ps) operations old within m listed =
      elim (Option-cases (match_of claimed gateway p)) [
        | inl missed ↦
            let after = abandon abandon_before p operations in
            let within' = rw (missed, settle_each) at within in
            let rest = settle_each-IsClosedIn claimed ps after within' in
            rw (missed, settle_each)
              (elim (Memᴰ.cases_cons listed) [
                | inl e ↦ rest (abandon-old p operations old e m)
                | inr later ↦ elim (abandon-closes p operations m) [
                  | inl closed ↦ rest closed
                  | inr still ↦ settle_each-closes claimed ps after old within' still later
                ]
              ])
        | inr (policy, e) ↦
            let after = update_operation p.id (to_applied policy.id) operations in
            let within' = rw (e, settle_each) at within in
            let taken : Memᴰ policy matched = within' policy (Memᴰ.head refl) in
            let closes : (x : PolicyOperation)
                → x.id ≡ o.id
                → IsClosed matched o (to_applied policy.id x) =
              λ x same. to_applied-IsClosed policy x taken same in
            let rest =
              settle_each-IsClosedIn (policy.id ∷ claimed) ps after
                (λ other k. within' other (Memᴰ.tail k)) in
            rw (e, settle_each)
              (elim (Memᴰ.cases_cons listed) [
                | inl here ↦ rest (
                  to_applied policy.id o,
                  update_operation-hit p.id (to_applied policy.id) operations o m
                      (ap (λ x. x.id) here),
                  closes o refl,
                )
                | inr later ↦
                    elim (update_operation-closes p.id (to_applied policy.id) operations closes m) [
                      | inl closed ↦ rest closed
                      | inr still ↦
                          settle_each-closes (policy.id ∷ claimed) ps after old
                            (λ other k. within' other (Memᴰ.tail k)) still later
                    ]
              ])
      ]

module _ (identity site : Text) (gateway : List FirewallPolicy) (abandon_before : ℕ)
    (st : Store) where
  -- A creation of this console and site that is older than `abandonBefore` and still pending is closed
  -- by `settleLostCreates`: there is a record under its id without its payload that either failed, or
  -- is applied under the id of a policy that `settleLostCreates` answers; and none under its id is
  -- still pending.
  pub settle_lost_creates_closes :
      (o : PolicyOperation)
      → Memᴰ o st.operations
      → IsOpen identity site o
      → o.created_at < abandon_before
      → IsClosedIn
          (settle_lost_creates identity site gateway abandon_before st).0
          o
          ((settle_lost_creates identity site gateway abandon_before st).1).operations
        × ((y : PolicyOperation)
            → Memᴰ y ((settle_lost_creates identity site gateway abandon_before st).1).operations
            → y.id ≡ o.id
            → same_status y.status pending ≡ false)
  unfolding settle_lost_creates pending_creations
  settle_lost_creates_closes o m h old =
      let listed : Memᴰ o (pending_creations identity site st) = sort_by-Memᴰ _ _ (
        keep-Memᴰ _ st.operations m
          (let a = h.here in let b = h.creates in let c = h.is_pending in ground arith)) in
      let claimed = claimed_ids identity site st in
      let unclaimed = keep (λ policy. not (includes claimed policy.id)) gateway in
      (
        settle_each-closes abandon_before unclaimed _ o claimed (pending_creations identity site st)
            st.operations old (λ policy k. k) m listed,
        λ y k same. elim (Bool-cases (same_status y.status pending)) [
          | inl still ↦
              let (_, olds) =
                settle_each-pending abandon_before unclaimed claimed
                  (pending_creations identity site st) st.operations y k still in
              absurd (let young = All-Memᴰ _ _ o olds listed (sym same) in ground (arith, old))
          | inr closed ↦ closed
        ],
      )
