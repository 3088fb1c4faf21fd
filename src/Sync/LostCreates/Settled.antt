-- ===== src/Sync/LostCreates/Settled.antt =====
-- What `settleLostCreates` matches, and which creations it leaves open.
use mathlib.Core.List.Memᴰ
use familyfi.Base.{
  ℕ, ◌≡◌, ◌≢◌, inl, inr, refl, sym, true, false, not, some, List, [], ◌∷◌, arith, ltb, ◌==◌, Text,
  text_eq, includes, keep, find_holds, find-Memᴰ, All, Memᴰ, Memᴰ-keep, Bool-cases, Option-cases,
}
use familyfi.Payload.{obj, carries_write, whole, Fields, FirewallPolicy}
use familyfi.Sync.Store.{
  PolicyOperation, create, pending, Store, update_operation, same_intent, same_status,
}
use familyfi.Sync.Gateway.{to_failed, to_applied}
use familyfi.Sync.LostCreates.{
  operation_in, pending_creations, claimed_ids, match_of, abandon, settle_each, settle_lost_creates,
}

-- A policy that stands for a pending creation: the gateway holds it, no record claimed it, and it
-- carries the whole payload that the creation sent.
pub record IsMatch (claimed : List Text) (gateway : List FirewallPolicy)
    (creations : List PolicyOperation) (policy : FirewallPolicy) : Type 0 where
  pub on_gateway : Memᴰ policy gateway
  pub unclaimed : includes claimed policy.id ≡ false
  pub creation : PolicyOperation
  pub is_pending : Memᴰ creation creations
  pub sent : Fields
  pub has_payload : creation.payload ≡ some sent
  pub carries : carries_write (obj (whole policy)) (obj sent) ≡ true

-- No two of the policies have one id.
abbrev pub HasDistinctIds : List FirewallPolicy → Type 0
HasDistinctIds [] = Unit
HasDistinctIds (p ∷ ps) = All (λ q. text_eq p.id q.id ≡ false) ps × HasDistinctIds ps

match_of-IsMatch :
    (claimed : List Text) (gateway : List FirewallPolicy) (o : PolicyOperation)
    (os : List PolicyOperation) (policy : FirewallPolicy)
    → match_of claimed gateway o ≡ some policy
    → IsMatch claimed gateway (o ∷ os) policy
unfolding match_of
match_of-IsMatch claimed gateway o os policy e = elim (Option-cases o.payload) [
  | inl lost ↦ absurd (ground arith)
  | inr (sent, has) ↦
      let found = rw has at e in
      let hit = find_holds _ gateway policy found in
      record {
        on_gateway = find-Memᴰ _ gateway policy found;
        unclaimed = ground arith;
        creation = o;
        is_pending = Memᴰ.head refl;
        sent = sent;
        has_payload = has;
        carries = ground arith;
      }
]

IsMatch-later :
    (taken : Text) (claimed : List Text) (gateway : List FirewallPolicy) (o : PolicyOperation)
    (os : List PolicyOperation) (policy : FirewallPolicy)
    → IsMatch (taken ∷ claimed) gateway os policy
    → IsMatch claimed gateway (o ∷ os) policy × (text_eq taken policy.id ≡ false)
unfolding includes
IsMatch-later taken claimed gateway o os policy m = (
  record {
    on_gateway = m.on_gateway;
    unclaimed = let u = m.unclaimed in ground arith;
    creation = m.creation;
    is_pending = Memᴰ.tail m.is_pending;
    sent = m.sent;
    has_payload = m.has_payload;
    carries = m.carries;
  },
  let u = m.unclaimed in ground arith,
)

IsMatch-cons :
    (claimed : List Text) (gateway : List FirewallPolicy) (o : PolicyOperation)
    (os : List PolicyOperation) (policy : FirewallPolicy)
    → IsMatch claimed gateway os policy
    → IsMatch claimed gateway (o ∷ os) policy
IsMatch-cons claimed gateway o os policy m = record {
  on_gateway = m.on_gateway;
  unclaimed = m.unclaimed;
  creation = m.creation;
  is_pending = Memᴰ.tail m.is_pending;
  sent = m.sent;
  has_payload = m.has_payload;
  carries = m.carries;
}

All-IsMatch-cons :
    (claimed : List Text) (gateway : List FirewallPolicy) (o : PolicyOperation)
    (os : List PolicyOperation) (ps : List FirewallPolicy)
    → All (IsMatch claimed gateway os) ps
    → All (IsMatch claimed gateway (o ∷ os)) ps
All-IsMatch-cons claimed gateway o os [] h = tt
All-IsMatch-cons claimed gateway o os (p ∷ ps) (m, h) =
    (IsMatch-cons claimed gateway o os p m, All-IsMatch-cons claimed gateway o os ps h)

All-IsMatch-later :
    (taken : Text) (claimed : List Text) (gateway : List FirewallPolicy) (o : PolicyOperation)
    (os : List PolicyOperation) (ps : List FirewallPolicy)
    → All (IsMatch (taken ∷ claimed) gateway os) ps
    → All (IsMatch claimed gateway (o ∷ os)) ps × All (λ q. text_eq taken q.id ≡ false) ps
All-IsMatch-later taken claimed gateway o os [] h = (tt, tt)
All-IsMatch-later taken claimed gateway o os (p ∷ ps) (m, h) =
    let (m', apart) = IsMatch-later taken claimed gateway o os p m in
    let (h', aparts) = All-IsMatch-later taken claimed gateway o os ps h in
    ((m', h'), (apart, aparts))

settle_each-matches :
    (abandon_before : ℕ) (gateway : List FirewallPolicy) (claimed : List Text)
    (os operations : List PolicyOperation)
    → All (IsMatch claimed gateway os) (settle_each abandon_before gateway claimed os operations).0
      × HasDistinctIds (settle_each abandon_before gateway claimed os operations).0
unfolding settle_each
settle_each-matches abandon_before gateway claimed [] operations = (tt, tt)
settle_each-matches abandon_before gateway claimed (o ∷ os) operations =
    elim (Option-cases (match_of claimed gateway o)) [
      | inl missed ↦
          let (h, d) =
            settle_each-matches abandon_before gateway claimed os
              (abandon abandon_before o operations) in
          rw (missed, settle_each) (All-IsMatch-cons claimed gateway o os _ h, d)
      | inr (policy, e) ↦
          let (h, d) =
            settle_each-matches abandon_before gateway (policy.id ∷ claimed) os
              (update_operation o.id (to_applied policy.id) operations) in
          let (h', aparts) = All-IsMatch-later policy.id claimed gateway o os _ h in
          rw (e, settle_each) (((match_of-IsMatch claimed gateway o os policy e, h'), (aparts, d)))
    ]

abbrev pub IsPending : PolicyOperation → Type 0
IsPending o = same_status o.status pending ≡ true

-- A change that leaves no operation pending closes the ones with its id and no others.
update_operation-pending :
    (id : ℕ) (change : PolicyOperation → PolicyOperation) (operations : List PolicyOperation)
    (o : PolicyOperation)
    → ((o : PolicyOperation) → same_status (change o).status pending ≡ false)
    → Memᴰ o (update_operation id change operations)
    → IsPending o
    → Memᴰ o operations × (o.id ≢ id)
unfolding update_operation
update_operation-pending id change [] o closes m h = absurd (Memᴰ.not-nil m)
update_operation-pending id change (p ∷ ps) o closes m h = elim (Memᴰ.cases_cons m) [
  | inl e ↦ elim (Bool-cases (p.id == id)) [
    | inl same ↦ absurd (let e' : o ≡ change p = rw same at e in let c = closes p in cc)
    | inr apart ↦ let e' : o ≡ p = rw apart at e in (Memᴰ.head e', rw e' (λ q. ground arith))
  ]
  | inr m' ↦ let (k, ne) = update_operation-pending id change ps o closes m' h in (Memᴰ.tail k, ne)
]

abbrev pub NotOld : ℕ → PolicyOperation → PolicyOperation → Type 0
NotOld abandon_before o p = p.id ≡ o.id → ltb p.created_at abandon_before ≡ false

abandon-pending :
    (abandon_before : ℕ) (p : PolicyOperation) (operations : List PolicyOperation)
    (o : PolicyOperation)
    → Memᴰ o (abandon abandon_before p operations)
    → IsPending o
    → Memᴰ o operations × NotOld abandon_before o p
abandon-pending abandon_before p operations o m h =
    elim (Bool-cases (ltb p.created_at abandon_before)) [
      | inl old ↦
          let (k, ne) =
            update_operation-pending p.id to_failed operations o (λ o. refl) (rw old at m) h in
          (k, λ e. absurd (ne (sym e)))
      | inr young ↦ (rw young at m, λ e. young)
    ]

pub settle_each-pending :
    (abandon_before : ℕ) (gateway : List FirewallPolicy) (claimed : List Text)
    (os operations : List PolicyOperation) (o : PolicyOperation)
    → Memᴰ o (settle_each abandon_before gateway claimed os operations).1
    → IsPending o
    → Memᴰ o operations × All (NotOld abandon_before o) os
unfolding settle_each
settle_each-pending abandon_before gateway claimed [] operations o m h = (m, tt)
settle_each-pending abandon_before gateway claimed (p ∷ ps) operations o m h =
    elim (Option-cases (match_of claimed gateway p)) [
      | inl missed ↦
          let (k, olds) =
            settle_each-pending abandon_before gateway claimed ps
              (abandon abandon_before p operations) o (rw (missed, settle_each) at m) h in
          let (k', old) = abandon-pending abandon_before p operations o k h in (k', (old, olds))
      | inr (policy, e) ↦
          let (k, olds) =
            settle_each-pending abandon_before gateway (policy.id ∷ claimed) ps
              (update_operation p.id (to_applied policy.id) operations) o (rw (e, settle_each) at m)
              h in
          let (k', ne) =
            update_operation-pending p.id (to_applied policy.id) operations o (λ o. refl) k h in
          (k', (λ e. absurd (ne (sym e)), olds))
    ]

pub All-Memᴰ {ℓ κ} : {A : Type ℓ} (P : A → Type κ) (l : List A) (a : A) → All P l → Memᴰ a l → P a
All-Memᴰ P [] a h m = absurd (Memᴰ.not-nil m)
All-Memᴰ P (x ∷ l) a (p, h) m = elim (Memᴰ.cases_cons m) [
  | inl e ↦ rw e p
  | inr m' ↦ All-Memᴰ P l a h m'
]

-- A creation of this console and site whose answer was lost.
pub record IsOpen (identity site : Text) (o : PolicyOperation) : Type 0 where
  pub here : operation_in identity site o ≡ true
  pub creates : same_intent o.intent create ≡ true
  pub is_pending : same_status o.status pending ≡ true

module _ (identity site : Text) (gateway : List FirewallPolicy) (abandon_before : ℕ)
    (st : Store) where
  -- The policies that `settleLostCreates` answers are each held by the gateway, claimed by no row and
  -- no applied creation of this console and site, and carry the whole payload of a pending
  -- creation of it; no two are the same policy.
  pub settle_lost_creates_matches :
      All
        (IsMatch (claimed_ids identity site st) gateway (pending_creations identity site st))
        (settle_lost_creates identity site gateway abandon_before st).0
      × HasDistinctIds (settle_lost_creates identity site gateway abandon_before st).0
  unfolding settle_lost_creates
  settle_lost_creates_matches =
      let (h, d) =
        settle_each-matches abandon_before
          (keep (λ policy. not (includes (claimed_ids identity site st) policy.id)) gateway)
          (claimed_ids identity site st) (pending_creations identity site st) st.operations in
      (within_gateway _ h, d)
    where
      from_gateway :
          (claimed : List Text) (p : FirewallPolicy)
          → IsMatch claimed
              (keep (λ policy. not (includes (claimed_ids identity site st) policy.id)) gateway)
              (pending_creations identity site st)
              p
          → IsMatch claimed gateway (pending_creations identity site st) p
      from_gateway claimed p m = record {
        on_gateway = (Memᴰ-keep _ gateway m.on_gateway).0;
        unclaimed = m.unclaimed;
        creation = m.creation;
        is_pending = m.is_pending;
        sent = m.sent;
        has_payload = m.has_payload;
        carries = m.carries;
      }

      within_gateway :
          (ps : List FirewallPolicy)
          → All
              (IsMatch
                (claimed_ids identity site st)
                (keep (λ policy. not (includes (claimed_ids identity site st) policy.id)) gateway)
                (pending_creations identity site st))
              ps
          → All
              (IsMatch (claimed_ids identity site st) gateway (pending_creations identity site st))
              ps
      within_gateway [] h = tt
      within_gateway (p ∷ ps) (m, h) = (from_gateway _ p m, within_gateway ps h)
