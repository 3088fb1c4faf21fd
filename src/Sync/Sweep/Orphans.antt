-- ===== src/Sync/Sweep/Orphans.antt =====
-- What `removeOrphanedPolicies` leaves, in terms of the rows and the operations.
use mathlib.Core.List.Memᴰ
use familyfi.Base.{
  ◌≡◌, refl, ◌∙◌, ◌⊎◌, ap, arith, inl, inr, true, false, some, List, [], ◌∷◌, Memᴰ, Memᴰ-keep,
  keep-Memᴰ, keep, Text, text_eq, text_eq_iff, text_eq_refl, includes, includes-append, Bool-cases,
  Option-cases,
}
use familyfi.Sync.Store.{
  PolicyOperation, create, applied, PolicyRow, Store, OwnershipScope, is_creation,
}
use familyfi.Sync.Gateway.{Console, Pass, Failure, Result, ok}
use familyfi.Sync.Gateway.Deletion.{IsDeletedBetween}
use familyfi.Sync.LostCreates.{row_in, operation_in, ids_of_rows}
use familyfi.Sync.LostCreates.Settled.{All-Memᴰ}
use familyfi.Sync.Sweep.{remove_orphaned_policies, recorded_ids, creations_in}
use familyfi.Sync.Sweep.Clean.{remove_orphaned_policies-loses}

module _ (identity site : Text) where
  -- The row of this console and site records the policy.
  abbrev pub Records : Text → PolicyRow → Type 0
  Records policy r =
      (r.unifi_policy_id ≡ some policy) × (r.connection_identity ≡ identity) × (r.site_id ≡ site)

  -- A row of either table records the policy.
  abbrev pub IsRecorded : Text → Store → Type 0
  IsRecorded policy st =
      (r : PolicyRow) × (Memᴰ r st.app_policies ⊎ Memᴰ r st.rule_policies) × Records policy r

  -- An applied creation of this console and site made the policy.
  abbrev pub IsMade : Text → Store → Type 0
  IsMade policy st =
      (o : PolicyOperation) × Memᴰ o st.operations
      × (o.intent ≡ create)
      × (o.status ≡ applied)
      × (o.connection_identity ≡ identity)
      × (o.site_id ≡ site)
      × (o.unifi_policy_id ≡ some policy)

  Records-row_in :
      (policy : Text) (r : PolicyRow) → Records policy r → row_in identity site r ≡ true
  unfolding row_in
  Records-row_in policy r (named, i, s) =
      rw (i, s) (ground (arith, text_eq_refl identity, text_eq_refl site))

  ids_of_rows-Memᴰ :
      (rs : List PolicyRow) (r : PolicyRow) (policy : Text)
      → Memᴰ r rs
      → r.unifi_policy_id ≡ some policy
      → includes (ids_of_rows rs) policy ≡ true
  unfolding includes
  ids_of_rows-Memᴰ [] r policy m e = absurd (Memᴰ.not-nil m)
  ids_of_rows-Memᴰ (x ∷ rs) r policy m e = elim (Memᴰ.cases_cons m) [
    | inl h ↦
        let named : x.unifi_policy_id ≡ some policy = rw h at e in
        rw named (ground (arith, text_eq_refl policy))
    | inr m' ↦
        let rest = ids_of_rows-Memᴰ rs r policy m' e in
        elim (Option-cases x.unifi_policy_id) [
          | inl unnamed ↦ rw unnamed rest
          | inr (other, named) ↦ rw named (ground (arith, rest))
        ]
  ]

  Memᴰ-ids_of_rows :
      (rs : List PolicyRow) (policy : Text)
      → includes (ids_of_rows rs) policy ≡ true
      → (r : PolicyRow) × Memᴰ r rs × (r.unifi_policy_id ≡ some policy)
  unfolding includes
  Memᴰ-ids_of_rows [] policy e = absurd (cc)
  Memᴰ-ids_of_rows (x ∷ rs) policy e = elim (Option-cases x.unifi_policy_id) [
    | inl unnamed ↦
        let (r, m, named) = Memᴰ-ids_of_rows rs policy (rw unnamed at e) in (r, Memᴰ.tail m, named)
    | inr (other, named) ↦ elim (Bool-cases (text_eq other policy)) [
      | inl same ↦ (x, Memᴰ.head refl, named ∙ ap some ((text_eq_iff other policy).0 same))
      | inr apart ↦
          let e' = rw named at e in
          let (r, m, k) = Memᴰ-ids_of_rows rs policy (ground (arith, e', apart)) in
          (r, Memᴰ.tail m, k)
    ]
  ]

  -- The rows of one table.
  kept-Records :
      (rs : List PolicyRow) (policy : Text)
      → includes (ids_of_rows (keep (row_in identity site) rs)) policy ≡ true
      → (r : PolicyRow) × Memᴰ r rs × Records policy r
  unfolding row_in
  kept-Records rs policy e =
      let (r, m, named) = Memᴰ-ids_of_rows (keep (row_in identity site) rs) policy e in
      let (there, here) = Memᴰ-keep (row_in identity site) rs m in
      (
        r,
        there,
        (
          named,
          (text_eq_iff r.connection_identity identity).0 (ground (arith, here)),
          (text_eq_iff r.site_id site).0 (ground (arith, here)),
        ),
      )

  Records-kept :
      (rs : List PolicyRow) (r : PolicyRow) (policy : Text)
      → Memᴰ r rs
      → Records policy r
      → includes (ids_of_rows (keep (row_in identity site) rs)) policy ≡ true
  Records-kept rs r policy m h =
      ids_of_rows-Memᴰ (keep (row_in identity site) rs) r policy
        (keep-Memᴰ (row_in identity site) rs m (Records-row_in policy r h)) h.0

  recorded_ids-IsRecorded :
      (policy : Text) (st : Store)
      → includes (recorded_ids identity site st) policy ≡ true
      → IsRecorded policy st
  unfolding recorded_ids
  recorded_ids-IsRecorded policy st e =
      let apps = ids_of_rows (keep (row_in identity site) st.app_policies) in
      let rules = ids_of_rows (keep (row_in identity site) st.rule_policies) in
      elim (Bool-cases (includes apps policy)) [
        | inl hit ↦ let (r, m, h) = kept-Records st.app_policies policy hit in (r, inl m, h)
        | inr miss ↦
            let (r, m, h) =
              kept-Records st.rule_policies policy
                (ground (arith, e, miss, includes-append apps rules policy)) in
            (r, inr m, h)
      ]

  IsRecorded-recorded_ids :
      (policy : Text) (st : Store)
      → IsRecorded policy st
      → includes (recorded_ids identity site st) policy ≡ true
  unfolding recorded_ids
  IsRecorded-recorded_ids policy st (r, m, h) =
      let apps = ids_of_rows (keep (row_in identity site) st.app_policies) in
      let rules = ids_of_rows (keep (row_in identity site) st.rule_policies) in
      elim m [
        | inl in_apps ↦
            let k = Records-kept st.app_policies r policy in_apps h in
            ground (arith, k, includes-append apps rules policy)
        | inr in_rules ↦
            let k = Records-kept st.rule_policies r policy in_rules h in
            ground (arith, k, includes-append apps rules policy)
      ]

  creations_in-Memᴰ :
      (o : PolicyOperation) (policy : Text) (st : Store)
      → Memᴰ o st.operations
      → (o.intent ≡ create)
      → (o.status ≡ applied)
      → (o.connection_identity ≡ identity)
      → (o.site_id ≡ site)
      → (o.unifi_policy_id ≡ some policy)
      → Memᴰ o (creations_in identity site st)
  unfolding creations_in operation_in is_creation
  creations_in-Memᴰ o policy st m made ended i s named =
      keep-Memᴰ _ st.operations m
        (rw (made, ended, i, s, named) (ground (arith, text_eq_refl identity, text_eq_refl site)))

module _ (c : Console) (identity site : Text) (p : Pass) where
  -- What the sweep leaves of the policies that the gateway is known to hold: it adds none, takes off
  -- none that a row records, sends a deletion of each that it takes off, and after a sweep without an
  -- error those left that FamilyFi made are recorded.
  pub record IsSwept (r : Result (List Failure) × Pass) : Type 0 where
    pub gained_none :
        (policy : Text)
        → includes r.1.on_gateway policy ≡ true
        → includes p.on_gateway policy ≡ true
    pub kept :
        (policy : Text)
        → IsRecorded identity site policy p.store
        → includes p.on_gateway policy ≡ true
        → includes r.1.on_gateway policy ≡ true
    pub deleted :
        (policy : Text)
        → includes p.on_gateway policy ≡ true
        → includes r.1.on_gateway policy ≡ false
        → IsDeletedBetween c policy p r.1
    pub left :
        r.0 ≡ ok []
        → (policy : Text) → IsMade identity site policy p.store
        → includes r.1.on_gateway policy ≡ true
        → IsRecorded identity site policy p.store

-- `removeOrphanedPolicies` never adds a policy to those the gateway is known to hold, nor takes off
-- one that a row of this console and site records; of each that it takes off it has sent a deletion,
-- which the console accepted or answered as not found; and when it ends without an error, none of the
-- policies that an applied creation of this console and site names is left unless a row records it.
pub remove_orphaned_policies_clean :
    (c : Console) (scope : OwnershipScope) (site : Text) (p : Pass)
    → IsSwept c scope.connection_identity site p (remove_orphaned_policies c scope site p)
remove_orphaned_policies_clean c scope site p =
    let identity = scope.connection_identity in
    let (loses, gone) = remove_orphaned_policies-loses c scope site p in
    record {
      gained_none = loses.gained_none;
      kept = λ policy r. loses.kept policy (IsRecorded-recorded_ids identity site policy p.store r);
      deleted = loses.deleted;
      left = λ done policy (o, m, made, ended, i, s, named) on.
          elim (Bool-cases (includes (recorded_ids identity site p.store) policy)) [
            | inl recorded ↦ recorded_ids-IsRecorded identity site policy p.store recorded
            | inr orphan ↦ absurd (
                let off =
                  All-Memᴰ _ _ o (gone done)
                    (creations_in-Memᴰ identity site o policy p.store m made ended i s named) policy
                    named orphan in
                cc)
          ];
    }
