-- ===== src/Sync/Apply/Safe.antt =====
-- Applying a planned policy keeps the invariants that authorised requests and its row keep.
use familyfi.Base.{refl, inl, inr, Option, none, some, Text, opt_text_eq, Bool-cases, Option-cases}
use familyfi.Payload.{FirewallPolicy}
use familyfi.Sync.Store.{PolicyRow, OwnershipScope}
use familyfi.Sync.Gateway.{
  Console, Pass, Failure, Result, ok, err, gets, send, update_policy, create_owned_policy,
  is_not_found,
}
use familyfi.Sync.Gateway.Invariant.{IsGuarded, Keeps, >>=-Keeps, catching-Keeps}
use familyfi.Sync.Gateway.Guard.{gets-Keeps, update_policy-Keeps, create_owned_policy-Keeps}
use familyfi.Sync.Apply.{
  Table, Desired, DriftNote, set_row, noted_row, confirmed_row, fresh_row, failed_row, observed_row,
  to_policy_update, held_policy, record_created, create_and_record, record_updated, write_over,
  update_and_record, create_if_gone, write_policy, keep_policy, unchanged, apply_desired,
  record_failure, after_apply, apply_or_record,
}
use familyfi.Sync.Apply.Rows.{IsKeptByRows, drift_cleared-id, drift_cleared-key}

module _ (scope : OwnershipScope) (site : Text) (I : Pass → Type 0) (g : IsGuarded scope site I)
    (c : Console) (copies : Text → Option FirewallPolicy) (t : Table) (d : Desired) where
  create_and_record-Keeps :
      (existing : Option PolicyRow) (w : IsKeptByRows t d.key existing I)
      → Keeps I (create_and_record c scope site copies t d existing)
  unfolding create_and_record record_created confirmed_row
  create_and_record-Keeps existing w =
      >>=-Keeps I (create_owned_policy c scope site d.write d.fingerprint)
        (record_created c scope site copies t d existing)
        (create_owned_policy-Keeps scope site I g c d.write d.fingerprint) (recorded existing w)
    where
      recorded :
          (existing : Option PolicyRow) (w : IsKeptByRows t d.key existing I)
          (created : FirewallPolicy)
          → Keeps I (record_created c scope site copies t d existing created)
      recorded (some row) w created p a =
          w.sets row (confirmed_row d.fingerprint d.revision created) p refl
            (λ r. drift_cleared-id d.fingerprint r) (λ r. drift_cleared-key d.fingerprint r) a
      recorded none w created p a =
          w.adds
            (confirmed_row d.fingerprint d.revision created
              (fresh_row d.key scope.connection_identity site d.fingerprint d.revision))
            p (drift_cleared-key d.fingerprint _) a

  write_over-Keeps :
      (row : PolicyRow) (w : IsKeptByRows t d.key (some row) I) (policy : Text)
      (current : FirewallPolicy)
      → Keeps I (write_over c scope site copies t d row policy current)
  unfolding write_over record_updated confirmed_row
  write_over-Keeps row w policy current =
      >>=-Keeps I (update_policy c scope site policy (to_policy_update current.content d.write))
        (record_updated c scope site copies t d row)
        (update_policy-Keeps scope site I g c policy (to_policy_update current.content d.write))
        (λ updated p a.
          w.sets row (confirmed_row d.fingerprint d.revision updated) p refl
            (λ r. drift_cleared-id d.fingerprint r) (λ r. drift_cleared-key d.fingerprint r) a)

  update_and_record-Keeps :
      (row : PolicyRow) (w : IsKeptByRows t d.key (some row) I) (policy : Text)
      → Keeps I (update_and_record c scope site copies t d row policy)
  unfolding update_and_record
  update_and_record-Keeps row w policy =
      >>=-Keeps I (send c scope site (gets policy)) (write_over c scope site copies t d row policy)
        (gets-Keeps scope site I g c policy) (write_over-Keeps row w policy)

  create_if_gone-Keeps :
      (row : PolicyRow) (w : IsKeptByRows t d.key (some row) I) (f : Failure)
      → Keeps I (create_if_gone c scope site copies t d row f)
  unfolding create_if_gone
  create_if_gone-Keeps row w f p a = elim (Bool-cases (is_not_found f)) [
    | inl gone ↦ rw gone (create_and_record-Keeps (some row) w p a)
    | inr other ↦ rw other a
  ]

  write_policy-Keeps :
      (existing : Option PolicyRow) (w : IsKeptByRows t d.key existing I)
      → Keeps I (write_policy c scope site copies t d existing)
  unfolding write_policy
  write_policy-Keeps none w p a = create_and_record-Keeps none w p a
  write_policy-Keeps (some row) w p a = elim (Option-cases (held_policy (some row) p.on_gateway)) [
    | inl gone ↦ rw (gone, write_policy) (create_and_record-Keeps (some row) w p a)
    | inr (policy, e) ↦
        rw (e, write_policy)
          (catching-Keeps I (update_and_record c scope site copies t d row policy)
            (create_if_gone c scope site copies t d row) (update_and_record-Keeps row w policy)
            (create_if_gone-Keeps row w) p a)
  ]

  keep_policy-Keeps :
      (row : PolicyRow) (w : IsKeptByRows t d.key (some row) I) (r : Result (Option DriftNote))
      → Keeps I (keep_policy c scope site copies t d row r)
  unfolding keep_policy
  keep_policy-Keeps row w (err f) p a = a
  keep_policy-Keeps row w (ok (some note)) p a =
      write_policy-Keeps (some row) w (set_row t row.id (noted_row note) p)
        (w.sets row (noted_row note) p refl (λ r. refl) (λ r. refl) a)
  keep_policy-Keeps row w (ok none) p a =
      elim (Bool-cases (opt_text_eq row.observed_fingerprint d.fingerprint)) [
        | inl seen ↦ rw seen (g.quiet p _ refl refl a)
        | inr unseen ↦
            rw unseen
              (w.sets row (observed_row d.fingerprint d.revision) p refl (λ r. refl) (λ r. refl) a)
      ]

  apply_desired-Keeps :
      (existing : Option PolicyRow) (w : IsKeptByRows t d.key existing I)
      → Keeps I (apply_desired c scope site copies t d existing)
  unfolding apply_desired
  apply_desired-Keeps none w p a = write_policy-Keeps none w p a
  apply_desired-Keeps (some row) w p a = elim (Option-cases (held_policy (some row) p.on_gateway)) [
    | inl gone ↦ rw (gone, apply_desired) (write_policy-Keeps (some row) w p a)
    | inr (policy, e) ↦
        rw (e, apply_desired)
          (elim (Bool-cases (unchanged c scope site copies t d row)) [
            | inl same ↦ rw same (keep_policy-Keeps row w _ p a)
            | inr changed ↦ rw changed (write_policy-Keeps (some row) w p a)
          ])
  ]

  after_apply-Keeps :
      (message : Failure → Text) (existing : Option PolicyRow) (w : IsKeptByRows t d.key existing I)
      (r : Result (Unit {0}) × Pass)
      → I r.1
      → I (after_apply c scope site copies t d message existing r).0
  unfolding after_apply record_failure failed_row
  after_apply-Keeps message existing w (ok done, q) a = a
  after_apply-Keeps message none w (err f, q) a =
      w.adds
        (failed_row c scope site copies t d (message f)
          (fresh_row d.key scope.connection_identity site d.fingerprint d.revision))
        q (drift_cleared-key d.fingerprint _) a
  after_apply-Keeps message (some row) w (err f, q) a =
      w.sets row (failed_row c scope site copies t d (message f)) q refl
        (λ r. drift_cleared-id d.fingerprint r) (λ r. drift_cleared-key d.fingerprint r) a

  pub apply_or_record-Keeps :
      (message : Failure → Text) (existing : Option PolicyRow) (w : IsKeptByRows t d.key existing I)
      (p : Pass)
      → I p
      → I (apply_or_record c scope site copies t d message existing p).0
  unfolding apply_or_record
  apply_or_record-Keeps message existing w p a =
      after_apply-Keeps message existing w (apply_desired c scope site copies t d existing p)
        (apply_desired-Keeps existing w p a)
