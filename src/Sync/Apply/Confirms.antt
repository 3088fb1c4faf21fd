-- ===== src/Sync/Apply/Confirms.antt =====
-- What applying a planned policy records when it succeeds.
use familyfi.Base.{
  ℕ, ◌⊎◌, includes, ap, if◌then◌else◌, ◌≡◌, refl, ◌∙◌, inl, inr, true, false, Option, none, some,
  List, [], Memᴰ, Text, text_eq_iff, opt_text_eq, arith, Bool-cases, Option-cases,
}
use mathlib.Core.List.Memᴰ
use familyfi.Payload.{FirewallPolicy}
use familyfi.Sync.Store.{PolicyRow, OwnershipScope}
use familyfi.Sync.Gateway.{
  Console, Pass, Request, accepted, Failure, Result, ok, err, gets, send, update_policy,
  create_owned_policy, is_not_found,
}
use familyfi.Sync.Gateway.Invariant.{IsGuarded}
use familyfi.Sync.Gateway.Guard.{gets-Keeps, update_policy-Keeps, create_owned_policy-Keeps}
use familyfi.Sync.Apply.{
  Table, Desired, DriftNote, rows_of, set_row, noted_row, observed_row, to_policy_update,
  held_policy, record_created, create_and_record, record_updated, write_over, update_and_record,
  create_if_gone, write_policy, keep_policy, unchanged, apply_desired, confirmed_row, fresh_row,
  has_error, after_apply, apply_or_record,
}
use familyfi.Sync.Gateway.Names.{
  AdoptsGiven, gets-Names, gets-AdoptsGiven, update_policy-Names, update_policy-AdoptsGiven,
  create_owned_policy-Names,
}
use familyfi.Sync.Apply.Rows.{drift_cleared-key}
use familyfi.Sync.Apply.Guarded.{Of, Of-IsGuarded}
use familyfi.Sync.Apply.Tables.{update_row-same, set_row-rows, add_row-rows}
use familyfi.Sync.Apply.Confirmed.{
  IsConfirmed, Confirmed, Tries, Confirms, and_then-Tries, caught-Tries, Tries-Confirms, Holds,
}

-- Every policy that the gateway is known to hold has an id that is `Given`.
abbrev HoldsGiven : (Text → Type 0) → Pass → Type 0
HoldsGiven Given p = (policy : Text) → includes p.on_gateway policy ≡ true → Given policy

-- The id is of a policy that the gateway was known to hold, that was to be adopted, or that the
-- console answers with.
abbrev pub IsOf : Console → Pass → Text → Type 0
IsOf c p id =
    (includes p.on_gateway id ≡ true)
    ⊎ (((a : FirewallPolicy) × Memᴰ a p.adopted × (a.id ≡ id))
        ⊎ ((n : ℕ) × (r : Request) × (a : FirewallPolicy) × (c.answer n r ≡ accepted a)
            × (a.id ≡ id)))

module _ (c : Console) (scope : OwnershipScope) (site : Text)
    (copies : Text → Option FirewallPolicy) (t : Table) (d : Desired) (Given : Text → Type 0)
    (answers : (n : ℕ) (r : Request) (policy : FirewallPolicy)
      → c.answer n r ≡ accepted policy
      → Given policy.id) where
  confirmed_row-IsConfirmed :
      (policy : FirewallPolicy) (r : PolicyRow)
      → r.key ≡ d.key
      → Given policy.id
      → IsConfirmed Given d (confirmed_row d.fingerprint d.revision policy r)
  unfolding confirmed_row
  confirmed_row-IsConfirmed policy r e given =
      (drift_cleared-key d.fingerprint r ∙ e, refl, refl, refl, (policy.id, refl, given))

  -- A new row for the policy.
  create_new-Tries :
      (p : Pass)
      → AdoptsGiven Given p
      → Tries Given t d (λ _. Unit {0}) (create_and_record c scope site copies t d none p)
  unfolding create_and_record record_created
  create_new-Tries p adopts =
      and_then-Tries Given t d (λ _. Unit {0}) (λ _. Unit {0})
        (create_owned_policy c scope site d.write d.fingerprint p)
        (record_created c scope site copies t d none) tt
        (create_owned_policy-Names c scope site Given answers d.write d.fingerprint p adopts)
        (λ _ i. i)
        (λ created q given _. (
          record (confirmed_row d.fingerprint d.revision created fresh) { id = (q.store).next_id },
          rw (add_row-rows t (confirmed_row d.fingerprint d.revision created fresh) q)
              (Memᴰ.append_right (rows_of t q.store) (Memᴰ.head refl)),
          unfold confirmed_row in confirmed_row-IsConfirmed created fresh refl given,
        ))
    where
      fresh : PolicyRow
      fresh = fresh_row d.key scope.connection_identity site d.fingerprint d.revision

  module _ (row : PolicyRow) where
    abbrev IsThere : Pass → Type 0
    IsThere = Of (Holds d.key row.id) (λ _ _ h. h) t

    -- The row is there, and what may still be adopted has a given id.
    abbrev Ready : Pass → Type 0
    Ready p = IsThere p × AdoptsGiven Given p

    set-Confirmed :
        (policy : FirewallPolicy) (q : Pass)
        → Given policy.id
        → IsThere q
        → Confirmed Given t d (set_row t row.id (confirmed_row d.fingerprint d.revision policy) q)
    set-Confirmed policy q given (r, m, i, k) = (
      confirmed_row d.fingerprint d.revision policy r,
      rw (set_row-rows t row.id (confirmed_row d.fingerprint d.revision policy) q) (
          update_row-same row.id (confirmed_row d.fingerprint d.revision policy) (rows_of t q.store)
            r i m),
      confirmed_row-IsConfirmed policy r k given,
    )

    create_again-Tries :
        (p : Pass)
        → Ready p
        → Tries Given t d IsThere (create_and_record c scope site copies t d (some row) p)
    unfolding create_and_record record_created
    create_again-Tries p (a, adopts) =
        and_then-Tries Given t d IsThere IsThere
          (create_owned_policy c scope site d.write d.fingerprint p)
          (record_created c scope site copies t d (some row))
          (create_owned_policy-Keeps scope site IsThere
            (Of-IsGuarded (Holds d.key row.id) (λ _ _ h. h) scope site t) c d.write d.fingerprint p
            a)
          (create_owned_policy-Names c scope site Given answers d.write d.fingerprint p adopts)
          (λ _ i. i) set-Confirmed

    IsThere-IsGuarded : IsGuarded scope site IsThere
    IsThere-IsGuarded = Of-IsGuarded (Holds d.key row.id) (λ _ _ h. h) scope site t

    write_over-Tries :
        (policy : Text) (current : FirewallPolicy) (p : Pass)
        → Ready p
        → Tries Given t d Ready (write_over c scope site copies t d row policy current p)
    unfolding write_over record_updated
    write_over-Tries policy current p (a, adopts) =
        let body = to_policy_update current.content d.write in
        and_then-Tries Given t d Ready Ready (update_policy c scope site policy body p)
          (record_updated c scope site copies t d row)
          (
            update_policy-Keeps scope site IsThere IsThere-IsGuarded c policy body p a,
            update_policy-AdoptsGiven c scope site Given answers policy body p adopts,
          )
          (update_policy-Names c scope site Given answers policy body p) (λ _ i. i)
          (λ updated q given ready. set-Confirmed updated q given ready.0)

    update_and_record-Tries :
        (policy : Text) (p : Pass)
        → Ready p
        → Tries Given t d Ready (update_and_record c scope site copies t d row policy p)
    unfolding update_and_record
    update_and_record-Tries policy p (a, adopts) =
        and_then-Tries Given t d Ready Ready (send c scope site (gets policy) p)
          (write_over c scope site copies t d row policy)
          (
            gets-Keeps scope site IsThere IsThere-IsGuarded c policy p a,
            gets-AdoptsGiven c scope site Given answers policy p adopts,
          )
          (gets-Names c scope site Given answers policy p) (λ _ i. i)
          (λ current q given. write_over-Tries policy current q)

    create_if_gone-Tries :
        (f : Failure) (p : Pass)
        → Ready p
        → Tries Given t d IsThere (create_if_gone c scope site copies t d row f p)
    unfolding create_if_gone
    create_if_gone-Tries f p a = elim (Bool-cases (is_not_found f)) [
      | inl gone ↦ rw gone (create_again-Tries p a)
      | inr other ↦ rw other a.0
    ]

    write_policy-Tries :
        (p : Pass)
        → Ready p
        → Tries Given t d IsThere (write_policy c scope site copies t d (some row) p)
    unfolding write_policy
    write_policy-Tries p a = elim (Option-cases (held_policy (some row) p.on_gateway)) [
      | inl gone ↦ rw (gone, write_policy) (create_again-Tries p a)
      | inr (policy, e) ↦
          rw (e, write_policy)
            (caught-Tries Given t d Ready IsThere
              (update_and_record c scope site copies t d row policy p)
              (create_if_gone c scope site copies t d row) (update_and_record-Tries policy p a)
              create_if_gone-Tries)
    ]

    held_policy-named :
        (held : List Text) (policy : Text)
        → held_policy (some row) held ≡ some policy
        → (row.unifi_policy_id ≡ some policy) × (includes held policy ≡ true)
    held_policy-named held policy e = elim (Option-cases row.unifi_policy_id) [
      | inl none_given ↦ absurd (let e' = rw none_given at e in cc)
      | inr (given, g) ↦ elim (Bool-cases (includes held given)) [
        | inl on ↦
            let e' = rw (g, on) at e in
            let same : given ≡ policy = ground (arith, e') in (g ∙ ap some same, rw (← same) on)
        | inr off ↦ absurd (let e' = rw (g, off) at e in cc)
      ]
    ]

    -- The branch that writes nothing: the row was confirmed before.
    observe-Confirmed :
        (p : Pass)
        → Memᴰ row (rows_of t p.store)
        → row.key ≡ d.key
        → unchanged c scope site copies t d row ≡ true
        → (policy : Text) → row.unifi_policy_id ≡ some policy
        → Given policy
        → Confirmed Given t d (
            if opt_text_eq row.observed_fingerprint d.fingerprint
            then p
            else set_row t row.id (observed_row d.fingerprint d.revision) p)
    unfolding unchanged
    observe-Confirmed p m k same policy named given =
        let written : row.desired_fingerprint ≡ d.fingerprint =
          (text_eq_iff row.desired_fingerprint d.fingerprint).0 (ground arith) in
        let no_error : has_error row.last_error ≡ false = ground arith in
        elim (Bool-cases (opt_text_eq row.observed_fingerprint d.fingerprint)) [
          | inl seen ↦ rw seen (
            row,
            m,
            (
              k,
              written,
              seen_fingerprint row.observed_fingerprint seen,
              no_error,
              (policy, named, given),
            ),
          )
          | inr unseen ↦ rw (unseen) (
            observed_row d.fingerprint d.revision row,
            rw (set_row-rows t row.id (observed_row d.fingerprint d.revision) p) (
                update_row-same row.id (observed_row d.fingerprint d.revision) (rows_of t p.store)
                  row refl m),
            (k, written, refl, no_error, (policy, named, given)),
          )
        ]
      where
        seen_fingerprint :
            (o : Option Text) → opt_text_eq o d.fingerprint ≡ true → o ≡ some d.fingerprint
        seen_fingerprint none e = absurd (cc)
        seen_fingerprint (some s) e = ap some ((text_eq_iff s d.fingerprint).0 e)

    keep_policy-Tries :
        (noted : Result (Option DriftNote)) (p : Pass)
        → Memᴰ row (rows_of t p.store)
        → row.key ≡ d.key
        → unchanged c scope site copies t d row ≡ true
        → (policy : Text) → row.unifi_policy_id ≡ some policy
        → Given policy
        → AdoptsGiven Given p
        → Tries Given t d IsThere (keep_policy c scope site copies t d row noted p)
    unfolding keep_policy
    keep_policy-Tries (err f) p m k same policy named given adopts = (row, m, refl, k)
    keep_policy-Tries (ok (some note)) p m k same policy named given adopts =
        write_policy-Tries (set_row t row.id (noted_row note) p) (
          (
            noted_row note row,
            rw (set_row-rows t row.id (noted_row note) p)
                (update_row-same row.id (noted_row note) (rows_of t p.store) row refl m),
            refl,
            k,
          ),
          adopts,
        )
    keep_policy-Tries (ok none) p m k same policy named given adopts =
        observe-Confirmed p m k same policy named given

    apply_desired-Tries :
        (p : Pass)
        → Memᴰ row (rows_of t p.store)
        → row.key ≡ d.key
        → HoldsGiven Given p
        → AdoptsGiven Given p
        → Tries Given t d IsThere (apply_desired c scope site copies t d (some row) p)
    unfolding apply_desired
    apply_desired-Tries p m k holds adopts =
        elim (Option-cases (held_policy (some row) p.on_gateway)) [
          | inl gone ↦ rw (gone, apply_desired) (write_policy-Tries p ((row, m, refl, k), adopts))
          | inr (policy, e) ↦
              rw (e, apply_desired)
                (elim (Bool-cases (unchanged c scope site copies t d row)) [
                  | inl same ↦
                      let (named, on) = held_policy-named p.on_gateway policy e in
                      rw same (keep_policy-Tries _ p m k same policy named (holds policy on) adopts)
                  | inr changed ↦ rw changed (write_policy-Tries p ((row, m, refl, k), adopts))
                ])
        ]

  -- Applying a planned policy, to its row or to none, leaves it confirmed when it succeeds.
  pub apply_desired-Confirms :
      (existing : Option PolicyRow) (p : Pass)
      → ((row : PolicyRow) → existing ≡ some row → Memᴰ row (rows_of t p.store) × (row.key ≡ d.key))
      → HoldsGiven Given p
      → AdoptsGiven Given p
      → Confirms Given t d (apply_desired c scope site copies t d existing p)
  unfolding apply_desired write_policy
  apply_desired-Confirms none p known holds adopts =
      Tries-Confirms Given t d (λ _. Unit {0}) _ (create_new-Tries p adopts)
  apply_desired-Confirms (some row) p known holds adopts =
      Tries-Confirms Given t d (IsThere row) (apply_desired c scope site copies t d (some row) p)
        (apply_desired-Tries row p (known row refl).0 (known row refl).1 holds adopts)

module _ (c : Console) (scope : OwnershipScope) (site : Text)
    (copies : Text → Option FirewallPolicy) (t : Table) (d : Desired) where
  pub apply_or_record-Confirmed :
      (message : Failure → Text) (existing : Option PolicyRow) (p : Pass)
      → ((row : PolicyRow) → existing ≡ some row → Memᴰ row (rows_of t p.store) × (row.key ≡ d.key))
      → (apply_or_record c scope site copies t d message existing p).1 ≡ []
      → Confirmed (IsOf c p) t d (apply_or_record c scope site copies t d message existing p).0
  unfolding apply_or_record after_apply
  apply_or_record-Confirmed message existing p known quiet =
      go (apply_desired c scope site copies t d existing p)
        (apply_desired-Confirms c scope site copies t d (IsOf c p)
          (λ n r policy e. inr (inr (n, r, policy, e, refl))) existing p known (λ policy on. inl on)
          (λ a m. inr (inl (a, m, refl))))
        quiet
    where
      go :
          (r : Result (Unit {0}) × Pass)
          → Confirms (IsOf c p) t d r
          → (after_apply c scope site copies t d message existing r).1 ≡ []
          → Confirmed (IsOf c p) t d (after_apply c scope site copies t d message existing r).0
      go (ok done, q) h e = h
      go (err f, q) h e = absurd (cc)
