-- ===== src/Sync/Outcome/Settled.antt =====
-- Changes are reported as applied only when everything planned is confirmed.
use familyfi.Base.{
  ℕ, suc, ◌≡◌, refl, subst, inl, inr, Option, some, List, [], ◌∷◌, Text, Bool-cases,
}
use familyfi.Payload.{FirewallPolicy}
use familyfi.Sync.Apply.{Table, rows_of}
use familyfi.Sync.Store.{PolicyRow, Store, OwnershipScope}
use familyfi.Sync.Gateway.{Console, Pass, Failure, lock_lost, Result, ok, err, still_held}
use familyfi.Sync.Run.{Enforcement, PassInput, begin_pass, write_pass}
use familyfi.Sync.Run.Whole.{
  AllConfirmed, IsSound, write_pass-AllConfirmed, AllConfirmed-store, begin_pass-IsSound,
}
use familyfi.Sync.Run.Cleared.{Absent, IsGone}
use familyfi.Sync.Run.Finished.{IsLeftover, part_of, write_pass-IsGone, begin_pass-IsLeftover}
use familyfi.Sync.Outcome.{
  applied, Outcome, status_of, running, abort, taken_over, checked, settled, settle_changes, finish,
  reconcile,
}

status_applied : (errors : List Text) → status_of errors ≡ applied → errors ≡ []
status_applied [] e = refl
status_applied (x ∷ errors) e = absurd (cc)

module _ (c : Console) (scope : OwnershipScope) (site : Text) (s : PassInput) where
  -- A pass whose changes are settled as applied: it ended its writes without an error.
  abbrev Completed : Result (List Text) × Pass → Pass → Type 0
  Completed r q = (m : Pass) × (r ≡ (ok [], m)) × (m.store ≡ q.store)

  abort-changes :
      (before : Outcome) (f : Failure) (p : Pass) (error : Option Text)
      → (abort c scope site s before f p).changes ≡ some (applied, error)
      → before.changes ≡ some (applied, error)
  unfolding abort
  abort-changes before f p error e = elim (Bool-cases (taken_over c scope site s f p)) [
    | inl taken ↦ (rw taken at e)
    | inr ours ↦ absurd (let e' = rw ours at e in cc)
  ]

  settled-applied :
      (errors : List Text) (error : Option Text)
      → (settled c scope site s errors).changes ≡ some (applied, error)
      → errors ≡ []
  unfolding settled
  settled-applied errors error e =
      status_applied errors (let e' : status_of errors ≡ applied = cc in e')

  settle_changes-applied :
      (errors : List Text) (p : Pass) (error : Option Text)
      → (settle_changes c scope site s errors p).0.changes ≡ some (applied, error)
      → (errors ≡ []) × (p.store ≡ (settle_changes c scope site s errors p).1.store)
  unfolding settle_changes checked still_held
  settle_changes-applied errors p error e = elim (Bool-cases (c.held p.checks)) [
    | inl held ↦ elim (Bool-cases (c.held (suc p.checks))) [
      | inl still ↦ rw (held, still) (settled-applied errors error (rw (held, still) at e), refl)
      | inr lost ↦
          rw (held, lost)
            (
              settled-applied errors error (
                  abort-changes (settled c scope site s errors) lock_lost
                    (record p { checks = suc (suc p.checks) }) error (rw (held, lost) at e)),
              refl,
            )
    ]
    | inr lost ↦ absurd (
        let e' =
          abort-changes running lock_lost (record p { checks = suc p.checks }) error
            (rw lost at e) in
        cc)
  ]

  finish-applied :
      (r : Result (List Text) × Pass) (error : Option Text)
      → (finish c scope site s r).0.changes ≡ some (applied, error)
      → Completed r (finish c scope site s r).1
  unfolding finish
  finish-applied (ok errors, p) error e =
      let (none_met, same) = settle_changes-applied errors p error e in (p, rw none_met refl, same)
  finish-applied (err f, p) error e = absurd (let e' = abort-changes running f p error e in cc)

  -- When a pass reports the changes that waited for it as applied, every policy that it planned was
  -- built and is recorded under its key in its table: as written, confirmed by the gateway for that
  -- same write, without an error, and with some policy id; which id is not said here. The plan must not name a policy
  -- twice, and the rows must have ids of their own; what the console answers, what was there before
  -- and what else the pass clears away does not matter.
  pub reconcile_confirms :
      (gateway : List FirewallPolicy) (abandon_before : ℕ) (apps rules : Enforcement)
      (uncovered : Store → List Text) (p : Pass) (error : Option Text)
      → IsSound c scope site s apps rules p
      → (reconcile c scope site s gateway abandon_before apps rules uncovered p).0.changes
        ≡ some (applied, error)
      → AllConfirmed c scope site s apps rules
          (reconcile c scope site s gateway abandon_before apps rules uncovered p).1
  unfolding reconcile
  reconcile_confirms gateway abandon_before apps rules uncovered p error sound e =
      let begun = begin_pass c scope site s gateway abandon_before p in
      let (m, written, same) =
        finish-applied (write_pass c scope site s apps rules uncovered begun) error e in
      AllConfirmed-store c scope site s apps rules m
        (finish c scope site s (write_pass c scope site s apps rules uncovered begun)).1 same
        (write_pass-AllConfirmed c scope site s apps rules uncovered begun m
          (begin_pass-IsSound c scope site s gateway abandon_before apps rules p sound) written)

  -- When a pass reports the changes that waited for it as applied, no row is left of those of this
  -- console and site that it started with and that its plan neither names nor retains, in either
  -- table; the row's id is not given to another row either.
  pub reconcile_clears :
      (gateway : List FirewallPolicy) (abandon_before : ℕ) (apps rules : Enforcement)
      (uncovered : Store → List Text) (p : Pass) (error : Option Text) (t : Table) (x : PolicyRow)
      → IsLeftover c scope site s t (part_of t apps rules) x p
      → (reconcile c scope site s gateway abandon_before apps rules uncovered p).0.changes
        ≡ some (applied, error)
      → IsGone c scope site s t
          (part_of t apps rules)
          x
          (reconcile c scope site s gateway abandon_before apps rules uncovered p).1
  unfolding reconcile
  reconcile_clears gateway abandon_before apps rules uncovered p error t x leftover e =
      let begun = begin_pass c scope site s gateway abandon_before p in
      let (m, written, same) =
        finish-applied (write_pass c scope site s apps rules uncovered begun) error e in
      let gone =
        write_pass-IsGone c scope site s t apps rules uncovered x begun m
          (begin_pass-IsLeftover c scope site s gateway abandon_before t (part_of t apps rules) x p
            leftover)
          written in
      subst (λ st. Absent x.id (rows_of t st) st.next_id) same gone
