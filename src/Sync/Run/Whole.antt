-- ===== src/Sync/Run/Whole.antt =====
-- A whole pass without an error leaves every planned policy of both tables confirmed.
use familyfi.Base.{ℕ, suc, ◌≡◌, refl, ap, ◌∙◌, subst, List, [], Text, All, All-map, arith}
use familyfi.Payload.{FirewallPolicy, FirewallPolicyWrite}
use familyfi.Sync.Store.{Store, OwnershipScope, PolicyRow, expire_delete_confirmations}
use familyfi.Sync.LostCreates.Confirmations.{settle_lost_creates-rows}
use familyfi.Sync.Gateway.{Console, Pass, Result, ok, err}
use familyfi.Sync.Apply.{Table, app, rule, rows_of}
use familyfi.Sync.Apply.Guarded.{Of, Of-IsGuarded}
use familyfi.Sync.Apply.Tables.{other}
use familyfi.Sync.Run.{
  Enforcement, PassInput, begin_pass, write_pass, enforce, sweep_messages, joined, keys_of,
}
use familyfi.Sync.Run.Steps.{enforce-Keeps, sweep_messages-Keeps}
use familyfi.Sync.Run.Apart.{Of-IsKeptByTable}
use familyfi.Sync.Run.Rounds.{AllDistinct, HaveIds, PlannedConfirmed, joined_quiet}
use familyfi.Sync.Run.Confirms.{enforce-Confirmed}

module _ (c : Console) (scope : OwnershipScope) (site : Text) (s : PassInput) where
  -- Both tables' planned policies are confirmed.
  abbrev pub AllConfirmed : Enforcement → Enforcement → Pass → Type 0
  AllConfirmed apps rules q =
      All (PlannedConfirmed c scope site s app q) apps.planned
      × All (PlannedConfirmed c scope site s rule q) rules.planned

  PlannedConfirmed-rows :
      (t : Table) (p q : Pass) (planned : List (Text × Result FirewallPolicyWrite))
      → rows_of t p.store ≡ rows_of t q.store
      → All (PlannedConfirmed c scope site s t p) planned
      → All (PlannedConfirmed c scope site s t q) planned
  PlannedConfirmed-rows t p q planned e =
      All-map (PlannedConfirmed c scope site s t p) (PlannedConfirmed c scope site s t q) planned
        (λ d _ h. moved d h)
    where
      moved :
          (d : Text × Result FirewallPolicyWrite)
          → PlannedConfirmed c scope site s t p d
          → PlannedConfirmed c scope site s t q d
      moved (key, ok write) (r, m, h) = (r, rw e at m, h)
      moved (key, err f) h = h

  pub AllConfirmed-store :
      (apps rules : Enforcement) (p q : Pass)
      → p.store ≡ q.store
      → AllConfirmed apps rules p
      → AllConfirmed apps rules q
  AllConfirmed-store apps rules p q e (a, r) = (
    PlannedConfirmed-rows app p q apps.planned (ap (λ st. rows_of app st) e) a,
    PlannedConfirmed-rows rule p q rules.planned (ap (λ st. rows_of rule st) e) r,
  )

  HaveIds-later : (rows : List PolicyRow) (next : ℕ) → HaveIds rows next → HaveIds rows (suc next)
  HaveIds-later rows next h x m = ((let l = (h x m).0 in omega arith), (h x m).1)

  -- The plan does not name a policy twice, and the rows have ids of their own.
  pub record IsSound (apps rules : Enforcement) (p : Pass) : Type 0 where
    pub distinct_apps : AllDistinct (keys_of apps.planned)
    pub distinct_rules : AllDistinct (keys_of rules.planned)
    pub app_ids : HaveIds (rows_of app p.store) (p.store).next_id
    pub rule_ids : HaveIds (rows_of rule p.store) (p.store).next_id

  pub sweep_messages-rows :
      (t : Table) (p q : Pass)
      → sweep_messages c scope site s p ≡ (ok [], q)
      → rows_of t p.store ≡ rows_of t q.store
  sweep_messages-rows t p q e =
      let kept : rows_of t p.store ≡ rows_of t (sweep_messages c scope site s p).1.store =
        sweep_messages-Keeps scope site (Of (λ rows _. rows_of t p.store ≡ rows) (λ _ _ h. h) t)
          (Of-IsGuarded (λ rows _. rows_of t p.store ≡ rows) (λ _ _ h. h) scope site t) c s p
          refl in
      subst (λ r. rows_of t p.store ≡ rows_of t r.1.store) e kept

  -- Enforcing the other table leaves the rows of this one.
  pub enforce-other_rows :
      (t : Table) (e : Enforcement) (p q : Pass)
      → enforce c scope site s (other t) e p ≡ (ok [], q)
      → rows_of t p.store ≡ rows_of t q.store
  enforce-other_rows t e p q done =
      let kept : rows_of t p.store ≡ rows_of t (enforce c scope site s (other t) e p).1.store =
        enforce-Keeps scope site (Of (λ rows _. rows_of t p.store ≡ rows) (λ _ _ h. h) t)
          (Of-IsGuarded (λ rows _. rows_of t p.store ≡ rows) (λ _ _ h. h) scope site t) c s
          (other t) e (Of-IsKeptByTable (λ rows _. rows_of t p.store ≡ rows) (λ _ _ h. h) t) p
          refl in
      subst (λ r. rows_of t p.store ≡ rows_of t r.1.store) done kept

  enforce_apps-HaveIds :
      (apps : Enforcement) (p q : Pass)
      → enforce c scope site s app apps p ≡ (ok [], q)
      → HaveIds (rows_of rule p.store) (p.store).next_id
      → HaveIds (rows_of rule q.store) (q.store).next_id
  enforce_apps-HaveIds apps p q e h =
      subst (λ r. HaveIds (rows_of rule r.1.store) (r.1.store).next_id) e
        (enforce-Keeps scope site (Of HaveIds HaveIds-later rule)
          (Of-IsGuarded HaveIds HaveIds-later scope site rule) c s app apps
          (Of-IsKeptByTable HaveIds HaveIds-later rule) p h)

  pub write_pass-AllConfirmed :
      (apps rules : Enforcement) (uncovered : Store → List Text) (p q : Pass)
      → IsSound apps rules p
      → write_pass c scope site s apps rules uncovered p ≡ (ok [], q)
      → AllConfirmed apps rules q
  unfolding write_pass
  write_pass-AllConfirmed apps rules uncovered p q sound e =
      let (m, e0, e1) =
        joined_quiet c scope site s
          (joined c scope site s (enforce c scope site s app apps)
            (enforce c scope site s rule rules))
          (joined c scope site s (sweep_messages c scope site s) (λ p. (ok (uncovered p.store), p)))
          p q e in
      let (n, e2, e3) =
        joined_quiet c scope site s (enforce c scope site s app apps)
          (enforce c scope site s rule rules) p m e0 in
      let (o, e4, e5) =
        joined_quiet c scope site s (sweep_messages c scope site s)
          (λ p. (ok (uncovered p.store), p)) m q e1 in
      let last : o ≡ q = cc in
      let swept : (t : Table) → rows_of t m.store ≡ rows_of t q.store = λ t.
        subst (λ o. rows_of t m.store ≡ rows_of t o.store) last (sweep_messages-rows t m o e4) in
      (
        PlannedConfirmed-rows app n q apps.planned (enforce-other_rows app rules n m e3 ∙ swept app)
            (enforce-Confirmed c scope site s app apps p n sound.distinct_apps sound.app_ids e2),
        PlannedConfirmed-rows rule m q rules.planned (swept rule) (
            enforce-Confirmed c scope site s rule rules n m sound.distinct_rules
              (enforce_apps-HaveIds apps p n e2 sound.rule_ids) e3),
      )

  -- The start of a pass changes no row.
  pub begin_pass-IsSound :
      (gateway : List FirewallPolicy) (before : ℕ) (apps rules : Enforcement) (p : Pass)
      → IsSound apps rules p
      → IsSound apps rules (begin_pass c scope site s gateway before p)
  unfolding begin_pass expire_delete_confirmations
  begin_pass-IsSound gateway before apps rules p sound =
      let (a, r, n) =
        settle_lost_creates-rows scope.connection_identity site gateway before
          (expire_delete_confirmations p.store) in
      record {
        distinct_apps = sound.distinct_apps;
        distinct_rules = sound.distinct_rules;
        app_ids = rw (a, n) sound.app_ids;
        rule_ids = rw (r, n) sound.rule_ids;
      }
