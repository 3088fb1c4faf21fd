-- ===== src/Sync/Run/Finished.antt =====
-- A whole pass without an error leaves no row that nobody wants.
use familyfi.Base.{ℕ, ◌<◌, ◌≡◌, subst, true, List, [], Memᴰ, keep-Memᴰ, Text}
use familyfi.Payload.{FirewallPolicy}
use familyfi.Sync.Store.{Store, OwnershipScope, PolicyRow, expire_delete_confirmations}
use familyfi.Sync.LostCreates.{row_in}
use familyfi.Sync.LostCreates.Confirmations.{settle_lost_creates-rows}
use familyfi.Sync.Gateway.{Console, Pass, ok}
use familyfi.Sync.Apply.{Table, app, rule, rows_of}
use familyfi.Sync.Apply.Guarded.{Of, Of-IsGuarded}
use familyfi.Sync.Apply.Tables.{other}
use familyfi.Sync.Run.{
  Enforcement, PassInput, begin_pass, write_pass, enforce, sweep_messages, joined,
}
use familyfi.Sync.Run.Steps.{enforce-Keeps, sweep_messages-Keeps}
use familyfi.Sync.Run.Apart.{Of-IsKeptByTable}
use familyfi.Sync.Run.Rounds.{joined_quiet}
use familyfi.Sync.Run.Whole.{enforce-other_rows}
use familyfi.Sync.Run.Cleared.{
  Absent, Absent-later, Issued, Issued-later, Issued-IsKeptByTable, IsGone, IsUnwanted,
  enforce-IsGone,
}

-- What the pass enforces in the table.
abbrev pub part_of : Table → Enforcement → Enforcement → Enforcement
part_of app apps rules = apps
part_of rule apps rules = rules

module _ (c : Console) (scope : OwnershipScope) (site : Text) (s : PassInput) where
  -- A row of this console and site, and with an id issued, that is neither planned nor retained.
  pub record IsLeftover (t : Table) (e : Enforcement) (x : PolicyRow) (p : Pass) : Type 0 where
    pub recorded : Memᴰ x (rows_of t p.store)
    pub here : row_in scope.connection_identity site x ≡ true
    pub issued : x.id < (p.store).next_id
    pub unwanted : IsUnwanted c scope site s t e x

  after-sweep :
      (t : Table) (e : Enforcement) (x : PolicyRow) (p q : Pass)
      → sweep_messages c scope site s p ≡ (ok [], q)
      → IsGone c scope site s t e x p
      → IsGone c scope site s t e x q
  after-sweep t e x p q done a =
      let kept =
        sweep_messages-Keeps scope site (IsGone c scope site s t e x)
          (Of-IsGuarded (Absent x.id) (Absent-later x.id) scope site t) c s p a in
      rw done at kept

  after-other :
      (t : Table) (e other_part : Enforcement) (x : PolicyRow) (p q : Pass)
      → enforce c scope site s (other t) other_part p ≡ (ok [], q)
      → IsGone c scope site s t e x p
      → IsGone c scope site s t e x q
  after-other t e other_part x p q done a =
      let kept =
        enforce-Keeps scope site (IsGone c scope site s t e x)
          (Of-IsGuarded (Absent x.id) (Absent-later x.id) scope site t) c s (other t) other_part
          (Of-IsKeptByTable (Absent x.id) (Absent-later x.id) t) p a in
      rw done at kept

  -- A leftover row of the rules is one after the other table was enforced.
  IsLeftover-later :
      (apps rules : Enforcement) (x : PolicyRow) (p q : Pass)
      → enforce c scope site s app apps p ≡ (ok [], q)
      → IsLeftover rule rules x p
      → IsLeftover rule rules x q
  IsLeftover-later apps rules x p q done h =
      let issued =
        enforce-Keeps scope site (Of (Issued x.id) (Issued-later x.id) app)
          (Of-IsGuarded (Issued x.id) (Issued-later x.id) scope site app) c s app apps
          (Issued-IsKeptByTable x.id app) p h.issued in
      record {
        recorded = rw (← enforce-other_rows c scope site s rule apps p q done) h.recorded;
        here = h.here;
        issued = rw done at issued;
        unwanted = h.unwanted;
      }

  leftover-goes :
      (t : Table) (e : Enforcement) (x : PolicyRow) (p q : Pass)
      → IsLeftover t e x p
      → enforce c scope site s t e p ≡ (ok [], q)
      → IsGone c scope site s t e x q
  leftover-goes t e x p q h done =
      enforce-IsGone c scope site s t e x p q
        (keep-Memᴰ (row_in scope.connection_identity site) (rows_of t p.store) h.recorded h.here)
        h.unwanted h.issued done

  pub write_pass-IsGone :
      (t : Table) (apps rules : Enforcement) (uncovered : Store → List Text) (x : PolicyRow)
      (p q : Pass)
      → IsLeftover t (part_of t apps rules) x p
      → write_pass c scope site s apps rules uncovered p ≡ (ok [], q)
      → IsGone c scope site s t (part_of t apps rules) x q
  unfolding write_pass
  write_pass-IsGone t apps rules uncovered x p q h e =
      let (m, e0, e1) =
        joined_quiet c scope site s
          (joined c scope site s (enforce c scope site s app apps)
            (enforce c scope site s rule rules))
          (joined c scope site s (sweep_messages c scope site s) (λ p. (ok (uncovered p.store), p)))
          p q e in
      let (n, e2, e3) =
        joined_quiet c scope site s (enforce c scope site s app apps)
          (enforce c scope site s rule rules) p m e0 in
      let (o, e4, e5) =
        joined_quiet c scope site s (sweep_messages c scope site s)
          (λ p. (ok (uncovered p.store), p)) m q e1 in
      let last : o ≡ q = cc in
      subst (IsGone c scope site s t (part_of t apps rules) x) last
        (after-sweep t (part_of t apps rules) x m o e4 (cleared t h n e2 m e3))
    where
      cleared :
          (t : Table)
          → IsLeftover t (part_of t apps rules) x p
          → (n : Pass) → enforce c scope site s app apps p ≡ (ok [], n)
          → (m : Pass) → enforce c scope site s rule rules n ≡ (ok [], m)
          → IsGone c scope site s t (part_of t apps rules) x m
      cleared app h n e2 m e3 =
          after-other app apps rules x n m e3 (leftover-goes app apps x p n h e2)
      cleared rule h n e2 m e3 =
          leftover-goes rule rules x n m (IsLeftover-later apps rules x p n e2 h) e3

  -- The start of a pass leaves the rows as they are.
  pub begin_pass-IsLeftover :
      (gateway : List FirewallPolicy) (before : ℕ) (t : Table) (e : Enforcement) (x : PolicyRow)
      (p : Pass)
      → IsLeftover t e x p
      → IsLeftover t e x (begin_pass c scope site s gateway before p)
  unfolding begin_pass expire_delete_confirmations
  begin_pass-IsLeftover gateway before t e x p h =
      let (a, r, n) =
        settle_lost_creates-rows scope.connection_identity site gateway before
          (expire_delete_confirmations p.store) in
      record {
        recorded = same_rows t _ a r h.recorded;
        here = h.here;
        issued = rw n h.issued;
        unwanted = h.unwanted;
      }
    where
      same_rows :
          (t : Table) (st : Store)
          → st.app_policies ≡ (p.store).app_policies
          → st.rule_policies ≡ (p.store).rule_policies
          → Memᴰ x (rows_of t p.store)
          → Memᴰ x (rows_of t st)
      same_rows app st a r m = rw a m
      same_rows rule st a r m = rw r m
