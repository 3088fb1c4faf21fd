-- ===== src/Sync/Run/Confirms.antt =====
-- A pass without an error leaves every planned policy confirmed.
use familyfi.Base.{
  subst, ◌≡◌, ap, inl, inr, List, [], ◌∷◌, Memᴰ, Text, includes-Memᴰ, keep, Memᴰ-keep, All, All-map,
}
use mathlib.Core.List.Memᴰ
use familyfi.Payload.{FirewallPolicyWrite}
use familyfi.Sync.Store.{PolicyRow, OwnershipScope}
use familyfi.Sync.LostCreates.{row_in}
use familyfi.Sync.Gateway.{Console, Pass, Result, ok, err, pure}
use familyfi.Sync.Apply.{Table, rows_of}
use familyfi.Sync.Apply.Guarded.{Of-IsGuarded}
use familyfi.Sync.Run.{
  Enforcement, PassInput, existing_row, joined, apply_planned, apply_all, clean_all, enforce,
  keys_of,
}
use familyfi.Sync.Run.Steps.{apply_planned-Keeps, apply_all-Keeps, clean_all-Keeps}
use familyfi.Sync.Run.Stays.{
  KeepsIds, HaveOwnIds, Stays, Holds, Holds-later, HaveOwnIds-later, KeepsIds-IsKeptByRows,
  Stays-IsKeptByRows, Stays-IsKeptByClearing,
}
use familyfi.Sync.Run.Rounds.{
  AllDistinct, HaveIds, existing_row_known, PlannedConfirmed, joined_quiet, apply_planned-Confirmed,
}

module _ (c : Console) (scope : OwnershipScope) (site : Text) (s : PassInput) where
  -- A row of another key than those planned stays while they are applied.
  apply_all-Stays :
      (t : Table) (xs : List PolicyRow) (planned : List (Text × Result FirewallPolicyWrite))
      (r : PolicyRow) (p q : Pass)
      → ¬ Memᴰ r.key (keys_of planned)
      → apply_all c scope site s t xs planned p ≡ (ok [], q)
      → Stays xs t r p
      → Stays xs t r q
  apply_all-Stays t xs planned r p q fresh e a =
      let done =
        apply_all-Keeps scope site (Stays xs t r)
          (Of-IsGuarded (Holds xs r) (Holds-later xs r) scope site t) c s t xs planned
          (λ key m.
            Stays-IsKeptByRows xs t r key (existing_row scope.connection_identity key xs)
              (λ same. fresh (rw (← same) at m))
              (existing_row_known scope.connection_identity key xs))
          p a in
      rw e at done

  apply_planned-Stays :
      (t : Table) (xs : List PolicyRow) (key : Text) (write : Result FirewallPolicyWrite)
      (r : PolicyRow) (p q : Pass)
      → ¬ (r.key ≡ key)
      → apply_planned c scope site s t xs (key, write) p ≡ (ok [], q)
      → Stays xs t r p
      → Stays xs t r q
  apply_planned-Stays t xs key write r p q differs e a =
      let done =
        apply_planned-Keeps scope site (Stays xs t r)
          (Of-IsGuarded (Holds xs r) (Holds-later xs r) scope site t) c s t xs key write
          (Stays-IsKeptByRows xs t r key (existing_row scope.connection_identity key xs) differs
            (existing_row_known scope.connection_identity key xs))
          p a in
      rw e at done

  apply_planned-KeepsIds :
      (t : Table) (xs : List PolicyRow) (key : Text) (write : Result FirewallPolicyWrite)
      (p q : Pass)
      → apply_planned c scope site s t xs (key, write) p ≡ (ok [], q)
      → KeepsIds xs t p
      → KeepsIds xs t q
  apply_planned-KeepsIds t xs key write p q e a =
      let done =
        apply_planned-Keeps scope site (KeepsIds xs t)
          (Of-IsGuarded (HaveOwnIds xs) (HaveOwnIds-later xs) scope site t) c s t xs key write
          (KeepsIds-IsKeptByRows xs t key (existing_row scope.connection_identity key xs)) p a in
      rw e at done

  PlannedConfirmed-Stays :
      (t : Table) (xs : List PolicyRow) (p q : Pass) (d : Text × Result FirewallPolicyWrite)
      → KeepsIds xs t p
      → ((r : PolicyRow) → r.key ≡ d.0 → Stays xs t r p → Stays xs t r q)
      → PlannedConfirmed c scope site s t p d
      → PlannedConfirmed c scope site s t q d
  PlannedConfirmed-Stays t xs p q (key, ok write) ids stays (r, m, h) =
      (r, (stays r h.0 (ids, m)).1, h)
  PlannedConfirmed-Stays t xs p q (key, err f) ids stays h = h

  apply_all-Confirmed :
      (t : Table) (xs : List PolicyRow) (planned : List (Text × Result FirewallPolicyWrite))
      (p q : Pass)
      → AllDistinct (keys_of planned)
      → KeepsIds xs t p
      → ((x : PolicyRow) → Memᴰ x xs → Memᴰ x.key (keys_of planned) → Memᴰ x (rows_of t p.store))
      → apply_all c scope site s t xs planned p ≡ (ok [], q)
      → All (PlannedConfirmed c scope site s t q) planned × KeepsIds xs t q
  unfolding apply_all
  apply_all-Confirmed t xs [] p q distinct ids there e =
      let same : p ≡ q = cc in (tt, rw same at ids)
  apply_all-Confirmed t xs ((key, write) ∷ planned) p q (new, distinct) ids there e =
      let (m, e0, e1) =
        joined_quiet c scope site s (apply_planned c scope site s t xs (key, write))
          (apply_all c scope site s t xs planned) p q e in
      let ids' = apply_planned-KeepsIds t xs key write p m e0 ids in
      let (rest, ids'') =
        apply_all-Confirmed t xs planned m q distinct ids'
          (λ x x_in k.
            (apply_planned-Stays t xs key write x p m (λ same. new (rw same at k)) e0
              (ids, there x x_in (Memᴰ.tail k))).1)
          e1 in
      (
        (
          PlannedConfirmed-Stays t xs m q (key, write) ids'
              (λ r k. apply_all-Stays t xs planned r m q (λ in_rest. new (rw k at in_rest)) e1)
              (apply_planned-Confirmed c scope site s t xs key write p m
                (λ x x_in k. there x x_in (Memᴰ.head k)) e0),
          rest,
        ),
        ids'',
      )

  keys_of-Memᴰ :
      (planned : List (Text × Result FirewallPolicyWrite)) (d : Text × Result FirewallPolicyWrite)
      → Memᴰ d planned
      → Memᴰ d.0 (keys_of planned)
  keys_of-Memᴰ [] d m = absurd (Memᴰ.not-nil m)
  keys_of-Memᴰ ((key, write) ∷ planned) d m = elim (Memᴰ.cases_cons m) [
    | inl e ↦ Memᴰ.head (ap (λ x. x.0) e)
    | inr later ↦ Memᴰ.tail (keys_of-Memᴰ planned d later)
  ]

  -- A row of a planned key stays while the others are cleared away.
  clean_all-Stays :
      (t : Table) (e : Enforcement) (xs : List PolicyRow) (r : PolicyRow) (p q : Pass)
      → Memᴰ r.key (keys_of e.planned)
      → clean_all c scope site s t e xs p ≡ (ok [], q)
      → Stays xs t r p
      → Stays xs t r q
  clean_all-Stays t e xs r p q planned done a =
      let after =
        clean_all-Keeps scope site (Stays xs t r)
          (Of-IsGuarded (Holds xs r) (Holds-later xs r) scope site t) c s t e xs
          (λ x x_in unplanned. Stays-IsKeptByClearing xs t r x x_in (λ same. absurd (
            let found = includes-Memᴰ (keys_of e.planned) r.key planned in
            let lost = (rw (← same) at unplanned) in cc)))
          p a in
      rw done at after

  HaveIds-KeepsIds :
      (t : Table) (p : Pass)
      → HaveIds (rows_of t p.store) (p.store).next_id
      → KeepsIds (keep (row_in scope.connection_identity site) (rows_of t p.store)) t p
  HaveIds-KeepsIds t p h x m =
      let x_in = (Memᴰ-keep (row_in scope.connection_identity site) (rows_of t p.store) m).0 in
      ((h x x_in).0, λ r r_in e. ap (λ y. y.key) ((h x x_in).1 r r_in e))

  -- Both loops over one table without an error.
  pub enforce-Confirmed :
      (t : Table) (e : Enforcement) (p q : Pass)
      → AllDistinct (keys_of e.planned)
      → HaveIds (rows_of t p.store) (p.store).next_id
      → enforce c scope site s t e p ≡ (ok [], q)
      → All (PlannedConfirmed c scope site s t q) e.planned
  unfolding enforce
  enforce-Confirmed t e p q distinct ids done =
      let xs = keep (row_in scope.connection_identity site) (rows_of t p.store) in
      let (m0, e0, e1) =
        joined_quiet c scope site s (pure e.troubles)
          (joined c scope site s (apply_all c scope site s t xs e.planned)
            (clean_all c scope site s t e xs))
          p q done in
      let same : p ≡ m0 = cc in
      let (m, e2, e3) =
        joined_quiet c scope site s (apply_all c scope site s t xs e.planned)
          (clean_all c scope site s t e xs) m0 q e1 in
      let ids0 : KeepsIds xs t m0 =
        subst (λ m0. KeepsIds xs t m0) same (HaveIds-KeepsIds t p ids) in
      let (confirmed, ids1) =
        apply_all-Confirmed t xs e.planned m0 m distinct ids0
          (λ x x_in _.
            subst (λ m0. Memᴰ x (rows_of t m0.store)) same
              ((Memᴰ-keep (row_in scope.connection_identity site) (rows_of t p.store) x_in).0))
          e2 in
      All-map (PlannedConfirmed c scope site s t m) (PlannedConfirmed c scope site s t q) e.planned
        (λ d d_in.
          PlannedConfirmed-Stays t xs m q d ids1
            (λ r k. clean_all-Stays t e xs r m q (rw k (keys_of-Memᴰ e.planned d d_in)) e3))
        confirmed
