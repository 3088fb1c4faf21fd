-- ===== src/Sync/Run/Cleared.antt =====
-- A row that nobody wants any more is gone after a pass without an error.
use familyfi.Base.{
  ℕ, suc, ◌<◌, ◌==◌, ◌≡◌, refl, sym, subst, ◌∙◌, inl, inr, true, false, not, Option, none, some,
  List, [], ◌∷◌, ◌++◌, Memᴰ, Text, includes, keep, Memᴰ-keep, arith, ap,
}
use mathlib.Core.List.Memᴰ
use familyfi.Sync.Store.{PolicyRow, OwnershipScope, update_row}
use familyfi.Sync.LostCreates.{row_in}
use familyfi.Sync.Gateway.{
  Console, Pass, Result, ok, err, pure, and_then, caught, delete_from_gateway,
}
use familyfi.Sync.Gateway.Guard.{delete_from_gateway-Keeps}
use familyfi.Sync.Apply.{Table, rows_of}
use familyfi.Sync.Apply.Guarded.{Of, Of-IsGuarded}
use familyfi.Sync.Apply.Tables.{
  update_row-from, set_row-rows, set_row-next_id, add_row-rows, add_row-next_id,
}
use familyfi.Sync.Run.{
  Enforcement, PassInput, delete_row, with_error, keys_of, given_id, joined, apply_all, forget_row,
  note_error, remove_row, clear_row, keeps_row, clean_if, clean_row, clean_all, enforce,
}
use familyfi.Sync.Run.Steps.{IsKeptByTable, apply_all-Keeps, clean_row-Keeps, clean_all-Keeps}
use familyfi.Sync.Run.Rows.{delete_row-rows, delete_row-next_id}
use familyfi.Sync.Run.Rounds.{joined_quiet, still_held_ok}

-- The id was issued, and no row has it.
abbrev pub Absent : ℕ → List PolicyRow → ℕ → Type 0
Absent id rows next = (id < next) × ((r : PolicyRow) → Memᴰ r rows → ¬ (r.id ≡ id))

pub Absent-later :
    (id : ℕ) (rows : List PolicyRow) (next : ℕ) → Absent id rows next → Absent id rows (suc next)
Absent-later id rows next (l, h) = (omega arith, h)

Absent-update :
    (gone id : ℕ) (change : PolicyRow → PolicyRow) (rows : List PolicyRow) (next : ℕ)
    → ((r : PolicyRow) → (change r).id ≡ r.id)
    → ((r : PolicyRow) → (change r).key ≡ r.key)
    → Absent gone rows next
    → Absent gone (update_row id change rows) next
Absent-update gone id change rows next hid hkey (l, h) = (
  l,
  λ r' m e. let (r, n, i, k) = update_row-from id change rows r' hid hkey m in h r n (sym i ∙ e),
)

Absent-add :
    (gone : ℕ) (row : PolicyRow) (rows : List PolicyRow) (next : ℕ)
    → Absent gone rows next
    → Absent gone (rows ++ record row { id = next } ∷ []) (suc next)
Absent-add gone row rows next (l, h) = (
  omega arith,
  λ r m e. elim (Memᴰ.append_cases rows m) [
    | inl old ↦ h r old e
    | inr new ↦ elim (Memᴰ.cases_cons new) [
      | inl is ↦ let i : r.id ≡ next = ap (λ s. s.id) is in omega arith
      | inr nowhere ↦ absurd (Memᴰ.not-nil nowhere)
    ]
  ],
)

-- An id without a row stays without one, whatever the pass does to the table.
pub Absent-IsKeptByTable :
    (gone : ℕ) (t : Table) → IsKeptByTable t (Of (Absent gone) (Absent-later gone) t)
Absent-IsKeptByTable gone t = record {
  applies = λ key existing. record {
    sets = λ row change p _ hid hkey a.
        rw (set_row-rows t row.id change p, set_row-next_id t row.id change p)
          (Absent-update gone row.id change (rows_of t p.store) (p.store).next_id hid hkey a);
    adds = λ row p _ a.
        rw (add_row-rows t row p, add_row-next_id t row p)
          (Absent-add gone row (rows_of t p.store) (p.store).next_id a);
  };
  clears = λ row. record {
    notes = λ message p a.
        rw
          (
            set_row-rows t row.id (with_error message) p,
            set_row-next_id t row.id (with_error message) p,
          )
          (Absent-update gone row.id (with_error message) (rows_of t p.store) (p.store).next_id
            (λ _. refl) (λ _. refl) a);
    drops = λ p (l, h).
        rw (delete_row-rows t row.id p, delete_row-next_id t row.id p)
          (l, λ r m. h r (Memᴰ-keep (λ s. not (s.id == row.id)) (rows_of t p.store) m).0);
  };
}

delete_row-Absent :
    (t : Table) (id : ℕ) (p : Pass)
    → id < (p.store).next_id
    → Of (Absent id) (Absent-later id) t (delete_row t id p)
delete_row-Absent t id p l =
    rw (delete_row-rows t id p, delete_row-next_id t id p)
      (
        l,
        λ r m e.
            let kept = (Memᴰ-keep (λ s. not (s.id == id)) (rows_of t p.store) m).1 in
            let same : (r.id == id) ≡ true = ground arith in ground arith,
      )

abbrev pub Issued : ℕ → List PolicyRow → ℕ → Type 0
Issued id rows next = id < next

pub Issued-later :
    (id : ℕ) (rows : List PolicyRow) (next : ℕ) → Issued id rows next → Issued id rows (suc next)
Issued-later id rows next l = omega arith

-- Every change of a table's rows only issues ids.
pub Issued-IsKeptByTable :
    (id : ℕ) (t : Table) → IsKeptByTable t (Of (Issued id) (Issued-later id) t)
Issued-IsKeptByTable id t = record {
  applies = λ key existing. record {
    sets = λ row change p _ _ _ a. rw (set_row-next_id t row.id change p) a;
    adds = λ row p _ a. rw (add_row-next_id t row p) (Issued-later id [] (p.store).next_id a);
  };
  clears = λ row. record {
    notes = λ message p a. rw (set_row-next_id t row.id (with_error message) p) a;
    drops = λ p a. rw (delete_row-next_id t row.id p) a;
  };
}

module _ (c : Console) (scope : OwnershipScope) (site : Text) (s : PassInput) (t : Table)
    (e : Enforcement) where
  abbrev pub IsGone : PolicyRow → Pass → Type 0
  IsGone x = Of (Absent x.id) (Absent-later x.id) t

  abbrev WasIssued : PolicyRow → Pass → Type 0
  WasIssued x = Of (Issued x.id) (Issued-later x.id) t

  -- Neither planned nor retained.
  abbrev pub IsUnwanted : PolicyRow → Type 0
  IsUnwanted x = (includes (keys_of e.planned) x.key ≡ false) × (e.retains x ≡ false)

  remove_row-IsGone :
      (x : PolicyRow) (policy : Text) (p q : Pass)
      → WasIssued x p
      → remove_row c scope site s t x policy p ≡ (ok [], q)
      → IsGone x q
  unfolding remove_row forget_row note_error
  remove_row-IsGone x policy p q issued done =
      go (delete_from_gateway c scope site policy p)
        (delete_from_gateway-Keeps scope site (WasIssued x)
          (Of-IsGuarded (Issued x.id) (Issued-later x.id) scope site t) c policy p issued)
        done
    where
      go :
          (r : Result (Unit {0}) × Pass)
          → WasIssued x r.1
          → caught
              (and_then r (λ _. forget_row c scope site s t x.id))
              (note_error c scope site s t x.id)
            ≡ (ok [], q)
          → IsGone x q
      go (ok done, m) l h =
          let same : delete_row t x.id m ≡ q = cc in
          subst (IsGone x) same (delete_row-Absent t x.id m l)
      go (err f, m) l h = absurd (cc)

  clear_row-IsGone :
      (x : PolicyRow) (named : Option Text) (p q : Pass)
      → WasIssued x p
      → clear_row c scope site s t x named p ≡ (ok [], q)
      → IsGone x q
  unfolding clear_row forget_row
  clear_row-IsGone x none p q issued done =
      let same : delete_row t x.id p ≡ q = cc in
      subst (IsGone x) same (delete_row-Absent t x.id p issued)
  clear_row-IsGone x (some policy) p q issued done = remove_row-IsGone x policy p q issued done

  unwanted-goes :
      (x : PolicyRow) (held : List Text) → IsUnwanted x → keeps_row c scope site s e x held ≡ false
  unfolding keeps_row
  unwanted-goes x held (a, b) = ground arith

  clean_row-IsGone :
      (x : PolicyRow) (p q : Pass)
      → IsUnwanted x
      → WasIssued x p
      → clean_row c scope site s t e x p ≡ (ok [], q)
      → IsGone x q
  unfolding clean_row clean_if
  clean_row-IsGone x p q unwanted issued done =
      let checked = record p { checks = suc p.checks } in
      let cleaned =
        still_held_ok c scope site s
          (λ _ p. clean_if c scope site s (keeps_row c scope site s e x p.on_gateway) t x p) p q []
          done in
      clear_row-IsGone x (given_id x.unifi_policy_id) checked q issued
        (rw (unwanted-goes x p.on_gateway unwanted) at cleaned)

  clean_all-IsGone :
      (xs : List PolicyRow) (x : PolicyRow) (p q : Pass)
      → Memᴰ x xs
      → IsUnwanted x
      → WasIssued x p
      → clean_all c scope site s t e xs p ≡ (ok [], q)
      → IsGone x q
  unfolding clean_all
  clean_all-IsGone [] x p q m unwanted issued done = absurd (Memᴰ.not-nil m)
  clean_all-IsGone (y ∷ xs) x p q m unwanted issued done =
      let (n, e0, e1) =
        joined_quiet c scope site s (clean_row c scope site s t e y)
          (clean_all c scope site s t e xs) p q done in
      elim (Memᴰ.cases_cons m) [
        | inl is ↦
            let gone =
              clean_row-IsGone x p n unwanted issued
                (subst (λ y. clean_row c scope site s t e y p ≡ (ok [], n)) (sym is) e0) in
            let kept =
              clean_all-Keeps scope site (IsGone x)
                (Of-IsGuarded (Absent x.id) (Absent-later x.id) scope site t) c s t e xs
                (λ z _ _. (Absent-IsKeptByTable x.id t).clears z) n gone in
            rw e1 at kept
        | inr later ↦
            let still =
              clean_row-Keeps scope site (WasIssued x)
                (Of-IsGuarded (Issued x.id) (Issued-later x.id) scope site t) c s t e y
                (λ _. (Issued-IsKeptByTable x.id t).clears y) p issued in
            clean_all-IsGone xs x n q later unwanted (rw e0 at still) e1
      ]

  -- Both loops over a table without an error.
  pub enforce-IsGone :
      (x : PolicyRow) (p q : Pass)
      → Memᴰ x (keep (row_in scope.connection_identity site) (rows_of t p.store))
      → IsUnwanted x
      → x.id < (p.store).next_id
      → enforce c scope site s t e p ≡ (ok [], q)
      → IsGone x q
  unfolding enforce
  enforce-IsGone x p q m unwanted issued done =
      let xs = keep (row_in scope.connection_identity site) (rows_of t p.store) in
      let (m0, e0, e1) =
        joined_quiet c scope site s (pure e.troubles)
          (joined c scope site s (apply_all c scope site s t xs e.planned)
            (clean_all c scope site s t e xs))
          p q done in
      let same : p ≡ m0 = cc in
      let (n, e2, e3) =
        joined_quiet c scope site s (apply_all c scope site s t xs e.planned)
          (clean_all c scope site s t e xs) m0 q e1 in
      let applied =
        apply_all-Keeps scope site (WasIssued x)
          (Of-IsGuarded (Issued x.id) (Issued-later x.id) scope site t) c s t xs e.planned
          (λ key _. (Issued-IsKeptByTable x.id t).applies key _) m0
          (subst (WasIssued x) same issued) in
      clean_all-IsGone xs x n q m unwanted (rw e2 at applied) e3
