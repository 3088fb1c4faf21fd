-- ===== src/Sync/Run/Stays.antt =====
-- A row that the loops of a pass do not mean stays as it is.
use familyfi.Base.{
  ℕ, suc, ◌<◌, ◌≡◌, refl, ap, sym, ◌∙◌, inl, inr, Bool, not, Option, some, List, ◌==◌, [], ◌∷◌,
  ◌++◌, Memᴰ, Text, keep, keep-Memᴰ, Memᴰ-keep, arith,
}
use mathlib.Core.List.Memᴰ
use familyfi.Sync.Store.{PolicyRow, update_row}
use familyfi.Sync.Gateway.{Pass}
use familyfi.Sync.Apply.{Table, rows_of}
use familyfi.Sync.Apply.Rows.{IsKeptByRows}
use familyfi.Sync.Run.{with_error}
use familyfi.Sync.Run.Steps.{IsKeptByClearing}
use familyfi.Sync.Apply.Tables.{
  update_row-from, update_row-other, set_row-rows, set_row-next_id, add_row-rows, add_row-next_id,
}
use familyfi.Sync.Run.Rows.{delete_row-rows, delete_row-next_id}

-- The rows of a table, from the next id issued.
module _ (xs : List PolicyRow) where
  -- No row took the id of a row of the snapshot `xs` but under its key.
  abbrev pub HaveOwnIds : List PolicyRow → ℕ → Type 0
  HaveOwnIds rows next =
      (x : PolicyRow)
      → Memᴰ x xs
      → (x.id < next) × ((r : PolicyRow) → Memᴰ r rows → r.id ≡ x.id → r.key ≡ x.key)

  abbrev pub KeepsIds : Table → Pass → Type 0
  KeepsIds t p = HaveOwnIds (rows_of t p.store) (p.store).next_id

  HaveOwnIds-update :
      (id : ℕ) (change : PolicyRow → PolicyRow) (rows : List PolicyRow) (next : ℕ)
      → ((r : PolicyRow) → (change r).id ≡ r.id)
      → ((r : PolicyRow) → (change r).key ≡ r.key)
      → HaveOwnIds rows next
      → HaveOwnIds (update_row id change rows) next
  HaveOwnIds-update id change rows next hid hkey a x m = (
    (a x m).0,
    λ r' m' e.
        let (r, n, i, k) = update_row-from id change rows r' hid hkey m' in
        k ∙ (a x m).1 r n (sym i ∙ e),
  )

  HaveOwnIds-add :
      (row : PolicyRow) (rows : List PolicyRow) (next : ℕ)
      → HaveOwnIds rows next
      → HaveOwnIds (rows ++ record row { id = next } ∷ []) (suc next)
  HaveOwnIds-add row rows next a x m = (
    (let l = (a x m).0 in omega arith),
    λ r m' e. elim (Memᴰ.append_cases rows m') [
      | inl old ↦ (a x m).1 r old e
      | inr new ↦ elim (Memᴰ.cases_cons new) [
        | inl is ↦
            absurd (let l = (a x m).0 in let i : r.id ≡ next = ap (λ s. s.id) is in omega arith)
        | inr nowhere ↦ absurd (Memᴰ.not-nil nowhere)
      ]
    ],
  )

  HaveOwnIds-keep :
      (f : PolicyRow → Bool) (rows : List PolicyRow) (next : ℕ)
      → HaveOwnIds rows next
      → HaveOwnIds (keep f rows) next
  HaveOwnIds-keep f rows next a x m = ((a x m).0, λ r n. (a x m).1 r (Memᴰ-keep f rows n).0)

  pub HaveOwnIds-later :
      (rows : List PolicyRow) (next : ℕ) → HaveOwnIds rows next → HaveOwnIds rows (suc next)
  HaveOwnIds-later rows next a x m = ((let l = (a x m).0 in omega arith), (a x m).1)

  -- The row is there, and the snapshot's ids are its own.
  abbrev pub Holds : PolicyRow → List PolicyRow → ℕ → Type 0
  Holds r rows next = HaveOwnIds rows next × Memᴰ r rows

  abbrev pub Stays : Table → PolicyRow → Pass → Type 0
  Stays t r p = KeepsIds t p × Memᴰ r (rows_of t p.store)

  pub Holds-later :
      (r : PolicyRow) (rows : List PolicyRow) (next : ℕ)
      → Holds r rows next
      → Holds r rows (suc next)
  Holds-later r rows next a = (HaveOwnIds-later rows next a.0, a.1)

  pub KeepsIds-IsKeptByRows :
      (t : Table) (key : Text) (existing : Option PolicyRow)
      → IsKeptByRows t key existing (KeepsIds t)
  KeepsIds-IsKeptByRows t key existing = record {
    sets = λ row change p _ hid hkey a.
        rw (set_row-rows t row.id change p, set_row-next_id t row.id change p)
          (HaveOwnIds-update row.id change (rows_of t p.store) (p.store).next_id hid hkey a);
    adds = λ row p _ a.
        rw (add_row-rows t row p, add_row-next_id t row p)
          (HaveOwnIds-add row (rows_of t p.store) (p.store).next_id a);
  }

  -- Applying a planned policy of another key.
  pub Stays-IsKeptByRows :
      (t : Table) (r : PolicyRow) (key : Text) (existing : Option PolicyRow)
      → ¬ (r.key ≡ key)
      → ((x : PolicyRow) → existing ≡ some x → Memᴰ x xs × (x.key ≡ key))
      → IsKeptByRows t key existing (Stays t r)
  Stays-IsKeptByRows t r key existing differs known = record {
    sets = λ row change p e hid hkey (a, m). (
      (KeepsIds-IsKeptByRows t key existing).sets row change p e hid hkey a,
      rw (set_row-rows t row.id change p) (
          update_row-other row.id change (rows_of t p.store) r
            (λ same. differs ((a row (known row e).0).1 r m same ∙ (known row e).1)) m),
    );
    adds = λ row p e (a, m). (
      (KeepsIds-IsKeptByRows t key existing).adds row p e a,
      rw (add_row-rows t row p) (Memᴰ.append_left (record row { id = (p.store).next_id } ∷ []) m),
    );
  }

  -- Clearing away another row of the snapshot.
  pub Stays-IsKeptByClearing :
      (t : Table) (r x : PolicyRow)
      → Memᴰ x xs
      → ¬ (r.key ≡ x.key)
      → IsKeptByClearing t x (Stays t r)
  Stays-IsKeptByClearing t r x known differs = record {
    notes = λ message p (a, m). (
      (KeepsIds-IsKeptByRows t x.key (some x)).sets x (with_error message) p refl (λ _. refl)
          (λ _. refl) a,
      rw (set_row-rows t x.id (with_error message) p) (
          update_row-other x.id (with_error message) (rows_of t p.store) r
            (λ same. differs ((a x known).1 r m same)) m),
    );
    drops = λ p (a, m). (
      rw (delete_row-rows t x.id p, delete_row-next_id t x.id p)
          (HaveOwnIds-keep (λ s. not (s.id == x.id)) (rows_of t p.store) (p.store).next_id a),
      rw (delete_row-rows t x.id p) (
          keep-Memᴰ (λ s. not (s.id == x.id)) (rows_of t p.store) m
            (let apart : ¬ (r.id ≡ x.id) = λ same. differs ((a x known).1 r m same) in
              ground arith)),
    );
  }
