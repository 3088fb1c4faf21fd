-- ===== src/Sync/Apply/Tables.antt =====
-- The rows of a table after a row of it, or of the other table, is changed or added.
use familyfi.Base.{
  ℕ, suc, ◌==◌, ◌≡◌, refl, ap, sym, ◌∙◌, inl, inr, true, false, List, [], ◌∷◌, ◌++◌, Memᴰ, arith,
  Bool-cases,
}
use mathlib.Core.List.Memᴰ
use familyfi.Sync.Store.{PolicyRow, update_row}
use familyfi.Sync.Gateway.{Pass}
use familyfi.Sync.Apply.{Table, app, rule, rows_of, set_row, add_row}

module _ (id : ℕ) (change : PolicyRow → PolicyRow) where
  pub update_row-from :
      (rows : List PolicyRow) (r' : PolicyRow)
      → ((r : PolicyRow) → (change r).id ≡ r.id)
      → ((r : PolicyRow) → (change r).key ≡ r.key)
      → Memᴰ r' (update_row id change rows)
      → (r : PolicyRow) × Memᴰ r rows × (r'.id ≡ r.id) × (r'.key ≡ r.key)
  unfolding update_row
  update_row-from [] r' hid hkey m = absurd (Memᴰ.not-nil m)
  update_row-from (r ∷ rows) r' hid hkey m = elim (Memᴰ.cases_cons m) [
    | inl e ↦ elim (Bool-cases (r.id == id)) [
      | inl hit ↦
          let e' : r' ≡ change r = rw hit at e in
          (r, Memᴰ.head refl, ap (λ x. x.id) e' ∙ hid r, ap (λ x. x.key) e' ∙ hkey r)
      | inr miss ↦
          let e' : r' ≡ r = rw miss at e in
          (r, Memᴰ.head refl, ap (λ x. x.id) e', ap (λ x. x.key) e')
    ]
    | inr later ↦
        let (s, n, h, k) = update_row-from rows r' hid hkey later in (s, Memᴰ.tail n, h, k)
  ]

  pub update_row-other :
      (rows : List PolicyRow) (r : PolicyRow)
      → ¬ (r.id ≡ id)
      → Memᴰ r rows
      → Memᴰ r (update_row id change rows)
  unfolding update_row
  update_row-other [] r h m = absurd (Memᴰ.not-nil m)
  update_row-other (s ∷ rows) r h m = elim (Memᴰ.cases_cons m) [
    | inl e ↦
        let h' : ¬ (s.id ≡ id) = (rw e at h) in
        let miss : (s.id == id) ≡ false = ground arith in Memᴰ.head (e ∙ sym (rw miss refl))
    | inr later ↦ Memᴰ.tail (update_row-other rows r h later)
  ]

  pub update_row-same :
      (rows : List PolicyRow) (r : PolicyRow)
      → r.id ≡ id
      → Memᴰ r rows
      → Memᴰ (change r) (update_row id change rows)
  unfolding update_row
  update_row-same [] r h m = absurd (Memᴰ.not-nil m)
  update_row-same (s ∷ rows) r h m = elim (Memᴰ.cases_cons m) [
    | inl e ↦
        let h' : s.id ≡ id = (rw e at h) in
        let hit : (s.id == id) ≡ true = ground arith in Memᴰ.head (ap change e ∙ sym (rw hit refl))
    | inr later ↦ Memᴰ.tail (update_row-same rows r h later)
  ]

pub set_row-rows :
    (t : Table) (id : ℕ) (change : PolicyRow → PolicyRow) (p : Pass)
    → rows_of t (set_row t id change p).store ≡ update_row id change (rows_of t p.store)
unfolding set_row
set_row-rows app id change p = refl
set_row-rows rule id change p = refl

pub set_row-next_id :
    (t : Table) (id : ℕ) (change : PolicyRow → PolicyRow) (p : Pass)
    → ((set_row t id change p).store).next_id ≡ (p.store).next_id
unfolding set_row
set_row-next_id app id change p = refl
set_row-next_id rule id change p = refl

pub add_row-rows :
    (t : Table) (row : PolicyRow) (p : Pass)
    → rows_of t (add_row t row p).store
      ≡ rows_of t p.store ++ record row { id = (p.store).next_id } ∷ []
unfolding add_row
add_row-rows app row p = refl
add_row-rows rule row p = refl

pub add_row-next_id :
    (t : Table) (row : PolicyRow) (p : Pass)
    → ((add_row t row p).store).next_id ≡ suc (p.store).next_id
unfolding add_row
add_row-next_id app row p = refl
add_row-next_id rule row p = refl

abbrev pub other : Table → Table
other app = rule
other rule = app

-- The rows of the other table.
pub set_row-other :
    (t : Table) (id : ℕ) (change : PolicyRow → PolicyRow) (p : Pass)
    → rows_of t (set_row (other t) id change p).store ≡ rows_of t p.store
unfolding set_row
set_row-other app id change p = refl
set_row-other rule id change p = refl

pub add_row-other :
    (t : Table) (row : PolicyRow) (p : Pass)
    → rows_of t (add_row (other t) row p).store ≡ rows_of t p.store
unfolding add_row
add_row-other app row p = refl
add_row-other rule row p = refl

pub set_row-other_next :
    (t : Table) (id : ℕ) (change : PolicyRow → PolicyRow) (p : Pass)
    → ((set_row (other t) id change p).store).next_id ≡ (p.store).next_id
unfolding set_row
set_row-other_next app id change p = refl
set_row-other_next rule id change p = refl

pub add_row-other_next :
    (t : Table) (row : PolicyRow) (p : Pass)
    → ((add_row (other t) row p).store).next_id ≡ suc (p.store).next_id
unfolding add_row
add_row-other_next app row p = refl
add_row-other_next rule row p = refl
