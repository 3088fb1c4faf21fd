-- ===== src/Sync/Run/Rows.antt =====
-- The rows of a table after a row of it, or of the other table, is deleted.
use familyfi.Base.{ℕ, ◌==◌, ◌≡◌, refl, not, keep}
use familyfi.Sync.Gateway.{Pass}
use familyfi.Sync.Apply.{Table, app, rule, rows_of}
use familyfi.Sync.Apply.Tables.{other}
use familyfi.Sync.Run.{delete_row}

pub delete_row-rows :
    (t : Table) (id : ℕ) (p : Pass)
    → rows_of t (delete_row t id p).store ≡ keep (λ r. not (r.id == id)) (rows_of t p.store)
unfolding delete_row
delete_row-rows app id p = refl
delete_row-rows rule id p = refl

pub delete_row-next_id :
    (t : Table) (id : ℕ) (p : Pass) → ((delete_row t id p).store).next_id ≡ (p.store).next_id
unfolding delete_row
delete_row-next_id app id p = refl
delete_row-next_id rule id p = refl

pub delete_row-other :
    (t : Table) (id : ℕ) (p : Pass)
    → rows_of t (delete_row (other t) id p).store ≡ rows_of t p.store
unfolding delete_row
delete_row-other app id p = refl
delete_row-other rule id p = refl

pub delete_row-other_next :
    (t : Table) (id : ℕ) (p : Pass)
    → ((delete_row (other t) id p).store).next_id ≡ (p.store).next_id
unfolding delete_row
delete_row-other_next app id p = refl
delete_row-other_next rule id p = refl
