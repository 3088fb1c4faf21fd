-- ===== src/Sync/Run/Apart.antt =====
-- What is so of the rows of one table stays so while a pass works on the other table.
use familyfi.Base.{ℕ, suc, List}
use familyfi.Sync.Store.{PolicyRow}
use familyfi.Sync.Apply.{Table}
use familyfi.Sync.Apply.Guarded.{Of}
use familyfi.Sync.Apply.Tables.{
  other, set_row-other, add_row-other, set_row-other_next, add_row-other_next,
}
use familyfi.Sync.Run.Steps.{IsKeptByTable}
use familyfi.Sync.Run.Rows.{delete_row-other, delete_row-other_next}

-- A property of a table's rows and of the next id, which issuing an id keeps.
module _ (P : List PolicyRow → ℕ → Type 0)
    (later : (rows : List PolicyRow) (next : ℕ) → P rows next → P rows (suc next)) where
  pub Of-IsKeptByTable : (t : Table) → IsKeptByTable (other t) (Of P later t)
  Of-IsKeptByTable t = record {
    applies = λ key existing. record {
      sets = λ row change p _ _ _ a.
          rw (set_row-other t row.id change p, set_row-other_next t row.id change p) a;
      adds = λ row p _ a. rw (add_row-other t row p, add_row-other_next t row p) (later _ _ a);
    };
    clears = λ row. record {
      notes = λ message p a. rw (set_row-other t row.id _ p, set_row-other_next t row.id _ p) a;
      drops = λ p a. rw (delete_row-other t row.id p, delete_row-other_next t row.id p) a;
    };
  }
