-- ===== src/Sync/Apply/Guarded.antt =====
-- What is so of the rows of a table stays so while a pass talks to the gateway.
use familyfi.Base.{ℕ, suc, List, Text}
use familyfi.Sync.Store.{PolicyRow, OwnershipScope}
use familyfi.Sync.Gateway.{Pass, begin_creation, set_operation}
use familyfi.Sync.Gateway.Invariant.{IsGuarded}
use familyfi.Sync.Apply.{Table, app, rule, rows_of}

-- A property of a table's rows and of the next id, which issuing an id keeps.
module _ (P : List PolicyRow → ℕ → Type 0)
    (later : (rows : List PolicyRow) (next : ℕ) → P rows next → P rows (suc next)) where
  abbrev pub Of : Table → Pass → Type 0
  Of t p = P (rows_of t p.store) (p.store).next_id

  pub Of-IsGuarded :
      (scope : OwnershipScope) (site : Text) (t : Table) → IsGuarded scope site (Of t)
  unfolding begin_creation set_operation
  Of-IsGuarded scope site app = record {
    quiet = λ p q same stored a. rw stored at a;
    sends = λ request p now h a. a;
    begins = λ o p h a. later _ _ a;
    settles = λ id change p h a. a;
  }
  Of-IsGuarded scope site rule = record {
    quiet = λ p q same stored a. rw stored at a;
    sends = λ request p now h a. a;
    begins = λ o p h a. later _ _ a;
    settles = λ id change p h a. a;
  }
