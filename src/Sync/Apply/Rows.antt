-- ===== src/Sync/Apply/Rows.antt =====
-- What applying a planned policy changes of the rows: only the policy's own row, and a new one for it.
use familyfi.Base.{◌≡◌, inl, inr, Option, some, Text, text_eq, Bool-cases}
use familyfi.Sync.Store.{PolicyRow}
use familyfi.Sync.Gateway.{Pass}
use familyfi.Sync.Apply.{Table, set_row, add_row, drift_cleared}

-- A property that the changes a planned policy makes to its own row, and a new row for it, keep.
pub record IsKeptByRows (t : Table) (key : Text) (existing : Option PolicyRow) (I : Pass → Type 0)
    : Type 0 where
  pub sets :
      (row : PolicyRow) (change : PolicyRow → PolicyRow) (p : Pass)
      → existing ≡ some row
      → ((r : PolicyRow) → (change r).id ≡ r.id)
      → ((r : PolicyRow) → (change r).key ≡ r.key)
      → I p
      → I (set_row t row.id change p)
  pub adds : (row : PolicyRow) (p : Pass) → row.key ≡ key → I p → I (add_row t row p)

pub drift_cleared-id :
    (fingerprint : Text) (r : PolicyRow) → (drift_cleared fingerprint r).id ≡ r.id
unfolding drift_cleared
drift_cleared-id fingerprint r = elim (Bool-cases (text_eq r.desired_fingerprint fingerprint)) [
  | inl same ↦ rw same
  | inr other ↦ rw other
]

pub drift_cleared-key :
    (fingerprint : Text) (r : PolicyRow) → (drift_cleared fingerprint r).key ≡ r.key
unfolding drift_cleared
drift_cleared-key fingerprint r = elim (Bool-cases (text_eq r.desired_fingerprint fingerprint)) [
  | inl same ↦ rw same
  | inr other ↦ rw other
]
