-- ===== src/Sync/Run/Steps.antt =====
-- The loops of a pass keep every invariant that the calls in them keep.
use familyfi.Base.{
  ◌≡◌, arith, Memᴰ, includes, refl, Bool, true, false, Option, none, some, List, [], ◌∷◌, ◌++◌,
  Text, keep,
}
use familyfi.Payload.{FirewallPolicyWrite}
use familyfi.Sync.Store.{Store, PolicyRow, OwnershipScope}
use familyfi.Sync.LostCreates.{row_in}
use familyfi.Sync.Gateway.{
  Console, Pass, Result, ok, err, M, pure, ◌>>=◌, still_held, delete_from_gateway,
}
use familyfi.Sync.Gateway.Invariant.{IsGuarded, Keeps, >>=-Keeps, catching-Keeps}
use familyfi.Sync.Gateway.Guard.{still_held-Keeps, delete_from_gateway-Keeps}
use familyfi.Sync.Apply.{Table, app, rule, rows_of, set_row}
use familyfi.Sync.Apply.Rows.{IsKeptByRows}
use familyfi.Sync.Apply.Safe.{apply_or_record-Keeps}
use familyfi.Sync.Sweep.{remove_orphaned_policies}
use familyfi.Sync.Sweep.Owned.{remove_orphaned_policies-Keeps}
use familyfi.Sync.Run.{
  Enforcement, PassInput, desired_of, delete_row, existing_row, joined, apply_built, apply_planned,
  apply_all, forget_row, note_error, remove_row, clear_row, keeps_row, clean_if, clean_row,
  clean_all, enforce, messages, sweep_messages, write_pass, given_id, with_error, keys_of,
}

-- A property that clearing a row away keeps: noting an error on it, and deleting it.
pub record IsKeptByClearing (t : Table) (row : PolicyRow) (I : Pass → Type 0) : Type 0 where
  pub notes : (message : Text) (p : Pass) → I p → I (set_row t row.id (with_error message) p)
  pub drops : (p : Pass) → I p → I (delete_row t row.id p)

-- A property that all changes of a table's rows keep.
pub record IsKeptByTable (t : Table) (I : Pass → Type 0) : Type 0 where
  pub applies : (key : Text) (existing : Option PolicyRow) → IsKeptByRows t key existing I
  pub clears : (row : PolicyRow) → IsKeptByClearing t row I

module _ (scope : OwnershipScope) (site : Text) (I : Pass → Type 0) (g : IsGuarded scope site I)
    (c : Console) (s : PassInput) where
  joined-Keeps :
      (first second : M (List Text))
      → Keeps I first
      → Keeps I second
      → Keeps I (joined c scope site s first second)
  unfolding joined
  joined-Keeps first second h k =
      >>=-Keeps I first (λ errors. second >>= λ rest. pure (errors ++ rest)) h
        (λ errors. >>=-Keeps I second (λ rest. pure (errors ++ rest)) k (λ rest p a. a))

  apply_built-Keeps :
      (t : Table) (rows : List PolicyRow) (key : Text) (write : Result FirewallPolicyWrite)
      → IsKeptByRows t key (existing_row scope.connection_identity key rows) I
      → Keeps I (apply_built c scope site s t rows key write)
  unfolding apply_built
  apply_built-Keeps t rows key (err f) w p a = a
  apply_built-Keeps t rows key (ok write) w p a =
      apply_or_record-Keeps scope site I g c s.copies t (desired_of c scope site s key write)
        s.message (existing_row scope.connection_identity key rows) w p a

  pub apply_planned-Keeps :
      (t : Table) (rows : List PolicyRow) (key : Text) (write : Result FirewallPolicyWrite)
      → IsKeptByRows t key (existing_row scope.connection_identity key rows) I
      → Keeps I (apply_planned c scope site s t rows (key, write))
  unfolding apply_planned
  apply_planned-Keeps t rows key write w =
      >>=-Keeps I (still_held c scope site) (λ _. apply_built c scope site s t rows key write)
        (still_held-Keeps scope site I g c) (λ _. apply_built-Keeps t rows key write w)

  pub apply_all-Keeps :
      (t : Table) (rows : List PolicyRow) (planned : List (Text × Result FirewallPolicyWrite))
      → ((key : Text)
          → Memᴰ key (keys_of planned)
          → IsKeptByRows t key (existing_row scope.connection_identity key rows) I)
      → Keeps I (apply_all c scope site s t rows planned)
  unfolding apply_all
  apply_all-Keeps t rows [] w p a = a
  apply_all-Keeps t rows ((key, write) ∷ planned) w p a =
      joined-Keeps (apply_planned c scope site s t rows (key, write))
        (apply_all c scope site s t rows planned)
        (apply_planned-Keeps t rows key write (w key (Memᴰ.head refl)))
        (apply_all-Keeps t rows planned (λ k m. w k (Memᴰ.tail m))) p a

  remove_row-Keeps :
      (t : Table) (row : PolicyRow) (policy : Text)
      → IsKeptByClearing t row I
      → Keeps I (remove_row c scope site s t row policy)
  unfolding remove_row forget_row note_error
  remove_row-Keeps t row policy w =
      catching-Keeps I
        (delete_from_gateway c scope site policy >>= λ _. forget_row c scope site s t row.id)
        (note_error c scope site s t row.id)
        (>>=-Keeps I (delete_from_gateway c scope site policy)
          (λ _. forget_row c scope site s t row.id)
          (delete_from_gateway-Keeps scope site I g c policy) (λ _ p a. w.drops p a))
        (λ f p a. w.notes (s.message f) p a)

  clean_if-Keeps :
      (stays : Bool) (t : Table) (row : PolicyRow)
      → (stays ≡ false → IsKeptByClearing t row I)
      → Keeps I (clean_if c scope site s stays t row)
  unfolding clean_if clear_row forget_row
  clean_if-Keeps true t row w p a = a
  clean_if-Keeps false t row w p a = cleared (w refl) (given_id row.unifi_policy_id) p a
    where
      cleared :
          IsKeptByClearing t row I
          → (named : Option Text) → Keeps I (clear_row c scope site s t row named)
      cleared w none p a = w.drops p a
      cleared w (some policy) p a = remove_row-Keeps t row policy w p a

  unplanned :
      (e : Enforcement) (row : PolicyRow) (on_gateway : List Text)
      → keeps_row c scope site s e row on_gateway ≡ false
      → includes (keys_of e.planned) row.key ≡ false
  unfolding keeps_row
  unplanned e row on_gateway h = ground arith

  pub clean_row-Keeps :
      (t : Table) (e : Enforcement) (row : PolicyRow)
      → (includes (keys_of e.planned) row.key ≡ false → IsKeptByClearing t row I)
      → Keeps I (clean_row c scope site s t e row)
  unfolding clean_row
  clean_row-Keeps t e row w =
      >>=-Keeps I (still_held c scope site)
        (λ _ p. clean_if c scope site s (keeps_row c scope site s e row p.on_gateway) t row p)
        (still_held-Keeps scope site I g c)
        (λ _ p a.
          clean_if-Keeps (keeps_row c scope site s e row p.on_gateway) t row
            (λ goes. w (unplanned e row p.on_gateway goes)) p a)

  pub clean_all-Keeps :
      (t : Table) (e : Enforcement) (rows : List PolicyRow)
      → ((row : PolicyRow)
          → Memᴰ row rows
          → includes (keys_of e.planned) row.key ≡ false
          → IsKeptByClearing t row I)
      → Keeps I (clean_all c scope site s t e rows)
  unfolding clean_all
  clean_all-Keeps t e [] w p a = a
  clean_all-Keeps t e (row ∷ rows) w p a =
      joined-Keeps (clean_row c scope site s t e row) (clean_all c scope site s t e rows)
        (clean_row-Keeps t e row (w row (Memᴰ.head refl)))
        (clean_all-Keeps t e rows (λ r m. w r (Memᴰ.tail m))) p a

  pub enforce-Keeps :
      (t : Table) (e : Enforcement) → IsKeptByTable t I → Keeps I (enforce c scope site s t e)
  unfolding enforce
  enforce-Keeps t e w p a =
      let rows = keep (row_in scope.connection_identity site) (rows_of t p.store) in
      joined-Keeps (pure e.troubles)
        (joined c scope site s (apply_all c scope site s t rows e.planned)
          (clean_all c scope site s t e rows))
        (λ p a. a)
        (joined-Keeps (apply_all c scope site s t rows e.planned)
          (clean_all c scope site s t e rows)
          (apply_all-Keeps t rows e.planned (λ key _. w.applies key _))
          (clean_all-Keeps t e rows (λ row _ _. w.clears row)))
        p a

  pub sweep_messages-Keeps : Keeps I (sweep_messages c scope site s)
  unfolding sweep_messages
  sweep_messages-Keeps =
      >>=-Keeps I (remove_orphaned_policies c scope site) (messages c scope site s)
        (remove_orphaned_policies-Keeps scope site I g c) (λ fs p a. a)

  pub write_pass-Keeps :
      (apps rules : Enforcement) (uncovered : Store → List Text)
      → IsKeptByTable app I
      → IsKeptByTable rule I
      → Keeps I (write_pass c scope site s apps rules uncovered)
  unfolding write_pass
  write_pass-Keeps apps rules uncovered w v =
      joined-Keeps
        (joined c scope site s (enforce c scope site s app apps)
          (enforce c scope site s rule rules))
        (joined c scope site s (sweep_messages c scope site s) (λ p. (ok (uncovered p.store), p)))
        (joined-Keeps (enforce c scope site s app apps) (enforce c scope site s rule rules)
          (enforce-Keeps app apps w) (enforce-Keeps rule rules v))
        (joined-Keeps (sweep_messages c scope site s) (λ p. (ok (uncovered p.store), p))
          sweep_messages-Keeps (λ p a. a))
