-- ===== src/Sync/Run/Recorded.antt =====
-- A pass only updates and deletes gateway policies that are on record.
use familyfi.Base.{ℕ, ◌≡◌, refl, inl, inr, true, List, [], ◌∷◌, Text, All, All-append}
use familyfi.Payload.{FirewallPolicy}
use familyfi.Sync.Store.{
  Store, PolicyRow, OwnershipScope, policy_on_record, expire_delete_confirmations,
}
use familyfi.Sync.Store.Confirmations.{
  Unconfirmed, NoneConfirmed, expire_delete_confirmations-NoneConfirmed,
  update_operation-Unconfirmed, delete_confirmed-NoneConfirmed,
}
use familyfi.Sync.LostCreates.Confirmations.{settle_lost_creates-NoneConfirmed}
use familyfi.Sync.Gateway.{
  Console, Pass, Request, gets, creates, updates, deletes, set_operation, begin_creation,
}
use familyfi.Sync.Gateway.Invariant.{IsAuthorised, IsGuarded}
use familyfi.Sync.Apply.{Table, app, rule, set_row, add_row}
use familyfi.Sync.Run.{Enforcement, PassInput, delete_row, begin_pass, write_pass}
use familyfi.Sync.Run.Steps.{IsKeptByTable, write_pass-Keeps}

module _ (scope : OwnershipScope) (site : Text) where
  -- An update or a delete was of a policy that was on record when it was sent.
  abbrev pub IsOnRecord : Request × Store × ℕ → Type 0
  IsOnRecord (gets policy, st, now) = Unit
  IsOnRecord (creates write, st, now) = Unit
  IsOnRecord (updates policy write, st, now) = policy_on_record scope site policy st ≡ true
  IsOnRecord (deletes policy, st, now) = policy_on_record scope site policy st ≡ true

  abbrev pub AllOnRecord : Pass → Type 0
  AllOnRecord p = All IsOnRecord p.requests

  -- So far all requests were of policies on record, and no deletion stands confirmed.
  abbrev OnRecordOnly : Pass → Type 0
  OnRecordOnly p = AllOnRecord p × NoneConfirmed p.store

  IsAuthorised-IsOnRecord :
      (r : Request) (st : Store) (now : ℕ)
      → NoneConfirmed st
      → IsAuthorised scope site (r, st, now)
      → IsOnRecord (r, st, now)
  IsAuthorised-IsOnRecord (gets policy) st now n a = tt
  IsAuthorised-IsOnRecord (creates write) st now n a = tt
  IsAuthorised-IsOnRecord (updates policy write) st now n a = a
  IsAuthorised-IsOnRecord (deletes policy) st now n (inl a) = a
  IsAuthorised-IsOnRecord (deletes policy) st now n (inr h) =
      absurd (let none = delete_confirmed-NoneConfirmed scope site policy now st n in cc)

  OnRecordOnly-IsGuarded : IsGuarded scope site OnRecordOnly
  unfolding begin_creation set_operation
  OnRecordOnly-IsGuarded = record {
    quiet = λ p q same stored a. (rw same at a.0, rw stored at a.1);
    sends = λ r p now h a. ((IsAuthorised-IsOnRecord r p.store now a.1 h, a.0), a.1);
    begins = λ o p is_create a.
        (a.0, All-append Unconfirmed (p.store).operations (o ∷ []) a.1 (rw is_create refl, tt));
    settles =
        λ id change p h a. (a.0, update_operation-Unconfirmed id change (p.store).operations h a.1);
  }

  delete_row-OnRecordOnly :
      (t : Table) (id : ℕ) (p : Pass) → OnRecordOnly p → OnRecordOnly (delete_row t id p)
  unfolding delete_row
  delete_row-OnRecordOnly app id p a = a
  delete_row-OnRecordOnly rule id p a = a

  set_row-OnRecordOnly :
      (t : Table) (id : ℕ) (change : PolicyRow → PolicyRow) (p : Pass)
      → OnRecordOnly p
      → OnRecordOnly (set_row t id change p)
  unfolding set_row
  set_row-OnRecordOnly app id change p a = a
  set_row-OnRecordOnly rule id change p a = a

  add_row-OnRecordOnly :
      (t : Table) (row : PolicyRow) (p : Pass) → OnRecordOnly p → OnRecordOnly (add_row t row p)
  unfolding add_row
  add_row-OnRecordOnly app row p a = a
  add_row-OnRecordOnly rule row p a = a

  OnRecordOnly-IsKeptByTable : (t : Table) → IsKeptByTable t OnRecordOnly
  OnRecordOnly-IsKeptByTable t = record {
    applies = λ key existing. record {
      sets = λ row change p _ _ _ a. set_row-OnRecordOnly t row.id change p a;
      adds = λ row p _ a. add_row-OnRecordOnly t row p a;
    };
    clears = λ row. record {
      notes = λ message p a. set_row-OnRecordOnly t row.id _ p a;
      drops = delete_row-OnRecordOnly t row.id;
    };
  }

  -- Whatever the console answers, whatever is planned, retained or fails, and whenever the lock is
  -- lost, a pass updates and deletes a gateway policy only while it is on record for this console and
  -- site, if that held of the requests before it: a confirmation that an administrator gave before
  -- the pass, for a policy that is not on record, lets it delete nothing.
  pub write_pass-AllOnRecord :
      (c : Console) (s : PassInput) (gateway : List FirewallPolicy) (abandon_before : ℕ)
      (apps rules : Enforcement) (uncovered : Store → List Text) (p : Pass)
      → AllOnRecord p
      → AllOnRecord
          (write_pass c scope site s apps rules uncovered
            (begin_pass c scope site s gateway abandon_before p)).1
  unfolding begin_pass
  write_pass-AllOnRecord c s gateway abandon_before apps rules uncovered p a =
      (write_pass-Keeps scope site OnRecordOnly OnRecordOnly-IsGuarded c s apps rules uncovered
        (OnRecordOnly-IsKeptByTable app) (OnRecordOnly-IsKeptByTable rule)
        (begin_pass c scope site s gateway abandon_before p)
        (
          a,
          settle_lost_creates-NoneConfirmed scope.connection_identity site gateway abandon_before
              (expire_delete_confirmations p.store)
              (expire_delete_confirmations-NoneConfirmed p.store),
        )).0
