-- ===== src/Sync/Outcome.antt =====
-- server/reconciliation.ts: how `tick` ends. What its writes came to becomes the status of its run,
-- of the changes that waited for it and of the connection. The checkup after it fails no pass.
pub mod Settled
mod Tests
use familyfi.Base.{
  ℕ, Bool, true, false, not, ◌||◌, Option, none, some, List, [], ◌∷◌, if◌then◌else◌, Text,
}
use familyfi.Payload.{FirewallPolicy}
use familyfi.Sync.Store.{Store, OwnershipScope}
use familyfi.Sync.Gateway.{Console, Pass, Failure, lock_lost, Result, ok, err, still_held}
use familyfi.Sync.Run.{Enforcement, PassInput, begin_pass, write_pass}

pub data ChangeStatus : Type 0 where
  pending applied partial failed : ChangeStatus

-- The household's connection: as it was, no longer in error, or in error.
pub data ConnectionChange : Type 0 where
  same recovered : ConnectionChange
  broken : Text → ConnectionChange

-- The run's status and error, those that the pending changes were settled with, if they were, and
-- the connection.
pub record Outcome : Type 0 where
  pub run : ChangeStatus
  pub run_error : Option Text
  pub changes : Option (ChangeStatus × Option Text)
  pub connection : ConnectionChange

-- `failed === 0 ? applied : partial`; every failure adds an error.
abbrev pub status_of : List Text → ChangeStatus
status_of [] = applied
status_of (e ∷ errors) = partial

-- `errors[0]`.
abbrev pub first_of : List Text → Option Text
first_of [] = none
first_of (e ∷ errors) = some e

abbrev running : Outcome
running = record { run = pending; run_error = none; changes = none; connection = same }

abbrev is_lock_lost : Failure → Bool
is_lock_lost lock_lost = true
is_lock_lost _ = false

module _ (c : Console) (scope : OwnershipScope) (site : Text) (s : PassInput) where
  -- `error instanceof LockLostError || lock.lost()`.
  taken_over : Failure → Pass → Bool
  taken_over f p = is_lock_lost f || not (c.held p.checks)

  -- `catch`: a pass that lost the lock leaves the changes to the one that took over.
  abort : Outcome → Failure → Pass → Outcome
  unfolding taken_over
  abort before f p =
      if taken_over f p
      then record before { run = failed; run_error = some (s.message f) }
      else record before {
        run = failed;
        run_error = some (s.message f);
        changes = some (failed, some (s.message f));
        connection = broken (s.message f);
      }

  -- A check of the lock, and what follows while it is held.
  checked : Outcome → Result (Unit {0}) × Pass → (Pass → Outcome × Pass) → Outcome × Pass
  unfolding abort
  checked before (ok held, p) next = next p
  checked before (err f, p) next = (abort before f p, p)

  settled : List Text → Outcome
  settled errors = record {
    run = status_of errors;
    run_error = first_of errors;
    changes = some (status_of errors, first_of errors);
    connection = recovered;
  }

  -- From the end of the writes on: the changes are settled, and the checkup asks for the lock again.
  settle_changes : List Text → Pass → Outcome × Pass
  unfolding checked settled
  settle_changes errors p =
      checked running (still_held c scope site p)
        (λ q. checked (settled errors) (still_held c scope site q) (λ r. (settled errors, r)))

  finish : Result (List Text) × Pass → Outcome × Pass
  unfolding settle_changes abort
  finish (ok errors, p) = settle_changes errors p
  finish (err f, p) = (abort running f p, p)

  -- `tick`, after the plan is made.
  pub reconcile :
      List FirewallPolicy
      → ℕ
      → Enforcement
      → Enforcement
      → (Store → List Text)
      → Pass
      → Outcome × Pass
  unfolding finish
  reconcile gateway abandon_before apps rules uncovered p = finish (
      write_pass c scope site s apps rules uncovered
        (begin_pass c scope site s gateway abandon_before p))
