-- ===== src/Sync/Run.antt =====
-- server/reconciliation.ts: what `tick` does from `expireDeleteConfirmations` on. The plan is made
-- from what the console and the database hold before the writes, so it is an argument; the rules
-- that have no managed network left are outside the model of the database.
pub mod Finished
pub mod Recorded
pub mod Apart
pub mod Cleared
pub mod Confirms
pub mod Rounds
pub mod Rows
pub mod Stays
pub mod Steps
pub mod Tests
pub mod Whole
use familyfi.Base.{
  ℕ, zero, suc, Bool, true, false, not, ◌&&◌, ◌||◌, Option, none, some, List, [], ◌∷◌, ◌++◌, map,
  find, ◌==◌, if◌then◌else◌, Text, text_eq, includes, keep,
}
use familyfi.Payload.{FirewallPolicy, FirewallPolicyWrite}
use familyfi.Sync.Store.{PolicyRow, Store, OwnershipScope, expire_delete_confirmations}
use familyfi.Sync.LostCreates.{row_in, settle_lost_creates}
use familyfi.Sync.Gateway.{
  Console, Pass, Failure, lock_lost, Result, ok, err, M, pure, and_then, ◌>>=◌, ◌>>◌, catching,
  modify, still_held, delete_from_gateway,
}
use familyfi.Sync.Apply.{Table, app, rule, rows_of, with_rows, set_row, Desired, apply_or_record}
use familyfi.Sync.Sweep.{remove_orphaned_policies}

-- What the writes of a pass go by: the policies as the gateway had them, the text of an exception,
-- `policyFingerprint`, which hashes a write, and the household's revision.
pub record PassInput : Type 0 where
  pub copies : Text → Option FirewallPolicy
  pub message : Failure → Text
  pub policy_fingerprint : FirewallPolicyWrite → Text
  pub revision : ℕ

-- What a pass enforces in one table: the planned policies in order, each with the write that is built
-- for it or what building it throws; the rows that stay although they are not planned, because
-- `retainOwners` or `retainRuleIds` has whom they belong to; and the errors that planning met.
pub record Enforcement : Type 0 where
  pub planned : List (Text × Result FirewallPolicyWrite)
  pub retains : PolicyRow → Bool
  pub troubles : List Text

-- `appPolicy.delete` or `rulePolicy.delete`, by id.
pub delete_row : Table → ℕ → Pass → Pass
delete_row t id p = record p {
  store = with_rows t (keep (λ r. not (r.id == id)) (rows_of t p.store)) p.store;
}

-- `!row.unifiPolicyId`: an empty id is none.
abbrev pub given_id : Option Text → Option Text
given_id none = none
given_id (some []) = none
given_id (some (c ∷ s)) = some (c ∷ s)

-- `goneFromGateway`.
abbrev pub gone_from_gateway : Option Text → List Text → Bool
gone_from_gateway none on_gateway = false
gone_from_gateway (some []) on_gateway = false
gone_from_gateway (some (c ∷ s)) on_gateway = not (includes on_gateway (c ∷ s))

-- The row that a planned policy is recorded in.
pub existing_row : Text → Text → List PolicyRow → Option PolicyRow
existing_row identity key rows =
    find (λ r. text_eq r.key key && text_eq r.connection_identity identity) rows

abbrev pub with_error : Text → PolicyRow → PolicyRow
with_error message row = record row { last_error = some message }

abbrev pub keys_of : List (Text × Result FirewallPolicyWrite) → List Text
keys_of [] = []
keys_of ((key, write) ∷ planned) = key ∷ keys_of planned

module _ (c : Console) (scope : OwnershipScope) (site : Text) (s : PassInput) where
  -- The errors of one part after those of another.
  pub joined : M (List Text) → M (List Text) → M (List Text)
  joined first second = first >>= λ errors. (second >>= λ rest. pure (errors ++ rest))

  abbrev pub desired_of : Text → FirewallPolicyWrite → Desired
  desired_of key write = record {
    key = key;
    write = write;
    fingerprint = s.policy_fingerprint write;
    revision = s.revision;
  }

  -- The write is built before the part in `try`.
  apply_built : Table → List PolicyRow → Text → Result FirewallPolicyWrite → M (List Text)
  unfolding existing_row
  apply_built t rows key (err f) p = (err f, p)
  apply_built t rows key (ok write) p =
      let (q, errors) =
        apply_or_record c scope site s.copies t (desired_of key write) s.message
          (existing_row scope.connection_identity key rows) p in
      (ok errors, q)

  -- One round of the loop over the planned policies.
  pub apply_planned : Table → List PolicyRow → Text × Result FirewallPolicyWrite → M (List Text)
  unfolding apply_built still_held
  apply_planned t rows (key, write) = still_held c scope site >>= λ _. apply_built t rows key write

  pub apply_all : Table → List PolicyRow → List (Text × Result FirewallPolicyWrite) → M (List Text)
  unfolding apply_planned joined
  apply_all t rows [] = pure []
  apply_all t rows (d ∷ planned) = joined (apply_planned t rows d) (apply_all t rows planned)

  forget_row : Table → ℕ → M (List Text)
  unfolding delete_row
  forget_row t id p = (ok [], delete_row t id p)

  -- `catch`.
  note_error : Table → ℕ → Failure → M (List Text)
  note_error t id f p = (ok (s.message f ∷ []), set_row t id (with_error (s.message f)) p)

  remove_row : Table → PolicyRow → Text → M (List Text)
  unfolding forget_row note_error
  remove_row t row policy =
      catching (delete_from_gateway c scope site policy >>= λ _. forget_row t row.id)
        (note_error t row.id)

  -- A row that is no longer wanted: its policy goes, then the row.
  clear_row : Table → PolicyRow → Option Text → M (List Text)
  unfolding forget_row remove_row
  clear_row t row none = forget_row t row.id
  clear_row t row (some policy) = remove_row t row policy

  pub keeps_row : Enforcement → PolicyRow → List Text → Bool
  keeps_row e row on_gateway =
      includes (keys_of e.planned) row.key
      || (e.retains row && not (gone_from_gateway row.unifi_policy_id on_gateway))

  clean_if : Bool → Table → PolicyRow → M (List Text)
  unfolding clear_row
  clean_if true t row = pure []
  clean_if false t row = clear_row t row (given_id row.unifi_policy_id)

  -- One round of the loop over the rows.
  pub clean_row : Table → Enforcement → PolicyRow → M (List Text)
  unfolding keeps_row clean_if
  clean_row t e row =
      still_held c scope site >>= λ _. λ p. clean_if (keeps_row e row p.on_gateway) t row p

  pub clean_all : Table → Enforcement → List PolicyRow → M (List Text)
  unfolding clean_row joined
  clean_all t e [] = pure []
  clean_all t e (row ∷ rows) = joined (clean_row t e row) (clean_all t e rows)

  -- Both loops over one table, on its rows of this console and site as they were before.
  pub enforce : Table → Enforcement → M (List Text)
  unfolding apply_all clean_all joined
  enforce t e p =
      let rows = keep (row_in scope.connection_identity site) (rows_of t p.store) in
      joined (pure e.troubles) (joined (apply_all t rows e.planned) (clean_all t e rows)) p

  abbrev messages : List Failure → M (List Text)
  messages failures = pure (map s.message failures)

  pub sweep_messages : M (List Text)
  sweep_messages = remove_orphaned_policies c scope site >>= messages

  -- `expireDeleteConfirmations` and `settleLostCreates`.
  pub begin_pass : List FirewallPolicy → ℕ → Pass → Pass
  begin_pass gateway abandon_before p =
      let (adopted, settled) =
        settle_lost_creates scope.connection_identity site gateway abandon_before
          (expire_delete_confirmations p.store) in
      record p { store = settled; adopted = adopted }

  -- The writes of a pass, with the errors it collects: those of both tables, of the sweep, and of
  -- the policies that `storedCoverage` finds were not written.
  pub write_pass : Enforcement → Enforcement → (Store → List Text) → M (List Text)
  unfolding enforce sweep_messages joined
  write_pass apps rules uncovered =
      joined (joined (enforce app apps) (enforce rule rules))
        (joined sweep_messages (λ p. (ok (uncovered p.store), p)))
