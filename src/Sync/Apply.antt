-- ===== src/Sync/Apply.antt =====
-- server/reconciliation.ts: `applyDesiredPolicy` and `applyDesiredRulePolicy`, which differ only in
-- the table they keep, with `consoleDrift` and `driftCleared`, and the step of the pass that records
-- a failure.
pub mod Confirmed
pub mod Confirms
pub mod Guarded
pub mod Rows
pub mod Safe
pub mod Tables
pub mod Tests
use familyfi.Base.{
  ℕ, zero, suc, ◌+◌, ◌-◌, ◌*◌, Bool, true, false, not, ◌&&◌, ◌||◌, Option, none, some, List, [],
  ◌∷◌, ◌++◌, ltb, ◌==◌, if◌then◌else◌, Text, text_eq, opt_text_eq, includes,
}
use familyfi.Payload.{Value, undefined, null, FirewallPolicy, FirewallPolicyWrite}
use familyfi.Sync.Drift.{GatewayDriftChange, ScheduleWord, gateway_drift}
use familyfi.Sync.Store.{PolicyRow, Store, OwnershipScope, update_row}
use familyfi.Sync.Gateway.{
  Console, Pass, Failure, bad_mac, Result, ok, err, M, pure, throw, and_then, ◌>>=◌, ◌>>◌, catching,
  modify, is_not_found, send, update_policy, create_owned_policy, time_now, gets,
}

-- Which table the policies of a plan are recorded in.
pub data Table : Type 0 where
  app rule : Table

abbrev pub rows_of : Table → Store → List PolicyRow
rows_of app st = st.app_policies
rows_of rule st = st.rule_policies

abbrev pub with_rows : Table → List PolicyRow → Store → Store
with_rows app rows st = record st { app_policies = rows }
with_rows rule rows st = record st { rule_policies = rows }

unfoldable pub set_row : Table → ℕ → (PolicyRow → PolicyRow) → Pass → Pass
set_row t id change p = record p {
  store = with_rows t (update_row id change (rows_of t p.store)) p.store;
}

-- `create` of a row, which takes the next id.
unfoldable pub add_row : Table → PolicyRow → Pass → Pass
add_row t row p = record p {
  store =
      with_rows t (rows_of t p.store ++ record row { id = (p.store).next_id } ∷ [])
        (record (p.store) { next_id = suc (p.store).next_id });
}

abbrev or_value : Value → Value → Value
or_value undefined v = v
or_value null v = v
or_value w v = w

abbrev null_if_undefined : Value → Value
null_if_undefined undefined = null
null_if_undefined v = v

-- `toPolicyUpdate(current, { ...write, schedule: write.schedule ?? null })`.
pub to_policy_update : FirewallPolicyWrite → FirewallPolicyWrite → FirewallPolicyWrite
to_policy_update current write = record {
  name = write.name;
  description = or_value write.description current.description;
  enabled = write.enabled;
  logging_enabled = or_value write.logging_enabled current.logging_enabled;
  action = or_value write.action current.action;
  ip_protocol_scope = or_value write.ip_protocol_scope current.ip_protocol_scope;
  source = or_value write.source current.source;
  destination = or_value write.destination current.destination;
  connection_state_filter = or_value write.connection_state_filter current.connection_state_filter;
  ipsec_filter = or_value write.ipsec_filter current.ipsec_filter;
  schedule = null_if_undefined write.schedule;
}

-- `!existing.lastError`: an empty text is no error.
abbrev pub has_error : Option Text → Bool
has_error none = false
has_error (some []) = false
has_error (some (c ∷ s)) = true

abbrev pub drift_repeat_ms : ℕ
drift_repeat_ms = 10 * 60000

same_texts : List Text → List Text → Bool
same_texts [] [] = true
same_texts (s ∷ l) (t ∷ m) = text_eq s t && same_texts l m
same_texts _ _ = false

same_word : ScheduleWord → ScheduleWord → Bool
same_word ScheduleWord.always ScheduleWord.always = true
same_word ScheduleWord.scheduled ScheduleWord.scheduled = true
same_word ScheduleWord.different ScheduleWord.different = true
same_word _ _ = false

same_bool : Bool → Bool → Bool
same_bool true b = b
same_bool false b = not b

same_change : GatewayDriftChange → GatewayDriftChange → Bool
unfolding same_texts same_word same_bool
same_change (GatewayDriftChange.switch a b) (GatewayDriftChange.switch c d) =
    same_bool a c && same_bool b d
same_change (GatewayDriftChange.devices a b) (GatewayDriftChange.devices c d) =
    same_texts a c && same_texts b d
same_change (GatewayDriftChange.schedule a b) (GatewayDriftChange.schedule c d) =
    same_word a c && same_word b d
same_change (GatewayDriftChange.name a b) (GatewayDriftChange.name c d) = text_eq a c && text_eq b d
same_change GatewayDriftChange.other GatewayDriftChange.other = true
same_change _ _ = false

-- `isDeepStrictEqual` of two reports.
same_changes : List GatewayDriftChange → List GatewayDriftChange → Bool
unfolding same_change
same_changes [] [] = true
same_changes (a ∷ l) (b ∷ m) = same_change a b && same_changes l m
same_changes _ _ = false

abbrev seen_lately : Option ℕ → ℕ → Bool
seen_lately none now = false
seen_lately (some seen) now = ltb (now - seen) drift_repeat_ms

abbrev same_report : Option (List GatewayDriftChange) → List GatewayDriftChange → Bool
same_report none changes = false
same_report (some old) changes = same_changes old changes

pub record DriftNote : Type 0 where
  pub changes : List GatewayDriftChange
  pub seen_at : Option ℕ

-- The note of a report that is not empty: the same change soon again keeps its time.
note_of : PolicyRow → ℕ → List GatewayDriftChange → Option DriftNote
unfolding same_changes
note_of existing now [] = none
note_of existing now (c ∷ changes) = some (record {
  changes = c ∷ changes;
  seen_at =
      if seen_lately existing.drift_seen_at now && same_report existing.gateway_drift (c ∷ changes)
      then existing.drift_seen_at
      else some now;
})

-- `consoleDrift`; `gatewayDrift` throws on a MAC address that cannot be read.
pub console_drift :
    PolicyRow → Option FirewallPolicy → FirewallPolicyWrite → Text → ℕ → Result (Option DriftNote)
unfolding note_of
console_drift existing none write fingerprint now = ok none
console_drift existing (some copy) write fingerprint now =
    if not (opt_text_eq existing.observed_fingerprint fingerprint)
      || not (text_eq existing.desired_fingerprint fingerprint)
      || has_error existing.last_error
    then ok none
    else elim (gateway_drift copy write) [
      | none ↦ err bad_mac
      | some changes ↦ ok (note_of existing now changes)
    ]

-- `driftCleared`, on the row that is written.
pub drift_cleared : Text → PolicyRow → PolicyRow
drift_cleared fingerprint existing =
    if text_eq existing.desired_fingerprint fingerprint
    then existing
    else record existing { gateway_drift = none; drift_seen_at = none }

-- What the row records once the gateway confirmed the policy.
pub confirmed_row : Text → ℕ → FirewallPolicy → PolicyRow → PolicyRow
unfolding drift_cleared
confirmed_row fingerprint revision policy row = record (drift_cleared fingerprint row) {
  unifi_policy_id = some policy.id;
  desired_fingerprint = fingerprint;
  desired_revision = revision;
  observed_enabled = some (policy.content).enabled;
  observed_fingerprint = some fingerprint;
  last_error = none;
}

-- The row when nothing had to be written.
abbrev observed_row : Text → ℕ → PolicyRow → PolicyRow
observed_row fingerprint revision row = record row {
  desired_revision = revision;
  observed_fingerprint = some fingerprint;
}

abbrev noted_row : DriftNote → PolicyRow → PolicyRow
noted_row note row = record row { gateway_drift = some note.changes; drift_seen_at = note.seen_at }

-- A new row of this console and site.
abbrev pub fresh_row : Text → Text → Text → Text → ℕ → PolicyRow
fresh_row key identity site fingerprint revision = record {
  id = 0;
  key = key;
  connection_identity = identity;
  site_id = site;
  unifi_policy_id = none;
  desired_fingerprint = fingerprint;
  desired_revision = revision;
  observed_enabled = none;
  observed_fingerprint = none;
  last_error = none;
  gateway_drift = none;
  drift_seen_at = none;
}

-- The unifi policy of a row, if the gateway holds it.
abbrev held_policy : Option PolicyRow → List Text → Option Text
held_policy none on_gateway = none
held_policy (some row) on_gateway = elim row.unifi_policy_id [
  | none ↦ none
  | some policy ↦ if includes on_gateway policy then some policy else none
]

-- What a pass is called with for one planned policy.
pub record Desired : Type 0 where
  pub key : Text
  pub write : FirewallPolicyWrite
  pub fingerprint : Text
  pub revision : ℕ

module _ (c : Console) (scope : OwnershipScope) (site : Text)
    (copies : Text → Option FirewallPolicy) (t : Table) (d : Desired) where
  record_created : Option PolicyRow → FirewallPolicy → M (Unit {0})
  unfolding set_row add_row confirmed_row
  record_created (some row) created p =
      (ok tt, set_row t row.id (confirmed_row d.fingerprint d.revision created) p)
  record_created none created p = (
    ok tt,
    add_row t
        (confirmed_row d.fingerprint d.revision created
          (fresh_row d.key scope.connection_identity site d.fingerprint d.revision))
        p,
  )

  -- The last part: create the policy, and record it.
  create_and_record : Option PolicyRow → M (Unit {0})
  unfolding record_created
  create_and_record existing =
      create_owned_policy c scope site d.write d.fingerprint >>= record_created existing

  record_updated : PolicyRow → FirewallPolicy → M (Unit {0})
  unfolding set_row confirmed_row
  record_updated row updated p =
      (ok tt, set_row t row.id (confirmed_row d.fingerprint d.revision updated) p)

  write_over : PolicyRow → Text → FirewallPolicy → M (Unit {0})
  unfolding record_updated to_policy_update
  write_over row policy current =
      update_policy c scope site policy (to_policy_update current.content d.write)
      >>= record_updated row

  -- The part in `try`: read the policy, write FamilyFi's version, and record it.
  update_and_record : PolicyRow → Text → M (Unit {0})
  unfolding write_over
  update_and_record row policy = send c scope site (gets policy) >>= write_over row policy

  -- `catch`: a policy that is not found is created again.
  create_if_gone : PolicyRow → Failure → M (Unit {0})
  unfolding create_and_record
  create_if_gone row f p = if is_not_found f then create_and_record (some row) p else (err f, p)

  -- From `if (unifiPolicyId && onGateway.has(unifiPolicyId))` on.
  write_policy : Option PolicyRow → M (Unit {0})
  unfolding create_and_record update_and_record create_if_gone
  write_policy none p = create_and_record none p
  write_policy (some row) p = elim (held_policy (some row) p.on_gateway) [
    | none ↦ create_and_record (some row) p
    | some policy ↦ catching (update_and_record row policy) (create_if_gone row) p
  ]

  -- What follows when the row stands as it was: the console's changes, if any, are noted and put
  -- back, and otherwise nothing is written to the gateway.
  keep_policy : PolicyRow → Result (Option DriftNote) → M (Unit {0})
  unfolding write_policy set_row
  keep_policy row (err f) p = (err f, p)
  keep_policy row (ok (some note)) p = write_policy (some row) (set_row t row.id (noted_row note) p)
  keep_policy row (ok none) p = (
    ok tt,
    if opt_text_eq row.observed_fingerprint d.fingerprint
        then p
        else set_row t row.id (observed_row d.fingerprint d.revision) p,
  )

  unchanged : PolicyRow → Bool
  unchanged row = text_eq row.desired_fingerprint d.fingerprint && not (has_error row.last_error)

  -- `applyDesiredPolicy` and `applyDesiredRulePolicy`.
  pub apply_desired : Option PolicyRow → M (Unit {0})
  unfolding keep_policy write_policy unchanged console_drift
  apply_desired none p = write_policy none p
  apply_desired (some row) p = elim (held_policy (some row) p.on_gateway) [
    | none ↦ write_policy (some row) p
    | some policy ↦
        if unchanged row
        then keep_policy row
            (console_drift row (copies policy) d.write d.fingerprint (time_now c scope site p)) p
        else write_policy (some row) p
  ]

  -- What the pass records when it throws: the error on the row, or on a new one.
  failed_row : Text → PolicyRow → PolicyRow
  unfolding drift_cleared
  failed_row message row = record (drift_cleared d.fingerprint row) {
    last_error = some message;
    desired_fingerprint = d.fingerprint;
    desired_revision = d.revision;
  }

  record_failure : Text → Option PolicyRow → Pass → Pass
  unfolding failed_row set_row add_row
  record_failure message (some row) p = set_row t row.id (failed_row message) p
  record_failure message none p =
      add_row t
        (failed_row message
          (fresh_row d.key scope.connection_identity site d.fingerprint d.revision))
        p

  after_apply : (Failure → Text) → Option PolicyRow → Result (Unit {0}) × Pass → Pass × List Text
  unfolding record_failure
  after_apply message existing (ok done, q) = (q, [])
  after_apply message existing (err f, q) = (record_failure (message f) existing q, message f ∷ [])

  -- One round of the loop over the planned policies: the new state and the errors it adds.
  pub apply_or_record : (Failure → Text) → Option PolicyRow → Pass → Pass × List Text
  unfolding apply_desired after_apply
  apply_or_record message existing p = after_apply message existing (apply_desired existing p)
