-- ===== src/Sync/Store.antt =====
-- The records that reconciliation keeps (`AppPolicy`, `RulePolicy` and `PolicyOperation` rows), and
-- server/unifi/policy-ownership.ts: which gateway policies are FamilyFi's on record. Row ids are
-- numbers issued in turn.
pub mod Confirmations
use familyfi.Base.{
  ℕ, ◌-◌, ◌*◌, Bool, true, false, ◌&&◌, ◌||◌, Option, none, some, List, [], ◌∷◌, map, any, leb,
  ◌==◌, if◌then◌else◌, Text, text_eq, opt_text_eq,
}
use familyfi.Payload.{Fields}
use familyfi.Sync.Drift.{GatewayDriftChange}

pub data PolicyOperationIntent : Type 0 where
  create update delete : PolicyOperationIntent

pub data OperationStatus : Type 0 where
  pending applied failed removed confirmed : OperationStatus

pub record PolicyOperation : Type 0 where
  pub id : ℕ
  pub intent : PolicyOperationIntent
  pub status : OperationStatus
  pub connection_identity : Text
  pub site_id : Text
  pub payload_fingerprint : Option Text
  pub payload : Option Fields
  pub unifi_policy_id : Option Text
  pub created_at : ℕ

-- An `AppPolicy` or `RulePolicy` row: `key` is what the plan names it by (`plannedKey` or
-- `plannedRuleKey` of its columns).
pub record PolicyRow : Type 0 where
  pub id : ℕ
  pub key : Text
  pub connection_identity : Text
  pub site_id : Text
  pub unifi_policy_id : Option Text
  pub desired_fingerprint : Text
  pub desired_revision : ℕ
  pub observed_enabled : Option Bool
  pub observed_fingerprint : Option Text
  pub last_error : Option Text
  pub gateway_drift : Option (List GatewayDriftChange)
  pub drift_seen_at : Option ℕ

pub record Store : Type 0 where
  pub app_policies : List PolicyRow
  pub rule_policies : List PolicyRow
  pub operations : List PolicyOperation
  pub next_id : ℕ

-- The console and site a client writes to.
pub record OwnershipScope : Type 0 where
  pub connection_identity : Text
  pub site_id : Option Text

abbrev pub same_intent : PolicyOperationIntent → PolicyOperationIntent → Bool
same_intent create create = true
same_intent update update = true
same_intent delete delete = true
same_intent _ _ = false

abbrev pub same_status : OperationStatus → OperationStatus → Bool
same_status pending pending = true
same_status applied applied = true
same_status failed failed = true
same_status removed removed = true
same_status confirmed confirmed = true
same_status _ _ = false

-- `where: { unifiPolicyId, connectionIdentity, siteId }`.
pub row_names : Text → Text → Text → PolicyRow → Bool
row_names identity site policy r =
    opt_text_eq r.unifi_policy_id policy
    && text_eq r.connection_identity identity
    && text_eq r.site_id site

unfoldable pub operation_names : Text → Text → Text → PolicyOperation → Bool
operation_names identity site policy o =
    opt_text_eq o.unifi_policy_id policy
    && text_eq o.connection_identity identity
    && text_eq o.site_id site

unfoldable pub is_creation : PolicyOperation → Bool
is_creation o = same_intent o.intent create && same_status o.status applied

-- `scope.siteId && siteId === scope.siteId`; an empty site id is none.
abbrev pub site_matches : Option Text → Text → Bool
site_matches none site = false
site_matches (some []) site = false
site_matches (some (c ∷ s)) site = text_eq (c ∷ s) site

-- `policyOnRecord`.
unfoldable pub policy_on_record : OwnershipScope → Text → Text → Store → Bool
unfolding row_names operation_names is_creation
policy_on_record scope site policy st =
    site_matches scope.site_id site
    && (any (row_names scope.connection_identity site policy) st.app_policies
        || any (row_names scope.connection_identity site policy) st.rule_policies
        || any (λ o. operation_names scope.connection_identity site policy o && is_creation o)
            st.operations)

-- How long an administrator's confirmation stands.
abbrev pub delete_confirmation_ms : ℕ
delete_confirmation_ms = 2 * 60000

abbrev pub is_confirmed_delete : PolicyOperation → Bool
is_confirmed_delete o = same_intent o.intent delete && same_status o.status confirmed

-- `deleteConfirmed`.
pub delete_confirmed : OwnershipScope → Text → Text → ℕ → Store → Bool
unfolding operation_names
delete_confirmed scope site policy now st =
    site_matches scope.site_id site
    && any
        (λ o.
          operation_names scope.connection_identity site policy o
          && is_confirmed_delete o
          && leb (now - delete_confirmation_ms) o.created_at)
        st.operations

abbrev pub expired : PolicyOperation → PolicyOperation
expired o = if is_confirmed_delete o then record o { status = failed } else o

-- `expireDeleteConfirmations`.
unfoldable pub expire_delete_confirmations : Store → Store
expire_delete_confirmations st = record st { operations = map expired st.operations }

-- `policyOperation.update({ where: { id }, … })`.
unfoldable pub update_operation :
    ℕ → (PolicyOperation → PolicyOperation) → List PolicyOperation → List PolicyOperation
update_operation id change [] = []
update_operation id change (o ∷ os) =
    (if o.id == id then change o else o) ∷ update_operation id change os

unfoldable pub update_row : ℕ → (PolicyRow → PolicyRow) → List PolicyRow → List PolicyRow
update_row id change [] = []
update_row id change (r ∷ rs) = (if r.id == id then change r else r) ∷ update_row id change rs
