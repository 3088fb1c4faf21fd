-- ===== src/Payload.antt =====
-- server/unifi/lost-creates.ts: whether a gateway policy holds all that a write sent
-- (`carriesWrite`) and whether a policy of a lost create can stand for a write (`reclaims`).
-- A JavaScript value is one data type; its numbers here are the whole ones, which is what UniFi
-- policies hold.
pub mod Carries
pub mod Arrays
pub mod Reclaims
mod Tests
use familyfi.Base.{
  ℕ, zero, suc, Bool, true, false, ◌&&◌, ◌||◌, Option, none, some, List, [], ◌∷◌, ◌==◌, Text, codes,
  text_eq, if◌then◌else◌,
}

mutual
  pub data Value : Type 0 where
    undefined : Value
    null : Value
    bool : Bool → Value
    num : ℕ → Value
    str : Text → Value
    arr : Items → Value
    obj : Fields → Value

  pub data Items : Type 0 where
    no_items : Items
    item : Value → Items → Items

  pub data Fields : Type 0 where
    no_fields : Fields
    field : Text → Value → Fields → Fields

-- `object[key]`.
unfoldable pub lookup : Text → Fields → Value
lookup key no_fields = undefined
lookup key (field k v fs) = if text_eq k key then v else lookup key fs

unfoldable pub count : Items → ℕ
count no_items = zero
count (item v vs) = suc (count vs)

-- `findIndex` with the test, then `splice` of what it found.
unfoldable pub remove_first : (Value → Bool) → Items → Option Items
remove_first p no_items = none
remove_first p (item v vs) = elim (p v) [
  | true ↦ some vs
  | false ↦ elim (remove_first p vs) [ none ↦ none | some left ↦ some (item v left) ]
]

abbrev pub is_nullish : Value → Bool
is_nullish undefined = true
is_nullish null = true
is_nullish _ = false

abbrev is_undefined : Value → Bool
is_undefined undefined = true
is_undefined _ = false

abbrev same_bool : Bool → Bool → Bool
same_bool true b = b
same_bool false true = false
same_bool false false = true

abbrev is_bool : Bool → Value → Bool
is_bool b (bool a) = same_bool a b
is_bool b _ = false

abbrev is_num : ℕ → Value → Bool
is_num n (num m) = m == n
is_num n _ = false

abbrev is_str : Text → Value → Bool
is_str s (str t) = text_eq t s
is_str s _ = false

abbrev items_of : Value → Option Items
items_of (arr vs) = some vs
items_of _ = none

abbrev fields_of : Value → Option Fields
fields_of (obj fs) = some fs
fields_of _ = none

unfoldable mutual
  unfolding count remove_first lookup

  -- `carriesWrite(actual, expected)`.
  pub carries_write : Value → Value → Bool
  carries_write actual undefined = is_nullish actual
  carries_write actual null = is_nullish actual
  carries_write actual (bool b) = is_bool b actual
  carries_write actual (num n) = is_num n actual
  carries_write actual (str s) = is_str s actual
  carries_write actual (arr expected) = elim (items_of actual) [
    | none ↦ false
    | some left ↦ count left == count expected && takes_every left expected
  ]
  carries_write actual (obj expected) = elim (fields_of actual) [
    | none ↦ false
    | some fs ↦ carries_fields fs expected
  ]

  -- `expected.every(…)` over the items still left.
  pub takes_every : Items → Items → Bool
  takes_every left no_items = true
  takes_every left (item wanted items) =
      elim (remove_first (λ candidate. carries_write candidate wanted) left) [
        | none ↦ false
        | some left' ↦ takes_every left' items
      ]

  -- `Object.entries(expected).every(…)`.
  pub carries_fields : Fields → Fields → Bool
  carries_fields actual no_fields = true
  carries_fields actual (field key value fs) =
      (is_undefined value || carries_write (lookup key actual) value) && carries_fields actual fs

-- `FirewallPolicyWrite`; an optional field that is absent is `undefined`.
pub record FirewallPolicyWrite : Type 0 where
  pub name : Text
  pub description : Value
  pub enabled : Bool
  pub logging_enabled : Value
  pub action : Value
  pub ip_protocol_scope : Value
  pub source : Value
  pub destination : Value
  pub connection_state_filter : Value
  pub ipsec_filter : Value
  pub schedule : Value

-- `FirewallPolicy`: a write's fields, the id, and what else the gateway answers with.
pub record FirewallPolicy : Type 0 where
  pub id : Text
  pub content : FirewallPolicyWrite
  pub extra : Fields

abbrev pub schedule_key : Text
schedule_key = codes "schedule"

abbrev null_if_absent : Value → Value
null_if_absent undefined = null
null_if_absent v = v

-- `{ ...object, [key]: value }`: an own key keeps its place.
set_field : Text → Value → Fields → Fields
set_field key value no_fields = field key value no_fields
set_field key value (field k v fs) =
    if text_eq k key then field k value fs else field k v (set_field key value fs)

-- `{ ...write, schedule: write.schedule ?? null }`.
pub with_schedule : Fields → Fields
unfolding set_field
with_schedule fs = set_field schedule_key (null_if_absent (lookup schedule_key fs)) fs

fields_onto : FirewallPolicyWrite → Fields → Fields
fields_onto w rest = field schedule_key w.schedule (
    field (codes "name") (str w.name) (
      field (codes "description") w.description (
        field (codes "enabled") (bool w.enabled) (
          field (codes "loggingEnabled") w.logging_enabled (
            field (codes "action") w.action (
              field (codes "ipProtocolScope") w.ip_protocol_scope (
                field (codes "source") w.source (
                  field (codes "destination") w.destination (
                    field (codes "connectionStateFilter") w.connection_state_filter
                      (field (codes "ipsecFilter") w.ipsec_filter rest))))))))))

-- The write as an object; `JSON.parse(JSON.stringify(write))` has the same fields.
pub write_fields : FirewallPolicyWrite → Fields
unfolding fields_onto
write_fields w = fields_onto w no_fields

-- The policy as an object.
pub whole : FirewallPolicy → Fields
unfolding fields_onto
whole p = fields_onto p.content (field (codes "id") (str p.id) p.extra)

-- `reclaims(policy, write)`.
pub reclaims : FirewallPolicy → FirewallPolicyWrite → Bool
reclaims policy write =
    carries_write (obj (whole policy)) (obj (with_schedule (write_fields write)))
