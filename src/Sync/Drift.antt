-- ===== src/Sync/Drift.antt =====
-- server/unifi/drift.ts and server/mac.ts: how the gateway's copy of a policy differs from the write
-- FamilyFi last confirmed. `none` stands for the exception of `normalizeMac`.
pub mod Sorted
use familyfi.Base.{
  ℕ, zero, suc, ◌+◌, Bool, true, false, not, ◌&&◌, ◌||◌, Option, none, some, List, [], ◌∷◌, ◌++◌,
  ltb, leb, ◌==◌, if◌then◌else◌, Text, codes, text_eq, includes, length, sort_by, or_else,
}
use familyfi.Payload.{
  Value, undefined, null, bool, str, arr, obj, Items, no_items, item, Fields, no_fields, field,
  lookup, carries_write, FirewallPolicy, FirewallPolicyWrite, whole,
}

-- `toLowerCase` where it matters: every other letter is taken off next.
lower : ℕ → ℕ
lower c = if leb b'A' c && leb c b'Z' then c + 32 else c

is_hex : ℕ → Bool
is_hex c = leb b'0' c && leb c b'9' || leb b'a' c && leb c b'f'

hex_digits : Text → Text
unfolding lower is_hex
hex_digits [] = []
hex_digits (c ∷ s) = if is_hex (lower c) then lower c ∷ hex_digits s else hex_digits s

-- `match(/.{2}/g).join(":")`.
join_pairs : Text → Text
join_pairs (a ∷ b ∷ []) = a ∷ b ∷ []
join_pairs (a ∷ b ∷ c ∷ s) = a ∷ b ∷ b':' ∷ join_pairs (c ∷ s)
join_pairs _ = []

-- `normalizeMac`; it throws unless there are twelve hex digits.
unfoldable pub normalize_mac : Text → Option Text
unfolding hex_digits join_pairs
normalize_mac input =
    let hex = hex_digits input in if length hex == 12 then some (join_pairs hex) else none

-- `value?.key`.
member : Text → Value → Value
member key (obj fs) = lookup key fs
member key _ = undefined

abbrev text_of : Value → Text
text_of (str s) = s
text_of _ = []

normalized : Items → Option (List Text)
unfolding normalize_mac
normalized no_items = some []
normalized (item v vs) = elim (normalize_mac (text_of v)) [
  | none ↦ none
  | some mac ↦ elim (normalized vs) [ none ↦ none | some macs ↦ some (mac ∷ macs) ]
]

-- Strings in the order of `sort`: by code unit.
pub text_leb : Text → Text → Bool
text_leb [] t = true
text_leb (_ ∷ _) [] = false
text_leb (a ∷ s) (b ∷ t) = if a == b then text_leb s t else ltb a b

pub unique_texts : List Text → List Text → List Text
unique_texts seen [] = []
unique_texts seen (s ∷ l) =
    let fresh = s ∷ unique_texts (s ∷ seen) l in
    let again = unique_texts seen l in if includes seen s then again else fresh

unfoldable pub sorted_unique : List Text → List Text
unfolding text_leb unique_texts
sorted_unique l = sort_by text_leb (unique_texts [] l)

abbrev sorted_option : Option (List Text) → Option (Option (List Text))
sorted_option none = none
sorted_option (some macs) = some (some (sorted_unique macs))

abbrev macs_in : Value → Option (Option (List Text))
macs_in (arr vs) = sorted_option (normalized vs)
macs_in _ = some none

-- `macsOf(endpoint)`: the device list of an endpoint, or `null`.
unfoldable pub macs_of : Value → Option (Option (List Text))
unfolding member sorted_unique normalized
macs_of endpoint = macs_in (
    member (codes "macAddresses")
      (member (codes "macAddressFilter") (member (codes "trafficFilter") endpoint)))

same_list : List Text → List Text → Bool
same_list [] [] = true
same_list (s ∷ l) (t ∷ m) = text_eq s t && same_list l m
same_list _ _ = false

pub data ScheduleWord : Type 0 where
  always scheduled different : ScheduleWord

pub data GatewayDriftChange : Type 0 where
  switch : Bool → Bool → GatewayDriftChange
  devices : List Text → List Text → GatewayDriftChange
  schedule : ScheduleWord → ScheduleWord → GatewayDriftChange
  name : Text → Text → GatewayDriftChange
  other : GatewayDriftChange

abbrev is_truthy : Value → Bool
is_truthy undefined = false
is_truthy null = false
is_truthy _ = true

abbrev same_bool : Bool → Bool → Bool
same_bool true b = b
same_bool false b = not b

report_if : Bool → GatewayDriftChange → List GatewayDriftChange
report_if true c = c ∷ []
report_if false c = []

device_changes : Option (List Text) → Option (List Text) → List GatewayDriftChange
unfolding same_list report_if
device_changes none found = []
device_changes (some wanted) found =
    let seen = or_else found [] in report_if (not (same_list wanted seen)) (devices wanted seen)

schedule_changes : Value → Value → List GatewayDriftChange
unfolding report_if
schedule_changes actual write = report_if (not (carries_write actual write)) (
    schedule (if is_truthy write then scheduled else always)
      (if is_truthy actual then if is_truthy write then different else scheduled else always))

remove_key : Text → Fields → Fields
remove_key key no_fields = no_fields
remove_key key (field k v fs) =
    if text_eq k key then remove_key key fs else field k v (remove_key key fs)

remove_inner : Text → Value → Value
unfolding remove_key
remove_inner inner (obj fs) = obj (remove_key inner fs)
remove_inner inner v = v

remove_inside : Text → Text → Fields → Fields
unfolding remove_inner
remove_inside outer inner no_fields = no_fields
remove_inside outer inner (field k v fs) =
    field k (if text_eq k outer then remove_inner inner v else v) (remove_inside outer inner fs)

-- `delete value[outer][inner]`, with the value's other fields kept.
without_inner : Text → Text → Value → Value
unfolding remove_inside
without_inner outer inner (obj fs) = obj (remove_inside outer inner fs)
without_inner outer inner v = v

-- What is left of the source once a device list was compared by itself.
rest_source : Option (List Text) → Value → Value
unfolding without_inner
rest_source none source = source
rest_source (some wanted) source =
    without_inner (codes "trafficFilter") (codes "macAddressFilter") source

-- The rest of what the fingerprint covers.
pub rest_of : Option (List Text) → FirewallPolicyWrite → Value
unfolding rest_source
rest_of wanted w = obj (
    field (codes "action") w.action (
      field (codes "ipProtocolScope") w.ip_protocol_scope (
        field (codes "source") (rest_source wanted w.source)
          (field (codes "destination") w.destination no_fields))))

changes_of :
    Option (List Text)
    → Option (List Text)
    → FirewallPolicy
    → FirewallPolicyWrite
    → List GatewayDriftChange
unfolding report_if device_changes schedule_changes rest_of
changes_of wanted found actual write =
    report_if (not (same_bool actual.content.enabled write.enabled))
      (switch write.enabled actual.content.enabled)
    ++ device_changes wanted found
    ++ schedule_changes actual.content.schedule write.schedule
    ++ report_if (not (text_eq actual.content.name write.name))
        (name write.name actual.content.name)
    ++ report_if (not (carries_write (obj (whole actual)) (rest_of wanted write))) other

-- `gatewayDrift(actual, write)`.
pub gateway_drift : FirewallPolicy → FirewallPolicyWrite → Option (List GatewayDriftChange)
unfolding macs_of changes_of
gateway_drift actual write = elim (macs_of write.source) [
  | none ↦ none
  | some wanted ↦ elim (macs_of actual.content.source) [
    | none ↦ none
    | some found ↦ some (changes_of wanted found actual write)
  ]
]
