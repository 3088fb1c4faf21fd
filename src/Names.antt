-- ===== src/Names.antt =====
-- lib/policy-names.ts: the names of the UniFi policies. `toLowerCase` and `toUpperCase` are written
-- for the ASCII letters: no other letter lowers to one of "internal", and rule ids are ASCII.
pub mod Bounded
mod Tests
use familyfi.Base.{
  ℕ, zero, suc, ◌+◌, ◌-◌, ◌/◌, ◌%◌, Bool, true, false, not, ◌&&◌, ◌||◌, List, [], ◌∷◌, ◌++◌, map,
  ltb, leb, if◌then◌else◌, Text, codes, text_eq, length, take, drop, keep, trim, trim_end,
}

abbrev pub familyfi_policy_prefix : Text
familyfi_policy_prefix = codes "FamilyFi "

abbrev pub max_policy_name : ℕ
max_policy_name = 100

pub data PolicyMode : Type 0 where
  always scheduled : PolicyMode

pub record NamedRule : Type 0 where
  pub id : Text
  pub name : Text
  pub use_generated_name : Bool
  pub mode : PolicyMode
  pub windows : List Text

abbrev to_lower_unit : ℕ → ℕ
to_lower_unit c = if leb b'A' c && leb c b'Z' then c + 32 else c

abbrev to_upper_unit : ℕ → ℕ
to_upper_unit c = if leb b'a' c && leb c b'z' then c - 32 else c

-- `text || other`.
abbrev pub or_text : Text → Text → Text
or_text [] other = other
or_text (c ∷ s) other = c ∷ s

-- `slice(-4)`.
abbrev last_four : Text → Text
last_four s = drop (length s - 4) s

-- The decimal digits of a number; one more than the number is fuel enough.
digits : ℕ → ℕ → Text
digits zero n = []
digits (suc fuel) n =
    let front = digits fuel (n / 10) in
    if ltb n 10 then (b'0' + n) ∷ [] else front ++ (b'0' + n % 10) ∷ []

-- `${n}`.
pub decimal : ℕ → Text
unfolding digits
decimal n = digits (suc n) n

-- `ruleBaseName`.
pub rule_base_name : NamedRule → Text
rule_base_name rule =
    if rule.use_generated_name
    then codes "Rule " ++ map to_upper_unit (last_four rule.id)
    else or_text (trim rule.name) (codes "Untitled rule")

-- `windowLabel`.
pub window_label : Text → ℕ → Text
unfolding decimal
window_label name index = or_text (trim name) (codes "Window " ++ decimal (suc index))

-- `zoneLabel`.
pub zone_label : Text → Text
zone_label zone_name = or_text (trim zone_name) (codes "Unknown")

-- `isInternalZone`.
pub is_internal_zone : Text → Bool
unfolding zone_label
is_internal_zone zone_name = text_eq (map to_lower_unit (zone_label zone_name)) (codes "internal")

-- `clipName`: one too long ends in an ellipsis.
pub clip_name : Text → Text
clip_name name =
    if leb (length name) max_policy_name
    then name
    else trim_end (take (max_policy_name - 1) name) ++ 0x2026 ∷ []

-- `withZone`.
pub with_zone : Text → Text → Text
unfolding is_internal_zone clip_name
with_zone name zone_name =
    if is_internal_zone zone_name
    then clip_name name
    else clip_name (name ++ codes " (" ++ zone_label zone_name ++ codes ")")

labelled : Text → ℕ → List Text → List Text
unfolding window_label
labelled base index [] = []
labelled base index (w ∷ ws) =
    (base ++ (b' ' ∷ 0x2013 ∷ b' ' ∷ []) ++ window_label w index) ∷ labelled base (suc index) ws

-- The names before the prefix and the zone.
name_tails : NamedRule → List Text
unfolding labelled rule_base_name
name_tails rule = elim rule.mode [
  | always ↦ rule_base_name rule ∷ []
  | scheduled ↦
      if ltb 1 (length rule.windows)
      then labelled (rule_base_name rule) 0 rule.windows
      else map (λ w. rule_base_name rule) rule.windows
]

-- `rulePolicyNames`.
pub rule_policy_names : NamedRule → Text → List Text
unfolding name_tails with_zone
rule_policy_names rule zone_name =
    map (λ tail. with_zone (familyfi_policy_prefix ++ tail) zone_name) (name_tails rule)

pub data LockDnsPart : Type 0 where
  ports addresses addresses_v6 names private_relay : LockDnsPart

abbrev lock_dns_all : List LockDnsPart
lock_dns_all = ports ∷ addresses ∷ addresses_v6 ∷ names ∷ private_relay ∷ []

abbrev lock_dns_tail : LockDnsPart → Text
lock_dns_tail ports = codes "Lock DNS"
lock_dns_tail addresses = codes "Lock DNS services"
lock_dns_tail addresses_v6 = codes "Lock DNS services IPv6"
lock_dns_tail names = codes "Lock DNS names"
lock_dns_tail private_relay = codes "Lock DNS Private Relay"

abbrev is_private_relay : LockDnsPart → Bool
is_private_relay private_relay = true
is_private_relay _ = false

-- `lockDnsParts`.
pub lock_dns_parts : Bool → List LockDnsPart
lock_dns_parts block = keep (λ part. block || not (is_private_relay part)) lock_dns_all

-- `lockDnsPolicyName`.
pub lock_dns_policy_name : LockDnsPart → Text → Text
unfolding with_zone
lock_dns_policy_name part zone_name =
    with_zone (familyfi_policy_prefix ++ lock_dns_tail part) zone_name

-- server/unifi/names.ts: `quarantinePolicyName`.
pub quarantine_policy_name : Text → Text
unfolding clip_name zone_label
quarantine_policy_name zone_name =
    clip_name
      (familyfi_policy_prefix ++ codes "Quarantine " ++ zone_label zone_name ++ codes " Devices")
