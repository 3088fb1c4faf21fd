-- ===== src/Payload/Tests.antt =====
-- The properties of `carriesWrite` and `reclaims` at concrete values.
use mathlib.Core.List.{Perm}
use familyfi.Base.{
  ◌≡◌, ◌≢◌, ◌↔◌, refl, true, false, List, [], ◌∷◌, Text, codes, text_eq, text_eq_ne,
}
use familyfi.Payload.{
  Value, undefined, bool, num, str, arr, obj, no_fields, field, lookup, is_nullish, carries_write,
  FirewallPolicy, FirewallPolicyWrite, whole, write_fields, with_schedule, reclaims, set_field,
  fields_onto, count, remove_first,
}
use familyfi.Payload.Carries.{carries_write_refl}
use familyfi.Payload.Arrays.{texts, carries_write-texts_iff}
use familyfi.Payload.Reclaims.{reclaims_carries}

abbrev two_macs : List Text
two_macs = codes "aa" ∷ codes "bb" ∷ []

abbrev filter : Value
filter = obj (field (codes "macs") (arr (texts two_macs)) (field (codes "port") (num 80) no_fields))

carries_write_refl_example : carries_write filter filter ≡ true
unfolding text_eq
carries_write_refl_example =
    carries_write_refl filter
      ((text_eq_ne (codes "port") (codes "macs") refl, tt), (tt, (tt, tt)), (tt, tt, tt))

carries_write-texts_iff_example :
    (carries_write (arr (texts (codes "bb" ∷ codes "aa" ∷ []))) (arr (texts two_macs)) ≡ true)
    ↔ Perm (codes "bb" ∷ codes "aa" ∷ []) two_macs
carries_write-texts_iff_example = carries_write-texts_iff (codes "bb" ∷ codes "aa" ∷ []) two_macs

abbrev sent : FirewallPolicyWrite
sent = record {
  name = codes "Block";
  description = undefined;
  enabled = true;
  logging_enabled = bool false;
  action = obj (field (codes "type") (str (codes "BLOCK")) no_fields);
  ip_protocol_scope = undefined;
  source = filter;
  destination = undefined;
  connection_state_filter = undefined;
  ipsec_filter = undefined;
  schedule = undefined;
}

abbrev made : FirewallPolicy
made = record { id = codes "p1"; content = sent; extra = field (codes "index") (num 3) no_fields }

reclaims_carries_example :
    ((key : Text) (v : Value)
      → lookup key (write_fields sent) ≡ v
      → v ≢ undefined
      → carries_write (lookup key (whole made)) v ≡ true)
    × (is_nullish sent.schedule ≡ true → is_nullish made.content.schedule ≡ true)
unfolding reclaims whole with_schedule write_fields fields_onto set_field carries_write lookup
    text_eq count remove_first
reclaims_carries_example = reclaims_carries made sent refl
