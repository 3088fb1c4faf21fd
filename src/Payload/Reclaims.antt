-- ===== src/Payload/Reclaims.antt =====
-- Which policies of lost creates `reclaims` takes for a write.
use familyfi.Base.{
  ◌≡◌, ◌≢◌, refl, inl, inr, true, arith, Text, text_eq, text_eq_refl, text_eq_iff, text_eq_ne, ◌∙◌,
  Bool-cases,
}
use familyfi.Payload.{
  Value, undefined, null, Fields, no_fields, field, lookup, is_nullish, null_if_absent,
  carries_write, carries_fields, set_field, with_schedule, whole, write_fields, schedule_key,
  FirewallPolicy, FirewallPolicyWrite, reclaims,
}

lookup-set_field : (key : Text) (v : Value) (fs : Fields) → lookup key (set_field key v fs) ≡ v
unfolding lookup set_field
lookup-set_field key v no_fields = ground (arith, text_eq_refl key)
lookup-set_field key v (field k u fs) = ground (arith, text_eq_refl key, lookup-set_field key v fs)

lookup-set_field_other :
    (key other : Text) (v : Value) (fs : Fields)
    → key ≢ other
    → lookup other (set_field key v fs) ≡ lookup other fs
unfolding lookup set_field
lookup-set_field_other key other v no_fields h = ground (arith, text_eq_iff key other)
lookup-set_field_other key other v (field k u fs) h =
    ground (arith, text_eq_iff k other, text_eq_iff k key, lookup-set_field_other key other v fs h)

carries_fields-head :
    (actual : Fields) (k : Text) (u : Value) (fs : Fields)
    → carries_fields actual (field k u fs) ≡ true
    → u ≢ undefined
    → carries_write (lookup k actual) u ≡ true
unfolding carries_write
carries_fields-head actual k undefined fs h d = absurd (d refl)
carries_fields-head actual k u fs h d = ground arith

carries_fields-tail :
    (actual : Fields) (k : Text) (u : Value) (fs : Fields)
    → carries_fields actual (field k u fs) ≡ true
    → carries_fields actual fs ≡ true
unfolding carries_write
carries_fields-tail actual k u fs h = ground arith

-- Every field that the write sets is carried by the actual object.
carries_fields-lookup :
    (actual expected : Fields) (key : Text) (v : Value)
    → carries_fields actual expected ≡ true
    → lookup key expected ≡ v
    → v ≢ undefined
    → carries_write (lookup key actual) v ≡ true
unfolding lookup
carries_fields-lookup actual no_fields key v h e d = absurd (d (ground arith))
carries_fields-lookup actual (field k u fs) key v h e d = elim (Bool-cases (text_eq k key)) [
  | inl same ↦
      let keys : k ≡ key = (text_eq_iff k key).0 same in
      let values : u ≡ v = ground arith in
      rw (← keys, ← values) (carries_fields-head actual k u fs h (λ p. d (ground arith)))
  | inr apart ↦
      carries_fields-lookup actual fs key v (carries_fields-tail actual k u fs h) (ground arith) d
]

reclaims-fields :
    (policy : FirewallPolicy) (write : FirewallPolicyWrite)
    → reclaims policy write ≡ true
    → carries_fields (whole policy) (with_schedule (write_fields write)) ≡ true
unfolding reclaims carries_write
reclaims-fields policy write e = ground arith

null_if_absent-ne : (v : Value) → null_if_absent v ≢ undefined
null_if_absent-ne undefined e = cc
null_if_absent-ne v e = cc

null_if_absent_self : (v : Value) → v ≢ undefined → null_if_absent v ≡ v
null_if_absent_self undefined d = absurd (d refl)
null_if_absent_self v d = refl

carries_nullish :
    (actual v : Value)
    → is_nullish v ≡ true
    → carries_write actual (null_if_absent v) ≡ true
    → is_nullish actual ≡ true
unfolding carries_write
carries_nullish actual undefined n e = e
carries_nullish actual null n e = e
carries_nullish actual v n e = absurd (cc)

schedule_carried :
    (policy : FirewallPolicy) (write : FirewallPolicyWrite)
    → reclaims policy write ≡ true
    → carries_write
        (lookup schedule_key (whole policy))
        (null_if_absent (lookup schedule_key (write_fields write)))
      ≡ true
unfolding with_schedule
schedule_carried policy write e =
    carries_fields-lookup (whole policy) (with_schedule (write_fields write)) schedule_key _
      (reclaims-fields policy write e) (lookup-set_field schedule_key _ (write_fields write))
      (null_if_absent-ne (lookup schedule_key (write_fields write)))

-- A policy that `reclaims` takes for a write carries every field but the schedule as the write
-- sets it, and the schedule too; for a write with no schedule the policy has none.
pub reclaims_carries :
    (policy : FirewallPolicy) (write : FirewallPolicyWrite)
    → reclaims policy write ≡ true
    → ((key : Text) (v : Value)
        → lookup key (write_fields write) ≡ v
        → v ≢ undefined
        → carries_write (lookup key (whole policy)) v ≡ true)
      × (is_nullish write.schedule ≡ true → is_nullish policy.content.schedule ≡ true)
unfolding with_schedule whole write_fields lookup text_eq
reclaims_carries policy write e = (all, none_set)
  where
    carried : carries_fields (whole policy) (with_schedule (write_fields write)) ≡ true
    carried = reclaims-fields policy write e

    all :
        (key : Text) (v : Value)
        → lookup key (write_fields write) ≡ v
        → v ≢ undefined
        → carries_write (lookup key (whole policy)) v ≡ true
    all key v p d = elim (Bool-cases (text_eq schedule_key key)) [
      | inl same ↦
          let keys : schedule_key ≡ key = (text_eq_iff schedule_key key).0 same in
          let own : lookup schedule_key (write_fields write) ≡ v = rw (← keys) at p in
          let kept : null_if_absent (lookup schedule_key (write_fields write)) ≡ v =
            rw own (null_if_absent_self v d) in
          rw (← keys) (rw kept at (schedule_carried policy write e))
      | inr apart ↦
          carries_fields-lookup (whole policy) (with_schedule (write_fields write)) key v carried
            (lookup-set_field_other schedule_key key _ (write_fields write) (text_eq_ne _ _ apart)
              ∙ p)
            d
    ]

    none_set : is_nullish write.schedule ≡ true → is_nullish policy.content.schedule ≡ true
    none_set n =
        carries_nullish policy.content.schedule write.schedule n (schedule_carried policy write e)
