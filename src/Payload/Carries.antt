-- ===== src/Payload/Carries.antt =====
-- A policy carries the very write it was made from.
use familyfi.Base.{◌≡◌, ◌≢◌, refl, ◌∙◌, true, false, arith, Text, text_eq_refl, text_eq_iff}
use familyfi.Payload.{
  Value, undefined, null, bool, num, str, arr, obj, Items, no_items, item, Fields, no_fields, field,
  lookup, carries_write, takes_every, carries_fields,
}

-- No key stands in the fields.
abbrev pub Lacks : Text → Fields → Type 0
Lacks key no_fields = Unit
Lacks key (field k v fs) = (k ≢ key) × Lacks key fs

-- Every object has each key once, as every JavaScript object does.
abbrev mutual
  pub HasDistinctKeys : Value → Type 0
  HasDistinctKeys (arr vs) = AllDistinct vs
  HasDistinctKeys (obj fs) = FieldsDistinct fs
  HasDistinctKeys undefined = Unit
  HasDistinctKeys null = Unit
  HasDistinctKeys (bool b) = Unit
  HasDistinctKeys (num n) = Unit
  HasDistinctKeys (str s) = Unit

  pub AllDistinct : Items → Type 0
  AllDistinct no_items = Unit
  AllDistinct (item v vs) = HasDistinctKeys v × AllDistinct vs

  pub FieldsDistinct : Fields → Type 0
  FieldsDistinct no_fields = Unit
  FieldsDistinct (field k v fs) = Lacks k fs × HasDistinctKeys v × FieldsDistinct fs

-- Looking a field of `fs` up in `all` finds its own value.
abbrev Within : Fields → Fields → Type 0
Within all no_fields = Unit
Within all (field k v fs) = (lookup k all ≡ v) × Within all fs

Within-field :
    (k : Text) (v : Value) (all fs : Fields)
    → Lacks k fs
    → Within all fs
    → Within (field k v all) fs
unfolding lookup
Within-field k v all no_fields h w = tt
Within-field k v all (field j u fs) (apart, h) (e, w) =
    (ground (arith, text_eq_iff k j), Within-field k v all fs h w)

Within-self : (fs : Fields) → FieldsDistinct fs → Within fs fs
Within-self no_fields h = tt
Within-self (field k v fs) (lacks, d, h) = (
  unfold lookup in ground (arith, text_eq_refl k),
  Within-field k v fs fs lacks (Within-self fs h),
)

takes_every-head :
    (v : Value) (vs : Items)
    → carries_write v v ≡ true
    → takes_every (item v vs) (item v vs) ≡ takes_every vs vs
unfolding carries_write
takes_every-head v vs e = ground arith

mutual
  unfolding carries_write

  carries_write_self : (v : Value) → HasDistinctKeys v → carries_write v v ≡ true
  carries_write_self undefined h = refl
  carries_write_self null h = refl
  carries_write_self (bool true) h = refl
  carries_write_self (bool false) h = refl
  carries_write_self (num n) h = ground arith
  carries_write_self (str s) h = text_eq_refl s
  carries_write_self (arr vs) h = ground (arith, takes_every_self vs h)
  carries_write_self (obj fs) h = carries_fields_self fs fs h (Within-self fs h)

  takes_every_self : (vs : Items) → AllDistinct vs → takes_every vs vs ≡ true
  takes_every_self no_items h = refl
  takes_every_self (item v vs) (h, hs) =
      takes_every-head v vs (carries_write_self v h) ∙ takes_every_self vs hs

  carries_fields_self :
      (fs all : Fields) → FieldsDistinct fs → Within all fs → carries_fields all fs ≡ true
  carries_fields_self no_fields all h w = refl
  carries_fields_self (field k v fs) all (lacks, d, h) (e, w) =
      ground (arith, carries_write_self v d, carries_fields_self fs all h w)

-- A policy that holds exactly what a write sent, with each key once, carries the write.
pub carries_write_refl : (v : Value) → HasDistinctKeys v → carries_write v v ≡ true
carries_write_refl v h = carries_write_self v h
