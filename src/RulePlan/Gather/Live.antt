-- ===== src/RulePlan/Gather/Live.antt =====
-- Which devices a rule's policies cover in a zone, and which of them it is not lifted for.
use familyfi.Base.{
  ◌≡◌, ◌∙◌, refl, arith, inl, inr, Bool, true, false, not, ◌&&◌, ◌||◌, Option, none, some, List, [],
  ◌∷◌, if◌then◌else◌, Text, text_eq, text_eq_iff, includes, includes-append, any, any-same, keep,
  Bool-cases, Option-cases,
}
use familyfi.Plan.{AssignmentState, assigned, quarantined, PlanDevice, is_out_of_scope, given}
use familyfi.RulePlan.Rule.{PlanRule}
use familyfi.RulePlan.Gather.{
  is_nonempty, RuleBucket, Gathered, nothing_gathered, with_bucket, empty_bucket, covered_group,
  push_device, place_device, gather_device, gather_devices,
}

abbrev in_zone : Text → Option Text → Bool
in_zone zone none = false
in_zone zone (some z) = text_eq z zone

abbrev managed_zone : PlanDevice → Option Text
managed_zone d = if is_out_of_scope d.in_scope then none else given d.zone_id

abbrev in_group : PlanRule → Bool → Option Text → Bool
in_group rule only_live none = false
in_group rule only_live (some g) = not (only_live && includes rule.lifted_group_ids g)

-- The test of the loop.
is_gathered : List Text → PlanRule → Bool → Text → Text → List PlanDevice → Bool
is_gathered known rule only_live zone mac devices =
    any
      (λ d.
        in_group rule only_live (covered_group known rule d)
        && in_zone zone (managed_zone d)
        && text_eq d.mac mac)
      devices

-- An assigned device of a group that is known and listed by the rule; `only_live` leaves out the
-- groups that the rule is lifted for.
pub is_ruled : List Text → PlanRule → Bool → AssignmentState → Option Text → Bool
is_ruled known rule only_live assigned (some (c ∷ g)) =
    includes rule.group_ids (c ∷ g)
    && includes known (c ∷ g)
    && not (only_live && includes rule.lifted_group_ids (c ∷ g))
is_ruled known rule only_live assigned (some []) = false
is_ruled known rule only_live assigned none = false
is_ruled known rule only_live quarantined group = false

-- A network in this zone that is not said to be unmanaged.
pub in_managed_zone : Text → Option Text → Option Bool → Bool
in_managed_zone zone (some (c ∷ z)) none = text_eq (c ∷ z) zone
in_managed_zone zone (some (c ∷ z)) (some managed) = managed && text_eq (c ∷ z) zone
in_managed_zone zone (some []) scope = false
in_managed_zone zone none scope = false

-- A device with this MAC address, which is not empty, is covered by the rule in this zone.
pub is_covered : List Text → PlanRule → Bool → Text → Text → List PlanDevice → Bool
unfolding is_ruled in_managed_zone
is_covered known rule only_live zone mac devices =
    any
      (λ d.
        is_ruled known rule only_live d.assignment d.group_id
        && not (text_eq d.mac [])
        && in_managed_zone zone d.zone_id d.in_scope
        && text_eq d.mac mac)
      devices

includes-keep :
    (p : Text → Bool) (l : List Text) (t : Text) → includes (keep p l) t ≡ (includes l t && p t)
unfolding includes keep
includes-keep p [] t = refl
includes-keep p (x ∷ l) t = elim (Bool-cases (text_eq x t)) [
  | inl same ↦
      let e : x ≡ t = (text_eq_iff x t).0 same in
      elim (Bool-cases (p x)) [
        | inl kept ↦ let k : p t ≡ true = rw e at kept in rw (kept, same, k) refl
        | inr left ↦
            let k : p t ≡ false = rw e at left in rw left (ground (arith, includes-keep p l t))
      ]
  | inr apart ↦ elim (Bool-cases (p x)) [
    | inl kept ↦ rw (kept, apart) (includes-keep p l t)
    | inr left ↦ rw (left, apart) (includes-keep p l t)
  ]
]

in_zone-managed_zone :
    (zone : Text) (d : PlanDevice)
    → in_zone zone (managed_zone d) ≡ in_managed_zone zone d.zone_id d.in_scope
unfolding in_managed_zone
in_zone-managed_zone zone d = go d.zone_id d.in_scope refl refl
  where
    go :
        (z : Option Text) (o : Option Bool)
        → d.zone_id ≡ z
        → d.in_scope ≡ o
        → in_zone zone (managed_zone d) ≡ in_managed_zone zone z o
    go none none e f = rw (e, f) refl
    go none (some true) e f = rw (e, f) refl
    go none (some false) e f = rw (e, f) refl
    go (some []) none e f = rw (e, f) refl
    go (some []) (some true) e f = rw (e, f) refl
    go (some []) (some false) e f = rw (e, f) refl
    go (some (c ∷ z)) none e f = rw (e, f) refl
    go (some (c ∷ z)) (some true) e f = rw (e, f) refl
    go (some (c ∷ z)) (some false) e f = rw (e, f) refl

is_nonempty-text_eq : (m : Text) → is_nonempty m ≡ not (text_eq m [])
unfolding text_eq
is_nonempty-text_eq [] = refl
is_nonempty-text_eq (c ∷ m) = refl

in_group-covered_group :
    (known : List Text) (rule : PlanRule) (only_live : Bool) (d : PlanDevice)
    → in_group rule only_live (covered_group known rule d)
      ≡ (is_ruled known rule only_live d.assignment d.group_id && not (text_eq d.mac []))
unfolding covered_group is_ruled
in_group-covered_group known rule only_live d = go d.assignment d.group_id refl refl
  where
    go :
        (a : AssignmentState) (g : Option Text)
        → d.assignment ≡ a
        → d.group_id ≡ g
        → in_group rule only_live (covered_group known rule d)
          ≡ (is_ruled known rule only_live a g && not (text_eq d.mac []))
    go assigned none e f = rw f refl
    go quarantined none e f = rw f refl
    go assigned (some []) e f = rw f refl
    go quarantined (some []) e f = rw f refl
    go quarantined (some (c ∷ g)) e f = rw (e, f) (ground arith)
    go assigned (some (c ∷ g)) e f =
        rw
          (e, f, ← is_nonempty-text_eq d.mac, includes-keep (includes known) rule.group_ids (c ∷ g))
          (ground arith)

abbrev listed : Bool → RuleBucket → List Text
listed true b = b.live
listed false b = b.macs

-- The zone's bucket lists this MAC address, among the live ones or among all.
pub is_listed : Bool → Text → Text → List RuleBucket → Bool
is_listed only_live zone mac bs =
    any (λ b. text_eq b.zone zone && includes (listed only_live b) mac) bs

module _ (rule : PlanRule) (only_live : Bool) (zone mac : Text) where
  push_device-listed :
      (g m : Text) (b : RuleBucket)
      → includes (listed only_live (push_device rule g m b)) mac ≡ (
          includes (listed only_live b) mac
          || not (only_live && includes rule.lifted_group_ids g) && text_eq m mac)
  unfolding push_device
  push_device-listed g m b = go only_live
    where
      go :
          (live : Bool)
          → includes (listed live (push_device rule g m b)) mac ≡ (
              includes (listed live b) mac
              || not (live && includes rule.lifted_group_ids g) && text_eq m mac)
      go true = elim (Bool-cases (includes rule.lifted_group_ids g)) [
        | inl lifted ↦ rw lifted (ground arith)
        | inr stays ↦
            rw stays (unfold includes in ground (arith, includes-append b.live (m ∷ []) mac))
      ]
      go false = unfold includes in ground (arith, includes-append b.macs (m ∷ []) mac)

  listed-empty_bucket : (z : Text) → includes (listed only_live (empty_bucket z)) mac ≡ false
  unfolding includes
  listed-empty_bucket z = go only_live
    where
      go : (live : Bool) → includes (listed live (empty_bucket z)) mac ≡ false
      go true = refl
      go false = refl

  push_device-zone : (g m : Text) (b : RuleBucket) → (push_device rule g m b).zone ≡ b.zone
  unfolding push_device
  push_device-zone g m b = refl

  with_bucket-listed :
      (z g m : Text) (bs : List RuleBucket)
      → is_listed only_live zone mac (with_bucket z (push_device rule g m) bs) ≡ (
          is_listed only_live zone mac bs
          || not (only_live && includes rule.lifted_group_ids g) && text_eq z zone && text_eq m mac)
  unfolding is_listed with_bucket any
  with_bucket-listed z g m [] = ground (
    arith,
    push_device-listed g m (empty_bucket z),
    listed-empty_bucket z,
    push_device-zone g m (empty_bucket z),
  )
  with_bucket-listed z g m (b ∷ bs) = elim (Bool-cases (text_eq b.zone z)) [
    | inl same ↦
        let e : b.zone ≡ z = (text_eq_iff b.zone z).0 same in
        let k : (push_device rule g m b).zone ≡ z = push_device-zone g m b ∙ e in
        rw same (ground (arith, push_device-listed g m b, e, k))
    | inr apart ↦ rw apart (ground (arith, with_bucket-listed z g m bs))
  ]

  place_device-listed :
      (g m : Text) (z : Option Text) (s : Gathered)
      → is_listed only_live zone mac (place_device rule g m z s).buckets ≡ (
          is_listed only_live zone mac s.buckets
          || not (only_live && includes rule.lifted_group_ids g) && in_zone zone z && text_eq m mac)
  unfolding place_device
  place_device-listed g m none s = ground arith
  place_device-listed g m (some z) s = with_bucket-listed z g m s.buckets

  module _ (known : List Text) where
    gather_device-listed :
        (d : PlanDevice) (s : Gathered)
        → is_listed only_live zone mac (gather_device known rule d s).buckets ≡ (
            is_listed only_live zone mac s.buckets
            || in_group rule only_live (covered_group known rule d)
              && in_zone zone (managed_zone d)
              && text_eq d.mac mac)
    unfolding gather_device
    gather_device-listed d s = elim (Option-cases (covered_group known rule d)) [
      | inl none_covers ↦ rw none_covers (ground arith)
      | inr (g, e) ↦ rw (e, gather_device) (place_device-listed g d.mac (managed_zone d) s)
    ]

    gather_devices-listed :
        (ds : List PlanDevice) (s : Gathered)
        → is_listed only_live zone mac (gather_devices known rule ds s).buckets
          ≡ (is_listed only_live zone mac s.buckets || is_gathered known rule only_live zone mac ds)
    unfolding gather_devices is_gathered any
    gather_devices-listed [] s = ground arith
    gather_devices-listed (d ∷ ds) s =
        ground
          (arith, gather_devices-listed ds (gather_device known rule d s), gather_device-listed d s)

    -- The MAC addresses that a rule on groups lists in a zone are exactly those of the assigned
    -- devices with one, on a managed network in that zone, whose group is known and covered by the rule;
    -- its live ones are exactly those of such devices whose group the rule is not lifted for.
    pub gather_devices-is_listed :
        (ds : List PlanDevice)
        → is_listed only_live zone mac (gather_devices known rule ds nothing_gathered).buckets
          ≡ is_covered known rule only_live zone mac ds
    unfolding is_listed any is_gathered is_covered
    gather_devices-is_listed ds =
        gather_devices-listed ds nothing_gathered
        ∙ any-same
            (λ d.
              in_group rule only_live (covered_group known rule d)
              && in_zone zone (managed_zone d)
              && text_eq d.mac mac)
            (λ d.
              is_ruled known rule only_live d.assignment d.group_id
              && not (text_eq d.mac [])
              && in_managed_zone zone d.zone_id d.in_scope
              && text_eq d.mac mac)
            (λ d.
              rw (in_group-covered_group known rule only_live d, in_zone-managed_zone zone d)
                (ground arith))
            ds
