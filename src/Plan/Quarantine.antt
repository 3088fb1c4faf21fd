-- ===== src/Plan/Quarantine.antt =====
-- Which devices the quarantine policies cover.
use familyfi.Base.{
  ◌≡◌, ◌∙◌, refl, arith, inl, inr, Bool, true, false, not, ◌&&◌, ◌||◌, Option, none, some, List, [],
  ◌∷◌, Text, text_eq, text_eq_iff, includes, includes-append, any, Bool-cases,
}
use familyfi.Plan.{
  AssignmentState, assigned, quarantined, PlanDevice, PlannedPolicy, Bucket, Planning, owner_key,
  is_ours, is_out_of_scope, given, place, add_to_bucket, plan_device, plan_devices, bucket_policy,
  bucket_policies, plan_policies,
}

-- A device is quarantined, or in no group, or in one that is not known.
pub lacks_group : List Text → AssignmentState → Option Text → Bool
lacks_group groups quarantined g = true
lacks_group groups assigned none = true
lacks_group groups assigned (some []) = true
lacks_group groups assigned (some (c ∷ g)) = not (includes groups (c ∷ g))

-- A network is managed unless it is said not to be.
pub is_managed : Option Bool → Bool
is_managed none = true
is_managed (some managed) = managed

pub is_due : List Text → PlanDevice → Bool
unfolding lacks_group is_managed
is_due groups d = lacks_group groups d.assignment d.group_id && is_managed d.in_scope

is_managed-is_out_of_scope : (o : Option Bool) → is_managed o ≡ not (is_out_of_scope o)
unfolding is_managed
is_managed-is_out_of_scope none = refl
is_managed-is_out_of_scope (some true) = refl
is_managed-is_out_of_scope (some false) = refl

is_ours-owner_key :
    (groups : List Text) (d : PlanDevice)
    → is_ours groups (owner_key d) ≡ lacks_group groups d.assignment d.group_id
unfolding is_ours owner_key lacks_group
is_ours-owner_key groups d = go d.assignment d.group_id refl refl
  where
    go :
        (a : AssignmentState) (g : Option Text)
        → d.assignment ≡ a
        → d.group_id ≡ g
        → is_ours groups (owner_key d) ≡ lacks_group groups a g
    go quarantined g e f = rw e refl
    go assigned none e f = rw (e, f) refl
    go assigned (some []) e f = rw (e, f) refl
    go assigned (some (c ∷ g)) e f = rw (e, f) refl

-- A zone is known unless it is missing or empty.
abbrev in_zone : Text → Option Text → Bool
in_zone zone none = false
in_zone zone (some []) = false
in_zone zone (some (c ∷ z)) = text_eq (c ∷ z) zone

abbrev placed_in : Text → Option Text → Bool
placed_in zone none = false
placed_in zone (some z) = text_eq z zone

placed_in-given : (zone : Text) (z : Option Text) → placed_in zone (given z) ≡ in_zone zone z
placed_in-given zone none = refl
placed_in-given zone (some []) = refl
placed_in-given zone (some (c ∷ z)) = refl

-- A device with this MAC address is to be quarantined in this zone.
pub to_quarantine : List Text → Text → Text → List PlanDevice → Bool
unfolding is_due
to_quarantine groups zone mac devices =
    any (λ d. is_due groups d && in_zone zone d.zone_id && text_eq d.mac mac) devices

-- One of the policies covers this MAC address in this zone.
pub covers_mac : Text → Text → List PlannedPolicy → Bool
covers_mac zone mac policies =
    any (λ p. text_eq p.zone_id zone && includes p.mac_addresses mac) policies

in_buckets : Text → Text → List Bucket → Bool
in_buckets zone mac bs = any (λ b. text_eq b.zone zone && includes b.macs mac) bs

in_buckets-add_to_bucket :
    (zone mac z m : Text) (bs : List Bucket)
    → in_buckets zone mac (add_to_bucket z m bs)
      ≡ (in_buckets zone mac bs || text_eq z zone && text_eq m mac)
unfolding in_buckets add_to_bucket any includes
in_buckets-add_to_bucket zone mac z m [] = ground arith
in_buckets-add_to_bucket zone mac z m (b ∷ bs) = elim (Bool-cases (text_eq b.zone z)) [
  | inl same ↦
      let e = (text_eq_iff b.zone z).0 same in
      rw same (rw e (ground (arith, includes-append b.macs (m ∷ []) mac)))
  | inr apart ↦ rw apart (ground (arith, in_buckets-add_to_bucket zone mac z m bs))
]

module _ (groups : List Text) (zone mac : Text) where
  place-in_buckets :
      (z : Option Text) (m : Text) (s : Planning)
      → in_buckets zone mac (place z m s).buckets
        ≡ (in_buckets zone mac s.buckets || placed_in zone z && text_eq m mac)
  unfolding place
  place-in_buckets none m s = ground arith
  place-in_buckets (some z) m s = in_buckets-add_to_bucket zone mac z m s.buckets

  plan_device-in_buckets :
      (d : PlanDevice) (s : Planning)
      → in_buckets zone mac (plan_device groups d s).buckets ≡ (
          in_buckets zone mac s.buckets
          || is_due groups d && in_zone zone d.zone_id && text_eq d.mac mac)
  unfolding plan_device is_due
  plan_device-in_buckets d s =
      rw (← is_ours-owner_key groups d, is_managed-is_out_of_scope d.in_scope)
        (elim (Bool-cases (is_ours groups (owner_key d))) [
          | inl ours ↦ elim (Bool-cases (is_out_of_scope d.in_scope)) [
            | inl out ↦ rw (ours, out) (ground arith)
            | inr managed ↦
                rw (ours, managed, ← placed_in-given zone d.zone_id)
                  (place-in_buckets (given d.zone_id) d.mac s)
          ]
          | inr other ↦ rw other (ground arith)
        ])

  plan_devices-in_buckets :
      (ds : List PlanDevice) (s : Planning)
      → in_buckets zone mac (plan_devices groups ds s).buckets
        ≡ (in_buckets zone mac s.buckets || to_quarantine groups zone mac ds)
  unfolding plan_devices to_quarantine any
  plan_devices-in_buckets [] s = ground arith
  plan_devices-in_buckets (d ∷ ds) s =
      ground
        (arith, plan_devices-in_buckets ds (plan_device groups d s), plan_device-in_buckets d s)

module _ (zone_name : Text → Option Text) (destination : Text) (enforced : Option Bool) where
  covers_mac-bucket_policies :
      (zone mac : Text) (bs : List Bucket)
      → covers_mac zone mac (bucket_policies zone_name destination enforced bs)
        ≡ in_buckets zone mac bs
  unfolding covers_mac bucket_policies bucket_policy in_buckets any includes
  covers_mac-bucket_policies zone mac [] = refl
  covers_mac-bucket_policies zone mac (b ∷ bs) =
      go b.macs refl (covers_mac-bucket_policies zone mac bs)
    where
      go :
          (macs : List Text)
          → b.macs ≡ macs
          → covers_mac zone mac (bucket_policies zone_name destination enforced bs)
            ≡ in_buckets zone mac bs
          → covers_mac zone mac (bucket_policies zone_name destination enforced (b ∷ bs))
            ≡ in_buckets zone mac (b ∷ bs)
      go [] e ih = ground arith
      go (m ∷ ms) e ih = ground arith

  -- The policies that `planPolicies` plans cover a MAC address in a zone exactly when some device
  -- with that address is in that zone, on a managed network, and quarantined, in no group, or in a
  -- group that is not known.
  pub plan_policies-covers_mac :
      (groups : List Text) (devices : List PlanDevice) (zone mac : Text)
      → covers_mac zone mac (plan_policies zone_name destination enforced groups devices).0
        ≡ to_quarantine groups zone mac devices
  unfolding plan_policies in_buckets any
  plan_policies-covers_mac groups devices zone mac =
      covers_mac-bucket_policies zone mac _
      ∙ plan_devices-in_buckets groups zone mac devices (record { buckets = []; retained = false })
