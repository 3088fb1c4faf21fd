-- ===== src/Coverage/Sound.antt =====
-- Which issues are reported, and which of them are write failures.
use familyfi.Base.{
  ◌≡◌, ◌↔◌, ◌∙◌, refl, sym, arith, inl, inr, Bool, true, false, not, ◌&&◌, none, some, List, [],
  ◌∷◌, Text, any, any-same, keep, Bool-cases, Option, text_eq, includes, is_some,
}
use familyfi.Plan.{AssignmentState, assigned, quarantined, given}
use familyfi.Coverage.{
  missing_policy, CoverageIssue, CoveredGroup, CoverageDevice, RecordedPolicy, is_write_failure,
  is_live_for, is_assigned_to, is_usable, is_nonempty, kind_of, issue_of, coverage_issues,
}

-- Text that is there and not empty.
pub is_set : Option Text → Bool
is_set none = false
is_set (some []) = false
is_set (some (c ∷ s)) = true

-- A recorded policy that names the group and a gateway policy, and has no error.
pub covers_group : CoveredGroup → RecordedPolicy → Bool
unfolding is_set
covers_group g p =
    includes p.group_ids g.id && is_set p.unifi_policy_id && not (is_set p.last_error)

pub is_member : CoveredGroup → AssignmentState → Option Text → Bool
is_member g assigned (some id) = text_eq id g.id
is_member g assigned none = false
is_member g quarantined id = false

-- A zone that is known, of a network that is not said to be unmanaged.
pub is_reachable : Option Text → Option Bool → Bool
unfolding is_set
is_reachable zone (some managed) = is_set zone && managed
is_reachable zone none = is_set zone

-- The group is enforced and no recorded policy without an error covers it.
pub lacks_policy : List RecordedPolicy → CoveredGroup → Bool
unfolding covers_group
lacks_policy policies g = g.enforced && not (any (covers_group g) policies)

-- The device is assigned to the group.
pub belongs_to : CoveredGroup → CoverageDevice → Bool
unfolding is_member
belongs_to g d = is_member g d.assignment d.group_id

pub is_enforceable : CoverageDevice → Bool
unfolding is_reachable
is_enforceable d = is_reachable d.zone_id d.in_scope

is_set-given : (o : Option Text) → is_some (given o) ≡ is_set o
unfolding is_set
is_set-given none = refl
is_set-given (some []) = refl
is_set-given (some (c ∷ s)) = refl

is_live_for-covers_group :
    (g : CoveredGroup) (p : RecordedPolicy) → is_live_for g p ≡ covers_group g p
unfolding is_live_for covers_group
is_live_for-covers_group g p = rw (is_set-given p.unifi_policy_id, is_set-given p.last_error) refl

is_assigned_to-belongs_to :
    (g : CoveredGroup) (d : CoverageDevice) → is_assigned_to g d ≡ belongs_to g d
unfolding is_assigned_to belongs_to is_member
is_assigned_to-belongs_to g d = go d.assignment d.group_id refl refl
  where
    go :
        (a : AssignmentState) (id : Option Text)
        → d.assignment ≡ a
        → d.group_id ≡ id
        → is_assigned_to g d ≡ is_member g a id
    go assigned none e f = rw (e, f) refl
    go assigned (some id) e f = rw (e, f) (ground arith)
    go quarantined none e f = rw (e, f) refl
    go quarantined (some id) e f = rw (e, f) (ground arith)

is_usable-is_enforceable : (d : CoverageDevice) → is_usable d ≡ is_enforceable d
unfolding is_usable is_enforceable is_reachable
is_usable-is_enforceable d = go d.in_scope refl
  where
    go : (o : Option Bool) → d.in_scope ≡ o → is_usable d ≡ is_reachable d.zone_id o
    go none e = rw (e, is_set-given d.zone_id) (ground arith)
    go (some true) e = rw (e, is_set-given d.zone_id) (ground arith)
    go (some false) e = rw (e, is_set-given d.zone_id) (ground arith)

-- The issues of the groups that lack a policy, in their order: each a write failure exactly when a
-- device is assigned to the group, and a missing policy exactly when one of these is on a managed
-- network and in a known zone.
abbrev pub ReportOf : List CoveredGroup → List CoverageDevice → List CoverageIssue → Type 0
ReportOf [] devices [] = Unit
ReportOf [] devices (i ∷ is) = ⊥
ReportOf (g ∷ gs) devices [] = ⊥
ReportOf (g ∷ gs) devices (i ∷ is) =
    (i.group_id ≡ g.id)
    × (is_write_failure i ≡ any (belongs_to g) devices)
    × ((i.kind ≡ missing_policy) ↔ (any (λ d. belongs_to g d && is_enforceable d) devices ≡ true))
    × ReportOf gs devices is

any-keep :
    (p q : CoverageDevice → Bool) (l : List CoverageDevice)
    → any (λ d. p d && q d) l ≡ is_nonempty (keep q (keep p l))
unfolding any keep
any-keep p q [] = refl
any-keep p q (d ∷ l) = elim (Bool-cases (p d)) [
  | inl hit ↦ rw hit (ground (arith, any-keep p q l))
  | inr miss ↦ rw miss (any-keep p q l)
]

any-nonempty :
    (p : CoverageDevice → Bool) (l : List CoverageDevice) → any p l ≡ is_nonempty (keep p l)
unfolding any keep
any-nonempty p [] = refl
any-nonempty p (d ∷ l) = ground (arith, any-nonempty p l)

nonempty-keep :
    (p : CoverageDevice → Bool) (l : List CoverageDevice)
    → is_nonempty (keep p l) ≡ true
    → is_nonempty l ≡ true
unfolding keep
nonempty-keep p [] h = h
nonempty-keep p (d ∷ l) h = refl

module _ (devices : List CoverageDevice) (policies : List RecordedPolicy) where
  issue-kind :
      (g : CoveredGroup) (name : Text)
      → let i : CoverageIssue = record {
        group_id = g.id;
        group_name = name;
        kind = kind_of (keep (is_assigned_to g) devices);
      } in
        (is_write_failure i ≡ any (is_assigned_to g) devices)
        × ((i.kind ≡ missing_policy)
            ↔ (any (λ d. is_assigned_to g d && is_usable d) devices ≡ true))
  unfolding is_write_failure kind_of
  issue-kind g name =
      elim (Bool-cases (is_nonempty (keep is_usable (keep (is_assigned_to g) devices)))) [
        | inl usable ↦
            let n = nonempty-keep is_usable (keep (is_assigned_to g) devices) usable in
            rw usable (
              sym (any-nonempty (is_assigned_to g) devices ∙ n),
              ((λ _. any-keep _ _ devices ∙ usable), λ _. refl),
            )
        | inr unusable ↦ elim (Bool-cases (is_nonempty (keep (is_assigned_to g) devices))) [
          | inl some_assigned ↦
              rw (unusable, some_assigned)
                (
                  sym (any-nonempty (is_assigned_to g) devices ∙ some_assigned),
                  (
                    (λ e. absurd (cc)),
                    λ e. absurd (let k = any-keep (is_assigned_to g) is_usable devices in cc),
                  ),
                )
          | inr none_assigned ↦
              rw (unusable, none_assigned)
                (
                  sym (any-nonempty (is_assigned_to g) devices ∙ none_assigned),
                  (
                    (λ e. absurd (cc)),
                    λ e. absurd (let k = any-keep (is_assigned_to g) is_usable devices in cc),
                  ),
                )
        ]
      ]

  -- The kind of an issue in the words of the report.
  report-kind :
      (g : CoveredGroup) (name : Text)
      → let i : CoverageIssue = record {
        group_id = g.id;
        group_name = name;
        kind = kind_of (keep (is_assigned_to g) devices);
      } in
        (is_write_failure i ≡ any (belongs_to g) devices)
        × ((i.kind ≡ missing_policy)
            ↔ (any (λ d. belongs_to g d && is_enforceable d) devices ≡ true))
  report-kind g name =
      rw
        (
          ← any-same (is_assigned_to g) (belongs_to g) (is_assigned_to-belongs_to g) devices,
          ← any-same (λ d. is_assigned_to g d && is_usable d)
              (λ d. belongs_to g d && is_enforceable d)
              (λ d. rw (is_assigned_to-belongs_to g d, is_usable-is_enforceable d) refl) devices,
        )
        (issue-kind g name)

issue_of-lacks :
    (g : CoveredGroup) (devices : List CoverageDevice) (policies : List RecordedPolicy)
    → lacks_policy policies g ≡ true
    → issue_of devices policies g
      ≡ some (record {
        group_id = g.id;
        group_name = g.name;
        kind = kind_of (keep (is_assigned_to g) devices);
      })
unfolding lacks_policy issue_of
issue_of-lacks g devices policies e =
    ground (arith, any-same (is_live_for g) (covers_group g) (is_live_for-covers_group g) policies)

issue_of-none :
    (g : CoveredGroup) (devices : List CoverageDevice) (policies : List RecordedPolicy)
    → lacks_policy policies g ≡ false
    → issue_of devices policies g ≡ none
unfolding lacks_policy issue_of
issue_of-none g devices policies e =
    ground (arith, any-same (is_live_for g) (covers_group g) (is_live_for-covers_group g) policies)

-- `coverageIssues` reports exactly the enforced groups that no recorded policy without an error
-- covers, in their order. An issue is a write failure exactly when a device is assigned to its group,
-- and "missing policy" exactly when one of those is on a managed network and in a known zone.
pub coverage_issues-ReportOf :
    (groups : List CoveredGroup) (devices : List CoverageDevice) (policies : List RecordedPolicy)
    → ReportOf
        (keep (lacks_policy policies) groups)
        devices
        (coverage_issues groups devices policies)
unfolding coverage_issues keep
coverage_issues-ReportOf [] devices policies = tt
coverage_issues-ReportOf (g ∷ gs) devices policies = elim (Bool-cases (lacks_policy policies g)) [
  | inl lacks ↦
      let (a, b) = report-kind devices policies g g.name in
      rw (lacks, issue_of-lacks g devices policies lacks, coverage_issues)
        (refl, a, b, coverage_issues-ReportOf gs devices policies)
  | inr fine ↦
      rw (fine, issue_of-none g devices policies fine, coverage_issues)
        (coverage_issues-ReportOf gs devices policies)
]
