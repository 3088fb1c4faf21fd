-- ===== src/Coverage.antt =====
-- server/policy-coverage.ts: `coverageIssues`, the enforced groups that UniFi has no policy for. The
-- messages shown are left out.
pub mod Sound
mod Tests
use familyfi.Base.{
  Bool, true, false, not, ◌&&◌, ◌||◌, Option, none, some, List, [], ◌∷◌, if◌then◌else◌, Text,
  text_eq, opt_text_eq, includes, any, keep, is_some,
}
use familyfi.Plan.{AssignmentState, assigned, quarantined, given, is_out_of_scope}

pub data CoverageKind : Type 0 where
  no_members unresolved_zone missing_policy : CoverageKind

pub record CoverageIssue : Type 0 where
  pub group_id : Text
  pub group_name : Text
  pub kind : CoverageKind

pub record CoveredGroup : Type 0 where
  pub id : Text
  pub name : Text
  pub enforced : Bool

pub record CoverageDevice : Type 0 where
  pub group_id : Option Text
  pub assignment : AssignmentState
  pub zone_id : Option Text
  pub in_scope : Option Bool

pub record RecordedPolicy : Type 0 where
  pub group_ids : List Text
  pub unifi_policy_id : Option Text
  pub last_error : Option Text

-- `isWriteFailure`.
pub is_write_failure : CoverageIssue → Bool
is_write_failure i = elim i.kind [ no_members ↦ false | _ ↦ true ]

pub is_live_for : CoveredGroup → RecordedPolicy → Bool
is_live_for g p =
    includes p.group_ids g.id
    && is_some (given p.unifi_policy_id)
    && not (is_some (given p.last_error))

abbrev is_assigned : AssignmentState → Bool
is_assigned assigned = true
is_assigned quarantined = false

pub is_assigned_to : CoveredGroup → CoverageDevice → Bool
is_assigned_to g d = opt_text_eq d.group_id g.id && is_assigned d.assignment

pub is_usable : CoverageDevice → Bool
is_usable d = is_some (given d.zone_id) && not (is_out_of_scope d.in_scope)

abbrev is_nonempty : List CoverageDevice → Bool
is_nonempty [] = false
is_nonempty (d ∷ ds) = true

-- The kind of issue of a group without a live policy, by its assigned devices.
kind_of : List CoverageDevice → CoverageKind
kind_of devices =
    if is_nonempty (keep is_usable devices)
    then missing_policy
    else if is_nonempty devices
    then unresolved_zone
    else no_members

-- The issue of one group, if it has one.
pub issue_of : List CoverageDevice → List RecordedPolicy → CoveredGroup → Option CoverageIssue
unfolding kind_of
issue_of devices policies g =
    if not g.enforced || any (is_live_for g) policies
    then none
    else some (record {
      group_id = g.id;
      group_name = g.name;
      kind = kind_of (keep (is_assigned_to g) devices);
    })

-- `coverageIssues`.
pub coverage_issues :
    List CoveredGroup → List CoverageDevice → List RecordedPolicy → List CoverageIssue
unfolding issue_of
coverage_issues [] devices policies = []
coverage_issues (g ∷ gs) devices policies = elim (issue_of devices policies g) [
  | none ↦ coverage_issues gs devices policies
  | some issue ↦ issue ∷ coverage_issues gs devices policies
]
