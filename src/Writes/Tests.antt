-- ===== src/Writes/Tests.antt =====
-- A write that blocks two apps for one device.
use familyfi.Base.{
  ℕ, List, ◌≡◌, none, ◌∷◌, [], ◌&&◌, not, leb, length, is_some, unique, sort, codes,
}
use familyfi.Payload.{undefined}
use familyfi.Writes.{BlockInput, normalize_all, is_empty, dpi_app_block_policy}
use familyfi.Writes.Refused.{dpi_app_block_policy-is_some}

abbrev input : BlockInput
input = record {
  name = codes "FamilyFi Games";
  source_zone_id = codes "z1";
  destination_zone_id = codes "wan";
  enabled = none;
  action = none;
  schedule = undefined;
  description = none;
}

abbrev apps : List ℕ
apps = 7 ∷ 9 ∷ []

dpi_app_block_policy-is_some_example :
    is_some (dpi_app_block_policy input (codes "00:11:22:33:44:55" ∷ []) apps) ≡ (
      (is_some (normalize_all (codes "00:11:22:33:44:55" ∷ []))
        && not (is_empty (codes "00:11:22:33:44:55" ∷ [])))
      && (not (is_empty apps) && leb (length (sort (unique apps))) 100))
dpi_app_block_policy-is_some_example =
    dpi_app_block_policy-is_some input (codes "00:11:22:33:44:55" ∷ []) apps
