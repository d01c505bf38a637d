-- ===== src/Examples/Writes.antt =====
-- Runs of put and deactivate of reference-client/internal/testrouter/ssot.go.
use masterdata_sync_working.Prelude.{String, Bool, true, false, none, some, ◌≡◌, refl}
use masterdata_sync_working.Json.{
  Value, obj, empty, entry, get, put, del, into_map, is_null, equal, same, canonical,
}
use masterdata_sync_working.Failure.{Result, ok, err, base_required}
use masterdata_sync_working.Model.{farm, Object, ref_slots, party_type_of}
use masterdata_sync_working.Assigned.{SentIdentity, check_binding}
use masterdata_sync_working.Store.{Store, find_object, put_object, record_local_entry}
use masterdata_sync_working.Mapping.Invariant.{IsConsistent}
use masterdata_sync_working.Write.{
  put_entity, deactivate, create, read_content, put_bound, put_new, put_known, merge_from, commit,
  updated, deactivate_bound, deactivate_active,
}
use masterdata_sync_working.Write.Merge.{
  pos, new_content, patched, change_at, changes_something, value_at, read_base, three_way,
  merge_attribute, merge_changes, apply_change, apply_changes,
}
use masterdata_sync_working.Write.Objects.{AllStored, put_entity-AllStored}
use masterdata_sync_working.Write.Keeps.{put_entity-IsConsistent}
use masterdata_sync_working.Write.Effects.{
  SameButEntries, CreatedPut, UpdatedPut, Deactivated, put_entity_creates, put_entity_updates,
  put_entity_refused, deactivate_lem,
}
use masterdata_sync_working.Write.Content.{
  content_of, reject_null, check_details, active_of, check_kind_change,
}
use masterdata_sync_working.MergePatch.{merge_patch, patch_attribute, whole_attributes}
use masterdata_sync_working.References.{resolve_refs, walk_refs, walk_slots}
use masterdata_sync_working.Deliver.{deliver}
use masterdata_sync_working.Examples.Setup.{second_known, unary, planner, start, name_of}

abbrev pub nothing_sent : SentIdentity
nothing_sent = record { typ = none; tenant_id = none; agrirouter_id = none; local = none }

abbrev pub named : String → Value
named name = obj (entry "content" (obj (name_of name)) empty)

start-IsConsistent : IsConsistent start
start-IsConsistent = record {
  from_local = λ e t l id h. cc;
  held = λ e id l h. cc;
  from_canonical = λ e id l t h k. cc;
}

start-AllStored : AllStored start
unfolding find_object
start-AllStored id o h = cc

-- The planner creates a farm.
abbrev pub put_farm : Store → Store × Result (Object × Bool)
put_farm s = put_entity unary planner farm "F1" (named "North") none nothing_sent 10 5 s

abbrev pub with_farm : Store
with_farm = (put_farm start).0

abbrev north : Object
north = (create planner farm "F1" (name_of "North") true 10 5 start).1

pub with_farm-IsConsistent : IsConsistent with_farm
unfolding find_object
with_farm-IsConsistent =
    put_entity-IsConsistent unary planner farm "F1" start start-IsConsistent (named "North") none
      nothing_sent 10 5 refl

pub with_farm-AllStored : AllStored with_farm
with_farm-AllStored =
    put_entity-AllStored unary planner farm "F1" start start-AllStored (named "North") none
      nothing_sent 10 5

farm_created : put_farm start ≡ (with_farm, ok (north, true))
unfolding content_of reject_null check_details active_of check_kind_change read_content put_bound
    put_new put_known merge_from commit updated put_entity deactivate create deactivate_bound
    deactivate_active new_content patched change_at changes_something value_at read_base three_way
    merge_attribute merge_changes apply_change apply_changes get put del into_map is_null equal same
    canonical merge_patch patch_attribute whole_attributes resolve_refs walk_refs walk_slots
    ref_slots party_type_of check_binding find_object put_object record_local_entry deliver
farm_created = second_known (put_farm start) refl

put_entity_creates_example :
    CreatedPut unary planner farm "F1" start 10 (with_farm, ok (north, true))
put_entity_creates_example =
    put_entity_creates unary planner farm "F1" start (named "North") none nothing_sent 10 5
      with_farm north farm_created

-- A second put without a base is refused.
refused_without_base :
    put_entity unary planner farm "F1" (named "South") none nothing_sent 11 6 with_farm ≡ (
      (put_entity unary planner farm "F1" (named "South") none nothing_sent 11 6 with_farm).0,
      err base_required,
    )
unfolding content_of reject_null check_details active_of check_kind_change read_content put_bound
    put_new put_known merge_from commit updated put_entity deactivate create deactivate_bound
    deactivate_active new_content patched change_at changes_something value_at read_base three_way
    merge_attribute merge_changes apply_change apply_changes get put del into_map is_null equal same
    canonical merge_patch patch_attribute whole_attributes resolve_refs walk_refs walk_slots
    ref_slots party_type_of check_binding find_object put_object record_local_entry deliver
refused_without_base = second_known _ refl

put_entity_refused_example :
    SameButEntries planner farm "F1" with_farm
      (put_entity unary planner farm "F1" (named "South") none nothing_sent 11 6 with_farm).0
put_entity_refused_example =
    put_entity_refused unary planner farm "F1" with_farm (named "South") none nothing_sent 11 6 _
      base_required refused_without_base

abbrev rename : Store × Result (Object × Bool)
rename =
    put_entity unary planner farm "F1" (named "South") (some (pos 1)) nothing_sent 11 6 with_farm

abbrev object_of_result : Result (Object × Bool) → Object
object_of_result (ok q) = q.0
object_of_result (err e) = north

renamed : rename ≡ (rename.0, ok (object_of_result rename.1, false))
unfolding content_of reject_null check_details active_of check_kind_change read_content put_bound
    put_new put_known merge_from commit updated put_entity deactivate create deactivate_bound
    deactivate_active new_content patched change_at changes_something value_at read_base three_way
    merge_attribute merge_changes apply_change apply_changes get put del into_map is_null equal same
    canonical merge_patch patch_attribute whole_attributes resolve_refs walk_refs walk_slots
    ref_slots party_type_of check_binding find_object put_object record_local_entry deliver
renamed = second_known _ refl

put_entity_updates_example :
    UpdatedPut unary planner farm "F1" with_farm (rename.0, ok (object_of_result rename.1, false))
put_entity_updates_example =
    put_entity_updates unary planner farm "F1" with_farm (named "South") (some (pos 1)) nothing_sent
      11 6 rename.0 (object_of_result rename.1) renamed

deactivate_lem_example :
    Deactivated unary planner farm "F1" with_farm
      (deactivate unary planner farm "F1" (some (pos 1)) 6 with_farm)
deactivate_lem_example = deactivate_lem unary planner farm "F1" with_farm (some (pos 1)) 6
