-- ===== src/Write/Content.antt =====
-- The checks that a write's content passes: contentOf, activeOf, rejectNull, checkDetails and
-- checkKindChange of reference-client/internal/testrouter/ssot.go.
use masterdata_sync_working.Prelude.{
  Bool, true, false, ◌||◌, not, Option, none, some, any, str_eq, if◌then◌else◌,
}
use masterdata_sync_working.Json.{
  Value, null, boolean, obj, Fields, empty, get, del, into_map, is_null,
}
use masterdata_sync_working.Failure.{Result, ok, err, invalid, ◌>>=◌}
use masterdata_sync_working.Platform.{Platform}
use masterdata_sync_working.Model.{
  EntityType, party, same_type, Object, party_type_of, party_type_person, party_type_organization,
  details_key, envelope_attributes,
}
use masterdata_sync_working.MergePatch.{required_attributes}
use masterdata_sync_working.Assigned.{object_of}
use masterdata_sync_working.Store.{Store}
use masterdata_sync_working.References.{named_as_parent}

attributes : Option Value → Result Fields
attributes none = err (invalid "content is required")
attributes (some null) = err (invalid "content is required")
attributes (some (obj fs)) = ok (del "id" (into_map fs empty))
attributes (some _) = err (invalid "malformed entity")

-- contentOf: the attributes that a write patches, less `id`.
unfoldable pub content_of : Value → Result Fields
unfolding attributes
content_of body = object_of body >>= λ fs. attributes (get "content" fs)

flag : Option Value → Option Bool
flag (some (boolean b)) = some b
flag _ = none

-- activeOf: `none` when the write leaves it out.
unfoldable pub active_of : Value → Option Bool
unfolding flag
active_of (obj fs) = flag (get "active" fs)
active_of _ = none

-- Whether a field is there and null.
abbrev null_at : Option Value → Bool
null_at none = false
null_at (some v) = is_null v

-- rejectNull
unfoldable pub reject_null : EntityType → Value → Fields → Result (Unit {0})
unfolding is_null
reject_null typ body content = object_of body >>= λ fs.
    if any (λ k. null_at (get k content)) (required_attributes typ)
    then err (invalid "a required attribute cannot be null")
    else if any (λ k. null_at (get k fs)) envelope_attributes
    then err (invalid "an envelope attribute cannot be null")
    else ok tt

states_party_type : Option Value → Bool
unfolding is_null party_type_of
states_party_type none = true
states_party_type (some v) =
    is_null v
    || str_eq (party_type_of (some v)) party_type_person
    || str_eq (party_type_of (some v)) party_type_organization

-- checkDetails
unfoldable pub check_details : EntityType → Fields → Result (Unit {0})
unfolding states_party_type
check_details typ incoming =
    if not (same_type typ party) || states_party_type (get details_key incoming)
    then ok tt
    else err (invalid "_agmasync_details must carry a partyTypeCode")

-- checkKindChange, from the details that the write leaves the party with: `none` where it has no
-- details to patch.
unfoldable pub check_kind_change :
    Platform → Store → Object → Option (Option Value) → Result (Unit {0})
unfolding party_type_of named_as_parent
check_kind_change p s o none = ok tt
check_kind_change p s o (some details) =
    if not (same_type o.typ party)
      || not (str_eq (party_type_of (get details_key o.content)) party_type_organization)
      || str_eq (party_type_of details) party_type_organization
    then ok tt
    else if named_as_parent p o.id s.objects
    then err (invalid "persons still name the organization as their parentOrganizationRef")
    else ok tt
