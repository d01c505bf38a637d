-- ===== src/MergePatch.antt =====
-- A write's content as a JSON Merge Patch: reference-client/internal/testrouter/mergepatch.go.
pub mod Rfc
use masterdata_sync_working.Prelude.{
  String, Bool, true, false, ◌&&◌, not, Option, none, some, List, [], ◌∷◌, ◌++◌, any, keep, map,
  str_eq, if◌then◌else◌,
}
use masterdata_sync_working.Json.{
  Value, Fields, null, boolean, num, str, arr, obj, empty, entry, get, put, del, has, into_map,
  is_null, canonical,
}
use masterdata_sync_working.Model.{
  EntityType, party, farm, field, field_boundary, RefSlot, ref_slots, party_type_of, details_key,
  same_type,
}

-- The attributes that no write may remove.
abbrev pub required_attributes : EntityType → List String
required_attributes field_boundary = "_agmasync_fieldRef" ∷ "boundary" ∷ []
required_attributes _ = "name" ∷ []

-- The objects, other than references, that a patch replaces whole.
abbrev pub whole_object_attributes : EntityType → List String
whole_object_attributes farm = "_agmasync_address" ∷ []
whole_object_attributes _ = []

-- The attributes that a patch replaces whole: the top-level reference slots and the objects above.
unfoldable pub whole_attributes : EntityType → List String
unfolding ref_slots
whole_attributes typ =
    map (λ (slot : RefSlot). slot.key)
      (keep (λ (slot : RefSlot). str_eq slot.within "") (ref_slots typ))
    ++ whole_object_attributes typ

-- The target's fields as a Go map, empty where it is absent or no object.
abbrev pub fields_of : Option Value → Fields
fields_of (some (obj fs)) = into_map fs empty
fields_of _ = empty

-- mergePatch, RFC 7396: `patch_fields` is its loop over the patch's fields as a Go map, in which a
-- key that is repeated has the last of its values alone.
unfoldable mutual
  pub merge_patch : Option Value → Value → Value
  merge_patch target (obj patch) = obj (patch_fields (fields_of target) patch)
  merge_patch target v = v

  pub patch_fields : Fields → Fields → Fields
  patch_fields target empty = target
  patch_fields target (entry k v rest) =
      patch_fields
        (if has k rest
          then target
          else if is_null v
          then del k target
          else put k (merge_patch (get k target) v) target)
        rest

-- One attribute of a patch, applied to the value that an object holds for it.
unfoldable pub patch_attribute : EntityType → String → Option Value → Value → Option Value
unfolding is_null whole_attributes
patch_attribute typ key current patch =
    if is_null patch
    then none
    else if same_type typ party
        && str_eq key details_key
        && not (str_eq (party_type_of current) (party_type_of (some patch)))
    then some (canonical (merge_patch none patch))
    else if any (str_eq key) (whole_attributes typ)
    then some (canonical patch)
    else some (canonical (merge_patch current patch))
