-- ===== src/Client/Codec.antt =====
-- ToEntity of reference-client/internal/platform/store/entities.go: a record as the write that the
-- platform sends, a merge patch of what it models.
pub mod Steps
pub mod Writes
use masterdata_sync_working.Prelude.{
  ℕ, String, Bool, true, false, ◌&&◌, ◌||◌, not, Option, none, some, List, [], ◌∷◌, any, str_eq,
  if◌then◌else◌,
}
use masterdata_sync_working.Json.{
  Fields, Value, null, str, obj, boolean, empty, entry, get, put, del, has, is_null,
}
use masterdata_sync_working.Failure.{Result, ok, err, invalid, ◌>>=◌}
use masterdata_sync_working.Model.{
  EntityType, party, farm, field, field_boundary, same_type, type_name, details_key,
  party_type_person, party_type_organization,
}
use masterdata_sync_working.Client.Database.{Record, columns}

abbrev pub contact_info_key : String
contact_info_key = "contactInfo"

-- modelledParts
unfoldable pub modelled_parts : EntityType → List (String × List String)
modelled_parts party = (contact_info_key, "addressContactMethods" ∷ []) ∷ []
modelled_parts field_boundary = ("boundary", "geometry" ∷ "boundaryCreationMethodCode" ∷ []) ∷ []
modelled_parts _ = []

-- modelledDetails; an unknown party type has no entry.
unfoldable pub modelled_details : String → Option (List String)
modelled_details t =
    if str_eq t party_type_person
    then some ("title" ∷ "firstName" ∷ "lastName" ∷ [])
    else if str_eq t party_type_organization
    then some ("commercialRegistryNumber" ∷ [])
    else none

abbrev pub not_nullable : List String
not_nullable =
    "name" ∷ "boundary" ∷ "_agmasync_growerRef" ∷ "_agmasync_farmRef" ∷ "_agmasync_fieldRef" ∷ []

-- json.Unmarshal of an attribute into a map, onto an empty one.
unfoldable pub nested_fields : Option Value → Result Fields
nested_fields none = ok empty
nested_fields (some null) = ok empty
nested_fields (some (obj fs)) = ok fs
nested_fields (some _) = err (invalid "reading nested attribute")

-- The text of a field, as json.Unmarshal reads it into a string.
abbrev pub text_of : Option Value → Result String
text_of none = ok ""
text_of (some null) = ok ""
text_of (some (str s)) = ok s
text_of (some _) = err (invalid "no text")

-- partyType: "" where the details state none, or do not decode.
unfoldable pub party_type : Record → String
unfolding nested_fields
party_type r =
    elim (nested_fields (get details_key r.modelled) >>= λ fs. text_of (get "partyTypeCode" fs)) [
      | err e ↦ ""
      | ok t ↦ t
    ]

-- The parts of an object, null for those that it has no value for, and whether it has any.
unfoldable pub parts_of_object : Fields → List String → Fields × Bool
unfolding put is_null
parts_of_object held [] = (empty, false)
parts_of_object held (part ∷ parts) =
    let rest = parts_of_object held parts in
    elim (get part held) [
      | none ↦ (put part null rest.0, rest.1)
      | some v ↦ if is_null v then (put part null rest.0, rest.1) else (put part v rest.0, true)
    ]

-- partsPatch
unfoldable pub parts_patch : Option Value → List String → Result (Option Value)
unfolding nested_fields parts_of_object
parts_patch raw parts = nested_fields raw >>= λ held.
    let patch = parts_of_object held parts in ok (if patch.1 then some (obj patch.0) else none)

-- A detail that the platform holds no value for is sent as null.
abbrev or_null : Option Value → Value
or_null none = null
or_null (some v) = v

abbrev details_of : Fields → List String → Fields → Fields
details_of held [] out = out
details_of held (part ∷ parts) out = details_of held parts (put part (or_null (get part held)) out)

-- detailsPatch, where the party type has modelled details
unfoldable pub details_patch : Option Value → List String → Result Value
unfolding nested_fields put
details_patch raw parts = nested_fields raw >>= λ held.
    ok (
      obj
        (details_of held parts (entry "partyTypeCode" (or_null (get "partyTypeCode" held)) empty)))

-- The attributes of a type with parts that are sent.
abbrev pub is_nested : EntityType → String → Bool
is_nested typ name = any (λ (p : String × List String). str_eq p.0 name) (modelled_parts typ)

-- The columns without a value are sent as null.
unfoldable pub with_nulls : EntityType → List String → Fields → Fields
unfolding put has modelled_parts
with_nulls typ [] fields = fields
with_nulls typ (name ∷ names) fields = with_nulls typ names (
    if has name fields
      || any (str_eq name) not_nullable
      || is_nested typ name
      || str_eq name details_key
    then fields
    else put name null fields)

-- What is done to a party's details.
unfoldable pub with_details : Record → Fields → Result Fields
unfolding modelled_details party_type details_patch put del
with_details r fields =
    if same_type r.typ party
    then elim (modelled_details (party_type r)) [
      | none ↦ ok (del details_key fields)
      | some parts ↦ details_patch (get details_key r.modelled) parts >>= λ details.
          ok (put details_key details fields)
    ]
    else ok fields

-- partsOf: a person has no contact info here.
unfoldable pub parts_of : Record → String × List String → List String
unfolding party_type
parts_of r p =
    if same_type r.typ party
      && str_eq p.0 contact_info_key
      && str_eq (party_type r) party_type_person
    then []
    else p.1

abbrev with_patch : String → Option Value → Fields → Fields
with_patch k none fields = del k fields
with_patch k (some v) fields = put k v fields

-- What is done to the objects sent as their parts.
unfoldable pub with_parts : Record → List (String × List String) → Fields → Result Fields
unfolding parts_of parts_patch put del
with_parts r [] fields = ok fields
with_parts r (p ∷ ps) fields = elim (parts_of r p) [
  | [] ↦ with_parts r ps (del p.0 fields)
  | part ∷ parts ↦ parts_patch (get p.0 r.modelled) (part ∷ parts) >>= λ patch.
      with_parts r ps (with_patch p.0 patch fields)
]

-- The content of the write, with agmasync.LocalID as its `id`.
unfoldable pub content_to_send : Record → String → Result Fields
unfolding with_nulls with_details with_parts columns modelled_parts put
content_to_send r local_id =
    with_details r (with_nulls r.typ (columns r.typ) r.modelled) >>= λ fields.
    with_parts r (modelled_parts r.typ) fields >>= λ fields.
    ok (put "id" (obj (entry "referenceId" (str local_id) empty)) fields)

-- ToEntity, as the JSON that is sent
unfoldable pub to_entity : Record → String → Result Value
unfolding content_to_send type_name
to_entity r local_id = content_to_send r local_id >>= λ content. ok (
    obj (
      entry "active" (boolean (not r.archived))
        (entry "content" (obj content) (entry "type" (str (type_name r.typ)) empty))))
