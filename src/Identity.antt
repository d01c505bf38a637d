-- ===== src/Identity.antt =====
-- `Id` as it travels: reference-client/internal/testrouter/identity.go. Keys of a JSON object are
-- matched exactly, as the protocol spells them.
pub mod Wire
pub mod Rendered
use masterdata_sync_working.Prelude.{
  ℕ, String, Bool, true, false, Option, none, some, List, [], ◌∷◌, ◌++◌, str_eq, if◌then◌else◌,
}
use masterdata_sync_working.Json.{
  Value, null, str, arr, obj, Items, nil, cons, Fields, empty, entry, get,
}
use masterdata_sync_working.Failure.{Result, ok, err, invalid}
use masterdata_sync_working.Platform.{Platform}

abbrev pub agrirouter_id_source : String
agrirouter_id_source = "https://agrirouter.com"

abbrev pub id_type_uuid : String
id_type_uuid = "UUID"

pub record WireUniqueId : Type 0 where
  pub id_text : String
  pub id_type_code : String
  pub id_source : Option String

pub record WireId : Type 0 where
  pub reference_id : Option String
  pub unique_ids : List WireUniqueId

-- What a write said about the writer's local entry besides the identifier itself.
pub record LocalEntry : Type 0 where
  pub type_code : String
  pub source : Option String

unfoldable pub is_agrirouter : WireUniqueId → Bool
is_agrirouter u = elim u.id_source [ none ↦ false | some s ↦ str_eq s agrirouter_id_source ]

-- Whether an entry is the local entry: its text is the `referenceId`.
unfoldable pub is_local : Option String → WireUniqueId → Bool
is_local none e = false
is_local (some reference_id) e = str_eq e.id_text reference_id

abbrev pub entry_of : WireUniqueId → LocalEntry
entry_of e = record { type_code = e.id_type_code; source = e.id_source }

module _ (p : Platform) where
  read_local : WireUniqueId → Option LocalEntry → Result (Option LocalEntry)
  unfolding is_agrirouter
  read_local e (some l) =
      if is_agrirouter e
      then err (invalid "the local entry cannot have the reserved idSource")
      else err (invalid "an id carries at most one local entry")
  read_local e none =
      if is_agrirouter e
      then err (invalid "the local entry cannot have the reserved idSource")
      else ok (some (entry_of e))

  read_agrirouter : WireUniqueId → Option ℕ → Result (Option ℕ)
  unfolding is_agrirouter
  read_agrirouter e (some id) =
      if is_agrirouter e
      then err (invalid "an id carries at most one agrirouter entry")
      else err (invalid "the entry is neither the local entry nor the agrirouter entry")
  read_agrirouter e none =
      if is_agrirouter e
      then elim (p.parse_uuid e.id_text) [
        | none ↦ err (invalid "the agrirouter entry is not a UUID")
        | some id ↦ ok (some id)
      ]
      else err (invalid "the entry is neither the local entry nor the agrirouter entry")

  -- The loop of `read`, over the entries that are left.
  unfoldable pub read_entries :
      Option String
      → List WireUniqueId
      → Option ℕ
      → Option LocalEntry
      → Result (Option ℕ × Option LocalEntry)
  unfolding read_local read_agrirouter is_local
  read_entries reference_id [] id local = ok (id, local)
  read_entries reference_id (e ∷ es) id local = elim (is_local reference_id e) [
    | true ↦ elim (read_local e local) [ ok l ↦ read_entries reference_id es id l | err f ↦ err f ]
    | false ↦ elim (read_agrirouter e id) [
      | ok i ↦ read_entries reference_id es i local
      | err f ↦ err f
    ]
  ]

  -- (id wireID) read
  unfoldable pub read : WireId → Result (Option ℕ × Option LocalEntry)
  unfolding read_entries
  read id = read_entries id.reference_id id.unique_ids none none

  -- canonicalID: the agrirouter entry alone.
  unfoldable pub canonical_id : ℕ → WireId
  canonical_id obj_id = record {
    reference_id = none;
    unique_ids =
        record {
          id_text = p.uuid_string obj_id;
          id_type_code = id_type_uuid;
          id_source = some agrirouter_id_source;
        }
        ∷ [];
  }

  -- renderID, from what the endpoint calls the object and what its latest write said of it.
  unfoldable pub render_with : ℕ → Option String → Option LocalEntry → WireId
  unfolding canonical_id
  render_with obj_id none e = canonical_id obj_id
  render_with obj_id (some local_id) none = record (canonical_id obj_id) {
    reference_id = some local_id;
  }
  render_with obj_id (some local_id) (some e) = record {
    reference_id = some local_id;
    unique_ids =
        (canonical_id obj_id).unique_ids
        ++ record { id_text = local_id; id_type_code = e.type_code; id_source = e.source } ∷ [];
  }
