-- ===== src/Client/Database.antt =====
-- The platform's database: reference-client/internal/platform/store/store.go (Position, Routing) and
-- entities.go (FromEntity, UpsertRecord, the membership table tenant_entity). The product's own tables
-- are a type T, which `Tables` reads and writes.
use masterdata_sync_working.Prelude.{
  ℕ, String, Bool, false, ◌&&◌, not, Option, some, List, [], ◌∷◌, any, keep, map, sort, ◌==◌,
  str_eq, if◌then◌else◌,
}
use masterdata_sync_working.Json.{Fields, empty, entry}
use masterdata_sync_working.Failure.{Result, ok, err, invalid, ◌>>=◌}
use masterdata_sync_working.Model.{EntityType, party, farm, field, field_boundary, same_type}
use masterdata_sync_working.Client.Identity.{Envelope}
use masterdata_sync_working.Reset.{text_before}
use masterdata_sync_working.Client.Pairs.{SyncRow, delete_rows}

-- oapi.Entity, decoded
pub record Entity : Type 0 where
  pub envelope : Envelope
  pub content : Fields

pub record Record : Type 0 where
  pub typ : EntityType
  pub archived : Bool
  pub modelled : Fields
  -- The reference attributes that a write leaves alone.
  pub ignored : List String

-- References
unfoldable pub references : EntityType → List (String × EntityType)
references party = []
references farm = ("_agmasync_growerRef", party) ∷ []
references field = ("_agmasync_farmRef", farm) ∷ []
references field_boundary = ("_agmasync_fieldRef", field) ∷ []

unfoldable pub columns : EntityType → List String
columns party = "name" ∷ "_agmasync_details" ∷ "contactInfo" ∷ []
columns farm = "name" ∷ "_agmasync_growerRef" ∷ "_agmasync_address" ∷ []
columns field = "name" ∷ "arableArea" ∷ "_agmasync_farmRef" ∷ []
columns field_boundary = "_agmasync_fieldRef" ∷ "name" ∷ "_agmasync_boundaryType" ∷ "boundary" ∷ []

-- The attributes of the listed names.
unfoldable pub keep_fields : List String → Fields → Fields
keep_fields ks empty = empty
keep_fields ks (entry k v fs) =
    if any (str_eq k) ks then entry k v (keep_fields ks fs) else keep_fields ks fs

-- FromEntity
unfoldable pub from_entity : EntityType → Entity → Result Record
unfolding keep_fields columns
from_entity typ e =
    if same_type e.envelope.typ typ
    then ok (record {
      typ = typ;
      archived = false;
      modelled = keep_fields (columns typ) e.content;
      ignored = [];
    })
    else err (invalid "entity is of another type")

-- The statements on the product's own tables: a record written into the table of its type and out of
-- its other one, with its references looked up in the pairs; marked archived; read; deleted.
pub record Tables (T : Type 0) : Type 0 where
  pub write_row : List SyncRow → Record → String → T → Result T
  pub archive : EntityType → String → Bool → T → T
  pub load : EntityType → String → T → Option Record
  pub remove : EntityType → String → T → T

-- A row of tenant_entity.
pub record Holding : Type 0 where
  pub tenant : String
  pub typ : EntityType
  pub local_id : String

abbrev pub holds : String → EntityType → String → Holding → Bool
holds tenant typ l h = str_eq h.tenant tenant && same_type h.typ typ && str_eq h.local_id l

abbrev pub of_record : EntityType → String → Holding → Bool
of_record typ l h = same_type h.typ typ && str_eq h.local_id l

pub record Database (T : Type 0) : Type 0 where
  pub pairs : List SyncRow
  -- agmasync_stream; no row is the empty position.
  pub position : String
  -- agmasync_route, by endpoint; no row is `none`.
  pub routes : ℕ → Option (List EntityType)
  pub held : List Holding
  pub records : T

-- heldByAny
unfoldable pub held_by_any : EntityType → String → List Holding → Bool
held_by_any typ l held = any (of_record typ l) held

abbrev release : String → EntityType → String → List Holding → List Holding
release tenant typ l held = keep (λ (h : Holding). not (holds tenant typ l h)) held

module _ {T : Type 0} where
  -- SetPosition
  unfoldable pub set_position : String → Database T → Database T
  set_position id d = if str_eq id "" then d else record d { position = id }

  -- SetRoute
  unfoldable pub set_route : ℕ → List EntityType → Database T → Database T
  set_route ep types d = record d { routes = λ e. if e == ep then some types else d.routes e }

  -- hold
  unfoldable pub hold : String → EntityType → String → Database T → Database T
  hold tenant typ l d =
      if any (holds tenant typ l) d.held
      then d
      else record d { held = record { tenant = tenant; typ = typ; local_id = l } ∷ d.held }

  -- UpsertRecord
  unfoldable pub upsert_record :
      Tables T → String → Record → String → Database T → Result (Database T)
  unfolding hold
  upsert_record db tenant r l d = db.write_row d.pairs r l d.records >>= λ t.
      ok (hold tenant r.typ l (record d { records = t }))

  -- SetArchived
  unfoldable pub set_archived : Tables T → EntityType → String → Bool → Database T → Database T
  set_archived db typ l archived d = record d { records = db.archive typ l archived d.records }

  -- DeleteRecord: with the last tenant that holds it goes the record, and every endpoint's pair.
  unfoldable pub delete_record : Tables T → String → EntityType → String → Database T → Database T
  unfolding held_by_any delete_rows
  delete_record db tenant typ l d =
      let held = release tenant typ l d.held in
      if held_by_any typ l held then record d { held = held } else record d {
        held = held;
        records = db.remove typ l d.records;
        pairs = delete_rows typ l d.pairs;
      }

  -- ForgetRecord: the pairs stay.
  unfoldable pub forget_record : Tables T → String → EntityType → String → Database T → Database T
  unfolding held_by_any
  forget_record db tenant typ l d =
      let held = release tenant typ l d.held in
      if held_by_any typ l held
      then record d { held = held }
      else record d { held = held; records = db.remove typ l d.records }

  -- LocalIDs
  unfoldable pub local_ids : String → EntityType → Database T → List String
  local_ids tenant typ d =
      map (λ (h : Holding). h.local_id)
        (sort (λ (a b : Holding). text_before a.local_id b.local_id)
          (keep (λ (h : Holding). str_eq h.tenant tenant && same_type h.typ typ) d.held))
