-- ===== src/Model.antt =====
-- The router's data: reference-client/internal/testrouter/model.go, and the entity types of
-- agmasync/entity.go. Identifiers (uuid.UUID) and instants (time.Time) are numbers here, the zero
-- instant 0.
use masterdata_sync_working.Prelude.{
  ℕ, String, Bool, true, false, Option, some, List, [], ◌∷◌, str_eq, if◌then◌else◌,
}
use masterdata_sync_working.Json.{Value, Fields, str, obj, get}

pub data EntityType : Type 0 where
  party farm field field_boundary : EntityType

-- The `type` discriminator, as it travels.
unfoldable pub type_name : EntityType → String
type_name party = "party"
type_name farm = "farm"
type_name field = "field"
type_name field_boundary = "fieldBoundary"

-- `==` on entity types.
abbrev pub same_type : EntityType → EntityType → Bool
same_type party party = true
same_type farm farm = true
same_type field field = true
same_type field_boundary field_boundary = true
same_type _ _ = false

-- The fields that agrirouter owns, beside `content`.
abbrev pub envelope_attributes : List String
envelope_attributes =
    "type" ∷ "active" ∷ "revision" ∷ "modified_at" ∷ "tenant_id" ∷ "source_endpoint_id" ∷ []

abbrev pub details_key : String
details_key = "_agmasync_details"

abbrev pub party_type_person : String
party_type_person = "PERSON"

abbrev pub party_type_organization : String
party_type_organization = "ORGANIZATION"

-- One attribute's value from a revision onwards; `none` records that it was absent.
pub record AttributeValue : Type 0 where
  pub revision : ℕ
  pub value : Option Value

pub record Object : Type 0 where
  pub id : ℕ
  pub typ : EntityType
  pub tenant_id : ℕ
  pub revision : ℕ
  pub active : Bool
  pub modified_at : ℕ
  pub source_endpoint_id : ℕ
  pub seq : ℕ
  pub content : Fields
  pub stamps : String → Option ℕ
  pub history : String → List AttributeValue

text_of : Option Value → String
text_of (some (str s)) = s
text_of _ = ""

-- The partyTypeCode of a party's details, "" where there are none or they state none.
unfoldable pub party_type_of : Option Value → String
unfolding text_of
party_type_of (some (obj fs)) = text_of (get "partyTypeCode" fs)
party_type_of _ = ""

-- An object's place in the delivery order: before the objects that reference it.
unfoldable pub tier_of : Object → ℕ
unfolding party_type_of
tier_of o = elim o.typ [
  | party ↦ if str_eq (party_type_of (get details_key o.content)) party_type_person then 1 else 0
  | farm ↦ 2
  | field ↦ 3
  | field_boundary ↦ 4
]

-- A place where a reference sits: `within` names the object it is nested in and `party_type` the
-- party type its target must state, "" for none.
pub record RefSlot : Type 0 where
  pub within : String
  pub key : String
  pub target : EntityType
  pub party_type : String

abbrev top_slot : String → EntityType → RefSlot
top_slot k t = record { within = ""; key = k; target = t; party_type = "" }

unfoldable pub ref_slots : EntityType → List RefSlot
ref_slots party =
    record {
      within = details_key;
      key = "parentOrganizationRef";
      target = party;
      party_type = party_type_organization;
    }
    ∷ []
ref_slots farm = top_slot "_agmasync_growerRef" party ∷ []
ref_slots field = top_slot "_agmasync_farmRef" farm ∷ top_slot "_agmasync_growerRef" party ∷ []
ref_slots field_boundary = top_slot "_agmasync_fieldRef" field ∷ []

pub record Binding : Type 0 where
  pub local_id : String
  pub agrirouter_id : ℕ

-- Why a mapping was refused: agmasync/errors.go.
pub data Reason : Type 0 where
  local_id_already_bound agrirouter_id_already_bound unknown_object duplicate_in_request : Reason

pub record Rejection : Type 0 where
  pub local_id : String
  pub agrirouter_id : ℕ
  pub reason : Reason
  pub existing : Option Binding

-- The initial-load states; `other` is any other text, which a request may name.
pub data LoadPhase : Type 0 where
  loading_from_agrirouter reconciling loading_to_agrirouter completed : LoadPhase
  other : String → LoadPhase

abbrev pub same_phase : LoadPhase → LoadPhase → Bool
same_phase loading_from_agrirouter loading_from_agrirouter = true
same_phase reconciling reconciling = true
same_phase loading_to_agrirouter loading_to_agrirouter = true
same_phase completed completed = true
same_phase (other s) (other t) = str_eq s t
same_phase _ _ = false

pub record LoadState : Type 0 where
  pub state : LoadPhase
  pub awaiting_user : Bool
  pub updated_at : ℕ
  pub rejected : List Rejection

pub record Endpoint : Type 0 where
  pub id : ℕ
  pub external_id : String
  pub app_id : String
  pub tenant_id : ℕ
  pub declared : EntityType → Bool
  pub toggles : EntityType → Bool
  pub selection_changed_at : ℕ
  pub selection_changed_seq : ℕ
  pub load : Option LoadState
  pub previous_load_completed_at : Option ℕ
  pub drop_load : Bool
  pub corrupt_load : Bool

abbrev pub opted_into : Endpoint → EntityType → Bool
opted_into ep t = ep.toggles t
