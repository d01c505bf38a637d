-- ===== src/Assigned.antt =====
-- What a write says of the fields that agrirouter assigns: sentIdentity of
-- reference-client/internal/testrouter/assigned.go.
use masterdata_sync_working.Prelude.{
  ℕ, String, Bool, true, not, Option, none, some, ◌==◌, str_eq, if◌then◌else◌,
}
use masterdata_sync_working.Json.{Value, null, str, obj, Fields, empty, get}
use masterdata_sync_working.Failure.{Result, ok, err, invalid, ◌>>=◌, ◌>>◌}
use masterdata_sync_working.Platform.{Platform}
use masterdata_sync_working.Model.{EntityType, type_name}
use masterdata_sync_working.Identity.{WireId, LocalEntry, read}
use masterdata_sync_working.Identity.Wire.{decode_pointer, decode_id}

pub record SentIdentity : Type 0 where
  pub typ : Option String
  pub tenant_id : Option ℕ
  -- the agrirouter entry of `content.id`
  pub agrirouter_id : Option ℕ
  -- the local entry, `none` where the write sent none
  pub local : Option LocalEntry

-- The fields of a JSON object; a null decodes as the empty struct, and what else is an error.
abbrev pub object_of : Value → Result Fields
object_of null = ok empty
object_of (obj fs) = ok fs
object_of _ = err (invalid "malformed entity")

sent_type : Option Value → Result (Option String)
unfolding decode_pointer
sent_type v = elim (decode_pointer v) [
  | none ↦ err (invalid "type or tenant_id is malformed")
  | some t ↦ ok t
]

module _ (p : Platform) where
  -- A `*uuid.UUID` field, read by uuid.Parse.
  sent_tenant : Option Value → Result (Option ℕ)
  sent_tenant none = ok none
  sent_tenant (some null) = ok none
  sent_tenant (some (str s)) = elim (p.parse_uuid s) [
    | none ↦ err (invalid "type or tenant_id is malformed")
    | some id ↦ ok (some id)
  ]
  sent_tenant (some _) = err (invalid "type or tenant_id is malformed")

  -- `content.id`, which a write has to carry.
  sent_id : Option Value → Result WireId
  unfolding decode_id
  sent_id none = err (invalid "content.id is required")
  sent_id (some null) = err (invalid "content.id is required")
  sent_id (some v) = elim (decode_id v) [
    | none ↦ err (invalid "content.id is malformed")
    | some id ↦ ok id
  ]

  sent_content_id : Option Value → Result WireId
  unfolding sent_id
  sent_content_id (some (obj fs)) = sent_id (get "id" fs)
  sent_content_id none = err (invalid "content.id is required")
  sent_content_id (some null) = err (invalid "content.id is required")
  sent_content_id (some _) = err (invalid "content.id is malformed")

  -- `content.id.referenceId` is the identifier that the path writes under.
  names_path : Option String → String → Result (Unit {0})
  names_path none local_id = err (invalid "content.id.referenceId must be the local_id of the path")
  names_path (some r) local_id =
      if str_eq r local_id
      then ok tt
      else err (invalid "content.id.referenceId must be the local_id of the path")

  -- decodeSentIdentity
  unfoldable pub decode_sent_identity : Value → String → Result SentIdentity
  unfolding sent_type sent_tenant sent_content_id names_path
  decode_sent_identity raw local_id = do
    fs ← object_of raw
    t ← sent_type (get "type" fs)
    tenant ← sent_tenant (get "tenant_id" fs)
    id ← sent_content_id (get "content" fs)
    names_path id.reference_id local_id
    entries ← read p id
    ok (record { typ = t; tenant_id = tenant; agrirouter_id = entries.0; local = entries.1 })

type_agrees : Option String → EntityType → Bool
type_agrees none typ = true
type_agrees (some t) typ = if str_eq t "" then true else str_eq t (type_name typ)

tenant_agrees : Option ℕ → ℕ → Bool
tenant_agrees none tenant_id = true
tenant_agrees (some t) tenant_id = t == tenant_id

-- checkRequest
unfoldable pub check_request : SentIdentity → EntityType → ℕ → Result (Unit {0})
unfolding type_agrees tenant_agrees
check_request sent typ tenant_id =
    if not (type_agrees sent.typ typ)
    then err (invalid "type does not match the path")
    else if not (tenant_agrees sent.tenant_id tenant_id)
    then err (invalid "tenant_id does not match the tenant of the acting endpoint")
    else ok tt

-- checkBinding, `none` standing for a localId that is not known.
unfoldable pub check_binding : Option ℕ → Option ℕ → Result (Unit {0})
check_binding none bound = ok tt
check_binding (some id) none = err (invalid "the agrirouter entry is not bound to local_id")
check_binding (some id) (some bound) =
    if id == bound
    then ok tt
    else err (invalid "the agrirouter entry does not match the object local_id is bound to")
