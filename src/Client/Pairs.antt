-- ===== src/Client/Pairs.antt =====
-- The correspondence table agmasync_object of the platform's database, and the queries on it:
-- reference-client/internal/platform/store/store.go, with the keys that schema.sql declares. The table
-- is the list of its rows; a query that finds none is `none`, for ErrNotFound.
pub mod Keys
pub mod View
use masterdata_sync_working.Prelude.{
  ℕ, ◌+◌, String, Bool, true, false, ◌&&◌, ◌||◌, not, Option, none, some, List, [], ◌∷◌, any, keep,
  sort, length, ◌==◌, str_eq, if◌then◌else◌, is_some,
}
use masterdata_sync_working.Failure.{Result, ok, err, invalid}
use masterdata_sync_working.Model.{EntityType, same_type, type_name}
use masterdata_sync_working.Reset.{text_before}

-- Endpoint: the namespace of a pair.
pub record Namespace : Type 0 where
  pub tenant_id : ℕ
  pub external_id : String

pub record SyncRow : Type 0 where
  pub endpoint : Namespace
  pub typ : EntityType
  pub local_id : String
  pub agrirouter_id : Option ℕ
  pub revision : Option ℕ
  pub unbound : Bool

-- (r SyncRow) Bound
unfoldable pub is_bound : SyncRow → Bool
is_bound r = is_some r.agrirouter_id

abbrev pub same_namespace : Namespace → Namespace → Bool
same_namespace a b = a.tenant_id == b.tenant_id && str_eq a.external_id b.external_id

-- The primary key: endpoint, entity type and local identifier.
unfoldable pub keyed : Namespace → EntityType → String → SyncRow → Bool
keyed ns typ l r = same_namespace r.endpoint ns && same_type r.typ typ && str_eq r.local_id l

-- Whether a nullable column holds a value.
abbrev pub names : Option ℕ → ℕ → Bool
names none id = false
names (some i) id = i == id

unfoldable pub first {ℓ} : {A : Type ℓ} → (A → Bool) → List A → Option A
first q [] = none
first q (x ∷ xs) = if q x then some x else first q xs

-- SyncRow
unfoldable pub sync_row : Namespace → EntityType → String → List SyncRow → Option SyncRow
unfolding first
sync_row ns typ l rows = first (keyed ns typ l) rows

abbrev pub canonically : Namespace → EntityType → ℕ → SyncRow → Bool
canonically ns typ id r =
    same_namespace r.endpoint ns && same_type r.typ typ && names r.agrirouter_id id

-- SyncRowByAgrirouterID
unfoldable pub sync_row_by_agrirouter_id :
    Namespace → EntityType → ℕ → List SyncRow → Option SyncRow
unfolding first
sync_row_by_agrirouter_id ns typ id rows = first (canonically ns typ id) rows

-- ORDER BY external_endpoint_id LIMIT 1
abbrev by_endpoint : SyncRow → SyncRow → Bool
by_endpoint a b = text_before a.endpoint.external_id b.endpoint.external_id

abbrev sibling : Namespace → EntityType → ℕ → SyncRow → Bool
sibling ns typ id r =
    same_type r.typ typ && names r.agrirouter_id id && not (same_namespace r.endpoint ns)

-- SiblingRow
unfoldable pub sibling_row : Namespace → EntityType → ℕ → List SyncRow → Option SyncRow
unfolding first
sibling_row ns typ id rows = first (sibling ns typ id) (sort by_endpoint rows)

abbrev sibling_named : Namespace → EntityType → String → SyncRow → Bool
sibling_named ns typ l r =
    r.endpoint.tenant_id == ns.tenant_id
    && not (str_eq r.endpoint.external_id ns.external_id)
    && same_type r.typ typ
    && str_eq r.local_id l
    && is_some r.agrirouter_id

-- SiblingRowByLocalID
unfoldable pub sibling_row_by_local_id :
    Namespace → EntityType → String → List SyncRow → Option SyncRow
unfolding first
sibling_row_by_local_id ns typ l rows = first (sibling_named ns typ l) (sort by_endpoint rows)

-- The row written over the one of its key, or a row more.
unfoldable pub upsert : SyncRow → List SyncRow → List SyncRow
upsert r [] = r ∷ []
upsert r (x ∷ rows) = if keyed r.endpoint r.typ r.local_id x then r ∷ rows else x ∷ upsert r rows

-- The unique index on the canonical identifier: a row of another key that holds the same.
abbrev pub breaks_index : SyncRow → SyncRow → Bool
breaks_index r x =
    not (keyed r.endpoint r.typ r.local_id x)
    && elim r.agrirouter_id [ none ↦ false | some id ↦ canonically r.endpoint r.typ id x ]

-- PutSyncRow: the row's marker is cleared.
unfoldable pub put_sync_row : SyncRow → List SyncRow → Result (List SyncRow)
unfolding upsert
put_sync_row r rows =
    if r.endpoint.tenant_id == 0 || str_eq r.endpoint.external_id ""
    then err (invalid "writing sync row: no endpoint")
    else if any (breaks_index r) rows
    then err (invalid "writing sync row: UNIQUE constraint failed")
    else ok (upsert (record r { unbound = false }) rows)

-- Unbind
unfoldable pub unbind : Namespace → EntityType → String → List SyncRow → List SyncRow
unbind ns typ l [] = []
unbind ns typ l (r ∷ rows) =
    (if keyed ns typ l r
      then record r { agrirouter_id = none; revision = none; unbound = true }
      else r)
    ∷ unbind ns typ l rows

-- DropSyncRow
unfoldable pub drop_sync_row : Namespace → EntityType → String → List SyncRow → List SyncRow
drop_sync_row ns typ l rows = keep (λ (r : SyncRow). not (keyed ns typ l r)) rows

-- The statement of DeleteRecord on the table: every endpoint's row for a record.
unfoldable pub delete_rows : EntityType → String → List SyncRow → List SyncRow
delete_rows typ l rows =
    keep (λ (r : SyncRow). not (same_type r.typ typ && str_eq r.local_id l)) rows

-- DiscardTenant, with the count of the rows affected
unfoldable pub discard_tenant : ℕ → List SyncRow → List SyncRow × ℕ
discard_tenant tenant rows = (
  keep (λ (r : SyncRow). not (r.endpoint.tenant_id == tenant)) rows,
  length (keep (λ (r : SyncRow). r.endpoint.tenant_id == tenant) rows),
)

-- ORDER BY entity_type, local_id
abbrev pub by_key : SyncRow → SyncRow → Bool
by_key a b =
    text_before (type_name a.typ) (type_name b.typ)
    || (str_eq (type_name a.typ) (type_name b.typ) && text_before a.local_id b.local_id)

-- Bindings
unfoldable pub bindings : Namespace → List SyncRow → List SyncRow
unfolding is_bound type_name
bindings ns rows =
    sort by_key (keep (λ (r : SyncRow). same_namespace r.endpoint ns && is_bound r) rows)

abbrev is_in_tenant : ℕ → EntityType → String → SyncRow → Bool
is_in_tenant tenant typ l r =
    r.endpoint.tenant_id == tenant && same_type r.typ typ && str_eq r.local_id l

-- BoundInTenant
unfoldable pub bound_in_tenant : ℕ → EntityType → String → List SyncRow → Bool
unfolding is_bound
bound_in_tenant tenant typ l rows =
    any (λ (r : SyncRow). is_in_tenant tenant typ l r && is_bound r) rows

-- ClaimedInTenant
unfoldable pub claimed_in_tenant : ℕ → EntityType → String → List SyncRow → Bool
unfolding is_bound
claimed_in_tenant tenant typ l rows =
    any (λ (r : SyncRow). is_in_tenant tenant typ l r && (is_bound r || r.unbound)) rows
