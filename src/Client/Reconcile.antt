-- ===== src/Client/Reconcile.antt =====
-- The reconciliation of an initial load, by the Loader of
-- reference-client/internal/platform/sync/initialload.go: the pairs that it confirms, what it gives up
-- of those refused, and the records that it then offers.
mod Dropped
pub mod Agreed
use masterdata_sync_working.Prelude.{
  ℕ, String, Bool, true, false, ◌&&◌, ◌||◌, Option, none, some, List, [], ◌∷◌, any, ◌==◌, str_eq,
  if◌then◌else◌, is_some,
}
use masterdata_sync_working.Failure.{Result, ok, err, invalid, not_found, ◌>>=◌}
use masterdata_sync_working.Model.{EntityType, same_type, Binding, Rejection}
use masterdata_sync_working.Client.Pairs.{
  Namespace, SyncRow, names, sync_row, bindings, unbind, is_bound,
}
use masterdata_sync_working.Client.Database.{Record, Tables, Database, local_ids}

-- The rows of the wanted types, as the pairs of a confirmation.
unfoldable pub confirmation : List EntityType → List SyncRow → List Binding
confirmation types [] = []
confirmation types (r ∷ rows) =
    let rest = confirmation types rows in
    if any (same_type r.typ) types
    then elim r.agrirouter_id [
      | none ↦ rest
      | some id ↦ record { local_id = r.local_id; agrirouter_id = id } ∷ rest
    ]
    else rest

-- (l *Loader) bindings
unfoldable pub loaded_bindings : Namespace → List EntityType → List SyncRow → List Binding
unfolding confirmation bindings
loaded_bindings ns types rows = confirmation types (bindings ns rows)

-- typeOf: the type of the last row with a pair.
unfoldable pub type_of : List SyncRow → String → ℕ → Option EntityType
type_of [] l id = none
type_of (r ∷ rows) l id = elim (type_of rows l id) [
  | some typ ↦ some typ
  | none ↦ if str_eq r.local_id l && names r.agrirouter_id id then some r.typ else none
]

-- The loop of dropRejected: the pairs left, the records dropped, and whether a rejection has no row.
unfoldable pub drop_each :
    Namespace
    → (String → ℕ → Option EntityType)
    → List Rejection
    → List SyncRow
    → List SyncRow × List (EntityType × String) × Bool
unfolding unbind
drop_each ns typed [] rows = (rows, [], false)
drop_each ns typed (r ∷ rs) rows = elim (typed r.local_id r.agrirouter_id) [
  | none ↦ let rest = drop_each ns typed rs rows in (rest.0, rest.1, true)
  | some typ ↦
      let rest = drop_each ns typed rs (unbind ns typ r.local_id rows) in
      (rest.0, (typ, r.local_id) ∷ rest.1, rest.2)
]

-- dropRejected
unfoldable pub drop_rejected :
    Namespace → List Rejection → List SyncRow → Result (List SyncRow × List (EntityType × String))
unfolding drop_each type_of bindings
drop_rejected ns rejected rows =
    let dropped = drop_each ns (type_of (bindings ns rows)) rejected rows in
    if dropped.2
    then err (invalid "sync: agrirouter rejected bindings the platform does not hold")
    else ok (dropped.0, dropped.1)

abbrev pub skips : List (EntityType × String) → EntityType → String → Bool
skips skip typ l = any (λ (r : EntityType × String). same_type r.0 typ && str_eq r.1 l) skip

-- A pair, or the mark of one refused: the record is not offered.
abbrev pub is_settled : Option SyncRow → Bool
is_settled none = false
is_settled (some row) = is_some row.agrirouter_id || row.unbound

module _ {T : Type 0} (db : Tables T) (tenant : String) (ns : Namespace) where
  -- What push offers of one type: no record that was dropped, has a pair or is marked, or is archived.
  unfoldable pub pending :
      List (EntityType × String) → EntityType → Database T → List String → Result (List String)
  unfolding sync_row
  pending skip typ d [] = ok []
  pending skip typ d (l ∷ ls) =
      let rest = pending skip typ d ls in
      if skips skip typ l || is_settled (sync_row ns typ l d.pairs)
      then rest
      else elim (db.load typ l d.records) [
        | none ↦ err not_found
        | some r ↦ if r.archived then rest else rest >>= λ ls. ok (l ∷ ls)
      ]

  unfoldable pub offered :
      List (EntityType × String) → EntityType → Database T → Result (List String)
  unfolding pending local_ids
  offered skip typ d = pending skip typ d (local_ids tenant typ d)
