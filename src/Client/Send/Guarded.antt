-- ===== src/Client/Send/Guarded.antt =====
-- When a write goes out: Send of reference-client/internal/platform/sync/outbound.go.
use masterdata_sync_working.Prelude.{
  ℕ, String, true, false, is_some, Option, none, some, List, ◌≡◌, ◌⊎◌,
}
use masterdata_sync_working.Json.{Value}
use masterdata_sync_working.Failure.{Failure, ok, err}
use masterdata_sync_working.Model.{EntityType}
use masterdata_sync_working.Client.Pairs.{SyncRow, sync_row, sibling_row_by_local_id, put_sync_row}
use masterdata_sync_working.Client.Database.{Record, Tables, Database}
use masterdata_sync_working.Client.Codec.{to_entity}
use masterdata_sync_working.Client.Apply.{Applier, unselected_refs}
use masterdata_sync_working.Client.Send.{
  Requests, row_bound, row_unbound, sibling_pair, Sending, apply_answer, without,
}

module _ {T W : Type 0} (db : Tables T) (rq : Requests W) (a : Applier) (typ : EntityType)
    (l fresh : String) (selected : Option (List EntityType)) where
  -- The record as it is sent: the stored one without the references of types that are not selected.
  abbrev pub Loaded : Database T → Record → Type 0
  Loaded d r =
      (stored : Record) × (db.load typ l d.records ≡ some stored)
      × (r ≡ record stored {
        modelled = without (unselected_refs db a typ selected d) stored.modelled;
      })

  -- The requests and changes before an update: none; or the one request that binds the object of a
  -- sibling endpoint's pair, granted, and that pair written for the endpoint.
  abbrev pub Paired : W → Database T → W → Database T → Type 0
  Paired w d w' d' =
      ((w' ≡ w) × (d' ≡ d))
      ⊎ ((sibling : SyncRow) × (id : ℕ) × (pairs : List SyncRow) × (u : Unit {0})
          × (sibling_row_by_local_id a.namespace typ l d.pairs ≡ some sibling)
          × (sibling.agrirouter_id ≡ some id)
          × (rq.bind_object a typ l id w ≡ (w', ok u))
          × (put_sync_row (sibling_pair a typ l sibling) d.pairs ≡ ok pairs)
          × (d' ≡ record d { pairs = pairs }))

  -- Nothing is put; or the put is of a record that the endpoint has a pair for, against that pair's
  -- revision; or of one that is not marked and that no endpoint of the tenant has bound.
  pub data Guarded (w : W) (d : Database T) : Sending db rq a → Type 0 where
    stops : (f : Failure) → Guarded w d (w, d, err f)
    stops_binding :
        (sibling : SyncRow) (id : ℕ) (f : Failure)
        → sibling_row_by_local_id a.namespace typ l d.pairs ≡ some sibling
        → sibling.agrirouter_id ≡ some id
        → Guarded w d ((rq.bind_object a typ l id w).0, d, err f)
    stops_bound :
        (sibling : SyncRow) (id : ℕ) (f : Failure) (pairs : List SyncRow)
        → sibling_row_by_local_id a.namespace typ l d.pairs ≡ some sibling
        → sibling.agrirouter_id ≡ some id
        → put_sync_row (sibling_pair a typ l sibling) d.pairs ≡ ok pairs
        → Guarded w d ((rq.bind_object a typ l id w).0, record d { pairs = pairs }, err f)
    updates :
        (w' : W) (d' : Database T) (r : Record) (body : Value) (row : SyncRow)
        → Paired w d w' d'
        → Loaded d r
        → to_entity r l ≡ ok body
        → sync_row a.namespace typ l d'.pairs ≡ some row
        → is_some row.agrirouter_id ≡ true
        → Guarded w d (apply_answer db rq a (rq.put a body row.revision w') fresh selected d')
    creates :
        (r : Record) (body : Value)
        → Loaded d r
        → to_entity r l ≡ ok body
        → row_bound (sync_row a.namespace typ l d.pairs) ≡ false
        → row_unbound (sync_row a.namespace typ l d.pairs) ≡ false
        → sibling_row_by_local_id a.namespace typ l d.pairs ≡ none
        → Guarded w d (apply_answer db rq a (rq.put a body none w) fresh selected d)
