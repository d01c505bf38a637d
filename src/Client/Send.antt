-- ===== src/Client/Send.antt =====
-- What an endpoint sends: Send, Deactivate and bindAsSibling of
-- reference-client/internal/platform/sync/outbound.go. A request to agrirouter is a step of a world W
-- with an answer; it is never made inside a transaction, so what was committed before it stays.
pub mod Guarded
use masterdata_sync_working.Prelude.{
  ℕ, String, Bool, true, false, ◌&&◌, ◌||◌, not, is_some, Option, none, some, List, [], ◌∷◌,
  if◌then◌else◌,
}
use masterdata_sync_working.Json.{Value, Fields, del}
use masterdata_sync_working.Failure.{panic, Result, ok, err, invalid, not_found, ◌>>=◌}
use masterdata_sync_working.Model.{EntityType}
use masterdata_sync_working.Client.Pairs.{
  Namespace, SyncRow, sync_row, sibling_row_by_local_id, put_sync_row,
}
use masterdata_sync_working.Client.Database.{Entity, Record, Tables, Database}
use masterdata_sync_working.Client.Codec.{to_entity}
use masterdata_sync_working.Client.Apply.{Applier, Outcome, unselected_refs, apply}

-- The endpoint's requests: Bind, Put and Deactivate of
-- reference-client/internal/platform/agrirouter/agrirouter.go.
pub record Requests (W : Type 0) : Type 0 where
  pub bind_object : Applier → EntityType → String → ℕ → W → W × Result (Unit {0})
  pub put : Applier → Value → Option ℕ → W → W × Result Entity
  pub deactivate_object : Applier → EntityType → String → Option ℕ → W → W × Result Entity

-- delete(record.Modelled, attribute), for each
unfoldable pub without : List String → Fields → Fields
unfolding del
without [] fs = fs
without (k ∷ ks) fs = without ks (del k fs)

abbrev pub row_bound : Option SyncRow → Bool
row_bound none = false
row_bound (some row) = is_some row.agrirouter_id

abbrev pub row_unbound : Option SyncRow → Bool
row_unbound none = false
row_unbound (some row) = row.unbound

-- The base of a write: the revision of the pair, if there is one.
abbrev pub base_of : Option SyncRow → Option ℕ
base_of none = none
base_of (some row) = if is_some row.agrirouter_id then row.revision else none

-- The pair that bindAsSibling writes.
abbrev pub sibling_pair : Applier → EntityType → String → SyncRow → SyncRow
sibling_pair a typ l sibling = record {
  endpoint = a.namespace;
  typ = typ;
  local_id = l;
  agrirouter_id = sibling.agrirouter_id;
  revision = sibling.revision;
  unbound = false;
}

module _ {T W : Type 0} (db : Tables T) (rq : Requests W) (a : Applier) where
  abbrev pub Sending : Type 0
  Sending = W × Database T × Result Outcome

  -- The answer to a request, applied.
  abbrev pub apply_answer :
      W × Result Entity → String → Option (List EntityType) → Database T → Sending
  apply_answer (w, err f) fresh selected d = (w, d, err f)
  apply_answer (w, ok e) fresh selected d = elim (apply db a e "" fresh none selected d) [
    | err f ↦ (w, d, err f)
    | ok (d, o) ↦ (w, d, ok o)
  ]

  -- The row written once agrirouter has recorded the pair, and what follows with it.
  unfoldable pub take_pair :
      EntityType
      → String
      → SyncRow
      → W × Result (Unit {0})
      → Database T
      → (W → Database T → Option SyncRow → Sending)
      → Sending
  unfolding put_sync_row
  take_pair typ l sibling (w, err f) d next = (w, d, err f)
  take_pair typ l sibling (w, ok u) d next =
      elim (put_sync_row (sibling_pair a typ l sibling) d.pairs) [
        | err f ↦ (w, d, err f)
        | ok pairs ↦ next w (record d { pairs = pairs }) (some (sibling_pair a typ l sibling))
      ]

  -- bindAsSibling, and what follows it
  unfoldable pub bind_as_sibling :
      EntityType → String → W → Database T → (W → Database T → Option SyncRow → Sending) → Sending
  unfolding sibling_row_by_local_id take_pair
  bind_as_sibling typ l w d next = elim (sibling_row_by_local_id a.namespace typ l d.pairs) [
    | none ↦ next w d none
    | some sibling ↦ elim sibling.agrirouter_id [
      | none ↦ (w, d, err panic)
      | some id ↦ take_pair typ l sibling (rq.bind_object a typ l id w) d next
    ]
  ]

  -- The end of send: the record as a write against the pair's revision.
  unfoldable pub put_record :
      String
      → String
      → Option (List EntityType)
      → Record
      → W
      → Database T
      → Option SyncRow
      → Sending
  unfolding to_entity
  put_record l fresh selected r w d row =
      if row_unbound row
      then (w, d, err (invalid "sync: the record is unbound"))
      else elim (to_entity r l) [
        | err f ↦ (w, d, err f)
        | ok body ↦ apply_answer (rq.put a body (base_of row) w) fresh selected d
      ]

  -- What send does with the endpoint's row for the record.
  unfoldable pub send_record :
      EntityType
      → String
      → String
      → Option (List EntityType)
      → Record
      → W
      → Database T
      → Option SyncRow
      → Sending
  unfolding bind_as_sibling put_record
  send_record typ l fresh selected r w d row =
      if not (row_bound row) && not (row_unbound row)
      then bind_as_sibling typ l w d (put_record l fresh selected r)
      else put_record l fresh selected r w d row

  -- send, and Send where there is no selection
  unfoldable pub send :
      EntityType → String → String → Option (List EntityType) → W → Database T → Sending
  unfolding without unselected_refs sync_row send_record
  send typ l fresh selected w d = elim (db.load typ l d.records) [
    | none ↦ (w, d, err not_found)
    | some r ↦
        send_record typ l fresh selected
          (record r { modelled = without (unselected_refs db a typ selected d) r.modelled }) w d
          (sync_row a.namespace typ l d.pairs)
  ]

  -- The end of Deactivate.
  unfoldable pub end_record :
      EntityType → String → String → W → Database T → Option SyncRow → Sending
  end_record typ l fresh w d row =
      if not (row_bound row)
      then (w, d, err (invalid "sync: the record was never sent"))
      else apply_answer (rq.deactivate_object a typ l (base_of row) w) fresh none d

  -- Deactivate
  unfoldable pub deactivate_record : EntityType → String → String → W → Database T → Sending
  unfolding sync_row bind_as_sibling end_record
  deactivate_record typ l fresh w d =
      let row = sync_row a.namespace typ l d.pairs in
      if not (row_bound row) && not (row_unbound row)
      then bind_as_sibling typ l w d (end_record typ l fresh)
      else end_record typ l fresh w d row
