-- ===== src/History.antt =====
-- The router over time: the operations of reference-client/internal/testrouter on its one store, each
-- under its lock, in any order and by any endpoint.
pub mod Sound
pub mod Invariant
use masterdata_sync_working.Prelude.{ℕ, String, Bool, Option, none, List, ◌≡◌}
use masterdata_sync_working.Json.{Value}
use masterdata_sync_working.Failure.{ok}
use masterdata_sync_working.Platform.{Platform}
use masterdata_sync_working.Model.{EntityType, Endpoint, LoadPhase, Binding}
use masterdata_sync_working.Assigned.{SentIdentity}
use masterdata_sync_working.Store.{Store, new_store, object_type}
use masterdata_sync_working.Mapping.{Correction, bind, correct}
use masterdata_sync_working.Write.{put_entity, deactivate}
use masterdata_sync_working.Write.Merge.{ℤ}
use masterdata_sync_working.InitialLoad.{start_load, advance_load_state, raise_awaiting_user}
use masterdata_sync_working.Reset.{reset_tenant}
use masterdata_sync_working.Selection.{
  select_types, declare_types, insert_endpoint, remove_endpoint,
}
use masterdata_sync_working.Streams.{live_stream, take_drop, finish_load, request}

-- One operation. A put creates under an identifier that no object has, as uuid.New makes it; a
-- request that fails leaves the store, but for a refused put, which may have kept a local entry.
pub data Step (p : Platform) : Store → Store → Type 0 where
  puts :
      {s : Store} (ep : Endpoint) (typ : EntityType) (local_id : String) (body : Value)
      (base : Option ℤ) (sent : SentIdentity) (fresh now : ℕ)
      → object_type s fresh ≡ none
      → Step p s (put_entity p ep typ local_id body base sent fresh now s).0
  deactivates :
      {s : Store} (ep : Endpoint) (typ : EntityType) (local_id : String) (base : Option ℤ) (now : ℕ)
      → Step p s (deactivate p ep typ local_id base now s).0
  binds :
      {s t : Store} (ep : Endpoint) (typ : EntityType) (local_id : String) (id : ℕ)
      → bind ep typ local_id id s ≡ ok t
      → Step p s t
  corrects :
      {s t : Store} (ep : Endpoint) (typ : EntityType) (entries : List Correction)
      → correct ep typ entries s ≡ ok t
      → Step p s t
  requests :
      {s t : Store} (ep : Endpoint) (typ : EntityType) (id : ℕ)
      → request p ep typ id s ≡ ok t
      → Step p s t
  advances :
      {s t : Store} (ep : Endpoint) (target : LoadPhase) (bindings : List Binding) (now : ℕ)
      → advance_load_state ep target bindings now s ≡ ok t
      → Step p s t
  asks_user :
      {s t : Store} (ep : Endpoint) (now : ℕ) → raise_awaiting_user ep now s ≡ ok t → Step p s t
  starts_load : {s : Store} (ep : Endpoint) (now : ℕ) → Step p s (start_load ep now s)
  ends_load :
      {s : Store} (ep : Endpoint) (drop corrupt : Bool) (now : ℕ)
      → Step p s (finish_load ep drop corrupt now s)
  drops_load : {s : Store} (ep : Endpoint) → Step p s (take_drop ep s).1
  connects :
      {s : Store} (app_id : String) (last_event_id : List ℕ) (channel : ℕ)
      → Step p s (live_stream p app_id last_event_id channel s).1
  selects :
      {s t : Store} (ep : Endpoint) (types : List EntityType) (now : ℕ)
      → select_types p ep types now s ≡ ok t
      → Step p s t
  declares :
      {s t : Store} (ep : Endpoint) (types : List EntityType)
      → declare_types p ep types s ≡ ok t
      → Step p s t
  onboards :
      {s : Store} (external_id app_id : String) (tenant fresh : ℕ)
      → Step p s (insert_endpoint external_id app_id tenant fresh s).0
  unregisters : {s : Store} (ep : Endpoint) → Step p s (remove_endpoint ep s)
  resets : {s t : Store} (tenant : ℕ) → reset_tenant p tenant s ≡ ok t → Step p s t

-- The stores that operations lead to from the empty one.
pub data Reachable (p : Platform) : Store → Type 0 where
  at_start : Reachable p new_store
  after : {s t : Store} → Reachable p s → Step p s t → Reachable p t
