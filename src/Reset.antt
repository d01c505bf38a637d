-- ===== src/Reset.antt =====
-- A masterdata reset of a tenant: reference-client/internal/testrouter/reset.go.
pub mod Wipes
use Prim.Native.String.{compare}
use text.Mathlib.Text.{is_lt}
use masterdata_sync_working.Prelude.{
  ℕ, ◌+◌, String, Bool, true, false, ◌&&◌, not, Option, none, some, List, [], ◌∷◌, keep, map, sort,
  ◌==◌, str_eq, if◌then◌else◌, is_some,
}
use masterdata_sync_working.Json.{Items, nil, cons, Fields, empty, entry, str, obj, arr}
use masterdata_sync_working.Failure.{Result, ok, err, not_found}
use masterdata_sync_working.Platform.{Platform}
use masterdata_sync_working.Model.{Object, Endpoint}
use masterdata_sync_working.Position.{encode_position}
use masterdata_sync_working.Hub.{Frame, Hub, masterdata_reset, publish}
use masterdata_sync_working.Store.{Store, TenantReset, find_object}

abbrev pub text_before : String → String → Bool
text_before a b = is_lt (compare a b)

-- resetRecipientsLocked
unfoldable pub reset_recipients : Store → ℕ → List String
reset_recipients s tenant = sort text_before (s.participants tenant)

-- sortedEndpoints, of streams.go
unfoldable pub sorted_endpoints : List Endpoint → List Endpoint
sorted_endpoints = sort (λ (a b : Endpoint). text_before a.external_id b.external_id)

module _ (p : Platform) where
  endpoint_items : List Endpoint → Items
  endpoint_items [] = nil
  endpoint_items (ep ∷ eps) =
      cons
        (obj (
          entry "endpoint_id" (str (p.uuid_string ep.id))
            (entry "external_id" (str ep.external_id) empty)))
        (endpoint_items eps)

  -- resetFrameLocked
  unfoldable pub reset_frame : Store → ℕ → String → List ℕ → Frame
  unfolding endpoint_items sorted_endpoints
  reset_frame s tenant app_id id =
      let listed =
        keep (λ (ep : Endpoint). ep.tenant_id == tenant && str_eq ep.app_id app_id)
          (sorted_endpoints s.endpoints) in
      record {
        event = masterdata_reset;
        id = id;
        entity = some (
            obj (
              entry "endpoints" (arr (endpoint_items listed)) (
                entry "event_type" (str "RESET_MASTERDATA_SYNC")
                  (entry "tenant_id" (str (p.uuid_string tenant)) empty))));
      }

  unfoldable pub announce : Store → ℕ → List ℕ → List String → Hub → Hub
  unfolding reset_frame
  announce s tenant id [] hub = hub
  announce s tenant id (app ∷ apps) hub =
      announce s tenant id apps (publish app (reset_frame s tenant app id) hub)

-- An endpoint of the tenant is opted into nothing, with no load and no marker of one.
unfoldable pub opt_out : ℕ → Endpoint → Endpoint
opt_out tenant ep =
    if ep.tenant_id == tenant
    then record ep { toggles = λ _. false; load = none; previous_load_completed_at = none }
    else ep

-- An entry of the mapping stays if its object does.
abbrev pub keep_known : List Object → Option ℕ → Option ℕ
keep_known objects none = none
keep_known objects (some id) = if is_some (find_object id objects) then some id else none

-- The part of ResetTenant that removes.
unfoldable pub wiped : ℕ → Store → Store
wiped tenant s =
    let objects = keep (λ (o : Object). not (o.tenant_id == tenant)) s.objects in
    record s {
      objects = objects;
      local = λ ep typ local_id. keep_known objects (s.local ep typ local_id);
      canonical = λ ep id. if is_some (find_object id objects) then s.canonical ep id else none;
      local_entries = λ ep id.
          if is_some (s.canonical ep id) && not (is_some (find_object id objects))
          then none
          else s.local_entries ep id;
      endpoints = map (opt_out tenant) s.endpoints;
    }

-- resets[tenant] = r
unfoldable pub put_reset : TenantReset → List TenantReset → List TenantReset
put_reset r [] = r ∷ []
put_reset r (x ∷ xs) = if x.tenant_id == r.tenant_id then r ∷ xs else x ∷ put_reset r xs

-- ResetTenant
unfoldable pub reset_tenant : Platform → ℕ → Store → Result Store
reset_tenant p tenant s =
    if not (s.tenants tenant)
    then err not_found
    else (let apps = reset_recipients s tenant in
        let w = wiped tenant s in
        let r : TenantReset = record { tenant_id = tenant; seq = w.seq + 1; apps = apps } in
        let t = record w { seq = w.seq + 1; resets = put_reset r w.resets } in
        ok (record t { hub = announce p t tenant (encode_position t.seq) apps t.hub }))
