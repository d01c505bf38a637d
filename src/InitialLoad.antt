-- ===== src/InitialLoad.antt =====
-- An endpoint's initial load: reference-client/internal/testrouter/initialload.go. A write
-- through the endpoint's pointer replaces it in the store; the clock's instant is an argument.
pub mod Phases
pub mod Duplicates
use masterdata_sync_working.Prelude.{
  ℕ, ◌+◌, String, Bool, true, false, ◌&&◌, ◌||◌, not, Option, none, some, List, [], ◌∷◌, ◌++◌, any,
  map, ◌==◌, ltb, str_eq, if◌then◌else◌,
}
use masterdata_sync_working.Json.{Value, Items, nil, cons, Fields, empty, entry, str, obj, arr}
use masterdata_sync_working.Failure.{
  Result, ok, err, not_found, initial_load_conflict, mapping_conflict, Failure,
}
use masterdata_sync_working.Platform.{Platform}
use masterdata_sync_working.Model.{
  EntityType, party, farm, field, field_boundary, same_type, type_name, Object, Endpoint, LoadState,
  LoadPhase, loading_from_agrirouter, reconciling, loading_to_agrirouter, completed, other,
  same_phase, Binding, Rejection, Reason, unknown_object, duplicate_in_request, opted_into,
}
use masterdata_sync_working.Position.{encode_position}
use masterdata_sync_working.Hub.{Frame, route_changed, publish}
use masterdata_sync_working.Store.{Store, find_object, object_type, put_endpoint}
use masterdata_sync_working.Mapping.{bind}

abbrev pub write_endpoint : Endpoint → Store → Store
write_endpoint ep s = record s { endpoints = put_endpoint ep s.endpoints }

-- &loadState{}
abbrev pub zero_load : LoadState
zero_load = record { state = other ""; awaiting_user = false; updated_at = 0; rejected = [] }

abbrev pub load_or_zero : Option LoadState → LoadState
load_or_zero none = zero_load
load_or_zero (some l) = l

-- setLoadState: the transitions that agrirouter drives.
unfoldable pub set_load_state : Endpoint → LoadPhase → ℕ → Store → Store
set_load_state ep state now s =
    let l = load_or_zero ep.load in
    write_endpoint (record ep { load = some (record l { state = state; updated_at = now }) }) s

-- The endpoint at the beginning of a load.
unfoldable pub started : Endpoint → ℕ → Endpoint
started ep now = record ep {
  load = some (record {
    state = loading_from_agrirouter;
    awaiting_user = false;
    updated_at = now;
    rejected = [];
  });
}

-- startLoad
unfoldable pub start_load : Endpoint → ℕ → Store → Store
unfolding started
start_load ep now s = write_endpoint (started ep now) s

abbrev pub entity_types : List EntityType
entity_types = party ∷ farm ∷ field ∷ field_boundary ∷ []

toggle_items : Endpoint → List EntityType → Items
toggle_items ep [] = nil
toggle_items ep (t ∷ ts) =
    if opted_into ep t
    then cons (obj (entry "entity_type" (str (type_name t)) empty)) (toggle_items ep ts)
    else toggle_items ep ts

-- selectedTogglesLocked, of router.go
unfoldable pub selected_toggles : Endpoint → Items
unfolding toggle_items
selected_toggles ep = toggle_items ep entity_types

-- routeChangedFrame, of streams.go; json.Marshal sorts the keys.
unfoldable pub route_changed_frame : Platform → Endpoint → List ℕ → Frame
unfolding selected_toggles
route_changed_frame p ep id = record {
  event = route_changed;
  id = id;
  entity = some (
      obj (
        entry "changed_at" (str (p.time_string ep.selection_changed_at)) (
          entry "endpoint_id" (str (p.uuid_string ep.id)) (
            entry "entity_types" (arr (selected_toggles ep)) (
              entry "event_type" (str "ROUTE_CHANGED") (
                entry "external_id" (str ep.external_id)
                  (entry "tenant_id" (str (p.uuid_string ep.tenant_id)) empty)))))));
}

-- recordParticipantLocked, of reset.go
unfoldable pub record_participant : Endpoint → Store → Store
record_participant ep s = record s {
  participants = λ tenant.
      if tenant == ep.tenant_id
      then (if any (str_eq ep.app_id) (s.participants tenant)
          then s.participants tenant
          else ep.app_id ∷ s.participants tenant)
      else s.participants tenant;
}

-- publishSelection
unfoldable pub publish_selection : Platform → Endpoint → Store → Store
unfolding record_participant route_changed_frame
publish_selection p ep s =
    let moved = record ep { selection_changed_seq = s.seq + 1 } in
    let t = record_participant moved (write_endpoint moved (record s { seq = s.seq + 1 })) in
    record t {
      hub = publish ep.app_id (route_changed_frame p moved (encode_position (s.seq + 1))) t.hub;
    }

-- The type of the object that a binding names.
abbrev pub binding_type : Store → Binding → Option EntityType
binding_type s b = object_type s b.agrirouter_id

abbrev pub count {ℓ} : {A : Type ℓ} → (A → Bool) → List A → ℕ
count p [] = 0
count p (x ∷ xs) = if p x then count p xs + 1 else count p xs

abbrev same_key : Option EntityType → Option EntityType → Bool
same_key (some t) (some u) = same_type t u
same_key _ _ = false

-- `duplicates[localKeyOf(ep, obj.typ, b.LocalID)]`
unfoldable pub duplicates : Store → List Binding → Binding → ℕ
duplicates s bindings b =
    count
      (λ (c : Binding).
        same_key (binding_type s c) (binding_type s b) && str_eq c.local_id b.local_id)
      bindings

-- `duplicateIDs[b.AgrirouterID]`
unfoldable pub duplicate_ids : List Binding → Binding → ℕ
duplicate_ids bindings b = count (λ (c : Binding). c.agrirouter_id == b.agrirouter_id) bindings

-- A binding of which another in the request names an identifier too.
unfoldable pub is_duplicate : Store → List Binding → Binding → Bool
unfolding duplicates duplicate_ids
is_duplicate s bindings b = ltb 1 (duplicates s bindings b) || ltb 1 (duplicate_ids bindings b)

abbrev pub rejected_for : Binding → Reason → Option Binding → Rejection
rejected_for b reason existing = record {
  local_id = b.local_id;
  agrirouter_id = b.agrirouter_id;
  reason = reason;
  existing = existing;
}

-- What a pair that could not be recorded comes back as.
unfoldable pub rejection_of : Binding → Failure → Rejection
rejection_of b (mapping_conflict c) = rejected_for b c.reason c.existing
rejection_of b _ = rejected_for b unknown_object none

unfoldable pub bind_result : Binding → Store → Result Store → Store × List Rejection
bind_result b s (ok t) = (t, [])
bind_result b s (err e) = (s, rejection_of b e ∷ [])

-- One round of the loop of applyBindings.
unfoldable pub apply_binding : Endpoint → Bool → Binding → Store → Store × List Rejection
apply_binding ep duplicate b s =
    if duplicate
    then (s, rejected_for b duplicate_in_request none ∷ [])
    else elim (find_object b.agrirouter_id s.objects) [
      | none ↦ (s, rejected_for b unknown_object none ∷ [])
      | some o ↦ bind_result b s (bind ep o.typ b.local_id b.agrirouter_id s)
    ]

-- The loop, over the bindings left; whether a pair is a duplicate is fixed before it.
unfoldable pub apply_each :
    Endpoint → (Binding → Bool) → List Binding → Store → Store × List Rejection
apply_each ep duplicate [] s = (s, [])
apply_each ep duplicate (b ∷ bs) s =
    let (t, first) = apply_binding ep (duplicate b) b s in
    let (u, rest) = apply_each ep duplicate bs t in (u, first ++ rest)

-- applyBindings
unfoldable pub apply_bindings : Endpoint → List Binding → Store → Store × List Rejection
apply_bindings ep bindings s = apply_each ep (is_duplicate s bindings) bindings s

-- The transitions that an endpoint drives, and repeating a state.
unfoldable pub legal : LoadPhase → LoadPhase → Bool
legal current target =
    same_phase target current
    || (same_phase current reconciling && same_phase target loading_to_agrirouter)
    || (same_phase current loading_to_agrirouter && same_phase target completed)

-- The endpoint after a legal transition.
unfoldable pub advanced : Endpoint → LoadState → LoadPhase → List Rejection → ℕ → Endpoint
advanced ep l target rejected now = record ep {
  load = some (record {
    state = target;
    awaiting_user = if same_phase target l.state then l.awaiting_user else false;
    updated_at = now;
    rejected = rejected;
  });
  previous_load_completed_at =
      if same_phase target completed then some now else ep.previous_load_completed_at;
}

-- advanceLoadState
unfoldable pub advance_load_state :
    Endpoint → LoadPhase → List Binding → (now : ℕ) → Store → Result Store
advance_load_state ep target bindings now s = elim ep.load [
  | none ↦ err not_found
  | some l ↦
      if same_phase target loading_from_agrirouter
      then err initial_load_conflict
      else if not (legal l.state target)
      then err initial_load_conflict
      else if same_phase target loading_to_agrirouter
      then (let (t, rejected) = apply_bindings ep bindings s in
          ok (write_endpoint (advanced ep l target rejected now) t))
      else ok (write_endpoint (advanced ep l target l.rejected now) s)
]

-- raiseAwaitingUser
unfoldable pub raise_awaiting_user : Endpoint → (now : ℕ) → Store → Result Store
raise_awaiting_user ep now s = elim ep.load [
  | none ↦ err not_found
  | some l ↦
      if same_phase l.state completed
      then err initial_load_conflict
      else ok (
          write_endpoint
            (record ep { load = some (record l { awaiting_user = true; updated_at = now }) }) s)
]
