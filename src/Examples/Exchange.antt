-- ===== src/Examples/Exchange.antt =====
-- Runs of the initial load, resets, selections and streams:
-- reference-client/internal/testrouter/initialload.go, reset.go, router.go and streams.go.
use masterdata_sync_working.Prelude.{
  false, ℕ, Bool, true, ◌&&◌, ◌||◌, ◌==◌, any, none, some, List, [], ◌∷◌, ◌≡◌, ◌↔◌, refl, Sorted,
}
use masterdata_sync_working.Failure.{ok, err, initial_load_conflict}
use masterdata_sync_working.Model.{
  EntityType, farm, field, field_boundary, same_type, Object, Endpoint, Binding, LoadState,
  ref_slots, loading_to_agrirouter, completed,
}
use masterdata_sync_working.Hub.{Frame, caught_up}
use masterdata_sync_working.Store.{Store, find_object, find_endpoint}
use masterdata_sync_working.InitialLoad.{legal, advance_load_state}
use masterdata_sync_working.InitialLoad.Phases.{
  Allowed, AdvancedTo, advance_load_state_iff, advance_load_state_lem,
}
use masterdata_sync_working.Reset.{reset_tenant}
use masterdata_sync_working.Reset.Wipes.{UniqueIds, surviving, ResetEndpoint, reset_tenant_lem}
use masterdata_sync_working.Selection.{
  select_types, add, add_each, adds, removes, selected, toggled, names, dependency_closure,
}
use masterdata_sync_working.Selection.Selected.{IsSelected, select_types-IsSelected}
use masterdata_sync_working.Selection.Closure.{dependency_closure_lem}
use masterdata_sync_working.Deliver.{recipients}
use masterdata_sync_working.Deliver.Fanout.{addressed, any-recipients}
use masterdata_sync_working.Streams.{object_before, sorted_objects, object_frames}
use masterdata_sync_working.Streams.CatchUp.{frame_of, restated, any-catch_up_objects}
use masterdata_sync_working.Streams.Order.{MayReference, sorted_objects_references}
use masterdata_sync_working.Examples.Setup.{
  unary, planner, start, terminal, stocked, barn, store_of,
}

abbrev in_load : LoadState
in_load = record {
  state = loading_to_agrirouter;
  awaiting_user = true;
  updated_at = 4;
  rejected = [];
}

abbrev loading : Endpoint
loading = record terminal { load = some in_load }

abbrev finished : Store
finished = store_of (advance_load_state loading completed [] 9 stocked)

finishes_load : advance_load_state loading completed [] 9 stocked ≡ ok finished
unfolding advance_load_state legal
finishes_load = refl

advance_load_state_iff_example :
    (Allowed loading_to_agrirouter completed
      ↔ ((t : Store) × (advance_load_state loading completed [] 9 stocked ≡ ok t)))
    × ((¬ Allowed loading_to_agrirouter completed)
        ↔ (advance_load_state loading completed [] 9 stocked ≡ err initial_load_conflict))
advance_load_state_iff_example = advance_load_state_iff loading in_load refl completed [] 9 stocked

advance_load_state_lem_example : AdvancedTo loading in_load refl completed [] 9 stocked finished
advance_load_state_lem_example =
    advance_load_state_lem loading in_load refl completed [] 9 stocked finished finishes_load

abbrev pairs : List Binding
pairs =
    record { local_id = "T1"; agrirouter_id = 10 }
    ∷ record { local_id = "T2"; agrirouter_id = 11 }
    ∷ []

abbrev reset_store : Store
reset_store = store_of (reset_tenant unary 1 stocked)

resets_tenant : reset_tenant unary 1 stocked ≡ ok reset_store
unfolding reset_tenant
resets_tenant = refl

stocked-UniqueIds : UniqueIds stocked.objects
unfolding find_object
stocked-UniqueIds = (refl, tt)

reset_tenant_lem_example :
    ((id : ℕ) → find_object id reset_store.objects ≡ surviving 1 (find_object id stocked.objects))
    × ((id : ℕ)
        → ResetEndpoint 1
            (find_endpoint id stocked.endpoints)
            (find_endpoint id reset_store.endpoints))
    × (reset_store.seq ≡ 3)
reset_tenant_lem_example =
    reset_tenant_lem unary 1 stocked reset_store resets_tenant stocked-UniqueIds

abbrev any_frame : Frame → Bool
any_frame f = true

any-catch_up_objects_example :
    any any_frame (object_frames unary stocked "terminal" 0 (sorted_objects stocked.objects))
    ≡ any
        (λ (o : Object).
          any
            (λ (ep : Endpoint).
              any_frame (frame_of unary stocked "terminal" 0 o ep)
              && restated unary stocked "terminal" 0 o ep)
            stocked.endpoints)
        stocked.objects
any-catch_up_objects_example = any-catch_up_objects unary stocked "terminal" 0 any_frame

abbrev plot : Object
plot = record barn { id = 12; typ = field; seq = 1 }

plot_references : MayReference plot barn
unfolding ref_slots
plot_references = (refl, λ e. cc)

sorted_objects_references_example :
    Sorted object_before (sorted_objects (plot ∷ barn ∷ [])) × (object_before barn plot ≡ true)
sorted_objects_references_example =
    sorted_objects_references (plot ∷ barn ∷ []) plot barn plot_references

abbrev picked : List EntityType
picked = farm ∷ field_boundary ∷ []

dependency_closure_lem_example :
    names field (dependency_closure picked)
    ≡ (names field picked || (same_type field field && names field_boundary picked))
dependency_closure_lem_example = dependency_closure_lem picked field

abbrev is_terminal : Endpoint → Bool
is_terminal ep = ep.id == 2

any-recipients_example :
    any is_terminal (recipients unary stocked barn 1)
    ≡ any (λ (ep : Endpoint). is_terminal ep && addressed barn 1 ep) stocked.endpoints
any-recipients_example = any-recipients unary stocked barn 1 is_terminal

abbrev marker : Frame
marker = record { event = caught_up; id = []; entity = none }

-- An endpoint that declared farms and has none selected.
abbrev newcomer : Endpoint
newcomer = record planner { toggles = λ _. false }

newcomer-IsSelected : IsSelected newcomer
newcomer-IsSelected = record { declared = λ t h. cc; closed = λ h. cc; loads = refl }

abbrev opted_in : Store
opted_in = store_of (select_types unary newcomer (farm ∷ []) 7 start)

opts_in : select_types unary newcomer (farm ∷ []) 7 start ≡ ok opted_in
unfolding select_types dependency_closure add add_each adds removes selected toggled
opts_in = refl

select_types-IsSelected_example :
    (e : Endpoint) × (find_endpoint 1 opted_in.endpoints ≡ some e)
    × IsSelected e
    × ((u : EntityType) → e.toggles u ≡ names u (dependency_closure (farm ∷ [])))
select_types-IsSelected_example =
    select_types-IsSelected unary newcomer (farm ∷ []) 7 start opted_in newcomer-IsSelected opts_in
