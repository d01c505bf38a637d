-- ===== src/Selection.antt =====
-- What an endpoint declares and what the user selects from it: insertEndpoint, selectTypes,
-- declare and RemoveEndpoint of reference-client/internal/testrouter/router.go, and
-- DependencyClosure of agmasync/initialload.go.
pub mod Closure
pub mod Selected
use masterdata_sync_working.Prelude.{
  ℕ, zero, suc, ◌+◌, String, Bool, true, false, ◌&&◌, ◌||◌, not, Option, none, some, List, [], ◌∷◌,
  any, all, keep, length, ◌==◌, str_eq, if◌then◌else◌, is_some,
}
use masterdata_sync_working.Failure.{Result, ok, err, invalid}
use masterdata_sync_working.Platform.{Platform}
use masterdata_sync_working.Model.{
  EntityType, party, farm, field, field_boundary, same_type, Endpoint, opted_into,
}
use masterdata_sync_working.Store.{Store}
use masterdata_sync_working.InitialLoad.{entity_types, write_endpoint, started, publish_selection}

abbrev pub names : EntityType → List EntityType → Bool
names t = any (same_type t)

-- want[t] = true
abbrev pub marked_wanted : EntityType → (EntityType → Bool) → EntityType → Bool
marked_wanted t want u = same_type t u || want u

-- The recursive add of DependencyClosure, on fuel: a field boundary's field is its one required
-- reference.
unfoldable pub add : ℕ → EntityType → (EntityType → Bool) → EntityType → Bool
add zero t want = want
add (suc fuel) t want =
    let marked = marked_wanted t want in
    let rest = add fuel field marked in
    if want t then want else if same_type t field_boundary then rest else marked

-- The loop over the types. Each call of add marks a type that was not, so the number of types is
-- fuel enough.
unfoldable pub add_each : List EntityType → (EntityType → Bool) → EntityType → Bool
unfolding add
add_each [] want = want
add_each (t ∷ types) want = add_each types (add 4 t want)

abbrev pub wants : List EntityType → EntityType → Bool
wants types = add_each types (λ t. false)

-- DependencyClosure
unfoldable pub dependency_closure : List EntityType → List EntityType
unfolding add_each
dependency_closure types = keep (wants types) entity_types

abbrev pub nothing_selected : (EntityType → Bool) → Bool
nothing_selected toggles = not (any toggles entity_types)

-- The map of the types that a list names.
unfoldable pub toggled : List EntityType → EntityType → Bool
toggled types t = names t types

-- Whether a selection names a type that is not toggled, and the other way round.
unfoldable pub adds : (EntityType → Bool) → List EntityType → Bool
adds toggles closure = any (λ t. not (toggles t)) closure

unfoldable pub removes : (EntityType → Bool) → List EntityType → Bool
removes toggles closure = any (λ t. toggles t && not (names t closure)) entity_types

-- The endpoint under its new selection, with the load that goes with it.
unfoldable pub selected : Endpoint → List EntityType → (now : ℕ) → Endpoint
unfolding toggled adds removes started
selected ep closure now =
    let moved = adds ep.toggles closure || removes ep.toggles closure in
    let chosen = record ep {
      toggles = toggled closure;
      selection_changed_at = if moved then now else ep.selection_changed_at;
    } in
    if nothing_selected (toggled closure)
    then record chosen { load = none }
    else if adds ep.toggles closure
    then started chosen now
    else chosen

-- selectTypes
unfoldable pub select_types :
    Platform → Endpoint → List EntityType → (now : ℕ) → Store → Result Store
unfolding dependency_closure selected publish_selection
select_types p ep types now s =
    let closure = dependency_closure types in
    if not (all ep.declared closure)
    then err (invalid "entity types are not declared")
    else (let chosen = selected ep closure now in
        if adds ep.toggles closure || removes ep.toggles closure
        then ok (publish_selection p chosen (write_endpoint chosen s))
        else ok (write_endpoint chosen s))

-- Whether a declaration takes a selected type away.
unfoldable pub withdraws : (EntityType → Bool) → List EntityType → Bool
withdraws toggles types = any (λ t. toggles t && not (names t types)) entity_types

unfoldable pub narrowed : Endpoint → List EntityType → Endpoint
unfolding toggled withdraws
narrowed ep types =
    let toggles : EntityType → Bool = λ t. ep.toggles t && toggled types t in
    record ep {
      declared = toggled types;
      toggles = toggles;
      load = if withdraws ep.toggles types && nothing_selected toggles then none else ep.load;
    }

-- declare
unfoldable pub declare_types : Platform → Endpoint → List EntityType → Store → Result Store
unfolding dependency_closure narrowed publish_selection
declare_types p ep types s =
    if not (length (dependency_closure types) == length types)
    then err (invalid "entity types are not dependency-closed")
    else (let chosen = narrowed ep types in
        if withdraws ep.toggles types
        then ok (publish_selection p chosen (write_endpoint chosen s))
        else ok (write_endpoint chosen s))

-- insertEndpoint, under the fresh identifier.
unfoldable pub insert_endpoint : String → String → ℕ → (fresh : ℕ) → Store → Store × Endpoint
insert_endpoint external_id app_id tenant fresh s =
    let ep : Endpoint = record {
      id = fresh;
      external_id = external_id;
      app_id = app_id;
      tenant_id = tenant;
      declared = λ _. false;
      toggles = λ _. false;
      selection_changed_at = 0;
      selection_changed_seq = 0;
      load = none;
      previous_load_completed_at = none;
      drop_load = false;
      corrupt_load = false;
    } in
    (record (write_endpoint ep s) { tenants = λ t. t == tenant || s.tenants t }, ep)

-- RemoveEndpoint, of the endpoint that the external identifier names.
unfoldable pub remove_endpoint : Endpoint → Store → Store
remove_endpoint ep s = record s {
  local = λ e typ local_id. if e == ep.id then none else s.local e typ local_id;
  canonical = λ e id. if e == ep.id then none else s.canonical e id;
  local_entries =
      λ e id. if e == ep.id && is_some (s.canonical e id) then none else s.local_entries e id;
  endpoints = keep (λ (x : Endpoint). not (x.id == ep.id)) s.endpoints;
}
