-- ===== src/Examples/Rounds.antt =====
-- Runs of the platform of reference-client/internal/platform with agrirouter: an initial load, a
-- correction, a stream and a send; and of the router's requests in sequence.
use masterdata_sync_working.Prelude.{
  ℕ, zero, suc, String, false, none, some, List, [], ◌∷◌, any, str_eq, ◌≡◌, ◌⊎◌, ◌+◌, ◌≢◌, refl,
  sort,
}
use masterdata_sync_working.Json.{str, null, obj, Fields, empty, entry, get, put, del, has, is_null}
use masterdata_sync_working.Failure.{Result, ok, err, invalid, panic}
use masterdata_sync_working.Model.{farm, reconciling, loading_from_agrirouter}
use masterdata_sync_working.Store.{Store, new_store, find_object, object_type}
use masterdata_sync_working.Write.{put_entity, deactivate}
use masterdata_sync_working.History.{Reachable, at_start, after, puts, onboards}
use masterdata_sync_working.History.Sound.{IsSound}
use masterdata_sync_working.History.Invariant.{Reachable-IsSound, Reachable-safe}
use masterdata_sync_working.Selection.{insert_endpoint}
use masterdata_sync_working.Client.Pairs.{bound_in_tenant}
use masterdata_sync_working.Client.Database.{Record, Database, local_ids, columns}
use masterdata_sync_working.Client.Apply.{Recognition}
use masterdata_sync_working.Client.Codec.{
  content_to_send, with_nulls, with_details, with_parts, modelled_parts,
}
use masterdata_sync_working.Client.Codec.Steps.{is_null_at}
use masterdata_sync_working.Client.Codec.Writes.{
  content_to_send-unmodelled, content_to_send-required,
}
use masterdata_sync_working.Client.Recognise.{by_name, name_from, candidates, by_name-unbound}
use masterdata_sync_working.Client.Send.{Requests}
use masterdata_sync_working.Client.Send.Guarded.{Guarded}
use masterdata_sync_working.Client.Load.{LoadRequests, LoadResult, Stage, take_until}
use masterdata_sync_working.Prelude.{arith}
use masterdata_sync_working.Client.Load.Ends.{Ended, take_until_ends}
use masterdata_sync_working.Client.Receive.{
  Receiver, DeliveredEvent, ReceiveResult, Stand, object, caught_up, consume,
}
use masterdata_sync_working.Client.Receive.Progress.{consume-IsCurrent}
use masterdata_sync_working.Examples.Setup.{unary, planner, name_of}
use masterdata_sync_working.Examples.Writes.{nothing_sent, named, put_farm}
use masterdata_sync_working.Examples.Participant.{
  Rows, tables, office_applier, delivered, nothing, made,
}

abbrev onboarded : Store
onboarded = (insert_endpoint "planner" "planner" 1 1 new_store).0

no_object : object_type onboarded 10 ≡ none
unfolding find_object insert_endpoint
no_object = refl

reached : Reachable unary (put_farm onboarded).0
reached =
    after (after at_start (onboards "planner" "planner" 1 1))
      (puts planner farm "F1" (named "North") none nothing_sent 10 5 no_object)

Reachable-IsSound_example : IsSound (put_farm onboarded).0
Reachable-IsSound_example = Reachable-IsSound unary (put_farm onboarded).0 reached

Reachable-safe_example :
    ((put_entity unary planner farm "F1"
        (named "South")
        none
        nothing_sent
        11
        6
        (put_farm onboarded).0).1
      ≢ err panic)
    × ((deactivate unary planner farm "F1" none 6 (put_farm onboarded).0).1 ≢ err panic)
Reachable-safe_example =
    Reachable-safe unary (put_farm onboarded).0 planner farm "F1" (named "South") none nothing_sent
      11 6 reached

-- A farm as the platform holds it, without an address or a grower.
abbrev held_farm : Record
held_farm = record { typ = farm; archived = false; modelled = name_of "North"; ignored = [] }

abbrev sent_farm : Fields
sent_farm =
    entry "_agmasync_address" null
      (entry "id" (obj (entry "referenceId" (str "F1") empty)) (name_of "North"))

sends_farm : content_to_send held_farm "F1" ≡ ok sent_farm
unfolding content_to_send with_nulls with_details with_parts modelled_parts columns get put del has
    is_null
sends_farm = refl

unmodelled_absent : get "soilType" held_farm.modelled ≡ none
unfolding get
unmodelled_absent = refl

no_column : any (λ n. str_eq n "soilType") ("id" ∷ columns farm) ≡ false
unfolding columns
no_column = refl

content_to_send-unmodelled_example : get "soilType" sent_farm ≡ none
content_to_send-unmodelled_example =
    content_to_send-unmodelled held_farm "F1" sent_farm "soilType" sends_farm no_column
      unmodelled_absent

name_held : is_null_at (get "name" held_farm.modelled) ≡ false
unfolding get is_null
name_held = refl

content_to_send-required_example : is_null_at (get "name" sent_farm) ≡ false
content_to_send-required_example =
    content_to_send-required held_farm "F1" sent_farm "name" sends_farm refl name_held

-- The office matches an object by name, among records that nothing binds.
abbrev loose : Database Rows
loose = record made { pairs = [] }

abbrev known : Recognition
known = record { local_id = "F1"; awaiting_user = false; blocked = false }

matched : by_name (λ s. s) tables "farmer" (delivered 1 none) loose ≡ ok (loose, known)
unfolding by_name name_from candidates bound_in_tenant local_ids get sort
matched = refl

by_name-unbound_example :
    (loose ≡ loose) × ((known.local_id ≡ "") ⊎ (bound_in_tenant 1 farm "F1" loose.pairs ≡ false))
by_name-unbound_example =
    by_name-unbound (λ s. s) tables "farmer" (delivered 1 none) loose loose known 1 matched refl

-- agrirouter, counting its requests: each is granted, and a put answers with the first revision.
abbrev granting : Requests ℕ
granting = record {
  bind_object = λ a typ l id w. (w + 1, ok tt);
  put = λ a body base w. (w + 1, ok (delivered 1 (some "F1")));
  deactivate_object = λ a typ l base w. (w + 1, ok (delivered 2 (some "F1")));
}

-- agrirouter is still sending until the set has been taken twice.
abbrev sending_twice : LoadRequests ℕ
sending_twice = record {
  status = λ w. (w, ok (elim w [ zero ↦ loading_from_agrirouter | suc n ↦ reconciling ]));
  take_events = λ w. (w + 1, ok (ok (some (delivered 1 none, "F1")) ∷ []));
  confirm = λ bs w. (w, ok (reconciling, []));
  complete = λ w. (w, ok reconciling);
  report_attention = λ w. (w, ok tt);
}

abbrev no_load : LoadResult
no_load = record {
  types = farm ∷ [];
  attempts = 0;
  received = 0;
  created = 0;
  matched = 0;
  ignored = 0;
  superseded = 0;
  discarded = 0;
  awaiting_user = false;
  blocked = [];
  confirmed = [];
  rejected = [];
  sent = 0;
  state = none;
}

take_until_ends_example :
    (r : Stage tables sending_twice granting office_applier none (farm ∷ [])) × (take_until tables
        sending_twice granting office_applier none
        (farm ∷ [])
        3
        4
        (0, nothing, no_load, ok loading_from_agrirouter)
      ≡ some r)
    × Ended tables sending_twice granting office_applier none (farm ∷ []) 3 r
take_until_ends_example =
    take_until_ends tables sending_twice granting office_applier none (farm ∷ []) 3 4
      (0, nothing, no_load, ok loading_from_agrirouter) (omega arith) (omega arith)

abbrev receiver : Receiver Rows ℕ
receiver = record {
  tables = tables;
  endpoints = λ ep. some office_applier;
  on_selection = λ sel d. ok d;
  on_reset = λ r n d. ok d;
  bind_object = granting.bind_object;
}

abbrev nothing_received : ReceiveResult
nothing_received = record {
  received = 0;
  caught_up = false;
  created = 0;
  matched = 0;
  superseded = 0;
  ignored = 0;
  bound = 0;
  joined = 0;
  discarded = 0;
  position = "";
}

abbrev stream : List (Result (DeliveredEvent × String))
stream =
    ok (record { id = "p1"; carried = object (delivered 1 none) }, "F1")
    ∷ ok (record { id = "p2"; carried = caught_up }, "F2")
    ∷ err (invalid "the stream broke")
    ∷ []

abbrev stands : Stand Rows ℕ
stands = consume receiver false stream 0 nothing nothing_received

consume-IsCurrent_example : stands.2.position ≡ stands.1.position
consume-IsCurrent_example =
    consume-IsCurrent receiver false stream 0 nothing nothing_received refl refl
