-- ===== src/Streams.antt =====
-- The event streams: catchUp, liveStream, initialLoadStream, sortedObjects and sortedResets of
-- reference-client/internal/testrouter/streams.go, and doRequest of handlers_core.go.
pub mod CatchUp
pub mod Order
use masterdata_sync_working.Prelude.{
  ℕ, ◌+◌, String, Bool, true, false, ◌&&◌, ◌||◌, not, Option, none, some, List, [], ◌∷◌, ◌++◌, any,
  keep, map, sort, ◌==◌, ltb, leb, str_eq, if◌then◌else◌, is_some,
}
use masterdata_sync_working.Failure.{Result, ok, err, not_found, forbidden}
use masterdata_sync_working.Platform.{Platform}
use masterdata_sync_working.Model.{
  EntityType, same_type, Object, Endpoint, opted_into, tier_of, reconciling,
}
use masterdata_sync_working.Position.{encode_position, decode_position}
use masterdata_sync_working.Hub.{
  Event, Frame, masterdata_changed, masterdata_deactivated, caught_up, subscribe,
}
use masterdata_sync_working.Store.{Store, TenantReset, find_object}
use masterdata_sync_working.Deliver.{recipients, frame_for, render, deliver_to, entitled}
use masterdata_sync_working.Reset.{reset_frame, sorted_endpoints}
use masterdata_sync_working.InitialLoad.{route_changed_frame, set_load_state, write_endpoint}

-- The delivery order: by tier, and within a tier by the position of the last change.
unfoldable pub object_before : Object → Object → Bool
object_before a b = ltb (tier_of a) (tier_of b) || (tier_of a == tier_of b && ltb a.seq b.seq)

-- sortedObjects
unfoldable pub sorted_objects : List Object → List Object
unfolding object_before
sorted_objects = sort object_before

-- sortedResets
unfoldable pub sorted_resets : List TenantReset → List TenantReset
sorted_resets = sort (λ (a b : TenantReset). ltb a.seq b.seq)

-- s.resets[tenant].seq, 0 where there was none.
unfoldable pub reset_seq : ℕ → List TenantReset → ℕ
reset_seq tenant [] = 0
reset_seq tenant (r ∷ rs) = if r.tenant_id == tenant then r.seq else reset_seq tenant rs

-- The position that a participant resumes from, 0 for none or one that does not read.
unfoldable pub resume_from : List ℕ → ℕ
resume_from id = elim (decode_position id) [ none ↦ 0 | some pos ↦ pos ]

module _ (p : Platform) (s : Store) (app_id : String) (from : ℕ) where
  unfoldable pub restates_reset : TenantReset → Bool
  restates_reset r = ltb from r.seq && any (str_eq app_id) r.apps

  -- A selection that moved above the position, and after its tenant's latest reset.
  unfoldable pub restates_selection : Endpoint → Bool
  restates_selection ep =
      str_eq ep.app_id app_id
      && ltb from ep.selection_changed_seq
      && ltb (reset_seq ep.tenant_id s.resets) ep.selection_changed_seq

  -- The recipients of an object among the application's endpoints.
  unfoldable pub catch_up_recipients : Object → List Endpoint
  catch_up_recipients o =
      keep (λ (ep : Endpoint). str_eq ep.app_id app_id) (recipients p s o o.source_endpoint_id)

  catch_up_event : Object → Event
  catch_up_event o = if o.active then masterdata_changed else masterdata_deactivated

  reset_frames : List TenantReset → List Frame
  unfolding restates_reset
  reset_frames rs =
      map (λ (r : TenantReset). reset_frame p s r.tenant_id app_id (encode_position r.seq))
        (keep restates_reset rs)

  selection_frames : List Endpoint → List Frame
  unfolding restates_selection
  selection_frames eps =
      map (λ (ep : Endpoint). route_changed_frame p ep (encode_position ep.selection_changed_seq))
        (keep restates_selection eps)

  unfoldable pub object_frames : List Object → List Frame
  unfolding catch_up_recipients catch_up_event
  object_frames [] = []
  object_frames (o ∷ os) =
      map (frame_for p s o (catch_up_event o))
        (if leb o.seq from then [] else catch_up_recipients o)
      ++ object_frames os

  -- catchUp, from a position that was read.
  unfoldable pub catch_up_from : List Frame
  unfolding reset_frames selection_frames object_frames
  catch_up_from =
      reset_frames (sorted_resets s.resets)
      ++ (selection_frames (sorted_endpoints s.endpoints)
          ++ (object_frames (sorted_objects s.objects)
              ++ record { event = caught_up; id = encode_position s.seq; entity = none } ∷ []))

-- catchUp
unfoldable pub catch_up : Platform → String → List ℕ → Store → List Frame
unfolding catch_up_from resume_from
catch_up p app_id last_event_id s = catch_up_from p s app_id (resume_from last_event_id)

-- liveStream up to its loop: it subscribes before it reads the catch-up.
unfoldable pub live_stream : Platform → String → List ℕ → (channel : ℕ) → Store → List Frame × Store
unfolding catch_up
live_stream p app_id last_event_id channel s =
    let t = record s { hub = subscribe app_id channel s.hub } in
    (catch_up p app_id last_event_id t, t)

-- The set that initialLoadStream takes under the lock.
unfoldable pub initial_set : Platform → Endpoint → Store → List Frame
unfolding sorted_objects
initial_set p ep s =
    map
      (λ (o : Object). record {
        event = masterdata_changed;
        id = [];
        entity = some (render p s o ep);
      })
      (keep (λ (o : Object). opted_into ep o.typ && o.tenant_id == ep.tenant_id)
        (sorted_objects s.objects))

-- takeDrop, of router.go
unfoldable pub take_drop : Endpoint → Store → Bool × Store
take_drop ep s = (ep.drop_load, write_endpoint (record ep { drop_load = false }) s)

-- What is sent of the set: a corrupted take sends no frame of it, a dropped one the first alone.
unfoldable pub sent_frames : (drop corrupt : Bool) → List Frame → List Frame
sent_frames drop true fs = []
sent_frames false false fs = fs
sent_frames true false [] = []
sent_frames true false (f ∷ fs) = f ∷ []

-- The end of the stream, on the endpoint as it is by then: a set sent in full advances a load that
-- was not discarded meanwhile.
unfoldable pub finish_load : Endpoint → (drop corrupt : Bool) → (now : ℕ) → Store → Store
unfolding set_load_state
finish_load ep drop corrupt now s =
    if not corrupt && not drop && is_some ep.load then set_load_state ep reconciling now s else s

-- doRequest, of the acting endpoint.
unfoldable pub request : Platform → Endpoint → EntityType → ℕ → Store → Result Store
unfolding deliver_to entitled
request p ep typ id s = elim (find_object id s.objects) [
  | none ↦ err not_found
  | some o ↦
      if not (same_type o.typ typ)
      then err not_found
      else if not (entitled ep o)
      then err forbidden
      else ok (deliver_to p ep o s)
]
