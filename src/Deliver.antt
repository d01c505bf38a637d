-- ===== src/Deliver.antt =====
-- Rendering and fan-out: entitled, recipients, deliver, deliverTo and renderLocked of
-- reference-client/internal/testrouter/ssot.go.
pub mod Decimal
pub mod Fanout
use Prim.Native.String.{compare}
use text.Mathlib.Text.{is_lt}
use masterdata_sync_working.Prelude.{
  ℕ, String, Bool, true, false, ◌&&◌, not, Option, some, List, [], ◌∷◌, keep, sort, ◌==◌,
  if◌then◌else◌,
}
use masterdata_sync_working.Json.{Value, boolean, num, str, obj, Fields, empty, entry, put}
use masterdata_sync_working.Platform.{Platform}
use masterdata_sync_working.Model.{EntityType, type_name, Object, Endpoint, opted_into}
use masterdata_sync_working.Identity.Wire.{encode_id}
use masterdata_sync_working.Position.{encode_position}
use masterdata_sync_working.Hub.{
  Event, Frame, Hub, masterdata_changed, masterdata_deactivated, publish,
}
use masterdata_sync_working.Store.{Store, render_id}
use masterdata_sync_working.References.{rewrite_refs}
use Decimal.{decimal}

-- entitled
unfoldable pub entitled : Endpoint → Object → Bool
entitled ep o = ep.tenant_id == o.tenant_id && opted_into ep o.typ

module _ (p : Platform) where
  -- The order of sort.Slice in recipients: by the identifiers' texts.
  abbrev pub id_before : Endpoint → Endpoint → Bool
  id_before a b = is_lt (compare (p.uuid_string a.id) (p.uuid_string b.id))

  -- recipients
  unfoldable pub recipients : Store → Object → ℕ → List Endpoint
  unfolding entitled
  recipients s o exclude =
      sort id_before (keep (λ (ep : Endpoint). not (ep.id == exclude) && entitled ep o) s.endpoints)

  -- renderLocked: json.Marshal writes a map's keys in order.
  unfoldable pub render : Store → Object → Endpoint → Value
  unfolding decimal
  render s o ep =
      let content =
        put "id" (encode_id (render_id p s ep.id o.id)) (rewrite_refs p s ep.id o.typ o.content) in
      obj (
        put "content" (obj content) (
          put "recipient_endpoint_id" (str (p.uuid_string ep.id)) (
            put "source_endpoint_id" (str (p.uuid_string o.source_endpoint_id)) (
              put "tenant_id" (str (p.uuid_string o.tenant_id)) (
                put "modified_at" (str (p.time_string o.modified_at)) (
                  put "revision" (num (decimal o.revision)) (
                    put "active" (boolean o.active)
                      (put "type" (str (type_name o.typ)) empty))))))))

  unfoldable pub frame_for : Store → Object → Event → Endpoint → Frame
  frame_for s o event ep = record {
    event = event;
    id = encode_position o.seq;
    entity = some (render s o ep);
  }

  -- The loop of deliver, over the recipients.
  unfoldable pub publish_all : Store → Object → Event → List Endpoint → Hub → Hub
  unfolding frame_for
  publish_all s o event [] hub = hub
  publish_all s o event (ep ∷ eps) hub =
      publish_all s o event eps (publish ep.app_id (frame_for s o event ep) hub)

  -- deliver
  unfoldable pub deliver : Object → ℕ → Bool → Store → Store
  unfolding publish_all recipients
  deliver o source deactivated s =
      let event = if deactivated then masterdata_deactivated else masterdata_changed in
      record s { hub = publish_all s o event (recipients s o source) s.hub }

  -- deliverTo
  unfoldable pub deliver_to : Endpoint → Object → Store → Store
  unfolding frame_for
  deliver_to ep o s = record s {
    hub = publish ep.app_id (frame_for s o masterdata_changed ep) s.hub;
  }
