-- ===== src/Client/Receive.antt =====
-- The receive loop of reference-client/internal/platform/sync/receive.go: the events of one stream, in
-- the order they arrive. What the loop asks of agrirouter is a step of a world W; a callback that the
-- product does not set leaves the database.
pub mod Progress
use masterdata_sync_working.Prelude.{
  ℕ, ◌+◌, String, Bool, true, false, ◌&&◌, not, is_some, Option, none, some, List, [], ◌∷◌, str_eq,
  if◌then◌else◌,
}
use masterdata_sync_working.Failure.{Failure, panic, Result, ok, err, invalid, ◌>>=◌}
use masterdata_sync_working.Model.{EntityType}
use masterdata_sync_working.Client.Pairs.{discard_tenant}
use masterdata_sync_working.Client.Identity.{Envelope}
use masterdata_sync_working.Client.Database.{Entity, Tables, Database, set_route, set_position}
use masterdata_sync_working.Client.Apply.{Applier, Outcome, apply}

-- oapi.RouteChangedEventData: the endpoint's whole selection.
pub record RouteChange : Type 0 where
  pub tenant_id : ℕ
  pub endpoint_id : ℕ
  pub types : List EntityType

-- oapi.MasterdataResetEventData
pub record MasterdataReset : Type 0 where
  pub tenant_id : ℕ
  pub endpoint_ids : List ℕ

-- What a frame carries; a type this version does not know carries nothing.
pub data Carried : Type 0 where
  caught_up : Carried
  route_change : RouteChange → Carried
  reset : MasterdataReset → Carried
  unknown : Carried
  object : Entity → Carried

pub record DeliveredEvent : Type 0 where
  pub id : String
  pub carried : Carried

pub record ReceiveResult : Type 0 where
  pub received : ℕ
  pub caught_up : Bool
  pub created : ℕ
  pub matched : ℕ
  pub superseded : ℕ
  pub ignored : ℕ
  pub bound : ℕ
  pub joined : ℕ
  pub discarded : ℕ
  pub position : String

pub record Receiver (T W : Type 0) : Type 0 where
  pub tables : Tables T
  pub endpoints : ℕ → Option Applier
  pub on_selection : RouteChange → Database T → Result (Database T)
  pub on_reset : MasterdataReset → ℕ → Database T → Result (Database T)
  -- (e *Endpoint) Bind
  pub bind_object : Applier → EntityType → String → ℕ → W → W × Result (Unit {0})

-- The count that an outcome adds to.
unfoldable pub counted : Outcome → ReceiveResult → ReceiveResult
counted o res =
    if o.created
    then record res { created = res.created + 1 }
    else if o.matched
    then record res { matched = res.matched + 1 }
    else if o.joined
    then record res { joined = res.joined + 1 }
    else if o.superseded
    then record res { superseded = res.superseded + 1 }
    else if o.ignored
    then record res { ignored = res.ignored + 1 }
    else res

-- `if ev.ID != ""`
abbrev pub with_position : String → ReceiveResult → ReceiveResult
with_position id res = if str_eq id "" then res else record res { position = id }

-- Where the loop stands: the world, the database, the result, and why it stopped.
abbrev pub Stand : Type 0 → Type 0 → Type 0
Stand T W = W × Database T × ReceiveResult × Option Failure

module _ {T W : Type 0} (rc : Receiver T W) where
  -- applySelection
  unfoldable pub apply_selection : String → RouteChange → Database T → Result (Database T)
  unfolding set_route set_position
  apply_selection id sel d =
      rc.on_selection sel (set_route sel.endpoint_id sel.types d) >>= λ d. ok (set_position id d)

  -- The loop of applyReset: each listed endpoint exchanges nothing.
  unfoldable pub empty_routes : ℕ → List ℕ → Database T → Result (Database T)
  unfolding set_route
  empty_routes tenant [] d = ok d
  empty_routes tenant (ep ∷ eps) d =
      rc.on_selection (record { tenant_id = tenant; endpoint_id = ep; types = [] })
        (set_route ep [] d)
      >>= λ d. empty_routes tenant eps d

  -- applyReset
  unfoldable pub apply_reset : String → MasterdataReset → Database T → Result (Database T)
  unfolding discard_tenant empty_routes set_position
  apply_reset id r d =
      let dropped = discard_tenant r.tenant_id d.pairs in
      empty_routes r.tenant_id r.endpoint_ids (record d { pairs = dropped.0 }) >>= λ d.
      rc.on_reset r dropped.1 d >>= λ d. ok (set_position id d)

  -- applierFor
  unfoldable pub applier_for : Envelope → Result Applier
  applier_for env = elim env.recipient [
    | none ↦ err (invalid "sync: a delivered object names no recipient endpoint")
    | some ep ↦ elim (rc.endpoints ep) [
      | none ↦ err (invalid "sync: no applier for endpoint")
      | some a ↦ ok a
    ]
  ]

  abbrev pub bound_once : W × Result (Unit {0}) → Database T → ReceiveResult → Stand T W
  bound_once (w, err e) d res = (w, d, res, some e)
  bound_once (w, ok u) d res = (w, d, record res { bound = res.bound + 1 }, none)

  -- Bind, where the platform has just made or joined a record.
  unfoldable pub bind_applied :
      Applier → Entity → Outcome → W → Database T → ReceiveResult → Stand T W
  bind_applied a e o w d res =
      if o.needs_binding
      then elim e.envelope.agrirouter_id [
        | none ↦ (w, d, res, some panic)
        | some canonical ↦ bound_once (rc.bind_object a e.envelope.typ o.local_id canonical w) d res
      ]
      else (w, d, res, none)

  -- A frame with an object, once it is applied.
  unfoldable pub receive_applied :
      Applier → Entity → String → W → Database T × Outcome → ReceiveResult → Stand T W
  unfolding counted bind_applied
  receive_applied a e id w applied res =
      bind_applied a e applied.1 w applied.0
        (counted applied.1 (record res { received = res.received + 1; position = id }))

  unfoldable pub receive_object :
      Entity → String → String → W → Database T → ReceiveResult → Stand T W
  unfolding applier_for apply receive_applied
  receive_object e id fresh w d res =
      if not (is_some e.envelope.tenant_id)
      then (w, d, record res { discarded = res.discarded + 1 }, none)
      else elim (applier_for e.envelope) [
        | err f ↦ (w, d, res, some f)
        | ok a ↦ elim (apply rc.tables a e id fresh none none d) [
          | err f ↦ (w, d, res, some f)
          | ok applied ↦ receive_applied a e id w applied res
        ]
      ]

  abbrev pub committed : String → ReceiveResult → W → Database T → Result (Database T) → Stand T W
  committed id res w d (err f) = (w, d, res, some f)
  committed id res w d (ok d') = (w, d', with_position id res, none)

  -- One frame.
  unfoldable pub receive_frame :
      DeliveredEvent → String → W → Database T → ReceiveResult → Stand T W
  unfolding set_position apply_selection apply_reset receive_object
  receive_frame ev fresh w d res = elim ev.carried [
    | caught_up ↦
        (w, set_position ev.id d, record (with_position ev.id res) { caught_up = true }, none)
    | route_change sel ↦ committed ev.id res w d (apply_selection ev.id sel d)
    | reset r ↦ committed ev.id res w d (apply_reset ev.id r d)
    | unknown ↦ (w, d, res, none)
    | object e ↦ receive_object e ev.id fresh w d res
  ]

  abbrev pub ends : Carried → Bool
  ends caught_up = true
  ends _ = false

  -- The frames after one, unless it failed or was the last.
  unfoldable pub go_on : Bool → Stand T W → (W → Database T → ReceiveResult → Stand T W) → Stand T W
  go_on last (w, d, res, some f) next = (w, d, res, some f)
  go_on last (w, d, res, none) next = if last then (w, d, res, none) else next w d res

  -- consume, from the position that `res` starts with: the frames that the stream delivers, each with
  -- the identifier that a record made from it would get, and its error where it breaks. CatchUp ends
  -- with the frame that ends the backlog.
  unfoldable pub consume :
      Bool → List (Result (DeliveredEvent × String)) → W → Database T → ReceiveResult → Stand T W
  unfolding receive_frame go_on
  consume until_caught_up [] w d res = (w, d, res, none)
  consume until_caught_up (err f ∷ evs) w d res = (w, d, res, some f)
  consume until_caught_up (ok ev ∷ evs) w d res =
      go_on (until_caught_up && ends ev.0.carried) (receive_frame ev.0 ev.1 w d res)
        (λ w d res. consume until_caught_up evs w d res)
