-- ===== src/Client/Load.antt =====
-- The Loader of reference-client/internal/platform/sync/initialload.go: an endpoint's initial load from
-- wherever it stands. A request to agrirouter is a step of a world W with an answer; what the platform
-- committed before a failure stays.
pub mod Ends
use masterdata_sync_working.Prelude.{
  ℕ, zero, suc, ◌+◌, String, Bool, true, false, ◌&&◌, ◌||◌, not, is_some, Option, none, some, List,
  [], ◌∷◌, ◌++◌, any, keep, length, ◌==◌, leb, if◌then◌else◌,
}
use mathlib.Core.Option
use masterdata_sync_working.Failure.{Failure, panic, Result, ok, err, invalid, ◌>>=◌}
use masterdata_sync_working.Model.{
  EntityType, party, farm, field, field_boundary, same_type, Binding, Rejection, LoadPhase,
  loading_from_agrirouter, reconciling, loading_to_agrirouter, completed, same_phase,
}
use masterdata_sync_working.Client.Database.{Entity, Tables, Database}
use masterdata_sync_working.Client.Apply.{Applier, Outcome, Reconciler, apply}
use masterdata_sync_working.Client.Reconcile.{loaded_bindings, drop_rejected, offered}
use masterdata_sync_working.Client.Send.{Requests, send}

-- One frame of the canonical set: an object with the identifier that a record made from it would
-- get, or none where it carries no object; an error where the stream breaks.
abbrev pub SetFrame : Type 0
SetFrame = Result (Option (Entity × String))

-- The requests of the endpoint's initial load, in reference-client/internal/platform/agrirouter.
pub record LoadRequests (W : Type 0) : Type 0 where
  pub status : W → W × Result LoadPhase
  pub take_events : W → W × Result (List SetFrame)
  pub confirm : List Binding → W → W × Result (LoadPhase × List Rejection)
  pub complete : W → W × Result LoadPhase
  pub report_attention : W → W × Result (Unit {0})

-- LoadResult, with the attention flag: whether agrirouter has been told.
pub record LoadResult : Type 0 where
  pub types : List EntityType
  pub attempts : ℕ
  pub received : ℕ
  pub created : ℕ
  pub matched : ℕ
  pub ignored : ℕ
  pub superseded : ℕ
  pub discarded : ℕ
  pub awaiting_user : Bool
  pub blocked : List Entity
  pub confirmed : List Binding
  pub rejected : List Rejection
  pub sent : ℕ
  pub state : Option LoadPhase

-- agmasync.DependencyOrder
abbrev pub dependency_order : List EntityType
dependency_order = party ∷ farm ∷ field ∷ field_boundary ∷ []

-- The counts of one take start from nothing.
abbrev pub recounted : LoadResult → LoadResult
recounted res = record res {
  received = 0;
  created = 0;
  matched = 0;
  ignored = 0;
  superseded = 0;
  discarded = 0;
  blocked = [];
}

-- What an applied object adds to the counts.
unfoldable pub count_outcome : Entity → Outcome → LoadResult → LoadResult
count_outcome e o res =
    if o.blocked
    then record res { blocked = res.blocked ++ (e ∷ []) }
    else if o.created
    then record res { created = res.created + 1 }
    else if o.matched
    then record res { matched = res.matched + 1 }
    else if o.ignored
    then record res { ignored = res.ignored + 1 }
    else if o.superseded
    then record res { superseded = res.superseded + 1 }
    else res

module _ {T W : Type 0} (db : Tables T) (lq : LoadRequests W) (rq : Requests W) (a : Applier)
    (recognise : Option (Reconciler T)) (types : List EntityType) where
  -- The world, the database and the result; what failed, if anything did.
  abbrev pub Loading : Type 0
  Loading = W × Database T × LoadResult × Option Failure

  abbrev pub flagged : W × Result (Unit {0}) → LoadResult → W × LoadResult
  flagged (w, err f) res = (w, res)
  flagged (w, ok u) res = (w, record res { awaiting_user = true })

  -- (a *Attention) Raise: agrirouter is told once; a report that fails leaves the load as it is.
  unfoldable pub raise : W → LoadResult → W × LoadResult
  raise w res = if res.awaiting_user then (w, res) else flagged (lq.report_attention w) res

  -- One object of the set, once it is applied.
  unfoldable pub take_applied : Entity → Outcome → W → LoadResult → W × LoadResult
  unfolding count_outcome raise
  take_applied e o w res =
      if o.discarded
      then (w, record res { discarded = res.discarded + 1 })
      else let res = count_outcome e o (record res { received = res.received + 1 }) in
        if o.awaiting_user then raise w res else (w, res)

  -- The loop of takeCanonicalSet: a broken stream ends the take, and is no failure.
  unfoldable pub take_frames : List SetFrame → W → Database T → LoadResult → Loading
  unfolding apply take_applied
  take_frames [] w d res = (w, d, res, none)
  take_frames (err f ∷ frames) w d res = (w, d, res, none)
  take_frames (ok none ∷ frames) w d res = take_frames frames w d res
  take_frames (ok (some e) ∷ frames) w d res =
      elim (apply db a e.0 "" e.1 recognise (some types) d) [
        | err f ↦ (w, d, res, some f)
        | ok (d, o) ↦ let next = take_applied e.0 o w res in take_frames frames next.0 d next.1
      ]

  abbrev pub taken : W × Result (List SetFrame) → Database T → LoadResult → Loading
  unfolding take_frames
  taken (w, err f) d res = (w, d, res, some f)
  taken (w, ok frames) d res = take_frames frames w d (recounted res)

  -- takeCanonicalSet
  unfoldable pub take_canonical_set : W → Database T → LoadResult → Loading
  unfolding taken
  take_canonical_set w d res = taken (lq.take_events w) d res

  -- Where a phase has been read, or reading it failed.
  abbrev pub Stage : Type 0
  Stage = W × Database T × LoadResult × Result LoadPhase

  abbrev pub at_phase : W × Result LoadPhase → Database T → LoadResult → Stage
  at_phase (w, phase) d res = (w, d, res, phase)

  abbrev pub then_status : Loading → Stage
  then_status (w, d, res, some f) = (w, d, res, err f)
  then_status (w, d, res, none) = at_phase (lq.status w) d res

  -- The loop of Run, under the cap on the takes and on fuel; `none` where the fuel ran out.
  unfoldable pub take_until : (cap fuel : ℕ) → Stage → Option Stage
  unfolding take_canonical_set
  take_until cap fuel (w, d, res, err f) = some (w, d, res, err f)
  take_until cap zero (w, d, res, ok phase) = none
  take_until cap (suc fuel) (w, d, res, ok phase) =
      let next =
        then_status (take_canonical_set w d (record res { attempts = res.attempts + 1 })) in
      let rest = take_until cap fuel next in
      if not (same_phase phase loading_from_agrirouter)
      then some (w, d, res, ok phase)
      else if leb cap res.attempts
      then some (w, d, res, err (invalid "sync: the canonical set did not arrive complete"))
      else rest

  -- (l *Loader) attempts
  abbrev pub attempts : ℕ → ℕ
  attempts n = if n == 0 then 3 else n

  -- The records of one type, each sent.
  unfoldable pub push_each : (ℕ → String) → EntityType → List String → Loading → Loading
  unfolding send
  push_each mint typ [] st = st
  push_each mint typ (l ∷ ls) (w, d, res, some f) = (w, d, res, some f)
  push_each mint typ (l ∷ ls) (w, d, res, none) =
      push_each mint typ ls (pushed (send db rq a typ l (mint res.sent) (some types) w d) res)
    where
      pushed : W × Database T × Result Outcome → LoadResult → Loading
      pushed (w, d, err f) res = (w, d, res, some f)
      pushed (w, d, ok o) res = (w, d, record res { sent = res.sent + 1 }, none)

  -- push, over the types that are left
  unfoldable pub push :
      (ℕ → String) → List (EntityType × String) → List EntityType → Loading → Loading
  unfolding offered push_each
  push mint skip [] st = st
  push mint skip (typ ∷ typs) (w, d, res, some f) = (w, d, res, some f)
  push mint skip (typ ∷ typs) (w, d, res, none) =
      elim (offered db a.tenant a.namespace skip typ d) [
        | err f ↦ (w, d, res, some f)
        | ok ls ↦ push mint skip typs (push_each mint typ ls (w, d, res, none))
      ]

  abbrev in_order : List EntityType
  in_order = keep (λ typ. any (same_type typ) types) dependency_order

  abbrev ended : Stage → Loading
  ended (w, d, res, err f) = (w, d, res, some f)
  ended (w, d, res, ok phase) = (w, d, record res { state = some phase }, none)

  -- CompleteInitialLoad, once everything is pushed
  abbrev completed_load : Loading → Loading
  completed_load (w, d, res, some f) = (w, d, res, some f)
  completed_load (w, d, res, none) = ended (at_phase (lq.complete w) d res)

  -- The end of Run: what is left to offer, and the phase that is reached.
  unfoldable pub finish :
      (ℕ → String) → List (EntityType × String) → LoadPhase → W → Database T → LoadResult → Loading
  unfolding push
  finish mint dropped phase w d res =
      if same_phase phase loading_to_agrirouter
      then completed_load (push mint dropped res.types (w, d, res, none))
      else ended (w, d, res, ok phase)

  -- The answer to a confirmation.
  unfoldable pub answered_by :
      (ℕ → String) → W × Result (LoadPhase × List Rejection) → Database T → LoadResult → Loading
  unfolding drop_rejected finish
  answered_by mint (w, err f) d res = (w, d, res, some f)
  answered_by mint (w, ok (phase, rejected)) d res =
      elim (drop_rejected a.namespace rejected d.pairs) [
        | err f ↦ (w, d, record res { rejected = rejected }, some f)
        | ok (pairs, dropped) ↦
            finish mint dropped phase w (record d { pairs = pairs })
              (record res { rejected = rejected })
      ]

  -- Run once the set is there: nothing more while an object is undecided.
  unfoldable pub reconcile : (ℕ → String) → Stage → Loading
  unfolding loaded_bindings answered_by finish
  reconcile mint (w, d, res, err f) = (w, d, res, some f)
  reconcile mint (w, d, res, ok phase) = elim res.blocked [
    | e ∷ es ↦ ended (w, d, res, ok phase)
    | [] ↦
        if same_phase phase reconciling || same_phase phase loading_to_agrirouter
        then answered_by mint (lq.confirm (loaded_bindings a.namespace res.types d.pairs) w) d
            (record res { confirmed = loaded_bindings a.namespace res.types d.pairs })
        else ended (w, d, res, ok phase)
  ]

  -- LoadResult{}
  abbrev no_result : LoadResult
  no_result = record {
    types = in_order;
    attempts = 0;
    received = 0;
    created = 0;
    matched = 0;
    ignored = 0;
    superseded = 0;
    discarded = 0;
    awaiting_user = false;
    blocked = [];
    confirmed = [];
    rejected = [];
    sent = 0;
    state = none;
  }

  -- Run, with the cap on the takes; 0 stands for none given. The fuel of its loop is one more than
  -- the cap.
  unfoldable pub run : ℕ → (ℕ → String) → W → Database T → Option Loading
  unfolding take_until reconcile
  run cap mint w d = elim in_order [
    | [] ↦ some (w, d, no_result, none)
    | typ ∷ typs ↦
        Option.map (reconcile mint)
          (take_until (attempts cap) (suc (attempts cap)) (at_phase (lq.status w) d no_result))
  ]
