-- ===== src/Client/Apply.antt =====
-- The Applier of reference-client/internal/platform/sync/inbound.go: a delivered object, or the
-- response to a write, applied to the platform's database. A transaction that fails leaves the
-- database, so a failure is `err` alone. The identifier that IDs would mint is an argument.
pub mod Keeps
pub mod Revision
pub mod Redelivery
use masterdata_sync_working.Prelude.{
  ℕ, String, Bool, true, false, ◌&&◌, not, Option, none, some, List, [], ◌∷◌, any, keep, map, ◌==◌,
  ltb, str_eq, if◌then◌else◌,
}
use masterdata_sync_working.Failure.{Result, ok, err, invalid, ◌>>=◌}
use masterdata_sync_working.Model.{EntityType, same_type}
use masterdata_sync_working.Client.Identity.{Envelope}
use masterdata_sync_working.Client.Pairs.{
  Namespace, SyncRow, sync_row, sync_row_by_agrirouter_id, sibling_row, put_sync_row,
}
use masterdata_sync_working.Client.Database.{
  Entity, Tables, Database, references, from_entity, set_position, upsert_record, set_archived,
}

pub record Applier : Type 0 where
  pub tenant : String
  -- The endpoint's identifier, and the namespace of its pairs.
  pub endpoint_id : ℕ
  pub namespace : Namespace

pub record Outcome : Type 0 where
  pub local_id : String
  pub created : Bool
  pub needs_binding : Bool
  pub superseded : Bool
  pub ignored : Bool
  pub discarded : Bool
  pub joined : Bool
  pub matched : Bool
  pub awaiting_user : Bool
  pub blocked : Bool

-- Outcome{}
abbrev pub no_outcome : Outcome
no_outcome = record {
  local_id = "";
  created = false;
  needs_binding = false;
  superseded = false;
  ignored = false;
  discarded = false;
  joined = false;
  matched = false;
  awaiting_user = false;
  blocked = false;
}

-- What a recogniser answers; an empty identifier is no record.
pub record Recognition : Type 0 where
  pub local_id : String
  pub awaiting_user : Bool
  pub blocked : Bool

-- A recogniser reads the database in the transaction, and may write to it.
abbrev pub Reconciler : Type 0 → Type 0
Reconciler T = Entity → Database T → Result (Database T × Recognition)

-- Active where it says nothing.
abbrev pub is_active : Envelope → Bool
is_active env = elim env.active [ none ↦ true | some a ↦ a ]

-- The pair that an applied object leaves.
abbrev pub pair_of : Applier → Envelope → EntityType → String → SyncRow
pair_of a env typ l = record {
  endpoint = a.namespace;
  typ = typ;
  local_id = l;
  agrirouter_id = env.agrirouter_id;
  revision = env.revision;
  unbound = false;
}

-- The guard: the object is older than the row.
abbrev pub is_older : Envelope → Option SyncRow → Bool
is_older env none = false
is_older env (some row) = elim row.revision [
  | none ↦ false
  | some held ↦ elim env.revision [ none ↦ false | some revision ↦ ltb revision held ]
]

module _ (a : Applier) where
  -- The identifier that the endpoint's own pairs or the object give, and then what a sibling's pair
  -- gives; whether it is a sibling's.
  unfoldable pub own_id : Envelope → ℕ → List SyncRow → String
  unfolding sync_row_by_agrirouter_id
  own_id env id rows = elim (sync_row_by_agrirouter_id a.namespace env.typ id rows) [
    | some row ↦ row.local_id
    | none ↦ elim env.local_id [ none ↦ "" | some l ↦ l ]
  ]

  unfoldable pub record_id : Envelope → ℕ → List SyncRow → String × Bool
  unfolding own_id sibling_row
  record_id env id rows =
      if str_eq (own_id env id rows) ""
      then elim (sibling_row a.namespace env.typ id rows) [
        | some row ↦ (row.local_id, true)
        | none ↦ ("", false)
      ]
      else (own_id env id rows, false)

-- The selection that the caller holds, or else the one recorded.
abbrev pub or_recorded :
    Option (List EntityType) → Option (List EntityType) → Option (List EntityType)
or_recorded (some types) recorded = some types
or_recorded none recorded = recorded

module _ {T : Type 0} (db : Tables T) (a : Applier) where
  -- unselectedRefs
  unfoldable pub unselected_refs : EntityType → Option (List EntityType) → Database T → List String
  unfolding references
  unselected_refs typ selected d = elim (or_recorded selected (d.routes a.endpoint_id)) [
    | none ↦ []
    | some routed ↦
        map (λ (r : String × EntityType). r.0)
          (keep (λ (r : String × EntityType). not (any (same_type r.1) routed)) (references typ))
  ]

  abbrev pub done : Outcome → Database T → Result (Database T × Outcome)
  done o d = ok (d, o)

  -- PutSyncRow in the transaction
  abbrev pub put_pair : SyncRow → Database T → Result (Database T)
  put_pair r d = put_sync_row r d.pairs >>= λ pairs. ok (record d { pairs = pairs })

  unfoldable pub write :
      EntityType
      → String
      → Entity
      → Bool
      → Option (List EntityType)
      → Database T
      → Result (Database T)
  unfolding from_entity unselected_refs upsert_record
  write typ l e active selected d = from_entity typ e >>= λ r.
      upsert_record db a.tenant
        (record r { archived = not active; ignored = unselected_refs typ selected d }) l d
      >>= λ d. put_pair (pair_of a e.envelope typ l) d

  -- The recogniser's answer, or none where there is no recogniser.
  abbrev pub recognised :
      Option (Reconciler T) → Entity → Database T → Result (Database T × Recognition)
  recognised none e d = ok (d, record { local_id = ""; awaiting_user = false; blocked = false })
  recognised (some recognise) e d = recognise e d

  -- applyUnheldObject
  unfoldable pub apply_unheld :
      Entity
      → Bool
      → String
      → Option (Reconciler T)
      → Option (List EntityType)
      → Database T
      → Result (Database T × Outcome)
  unfolding write set_archived
  apply_unheld e active fresh recognise selected d =
      recognised recognise e d >>= λ (answer : Database T × Recognition).
      let d = answer.0 in
      let known = answer.1 in
      let typ = e.envelope.typ in
      if known.blocked
      then ok (d, record no_outcome { blocked = true; awaiting_user = known.awaiting_user })
      else if not (str_eq known.local_id "") && not active
      then put_pair (pair_of a e.envelope typ known.local_id)
          (set_archived db typ known.local_id true d)
        >>= done (record no_outcome {
          local_id = known.local_id;
          matched = true;
          needs_binding = true;
          awaiting_user = known.awaiting_user;
        })
      else if not (str_eq known.local_id "")
      then write typ known.local_id e active selected d
        >>= done (record no_outcome {
          local_id = known.local_id;
          matched = true;
          needs_binding = true;
          awaiting_user = known.awaiting_user;
        })
      else if not active
      then ok (d, record no_outcome { ignored = true; awaiting_user = known.awaiting_user })
      else write typ fresh e active selected d
        >>= done (record no_outcome {
          local_id = fresh;
          created = true;
          needs_binding = true;
          awaiting_user = known.awaiting_user;
        })

  unfoldable pub apply_in :
      Entity
      → ℕ
      → String
      → Option (Reconciler T)
      → Option (List EntityType)
      → Database T
      → Result (Database T × Outcome)
  unfolding record_id apply_unheld write sync_row
  apply_in e id fresh recognise selected d =
      let env = e.envelope in
      let l = (record_id a env id d.pairs).0 in
      let joined = (record_id a env id d.pairs).1 in
      if str_eq l ""
      then apply_unheld e (is_active env) fresh recognise selected d
      else if is_older env (sync_row a.namespace env.typ l d.pairs)
      then ok (d, record no_outcome { local_id = l; superseded = true })
      else write env.typ l e (is_active env) selected d
        >>= done (record no_outcome { local_id = l; joined = joined; needs_binding = joined })

  abbrev pub positioned : String → Database T × Outcome → Result (Database T × Outcome)
  positioned position applied = ok (set_position position applied.0, applied.1)

  -- apply, and Apply where there is no recogniser and no selection
  unfoldable pub apply :
      Entity
      → String
      → String
      → Option (Reconciler T)
      → Option (List EntityType)
      → Database T
      → Result (Database T × Outcome)
  unfolding apply_in set_position
  apply e position fresh recognise selected d = elim e.envelope.agrirouter_id [
    | none ↦ err (invalid "sync: a delivered object carries no agrirouterId")
    | some id ↦ elim e.envelope.tenant_id [
      | none ↦ ok (d, record no_outcome { discarded = true })
      | some tenant ↦
          if not (tenant == a.namespace.tenant_id)
          then err (invalid "sync: an object of another tenant")
          else apply_in e id fresh recognise selected d >>= positioned position
    ]
  ]
