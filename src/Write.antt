-- ===== src/Write.antt =====
-- Writes of an entity: put, create, deactivate, valueAt and the checks on a write's content in
-- reference-client/internal/testrouter/ssot.go. A new identifier (uuid.New) and the clock's
-- instant are arguments.
pub mod Content
pub mod Merge
pub mod Cases
pub mod Objects
pub mod Keeps
mod Panics
pub mod Safety
pub mod Effects
use masterdata_sync_working.Prelude.{
  ℕ, ◌+◌, String, Bool, true, false, ◌&&◌, ◌||◌, not, Option, none, some, List, [], ◌∷◌, ◌++◌, any,
  ◌==◌, ltb, str_eq, if◌then◌else◌,
}
use masterdata_sync_working.Json.{Value, Fields, empty, entry, get, put}
use masterdata_sync_working.Failure.{
  Result, ok, err, invalid, panic, not_found, forbidden, base_required, revision_conflict, ◌>>=◌,
  ◌>>◌,
}
use masterdata_sync_working.Platform.{Platform}
use masterdata_sync_working.Model.{
  EntityType, Object, Endpoint, AttributeValue, opted_into, details_key,
}
use masterdata_sync_working.Assigned.{SentIdentity, check_binding}
use masterdata_sync_working.Store.{
  Store, find_object, put_object, lookup_local, at_local, at_pair, record_local_entry,
}
use masterdata_sync_working.References.{resolve_refs}
use masterdata_sync_working.Deliver.{deliver}
use Content.{content_of, active_of, reject_null, check_details, check_kind_change}
use masterdata_sync_working.Identity.{LocalEntry}
use Merge.{
  ℤ, Change, change_at, new_content, patched, changes_something, read_base, same_revision,
  merge_changes, apply_changes,
}

-- What the create and update branches of put work from.
pub record Write : Type 0 where
  pub typ : EntityType
  pub local_id : String
  pub incoming : Fields
  pub active : Option Bool
  pub base : Option ℤ
  pub local : Option LocalEntry

abbrev pub true_by_default : Option Bool → Bool
true_by_default none = true
true_by_default (some b) = b

-- create, its object under the fresh identifier.
unfoldable pub create :
    Endpoint → EntityType → String → Fields → Bool → (fresh now : ℕ) → Store → Store × Object
create ep typ local_id content active fresh now s =
    let o : Object = record {
      id = fresh;
      typ = typ;
      tenant_id = ep.tenant_id;
      revision = 1;
      active = active;
      modified_at = now;
      source_endpoint_id = ep.id;
      seq = s.seq + 1;
      content = content;
      stamps = λ k. elim (get k content) [ none ↦ none | some v ↦ some 1 ];
      history = λ k. elim (get k content) [
        | none ↦ []
        | some v ↦ record { revision = 1; value = some v } ∷ []
      ];
    } in
    (
      record s {
        seq = s.seq + 1;
        objects = put_object o s.objects;
        local = at_local ep.id typ local_id (some fresh) s.local;
        canonical = at_pair ep.id fresh (some local_id) s.canonical;
      },
      o,
    )

-- A write's stamp on the object that it changed: the end of put and of deactivate.
abbrev pub stamped : Object → Endpoint → ℕ → ℕ → Object
stamped o ep now seq = record o { modified_at = now; source_endpoint_id = ep.id; seq = seq }

abbrev pub active_or : Option Bool → Bool → Bool
active_or none b = b
active_or (some b) _ = b

abbrev pub same_flag : Bool → Bool → Bool
same_flag true b = b
same_flag false b = not b

abbrev pub active_changes : Option Bool → Bool → Bool
active_changes none b = false
active_changes (some a) b = not (same_flag a b)

abbrev pub no_changes : List Change → Bool
no_changes [] = true
no_changes (c ∷ cs) = false

-- The merge succeeded: the object as the write leaves it.
unfoldable pub updated : Endpoint → Write → Object → List Change → (now seq : ℕ) → Object
updated ep w o changes now seq =
    let raised = apply_changes changes (record o { revision = o.revision + 1 }) in
    stamped (record raised { active = active_or w.active raised.active }) ep now seq

module _ (p : Platform) where
  -- The checks that come before the mapping is looked at.
  unfoldable pub read_content : Endpoint → EntityType → Value → Store → Result Fields
  read_content ep typ body s = if not (opted_into ep typ) then err forbidden else (do
    incoming ← content_of body
    reject_null typ body incoming
    check_details typ incoming
    resolve_refs p s ep typ incoming)

  -- The branch of put for a localId that is not known: a create.
  unfoldable pub put_new :
      Endpoint → Write → (fresh now : ℕ) → Store → Store × Result (Object × Bool)
  put_new ep w fresh now s = elim w.base [
    | some base ↦ (s, err (revision_conflict 0))
    | none ↦
        let (t, o) =
          create ep w.typ w.local_id (new_content w.typ w.incoming empty) (true_by_default w.active)
            fresh now s in
        (deliver p o ep.id false (record_local_entry ep.id o.id w.local t), ok (o, true))
  ]

  -- Commit what the merge found, unless it found nothing.
  unfoldable pub commit :
      Endpoint → Write → Object → List Change → ℕ → Store → Store × Result (Object × Bool)
  commit ep w o changes now s =
      if no_changes changes && not (active_changes w.active o.active)
      then (s, ok (o, false))
      else let q = updated ep w o changes now (s.seq + 1) in
        let t = record s { seq = s.seq + 1; objects = put_object q s.objects } in
        (deliver p q ep.id false t, ok (q, false))

  -- A base that is not there, or out of range, or one to merge from.
  unfoldable pub merge_from : Endpoint → Write → Object → ℕ → Store → Store × Result (Object × Bool)
  merge_from ep w o now s = elim w.base [
    | none ↦ (s, err base_required)
    | some base ↦ elim (read_base base o.revision) [
      | none ↦ (s, err (revision_conflict o.revision))
      | some b ↦ elim (merge_changes w.typ o b w.incoming) [
        | err e ↦ (s, err e)
        | ok changes ↦ commit ep w o changes now s
      ]
    ]
  ]

  -- The branch of put for a known object. What the write says of its local entry is kept first.
  unfoldable pub put_known : Endpoint → Write → Object → ℕ → Store → Store × Result (Object × Bool)
  put_known ep w o now s =
      let t = record_local_entry ep.id o.id w.local s in
      let changes = patched w.typ o.content w.incoming in
      elim (check_kind_change p t o (change_at details_key changes)) [
        | err e ↦ (t, err e)
        | ok _ ↦
            if not (active_changes w.active o.active || changes_something o.content changes)
            then (t, ok (o, false))
            else merge_from ep w o now t
      ]

  unfoldable pub put_bound :
      Endpoint → Write → Option ℕ → (fresh now : ℕ) → Store → Store × Result (Object × Bool)
  put_bound ep w none fresh now s = put_new ep w fresh now s
  put_bound ep w (some id) fresh now s = elim (find_object id s.objects) [
    | none ↦ (s, err panic)
    | some o ↦ put_known ep w o now s
  ]

  -- put: the new store comes back beside an error too, since a refused update of a known object
  -- has kept the write's local entry.
  unfoldable pub put_entity :
      Endpoint
      → EntityType
      → String
      → Value
      → Option ℤ
      → SentIdentity
      → (fresh now : ℕ) → Store
      → Store × Result (Object × Bool)
  put_entity ep typ local_id body base sent fresh now s = elim (read_content ep typ body s) [
    | err e ↦ (s, err e)
    | ok incoming ↦
        let bound = lookup_local s ep typ local_id in
        elim (check_binding sent.agrirouter_id bound) [
          | err e ↦ (s, err e)
          | ok _ ↦
              put_bound ep
                (record {
                  typ = typ;
                  local_id = local_id;
                  incoming = incoming;
                  active = active_of body;
                  base = base;
                  local = sent.local;
                })
                bound fresh now s
        ]
  ]

  unfoldable pub deactivate_active :
      Endpoint → Option ℤ → Object → ℕ → Store → Store × Result Object
  deactivate_active ep base o now s = elim base [
    | none ↦ (s, err base_required)
    | some b ↦
        if not (same_revision b o.revision)
        then (s, err (revision_conflict o.revision))
        else let q =
            stamped (record o { revision = o.revision + 1; active = false }) ep now (s.seq + 1) in
          let t = record s { seq = s.seq + 1; objects = put_object q s.objects } in
          (deliver p q ep.id true t, ok q)
  ]

  unfoldable pub deactivate_bound :
      Endpoint → Option ℤ → Option ℕ → ℕ → Store → Store × Result Object
  deactivate_bound ep base none now s = (s, err not_found)
  deactivate_bound ep base (some id) now s = elim (find_object id s.objects) [
    | none ↦ (s, err panic)
    | some o ↦ if o.active then deactivate_active ep base o now s else (s, ok o)
  ]

  -- deactivate
  unfoldable pub deactivate :
      Endpoint → EntityType → String → Option ℤ → ℕ → Store → Store × Result Object
  deactivate ep typ local_id base now s =
      if not (opted_into ep typ)
      then (s, err forbidden)
      else deactivate_bound ep base (lookup_local s ep typ local_id) now s
