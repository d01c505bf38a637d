-- ===== src/References.antt =====
-- References between entities: reference-client/internal/testrouter/references.go.
pub mod Resolved
use masterdata_sync_working.Prelude.{
  ℕ, String, Bool, true, false, ◌&&◌, ◌||◌, not, Option, none, some, List, [], ◌∷◌, ◌++◌, any, ◌==◌,
  str_eq, if◌then◌else◌, is_some,
}
use masterdata_sync_working.Json.{
  Value, null, boolean, num, str, arr, obj, Fields, empty, get, put, is_null, into_map,
}
use masterdata_sync_working.Failure.{Result, ok, err, invalid, unresolved_ref, ◌>>=◌, ◌>>◌}
use masterdata_sync_working.Platform.{Platform}
use masterdata_sync_working.Model.{
  EntityType, party, same_type, Object, Endpoint, RefSlot, ref_slots, party_type_of, details_key,
}
use masterdata_sync_working.Identity.{WireId, read, canonical_id}
use masterdata_sync_working.Identity.Wire.{decode_reference, encode_reference}
use masterdata_sync_working.Store.{Store, find_object, lookup_local, render_id}

abbrev pub Visitor : Type 0
Visitor = RefSlot → WireId → Result WireId

-- An `Id` that names nothing is an empty slot.
abbrev pub names_nothing : WireId → Bool
names_nothing id = not (is_some id.reference_id) && no_entries id.unique_ids
  where
    no_entries : {A : Type 0} → List A → Bool
    no_entries [] = true
    no_entries (x ∷ xs) = false

-- visitRef: a value that is no reference is left alone.
unfoldable pub visit_ref : Value → (WireId → Result WireId) → Result Value
visit_ref raw visit = elim (decode_reference raw) [
  | none ↦ ok raw
  | some id ↦
      if names_nothing id then ok raw else (visit id >>= λ remade. ok (encode_reference remade))
]

visit_value : Option Value → RefSlot → Fields → Visitor → Result Fields
unfolding visit_ref
visit_value none slot container visit = ok container
visit_value (some raw) slot container visit =
    if is_null raw
    then ok container
    else (visit_ref raw (visit slot) >>= λ updated. ok (put slot.key updated container))

-- walkSlot
unfoldable pub walk_slot : RefSlot → Fields → Visitor → Result Fields
unfolding visit_value
walk_slot slot container visit = visit_value (get slot.key container) slot container visit

-- A slot nested in an object, which a value of another shape passes over.
unfoldable pub walk_nested : Option Value → RefSlot → Fields → Visitor → Result Fields
unfolding walk_slot
walk_nested (some (obj fs)) slot content visit =
    walk_slot slot (into_map fs empty) visit >>= λ remade. ok (put slot.within (obj remade) content)
walk_nested _ slot content visit = ok content

unfoldable pub walk_one : RefSlot → Fields → Visitor → Result Fields
unfolding walk_nested walk_slot
walk_one slot content visit =
    if str_eq slot.within ""
    then walk_slot slot content visit
    else walk_nested (get slot.within content) slot content visit

unfoldable pub walk_slots : List RefSlot → Fields → Visitor → Result Fields
unfolding walk_one
walk_slots [] content visit = ok content
walk_slots (slot ∷ slots) content visit =
    walk_one slot content visit >>= λ c. walk_slots slots c visit

-- walkRefs
unfoldable pub walk_refs : EntityType → Fields → Visitor → Result Fields
unfolding walk_slots
walk_refs typ content visit = walk_slots (ref_slots typ) content visit

-- The container of a slot, as walkRefs finds it.
unfoldable pub slot_container : RefSlot → Fields → Fields
slot_container slot content =
    if str_eq slot.within "" then content else nested (get slot.within content)
  where
    nested : Option Value → Fields
    nested (some (obj fs)) = into_map fs empty
    nested _ = empty

-- The `Id` that walkRefs visits in a slot.
unfoldable pub visited : RefSlot → Fields → Option WireId
unfolding slot_container
visited slot content = at (get slot.key (slot_container slot content))
  where
    shown : Option WireId → Option WireId
    shown none = none
    shown (some id) = if names_nothing id then none else some id

    at : Option Value → Option WireId
    at none = none
    at (some raw) = if is_null raw then none else shown (decode_reference raw)

module _ (p : Platform) where
  -- What a reference names: by its agrirouter entry, or else by the sender's own identifier.
  unfoldable pub target_of : Store → Endpoint → RefSlot → WireId → Option ℕ → Result ℕ
  target_of s ep slot id (some target) = ok target
  target_of s ep slot id none = elim id.reference_id [
    | none ↦ err unresolved_ref
    | some local_id ↦ elim (lookup_local s ep slot.target local_id) [
      | none ↦ err unresolved_ref
      | some target ↦ ok target
    ]
  ]

  -- The target is an object of the slot's type in the sender's tenant, and of its party type.
  unfoldable pub check_target : Endpoint → RefSlot → Option Object → Result (Unit {0})
  check_target ep slot none = err unresolved_ref
  check_target ep slot (some o) =
      if not (same_type o.typ slot.target) || not (o.tenant_id == ep.tenant_id)
      then err unresolved_ref
      else if not (str_eq slot.party_type "")
          && not (str_eq (party_type_of (get details_key o.content)) slot.party_type)
      then err (invalid "the slot must name a party of its party type")
      else ok tt

  unfoldable pub resolve_ref : Store → Endpoint → Visitor
  unfolding target_of check_target
  resolve_ref s ep slot id = do
    entries ← read p id
    target ← target_of s ep slot id entries.0
    check_target ep slot (find_object target s.objects)
    ok (canonical_id p target)

  -- resolveRefs
  unfoldable pub resolve_refs : Store → Endpoint → EntityType → Fields → Result Fields
  unfolding resolve_ref
  resolve_refs s ep typ content = walk_refs typ content (resolve_ref s ep)

  unfoldable pub rewrite_ref : Store → ℕ → Visitor
  rewrite_ref s endpoint_id slot id = elim (read p id) [
    | ok entries ↦ elim entries.0 [
      | none ↦ ok id
      | some target ↦ ok (render_id p s endpoint_id target)
    ]
    | err e ↦ ok id
  ]

  -- rewriteRefs: its visitor returns no error, and the result of the walk is not looked at.
  unfoldable pub rewrite_refs : Store → ℕ → EntityType → Fields → Fields
  unfolding rewrite_ref
  rewrite_refs s endpoint_id typ content =
      elim (walk_refs typ content (rewrite_ref s endpoint_id)) [ ok c ↦ c | err e ↦ content ]

  -- Whether one slot of an entity names the object.
  unfoldable pub slot_names : ℕ → Option WireId → Bool
  slot_names id none = false
  slot_names id (some w) = elim (read p w) [
    | ok entries ↦ elim entries.0 [ none ↦ false | some target ↦ target == id ]
    | err e ↦ false
  ]

  -- namedAsParent
  unfoldable pub named_as_parent : ℕ → List Object → Bool
  unfolding slot_names visited
  named_as_parent id = any λ (o : Object).
      same_type o.typ party
      && any (λ (slot : RefSlot). slot_names id (visited slot o.content)) (ref_slots o.typ)
