-- ===== src/Write/Panics.antt =====
-- The checks of a write return their errors: contentOf, rejectNull and checkDetails of
-- reference-client/internal/testrouter/ssot.go, and walkRefs and resolveRefs of references.go.
use masterdata_sync_working.Prelude.{
  ℕ, String, Bool, true, false, Option, none, some, List, [], ◌∷◌, str_eq, if◌then◌else◌, ◌≡◌, refl,
  arith, Option-cases, Bool-cases, inl, inr,
}
use masterdata_sync_working.Json.{
  Value, null, boolean, num, str, arr, obj, Fields, empty, get, into_map, is_null,
}
use masterdata_sync_working.Failure.{Result, ok, err, panic, invalid, ◌>>=◌}
use masterdata_sync_working.Platform.{Platform}
use masterdata_sync_working.Model.{EntityType, Endpoint, Object, RefSlot}
use masterdata_sync_working.Identity.{WireId, WireUniqueId, LocalEntry, read, read_entries}
use masterdata_sync_working.Identity.Wire.{decode_reference}
use masterdata_sync_working.Assigned.{object_of}
use masterdata_sync_working.References.{
  names_nothing, Visitor, visit_ref, walk_slot, walk_nested, walk_one, walk_slots, target_of,
  check_target, resolve_ref,
}
use masterdata_sync_working.Store.{Store, find_object}
use masterdata_sync_working.Write.Content.{content_of, reject_null, check_details}

abbrev pub panics {ℓ} : {A : Type ℓ} → Result A → Bool
panics (err panic) = true
panics _ = false

pub panics->>= {ℓ κ} :
    {A : Type ℓ} {B : Type κ} (call : Result A) (next : A → Result B)
    → panics call ≡ false
    → ((a : A) → panics (next a) ≡ false)
    → panics (call >>= next) ≡ false
panics->>= (ok a) next h k = k a
panics->>= (err panic) next h k = cc
panics->>= (err e) next h k = h

pub content_of_quiet : (body : Value) → panics (content_of body) ≡ false
unfolding content_of
content_of_quiet body = ground arith

object_of_quiet : (body : Value) → panics (object_of body) ≡ false
object_of_quiet body = ground arith

two_checks_quiet :
    (a b : Bool) (f g : String)
    → panics {A = Unit {0}} (if a then err (invalid f) else if b then err (invalid g) else ok tt)
      ≡ false
two_checks_quiet a b f g = ground arith

pub reject_null_quiet :
    (typ : EntityType) (body : Value) (content : Fields)
    → panics (reject_null typ body content) ≡ false
unfolding reject_null
reject_null_quiet typ body content =
    panics->>= (object_of body) _ (object_of_quiet body) (λ fs. search two_checks_quiet)

pub check_details_quiet :
    (typ : EntityType) (incoming : Fields) → panics (check_details typ incoming) ≡ false
unfolding check_details
check_details_quiet typ incoming = ground arith

module _ (p : Platform) where
  read_entries_quiet :
      (reference : Option String) (es : List WireUniqueId) (id : Option ℕ) (l : Option LocalEntry)
      → panics (read_entries p reference es id l) ≡ false
  unfolding read_entries
  read_entries_quiet reference [] id l = refl
  read_entries_quiet reference (e ∷ es) id l = grind (arith, read_entries_quiet reference es)

  visit_ref_quiet :
      (raw : Value) (visit : WireId → Result WireId)
      → ((id : WireId) → panics (visit id) ≡ false)
      → panics (visit_ref raw visit) ≡ false
  unfolding visit_ref
  visit_ref_quiet raw visit quiet = elim (Option-cases (decode_reference raw)) [
    | inl gone ↦ rw (gone, visit_ref) refl
    | inr (id, shown) ↦
        rw (shown, visit_ref)
          (elim (Bool-cases (names_nothing id)) [
            | inl nothing ↦ rw nothing refl
            | inr something ↦ rw something (panics->>= (visit id) _ (quiet id) (λ r. refl))
          ])
  ]

  walk_slot_quiet :
      (slot : RefSlot) (container : Fields) (visit : Visitor)
      → ((slot : RefSlot) (id : WireId) → panics (visit slot id) ≡ false)
      → panics (walk_slot slot container visit) ≡ false
  unfolding walk_slot
  walk_slot_quiet slot container visit quiet = elim (Option-cases (get slot.key container)) [
    | inl gone ↦ rw gone refl
    | inr (raw, there) ↦ rw there (elim (Bool-cases (is_null raw)) [
      | inl absent ↦ rw absent refl
      | inr present ↦ rw present (
          panics->>= (visit_ref raw (visit slot)) _ (visit_ref_quiet raw (visit slot) (quiet slot))
            (λ r. refl))
    ])
  ]

  walk_nested_quiet :
      (v : Option Value) (slot : RefSlot) (content : Fields) (visit : Visitor)
      → ((slot : RefSlot) (id : WireId) → panics (visit slot id) ≡ false)
      → panics (walk_nested v slot content visit) ≡ false
  unfolding walk_nested
  walk_nested_quiet (some (obj fs)) slot content visit quiet =
      panics->>= (walk_slot slot (into_map fs empty) visit) _
        (walk_slot_quiet slot (into_map fs empty) visit quiet) (λ r. refl)
  walk_nested_quiet none slot content visit quiet = refl
  walk_nested_quiet (some null) slot content visit quiet = refl
  walk_nested_quiet (some (boolean b)) slot content visit quiet = refl
  walk_nested_quiet (some (num n)) slot content visit quiet = refl
  walk_nested_quiet (some (str t)) slot content visit quiet = refl
  walk_nested_quiet (some (arr vs)) slot content visit quiet = refl

  walk_one_quiet :
      (slot : RefSlot) (content : Fields) (visit : Visitor)
      → ((slot : RefSlot) (id : WireId) → panics (visit slot id) ≡ false)
      → panics (walk_one slot content visit) ≡ false
  unfolding walk_one
  walk_one_quiet slot content visit quiet = elim (Bool-cases (str_eq slot.within "")) [
    | inl top ↦ rw top (walk_slot_quiet slot content visit quiet)
    | inr nested ↦ rw nested (walk_nested_quiet (get slot.within content) slot content visit quiet)
  ]

  pub walk_slots_quiet :
      (slots : List RefSlot) (content : Fields) (visit : Visitor)
      → ((slot : RefSlot) (id : WireId) → panics (visit slot id) ≡ false)
      → panics (walk_slots slots content visit) ≡ false
  unfolding walk_slots
  walk_slots_quiet [] content visit quiet = refl
  walk_slots_quiet (slot ∷ slots) content visit quiet =
      panics->>= (walk_one slot content visit) (λ c. walk_slots slots c visit)
        (walk_one_quiet slot content visit quiet) (λ c. walk_slots_quiet slots c visit quiet)

  target_of_quiet :
      (s : Store) (ep : Endpoint) (slot : RefSlot) (id : WireId) (named : Option ℕ)
      → panics (target_of p s ep slot id named) ≡ false
  unfolding target_of
  target_of_quiet s ep slot id named = ground arith

  check_target_quiet :
      (ep : Endpoint) (slot : RefSlot) (found : Option Object)
      → panics (check_target p ep slot found) ≡ false
  unfolding check_target
  check_target_quiet ep slot found = ground arith

  pub resolve_ref_quiet :
      (s : Store) (ep : Endpoint) (slot : RefSlot) (id : WireId)
      → panics (resolve_ref p s ep slot id) ≡ false
  unfolding resolve_ref read
  resolve_ref_quiet s ep slot id =
      panics->>= (read p id) _ (read_entries_quiet id.reference_id id.unique_ids none none)
        (λ entries.
          panics->>= (target_of p s ep slot id entries.0) _ (target_of_quiet s ep slot id entries.0)
            (λ target.
              panics->>= (check_target p ep slot (find_object target s.objects)) _
                (check_target_quiet ep slot (find_object target s.objects)) (λ u. refl)))
