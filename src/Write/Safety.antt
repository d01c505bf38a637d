-- ===== src/Write/Safety.antt =====
-- Put and deactivate find the objects that the mapping names:
-- reference-client/internal/testrouter/ssot.go.
use masterdata_sync_working.Prelude.{
  ℕ, String, Bool, true, false, Option, none, some, List, ◌≡◌, ◌≢◌, refl, sym, ap, ◌∙◌, arith,
  Option-cases, Bool-cases, inl, inr, not, ◌==◌, ◌||◌, ◌&&◌, if◌then◌else◌,
}
use masterdata_sync_working.Json.{Value, Fields, empty, entry, equal}
use masterdata_sync_working.Failure.{Result, ok, err, panic, invalid, revision_conflict}
use masterdata_sync_working.Platform.{Platform}
use masterdata_sync_working.Model.{EntityType, Endpoint, Object, ref_slots, opted_into, details_key}
use masterdata_sync_working.Assigned.{SentIdentity, check_binding}
use masterdata_sync_working.References.{walk_refs, resolve_ref, resolve_refs}
use masterdata_sync_working.Store.{
  Store, find_object, lookup_local, object_type, record_local_entry,
}
use masterdata_sync_working.Mapping.Invariant.{IsConsistent}
use masterdata_sync_working.Write.{
  Write, no_changes, active_changes, read_content, put_new, commit, merge_from, put_known,
  put_bound, put_entity, deactivate_active, deactivate_bound, deactivate,
}
use masterdata_sync_working.Write.Content.{
  content_of, reject_null, check_details, check_kind_change,
}
use masterdata_sync_working.Write.Merge.{
  ℤ, Change, three_way, merge_attribute, merge_changes, read_base, same_revision, patched,
  change_at, changes_something,
}
use masterdata_sync_working.Write.Cases.{Result-cases}
use masterdata_sync_working.Write.Panics.{
  panics, panics->>=, content_of_quiet, reject_null_quiet, check_details_quiet, resolve_ref_quiet,
  walk_slots_quiet,
}

not_panic : {A : Type 0} (r : Result A) → panics r ≡ false → r ≢ err panic
not_panic r h e = no (ap panics (sym e) ∙ h)
  where
    no : true ≡ false → ⊥
    no e = cc

three_way_quiet :
    (rev : ℕ) (key : String) (x y z w : Option Value) → panics (three_way rev key x y z w) ≡ false
unfolding three_way
three_way_quiet rev key x y z w = at (equal y x) (not (equal z x) && not (equal y z)) (equal w z)
  where
    at :
        (a b c : Bool)
        → panics {A = Option Change} (
            if a
            then ok none
            else if b
            then err (revision_conflict rev)
            else if c
            then ok none
            else ok (some (record { key = key; value = w })))
          ≡ false
    at a b c = ground arith

merge_attribute_quiet :
    (typ : EntityType) (o : Object) (b : ℕ) (k : String) (v : Value)
    → panics (merge_attribute typ o b k v) ≡ false
unfolding merge_attribute
merge_attribute_quiet typ o b k v = three_way_quiet _ _ _ _ _ _

merge_changes_quiet :
    (typ : EntityType) (o : Object) (b : ℕ) (incoming : Fields)
    → panics (merge_changes typ o b incoming) ≡ false
unfolding merge_changes
merge_changes_quiet typ o b empty = refl
merge_changes_quiet typ o b (entry k v fs) =
    panics->>= (merge_attribute typ o b k v) _ (merge_attribute_quiet typ o b k v)
      (λ c. panics->>= (merge_changes typ o b fs) _ (merge_changes_quiet typ o b fs) (λ cs. refl))

kind_test_quiet :
    (a b : Bool) (m : String)
    → panics {A = Unit {0}} (if a then ok tt else if b then err (invalid m) else ok tt) ≡ false
kind_test_quiet a b m = ground arith

kind_quiet :
    (p : Platform) (t : Store) (o : Object) (details : Option (Option Value))
    → panics (check_kind_change p t o details) ≡ false
unfolding check_kind_change
kind_quiet p t o none = refl
kind_quiet p t o (some details) = search kind_test_quiet

check_binding_quiet : (sent known : Option ℕ) → panics (check_binding sent known) ≡ false
unfolding check_binding
check_binding_quiet none known = refl
check_binding_quiet (some id) none = refl
check_binding_quiet (some id) (some bound) = elim (Bool-cases (id == bound)) [
  | inl same ↦ rw same refl
  | inr other ↦ rw other refl
]

module _ (p : Platform) (ep : Endpoint) where
  read_content_quiet :
      (typ : EntityType) (body : Value) (s : Store) → panics (read_content p ep typ body s) ≡ false
  unfolding read_content resolve_refs walk_refs
  read_content_quiet typ body s = elim (Bool-cases (opted_into ep typ)) [
    | inl opted ↦ rw opted (
        panics->>= (content_of body) _ (content_of_quiet body) (λ incoming.
          panics->>= (reject_null typ body incoming) _ (reject_null_quiet typ body incoming) (λ u.
            panics->>= (check_details typ incoming) _ (check_details_quiet typ incoming) (λ u.
              walk_slots_quiet p (ref_slots typ) incoming (resolve_ref p s ep)
                (resolve_ref_quiet p s ep)))))
    | inr closed ↦ rw closed refl
  ]

  commit_quiet :
      (w : Write) (o : Object) (cs : List Change) (now : ℕ) (s : Store)
      → panics (commit p ep w o cs now s).1 ≡ false
  unfolding commit
  commit_quiet w o cs now s =
      elim (Bool-cases (no_changes cs && not (active_changes w.active o.active))) [
        | inl same ↦ rw same refl
        | inr changed ↦ rw changed refl
      ]

  merge_from_quiet :
      (w : Write) (o : Object) (now : ℕ) (s : Store) → panics (merge_from p ep w o now s).1 ≡ false
  unfolding merge_from
  merge_from_quiet w o now s = elim (Option-cases w.base) [
    | inl none_sent ↦ rw (none_sent, merge_from) refl
    | inr (base, sent) ↦
        rw (sent, merge_from)
          (elim (Option-cases (read_base base o.revision)) [
            | inl outside ↦ rw outside refl
            | inr (b, inside) ↦
                rw inside (elim (Result-cases (merge_changes w.typ o b w.incoming)) [
                  | inl (cs, merged) ↦ rw merged (commit_quiet w o cs now s)
                  | inr (e, conflict) ↦
                      rw conflict
                        (ap panics (sym conflict) ∙ merge_changes_quiet w.typ o b w.incoming)
                ])
          ])
  ]

  put_known_quiet :
      (w : Write) (o : Object) (now : ℕ) (s : Store) → panics (put_known p ep w o now s).1 ≡ false
  unfolding put_known
  put_known_quiet w o now s =
      let t = record_local_entry ep.id o.id w.local s in
      let changes = patched w.typ o.content w.incoming in
      let kind = check_kind_change p t o (change_at details_key changes) in
      elim (Result-cases kind) [
        | inr (e, refused) ↦
            rw (refused, put_known)
              (ap panics (sym refused) ∙ kind_quiet p t o (change_at details_key changes))
        | inl (u, passed) ↦
            rw (passed, put_known)
              (elim (Bool-cases
                (not (active_changes w.active o.active || changes_something o.content changes))) [
                  | inl same ↦ rw same refl
                  | inr changed ↦ rw changed (merge_from_quiet w o now t)
                ])
      ]

  put_new_quiet :
      (w : Write) (fresh now : ℕ) (s : Store) → panics (put_new p ep w fresh now s).1 ≡ false
  unfolding put_new
  put_new_quiet w fresh now s = elim (Option-cases w.base) [
    | inl none_sent ↦ rw (none_sent, put_new) refl
    | inr (base, sent) ↦ rw (sent, put_new) refl
  ]

  put_bound_quiet :
      (w : Write) (l : String) (typ : EntityType) (fresh now : ℕ) (s : Store)
      → IsConsistent s
      → panics (put_bound p ep w (lookup_local s ep typ l) fresh now s).1 ≡ false
  unfolding put_bound
  put_bound_quiet w l typ fresh now s inv = elim (Option-cases (lookup_local s ep typ l)) [
    | inl unknown ↦ rw unknown (put_new_quiet w fresh now s)
    | inr (id, known) ↦ rw (known) (elim (Option-cases (find_object id s.objects)) [
      | inl gone ↦ absurd (lost id gone (inv.from_local ep.id typ l id known).0)
      | inr (o, found) ↦ rw (found, put_bound) (put_known_quiet w o now s)
    ])
  ]
    where
      lost : (id : ℕ) → find_object id s.objects ≡ none → object_type s id ≡ some typ → ⊥
      lost id gone held = ground arith

  -- A put on a consistent mapping never dereferences a nil pointer: the object that a localId maps to
  -- is there.
  pub put_entity_safe :
      (typ : EntityType) (local_id : String) (body : Value) (base : Option ℤ) (sent : SentIdentity)
      (fresh now : ℕ) (s : Store)
      → IsConsistent s
      → (put_entity p ep typ local_id body base sent fresh now s).1 ≢ err panic
  unfolding put_entity
  put_entity_safe typ local_id body base sent fresh now s inv =
      not_panic (put_entity p ep typ local_id body base sent fresh now s).1
        (elim (Result-cases (read_content p ep typ body s)) [
          | inr (e, refused) ↦
              rw (refused, put_entity) (ap panics (sym refused) ∙ read_content_quiet typ body s)
          | inl (incoming, accepted) ↦
              rw (accepted, put_entity)
                (elim (Result-cases named) [
                  | inr (e, refused) ↦ rw refused (
                      ap panics (sym refused)
                      ∙ check_binding_quiet sent.agrirouter_id (lookup_local s ep typ local_id))
                  | inl (u, agreed) ↦ rw agreed (put_bound_quiet _ local_id typ fresh now s inv)
                ])
        ])
    where
      named : Result (Unit {0})
      named = check_binding sent.agrirouter_id (lookup_local s ep typ local_id)

  deactivate_active_quiet :
      (base : Option ℤ) (o : Object) (now : ℕ) (s : Store)
      → panics (deactivate_active p ep base o now s).1 ≡ false
  unfolding deactivate_active
  deactivate_active_quiet none o now s = refl
  deactivate_active_quiet (some b) o now s = elim (Bool-cases (same_revision b o.revision)) [
    | inl same ↦ rw same refl
    | inr moved ↦ rw moved refl
  ]

  deactivate_bound_quiet :
      (base : Option ℤ) (l : String) (typ : EntityType) (now : ℕ) (s : Store)
      → IsConsistent s
      → panics (deactivate_bound p ep base (lookup_local s ep typ l) now s).1 ≡ false
  unfolding deactivate_bound deactivate_active
  deactivate_bound_quiet base l typ now s inv = elim (Option-cases (lookup_local s ep typ l)) [
    | inl unknown ↦ rw unknown refl
    | inr (id, known) ↦ rw known (elim (Option-cases (find_object id s.objects)) [
      | inl gone ↦ absurd (lost id gone (inv.from_local ep.id typ l id known).0)
      | inr (o, found) ↦
          rw (found, deactivate_bound)
            (elim (Bool-cases o.active) [
              | inl active ↦ rw active (deactivate_active_quiet base o now s)
              | inr ended ↦ rw ended refl
            ])
    ])
  ]
    where
      lost : (id : ℕ) → find_object id s.objects ≡ none → object_type s id ≡ some typ → ⊥
      lost id gone held = ground arith

  -- A deactivate on a consistent mapping never dereferences a nil pointer.
  pub deactivate_safe :
      (typ : EntityType) (local_id : String) (base : Option ℤ) (now : ℕ) (s : Store)
      → IsConsistent s
      → (deactivate p ep typ local_id base now s).1 ≢ err panic
  unfolding deactivate
  deactivate_safe typ local_id base now s inv =
      not_panic (deactivate p ep typ local_id base now s).1 (elim (Bool-cases (opted_into ep typ)) [
        | inl opted ↦ rw opted (deactivate_bound_quiet base local_id typ now s inv)
        | inr closed ↦ rw closed refl
      ])
