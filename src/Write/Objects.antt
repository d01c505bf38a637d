-- ===== src/Write/Objects.antt =====
-- The invariant of the canonical objects, which every write of
-- reference-client/internal/testrouter/ssot.go keeps.
use masterdata_sync_working.Prelude.{
  ℕ, ◌+◌, ◌≤◌, String, Bool, false, Option, some, List, ◌==◌, if◌then◌else◌, ◌≡◌, refl, Bool-cases,
  some_inj, inl, inr, subst, ap, ◌∙◌, sym, arith,
}
use masterdata_sync_working.Json.{Value, Fields}
use masterdata_sync_working.Platform.{Platform}
use masterdata_sync_working.Model.{EntityType, Object, Endpoint}
use masterdata_sync_working.Assigned.{SentIdentity}
use masterdata_sync_working.Store.{Store, find_object, put_object, record_local_entry}
use masterdata_sync_working.Store.Lookup.{find-put_object}
use masterdata_sync_working.Deliver.{deliver}
use masterdata_sync_working.Write.{Write, create, updated, put_entity, deactivate}
use masterdata_sync_working.Write.Merge.{ℤ, Change, value_at, apply_changes}
use masterdata_sync_working.Write.Merge.History.{
  IsRecorded, raised, raised-IsRecorded, apply_changes-IsRecorded, apply_changes-fixed,
}
use masterdata_sync_working.Write.Cases.{
  put_entity_cases, deactivate_cases, after_create, after_update, after_deactivate, deactivated,
  created,
}

-- An object that is stored: its history reads back its content, its revision is at least 1, and
-- the position it last changed at is not above the store's.
pub record IsStored (seq : ℕ) (o : Object) : Type 0 where
  pub recorded : IsRecorded o
  pub positive : 1 ≤ o.revision
  pub placed : o.seq ≤ seq

abbrev pub AllStored : Store → Type 0
AllStored s = (id : ℕ) (o : Object) → find_object id s.objects ≡ some o → IsStored s.seq o

IsStored-later : (seq : ℕ) (o : Object) → IsStored seq o → IsStored (seq + 1) o
IsStored-later seq o h = record {
  recorded = h.recorded;
  positive = h.positive;
  placed = omega (arith, h.placed);
}

-- One more object, at the next position.
AllStored-put :
    (s t : Store) (q : Object)
    → t.objects ≡ put_object q s.objects
    → t.seq ≡ s.seq + 1
    → IsStored (s.seq + 1) q
    → AllStored s
    → AllStored t
AllStored-put s t q objects next new all id o found = rw next (elim (Bool-cases (q.id == id)) [
  | inl same ↦ subst (IsStored (s.seq + 1)) (some_inj (rw same at there)) new
  | inr other ↦ IsStored-later s.seq o (all id o (rw other at there))
])
  where
    there : (if q.id == id then some q else find_object id s.objects) ≡ some o
    there = sym (find-put_object id q s.objects) ∙ (sym (ap (find_object id) objects) ∙ found)

updated-IsStored :
    (ep : Endpoint) (w : Write) (o : Object) (cs : List Change) (now seq : ℕ)
    → IsStored seq o
    → IsStored (seq + 1) (updated ep w o cs now (seq + 1))
unfolding updated
updated-IsStored ep w o cs now seq h = record {
  recorded = record { upto = after.upto; current = after.current };
  positive = omega (arith, (apply_changes-fixed cs (raised o)).0, h.positive);
  placed = omega arith;
}
  where
    after : IsRecorded (apply_changes cs (raised o))
    after = apply_changes-IsRecorded cs (raised o) (raised-IsRecorded o h.recorded)

created-IsStored :
    (ep : Endpoint) (typ : EntityType) (l : String) (content : Fields) (active : Bool)
    (fresh now : ℕ) (s : Store)
    → IsStored (s.seq + 1) (create ep typ l content active fresh now s).1
unfolding create value_at
created-IsStored ep typ l content active fresh now s = record {
  recorded = record { upto = λ k. ground arith; current = λ k. ground arith };
  positive = omega arith;
  placed = omega arith;
}

deactivated-IsStored :
    (p : Platform) (ep : Endpoint) (typ : EntityType) (l : String) (now : ℕ) (s : Store)
    (o : Object)
    → IsStored s.seq o
    → IsStored (s.seq + 1) (record o {
      revision = o.revision + 1;
      active = false;
      modified_at = now;
      source_endpoint_id = ep.id;
      seq = s.seq + 1;
    })
deactivated-IsStored p ep typ l now s o h = record {
  recorded = record { upto = after.upto; current = after.current };
  positive = omega arith;
  placed = omega arith;
}
  where
    after : IsRecorded (raised o)
    after = raised-IsRecorded o h.recorded

module _ (p : Platform) (ep : Endpoint) (typ : EntityType) (local_id : String) (s : Store)
    (all : AllStored s) where
  -- Every put, accepted or refused, keeps every object stored: its history, read at the current
  -- revision, is its content, and reaches no further.
  pub put_entity-AllStored :
      (body : Value) (base : Option ℤ) (sent : SentIdentity) (fresh now : ℕ)
      → AllStored (put_entity p ep typ local_id body base sent fresh now s).0
  unfolding record_local_entry deliver create
  put_entity-AllStored body base sent fresh now =
      put_entity_cases p ep fresh now s (λ r. AllStored r.0) typ local_id
        (record {
          refused = λ e. all;
          makes = λ w t l h.
              AllStored-put s (after_create p ep fresh now s w) (created p ep fresh now s w).1 refl
                refl (created-IsStored ep w.typ w.local_id _ _ fresh now s) all;
          stands = λ w o id h k r q. all;
          changes = λ w o id h k cs.
              AllStored-put s (after_update p ep fresh now s w o cs)
                (updated ep w o cs now (s.seq + 1)) refl refl
                (updated-IsStored ep w o cs now s.seq (all id o k)) all;
        })
        body base sent

  -- Every deactivate keeps every object stored.
  pub deactivate-AllStored :
      (base : Option ℤ) (now : ℕ) → AllStored (deactivate p ep typ local_id base now s).0
  unfolding deliver
  deactivate-AllStored base now =
      deactivate_cases p ep typ local_id now s (λ r. AllStored r.0)
        (record {
          refused = λ e. all;
          inactive = λ o id h k a. all;
          ends = λ o id h k a.
              AllStored-put s (after_deactivate p ep typ local_id now s (λ r. AllStored r.0) o)
                (deactivated p ep typ local_id now s (λ r. AllStored r.0) o) refl refl
                (deactivated-IsStored p ep typ local_id now s o (all id o k)) all;
        })
        base
