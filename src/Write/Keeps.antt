-- ===== src/Write/Keeps.antt =====
-- Writes keep the identifier mapping consistent: put and deactivate of
-- reference-client/internal/testrouter/ssot.go.
use masterdata_sync_working.Prelude.{
  ℕ, ◌+◌, String, Bool, false, Option, none, some, List, ◌==◌, if◌then◌else◌, ◌≡◌, refl, ◌∙◌, ap,
  Bool-cases, inl, inr, arith,
}
use masterdata_sync_working.Json.{Value, Fields}
use masterdata_sync_working.Platform.{Platform}
use masterdata_sync_working.Model.{EntityType, Object, Endpoint}
use masterdata_sync_working.Assigned.{SentIdentity}
use masterdata_sync_working.Store.{
  Store, find_object, put_object, record_local_entry, object_type, typ_of,
}
use masterdata_sync_working.Store.Lookup.{find-put_object, find_object-id}
use masterdata_sync_working.Mapping.{write_pair}
use masterdata_sync_working.Mapping.Invariant.{
  IsConsistent, IsConsistent-same, write_pair-IsConsistent,
}
use masterdata_sync_working.Deliver.{deliver}
use masterdata_sync_working.Write.{Write, create, updated, put_entity, deactivate}
use masterdata_sync_working.Write.Merge.{ℤ, Change}
use masterdata_sync_working.Write.Merge.History.{raised, apply_changes-fixed}
use masterdata_sync_working.Write.Cases.{
  put_entity_cases, deactivate_cases, after_create, after_update, created,
}

abbrev pub with_object : Object → Store → Store
with_object q s = record s { objects = put_object q s.objects }

object_type-put :
    (q : Object) (s : Store) (id : ℕ)
    → object_type (with_object q s) id ≡ (if q.id == id then some q.typ else object_type s id)
object_type-put q s id = elim (Bool-cases (q.id == id)) [
  | inl same ↦ rw (find-put_object id q s.objects, same) refl
  | inr other ↦ rw (find-put_object id q s.objects, other) refl
]

with_new-IsConsistent :
    (q : Object) (s : Store)
    → object_type s q.id ≡ none
    → IsConsistent s
    → IsConsistent (with_object q s)
with_new-IsConsistent q s fresh inv = record {
  from_local = λ e t l id h. (
    ground (arith, object_type-put q s id, (inv.from_local e t l id h).0),
    (inv.from_local e t l id h).1,
  );
  held = λ e id l h. ground (arith, object_type-put q s id, inv.held e id l h);
  from_canonical = λ e id l t h known.
      ground (arith, object_type-put q s id, inv.held e id l h, inv.from_canonical e id l t h);
}

-- A write through an object's pointer leaves its type.
with_same-IsConsistent :
    (q o : Object) (id : ℕ) (s : Store)
    → q.id ≡ id
    → find_object id s.objects ≡ some o
    → q.typ ≡ o.typ
    → IsConsistent s
    → IsConsistent (with_object q s)
with_same-IsConsistent q o id s named found same inv =
    IsConsistent-same s (with_object q s) refl refl
      (λ i. ground (arith, object_type-put q s i, ap typ_of found)) inv

-- The pair that a create records is of an object that nothing names yet.
created-IsConsistent :
    (ep : Endpoint) (typ : EntityType) (l : String) (content : Fields) (active : Bool)
    (fresh now : ℕ) (s : Store)
    → object_type s fresh ≡ none
    → s.local ep.id typ l ≡ none
    → IsConsistent s
    → IsConsistent (create ep typ l content active fresh now s).0
unfolding create write_pair
created-IsConsistent ep typ l content active fresh now s new free inv =
    IsConsistent-same (write_pair ep typ l fresh grown) made refl refl (λ id. refl)
      (write_pair-IsConsistent ep typ l fresh grown (with_new-IsConsistent q s new inv)
        (ground (arith, object_type-put q s fresh)) free (unclaimed (s.canonical ep.id fresh) refl))
  where
    made : Store
    made = (create ep typ l content active fresh now s).0

    q : Object
    q = (create ep typ l content active fresh now s).1

    grown : Store
    grown = with_object q s

    unclaimed : (o : Option String) → s.canonical ep.id fresh ≡ o → s.canonical ep.id fresh ≡ none
    unclaimed none h = h
    unclaimed (some k) h = absurd (inv.held ep.id fresh k h new)

update-IsConsistent :
    (ep : Endpoint) (w : Write) (o : Object) (id : ℕ) (cs : List Change) (now seq : ℕ) (s : Store)
    → find_object id s.objects ≡ some o
    → IsConsistent s
    → IsConsistent (with_object (updated ep w o cs now seq) s)
unfolding updated
update-IsConsistent ep w o id cs now seq s k inv =
    let fixed = apply_changes-fixed cs (raised o) in
    with_same-IsConsistent (updated ep w o cs now seq) o id s
      (fixed.1 ∙ find_object-id id s.objects o k) k fixed.2 inv

module _ (p : Platform) (ep : Endpoint) (typ : EntityType) (local_id : String) (s : Store)
    (inv : IsConsistent s) where
  -- Every put, accepted or refused, keeps the mapping consistent, if a new identifier is one that
  -- no object has.
  pub put_entity-IsConsistent :
      (body : Value) (base : Option ℤ) (sent : SentIdentity) (fresh now : ℕ)
      → object_type s fresh ≡ none
      → IsConsistent (put_entity p ep typ local_id body base sent fresh now s).0
  unfolding record_local_entry deliver
  put_entity-IsConsistent body base sent fresh now new =
      put_entity_cases p ep fresh now s (λ r. IsConsistent r.0) typ local_id
        (record {
          refused = λ e. inv;
          makes = λ w t l h.
              IsConsistent-same (created p ep fresh now s w).0 (after_create p ep fresh now s w)
                refl refl (λ id. refl)
                (created-IsConsistent ep w.typ w.local_id _ _ fresh now s new (rw (t, l) h) inv);
          stands = λ w o id h k r q. IsConsistent-same s _ refl refl (λ i. refl) inv;
          changes = λ w o id h k cs.
              IsConsistent-same (with_object (updated ep w o cs now (s.seq + 1)) s)
                (after_update p ep fresh now s w o cs) refl refl (λ i. refl)
                (update-IsConsistent ep w o id cs now (s.seq + 1) s k inv);
        })
        body base sent

  -- Every deactivate keeps the mapping consistent.
  pub deactivate-IsConsistent :
      (base : Option ℤ) (now : ℕ) → IsConsistent (deactivate p ep typ local_id base now s).0
  unfolding deliver
  deactivate-IsConsistent base now =
      deactivate_cases p ep typ local_id now s (λ r. IsConsistent r.0)
        (record {
          refused = λ e. inv;
          inactive = λ o id h k a. inv;
          ends = λ o id h k a.
              IsConsistent-same (with_object (ended o) s) _ refl refl (λ i. refl)
                (with_same-IsConsistent (ended o) o id s (find_object-id id s.objects o k) k refl
                  inv);
        })
        base
    where
      ended : Object → Object
      ended o = record o {
        revision = o.revision + 1;
        active = false;
        modified_at = now;
        source_endpoint_id = ep.id;
        seq = s.seq + 1;
      }
