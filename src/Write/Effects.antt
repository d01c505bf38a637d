-- ===== src/Write/Effects.antt =====
-- What put and deactivate change, and what they forward:
-- reference-client/internal/testrouter/ssot.go.
use masterdata_sync_working.Prelude.{
  ℕ, ◌+◌, ◌≤◌, String, Bool, true, false, Option, none, some, List, str_eq_refl, ◌≡◌, ◌⊎◌, refl,
  ◌==◌, ◌&&◌, ◌∙◌, ap, subst, inl, inr, arith,
}
use masterdata_sync_working.Json.{Value}
use masterdata_sync_working.Failure.{Failure, Result, ok, err}
use masterdata_sync_working.Platform.{Platform}
use masterdata_sync_working.Model.{EntityType, Object, Endpoint}
use masterdata_sync_working.Assigned.{SentIdentity}
use masterdata_sync_working.Store.{Store, find_object, put_object, record_local_entry, lookup_local}
use masterdata_sync_working.Store.Lookup.{find-put_object, same_type_refl}
use masterdata_sync_working.Deliver.{deliver}
use masterdata_sync_working.Write.{Write, create, updated, put_entity, deactivate}
use masterdata_sync_working.Write.Merge.{ℤ, Change, value_at}
use masterdata_sync_working.Write.Merge.History.{
  raised, apply_changes-fixed, value_at-apply_changes,
}
use masterdata_sync_working.Write.Cases.{put_entity_cases, deactivate_cases, created}

-- Two stores that differ at most in the local entry that an endpoint gave for the object of one of
-- its localIds.
abbrev pub SameButEntries : Endpoint → EntityType → String → Store → Store → Type 0
SameButEntries ep typ local_id s t =
    (t.objects ≡ s.objects)
    × (t.local ≡ s.local)
    × (t.canonical ≡ s.canonical)
    × (t.endpoints ≡ s.endpoints)
    × (t.tenants ≡ s.tenants)
    × (t.participants ≡ s.participants)
    × (t.resets ≡ s.resets)
    × (t.seq ≡ s.seq)
    × (t.hub ≡ s.hub)
    × ((t.local_entries ≡ s.local_entries)
        ⊎ ((o : Object) × (id : ℕ) × (lookup_local s ep typ local_id ≡ some id)
            × (find_object id s.objects ≡ some o)
            × ((e i : ℕ)
                → (ep.id == e && o.id == i) ≡ false
                → t.local_entries e i ≡ s.local_entries e i)))

-- How a put or a deactivate of an object that was there ends: as it was, nothing forwarded, or one
-- revision on, at the next position.
abbrev pub Moved : Store → Store → Object → Object → Type 0
Moved s t o q =
    (q.revision ≡ o.revision + 1)
    × (q.seq ≡ s.seq + 1)
    × (t.seq ≡ s.seq + 1)
    × (q.id ≡ o.id)
    × (q.typ ≡ o.typ)
    × (q.tenant_id ≡ o.tenant_id)
    × (find_object o.id t.objects ≡ some q)

module _ (p : Platform) (ep : Endpoint) (typ : EntityType) (local_id : String) (s : Store) where
  abbrev pub RefusedPut : Store × Result (Object × Bool) → Type 0
  RefusedPut (t, ok q) = Unit
  RefusedPut (t, err e) = SameButEntries ep typ local_id s t

  entry_recorded :
      (w : Write) (o : Object) (id : ℕ)
      → lookup_local s ep typ local_id ≡ some id
      → find_object id s.objects ≡ some o
      → SameButEntries ep typ local_id s (record_local_entry ep.id o.id w.local s)
  unfolding record_local_entry
  entry_recorded w o id h k = (
    refl,
    refl,
    refl,
    refl,
    refl,
    refl,
    refl,
    refl,
    refl,
    inr (o, id, h, k, λ e i other. rw other refl),
  )

  put_refused :
      (body : Value) (base : Option ℤ) (sent : SentIdentity) (fresh now : ℕ)
      → RefusedPut (put_entity p ep typ local_id body base sent fresh now s)
  unfolding record_local_entry
  put_refused body base sent fresh now =
      put_entity_cases p ep fresh now s RefusedPut typ local_id
        (record {
          refused = λ e. (refl, refl, refl, refl, refl, refl, refl, refl, refl, inl refl);
          makes = λ w t l h. tt;
          stands = λ w o id h k r q. at w o id h k r;
          changes = λ w o id h k cs. tt;
        })
        body base sent
    where
      at :
          (w : Write) (o : Object) (id : ℕ)
          → lookup_local s ep typ local_id ≡ some id
          → find_object id s.objects ≡ some o
          → (r : Result (Object × Bool)) → RefusedPut (record_local_entry ep.id o.id w.local s, r)
      at w o id h k (ok q) = tt
      at w o id h k (err e) = entry_recorded w o id h k

  -- A put that is refused leaves every object, the mapping, the endpoints, the tenants, the
  -- participants, the resets, the position and every stream as they were, and every local entry but
  -- the writer's own for the object of the localId.
  pub put_entity_refused :
      (body : Value) (base : Option ℤ) (sent : SentIdentity) (fresh now : ℕ) (t : Store)
      (e : Failure)
      → put_entity p ep typ local_id body base sent fresh now s ≡ (t, err e)
      → SameButEntries ep typ local_id s t
  put_entity_refused body base sent fresh now t e h =
      subst RefusedPut h (put_refused body base sent fresh now)

  -- The earlier values of an object stay readable.
  abbrev pub SamePast : Object → Object → Type 0
  SamePast o q =
      (k : String) (r : ℕ) → r ≤ o.revision → value_at (q.history k) r ≡ value_at (o.history k) r

  abbrev pub UpdatedPut : Store × Result (Object × Bool) → Type 0
  UpdatedPut (t, ok (q, false)) =
      (o : Object) × (id : ℕ) × (lookup_local s ep typ local_id ≡ some id)
      × (find_object id s.objects ≡ some o)
      × (((q ≡ o) × SameButEntries ep typ local_id s t) ⊎ (Moved s t o q × SamePast o q))
  UpdatedPut (t, ok (q, true)) = Unit
  UpdatedPut (t, err e) = Unit

  abbrev pub CreatedPut : ℕ → Store × Result (Object × Bool) → Type 0
  CreatedPut fresh (t, ok (q, true)) =
      (lookup_local s ep typ local_id ≡ none)
      × (lookup_local t ep typ local_id ≡ some fresh)
      × (t.canonical ep.id fresh ≡ some local_id)
      × (find_object fresh t.objects ≡ some q)
      × (q.typ ≡ typ)
      × (q.tenant_id ≡ ep.tenant_id)
      × (q.revision ≡ 1)
      × (q.seq ≡ s.seq + 1)
      × (t.seq ≡ s.seq + 1)
  CreatedPut fresh (t, ok (q, false)) = Unit
  CreatedPut fresh (t, err e) = Unit

  updated-Moved :
      (w : Write) (o : Object) (id : ℕ) (cs : List Change) (now : ℕ)
      → find_object id s.objects ≡ some o
      → Moved s
          (record s {
            seq = s.seq + 1;
            objects = put_object (updated ep w o cs now (s.seq + 1)) s.objects;
          })
          o
          (updated ep w o cs now (s.seq + 1))
  unfolding updated
  updated-Moved w o id cs now k =
      let fixed = apply_changes-fixed cs (raised o) in
      let q = updated ep w o cs now (s.seq + 1) in
      (
        fixed.0,
        refl,
        refl,
        fixed.1,
        fixed.2,
        fixed.3,
        find-put_object o.id q s.objects ∙ ground (arith, fixed.1),
      )

  updated-SamePast :
      (w : Write) (o : Object) (cs : List Change) (now : ℕ)
      → SamePast o (updated ep w o cs now (s.seq + 1))
  unfolding updated
  updated-SamePast w o cs now k r h = value_at-apply_changes cs (raised o) k r (omega arith)

  put_updates :
      (body : Value) (base : Option ℤ) (sent : SentIdentity) (fresh now : ℕ)
      → UpdatedPut (put_entity p ep typ local_id body base sent fresh now s)
  unfolding record_local_entry deliver
  put_updates body base sent fresh now =
      put_entity_cases p ep fresh now s UpdatedPut typ local_id
        (record {
          refused = λ e. tt;
          makes = λ w t l h. tt;
          stands = λ w o id h k r q. at w o id h k r q;
          changes = λ w o id h k cs.
              (o, id, h, k, inr (updated-Moved w o id cs now k, updated-SamePast w o cs now));
        })
        body base sent
    where
      at :
          (w : Write) (o : Object) (id : ℕ)
          → lookup_local s ep typ local_id ≡ some id
          → find_object id s.objects ≡ some o
          → (r : Result (Object × Bool)) → ((q : Object × Bool) → r ≡ ok q → q ≡ (o, false))
          → UpdatedPut (record_local_entry ep.id o.id w.local s, r)
      at w o id h k (ok (q, false)) same = (
        o,
        id,
        h,
        k,
        inl (ap (λ (x : Object × Bool). x.0) (same (q, false) refl), entry_recorded w o id h k),
      )
      at w o id h k (ok (q, true)) same = tt
      at w o id h k (err e) same = tt

  -- A put that succeeds without creating was of a known localId, and either leaves everything but the
  -- writer's own local entry for the object as it was, forwarding nothing, or takes the object one revision on, at the
  -- next position, with its earlier values still readable.
  pub put_entity_updates :
      (body : Value) (base : Option ℤ) (sent : SentIdentity) (fresh now : ℕ) (t : Store)
      (q : Object)
      → put_entity p ep typ local_id body base sent fresh now s ≡ (t, ok (q, false))
      → UpdatedPut (t, ok (q, false))
  put_entity_updates body base sent fresh now t q h =
      subst UpdatedPut h (put_updates body base sent fresh now)

  put_creates :
      (body : Value) (base : Option ℤ) (sent : SentIdentity) (fresh now : ℕ)
      → CreatedPut fresh (put_entity p ep typ local_id body base sent fresh now s)
  unfolding record_local_entry deliver create
  put_creates body base sent fresh now =
      put_entity_cases p ep fresh now s (CreatedPut fresh) typ local_id
        (record {
          refused = λ e. tt;
          makes = λ w t l h. (
            h,
            ground (arith, t, l, same_type_refl typ, str_eq_refl local_id),
            ground (arith, l),
            find-put_object fresh (created p ep fresh now s w).1 s.objects ∙ ground arith,
            t,
            refl,
            refl,
            refl,
            refl,
          );
          stands = λ w o id h k r q. at w o r q;
          changes = λ w o id h k cs. tt;
        })
        body base sent
    where
      at :
          (w : Write) (o : Object) (r : Result (Object × Bool))
          → ((q : Object × Bool) → r ≡ ok q → q ≡ (o, false))
          → CreatedPut fresh (record_local_entry ep.id o.id w.local s, r)
      at w o (ok (q, false)) same = tt
      at w o (ok (q, true)) same =
          absurd (never (ap (λ (x : Object × Bool). x.1) (same (q, true) refl)))
        where
          never : true ≡ false → ⊥
          never e = cc
      at w o (err e) same = tt

  -- A put that creates was of a localId that was not known, the new object is at
  -- revision 1 and the next position, and bound to the writer's localId in both maps.
  pub put_entity_creates :
      (body : Value) (base : Option ℤ) (sent : SentIdentity) (fresh now : ℕ) (t : Store)
      (q : Object)
      → put_entity p ep typ local_id body base sent fresh now s ≡ (t, ok (q, true))
      → CreatedPut fresh (t, ok (q, true))
  put_entity_creates body base sent fresh now t q h =
      subst (CreatedPut fresh) h (put_creates body base sent fresh now)

  abbrev pub Deactivated : Store × Result Object → Type 0
  Deactivated (t, ok q) =
      (o : Object) × (id : ℕ) × (lookup_local s ep typ local_id ≡ some id)
      × (find_object id s.objects ≡ some o)
      × (q.active ≡ false)
      × (q.content ≡ o.content)
      × (((o.active ≡ false) × (q ≡ o) × (t ≡ s)) ⊎ ((o.active ≡ true) × Moved s t o q))
  Deactivated (t, err e) = t ≡ s

  -- A deactivate ends with the object inactive and its content as it was, one revision on if it was
  -- active and with nothing changed if it was not; a refused one changes nothing.
  pub deactivate_lem :
      (base : Option ℤ) (now : ℕ) → Deactivated (deactivate p ep typ local_id base now s)
  unfolding deliver
  deactivate_lem base now =
      deactivate_cases p ep typ local_id now s Deactivated
        (record {
          refused = λ e. refl;
          inactive = λ o id h k a. (o, id, h, k, a, refl, inl (a, refl, refl));
          ends = λ o id h k a. (
            o,
            id,
            h,
            k,
            refl,
            refl,
            inr (
              a,
              (
                refl,
                refl,
                refl,
                refl,
                refl,
                refl,
                find-put_object o.id (ended o) s.objects ∙ ground arith,
              ),
            ),
          );
        })
        base
    where
      ended : Object → Object
      ended o = record o {
        revision = o.revision + 1;
        active = false;
        modified_at = now;
        source_endpoint_id = ep.id;
        seq = s.seq + 1;
      }
