-- ===== src/References/Resolved.antt =====
-- What a resolved reference names: resolveRefs of
-- reference-client/internal/testrouter/references.go.
use masterdata_sync_working.Prelude.{ℕ, Option, none, some, ◌⊎◌, ◌≡◌, refl, arith, eq_iff}
use masterdata_sync_working.Json.{get}
use masterdata_sync_working.Failure.{ok, >>=-eq-ok}
use masterdata_sync_working.Platform.{Platform}
use masterdata_sync_working.Model.{Object, Endpoint, RefSlot, party_type_of, details_key}
use masterdata_sync_working.Identity.{WireId, read, canonical_id}
use masterdata_sync_working.Store.{Store, find_object}
use masterdata_sync_working.Store.Lookup.{same_type_eq}
use masterdata_sync_working.References.{target_of, check_target, resolve_ref}

-- An object that a slot may name from an endpoint.
pub record IsTarget (ep : Endpoint) (slot : RefSlot) (o : Object) : Type 0 where
  pub of_type : o.typ ≡ slot.target
  pub in_tenant : o.tenant_id ≡ ep.tenant_id
  pub of_party_type :
      (slot.party_type ≡ "") ⊎ (party_type_of (get details_key o.content) ≡ slot.party_type)

check_target_ok :
    (p : Platform) (ep : Endpoint) (slot : RefSlot) (found : Option Object) (u : Unit {0})
    → check_target p ep slot found ≡ ok u
    → (o : Object) × (found ≡ some o) × IsTarget ep slot o
unfolding check_target
check_target_ok p ep slot none u h = cc
check_target_ok p ep slot (some o) u h = (
  o,
  refl,
  record {
    of_type = ground (arith, same_type_eq o.typ slot.target);
    in_tenant = ground arith;
    of_party_type = ground (
      arith,
      eq_iff slot.party_type "",
      eq_iff (party_type_of (get details_key o.content)) slot.party_type,
    );
  },
)

-- A reference that resolves comes out as the agrirouter entry alone of an object that the store
-- holds, of the slot's type, in the writing endpoint's tenant, and of the slot's party type where it
-- names one.
pub resolve_ref_lem :
    (p : Platform) (s : Store) (ep : Endpoint) (slot : RefSlot) (id w : WireId)
    → resolve_ref p s ep slot id ≡ ok w
    → (target : ℕ) × (o : Object) × (w ≡ canonical_id p target)
      × (find_object target s.objects ≡ some o)
      × IsTarget ep slot o
unfolding resolve_ref
resolve_ref_lem p s ep slot id w h =
    let (entries, _, after_read) = >>=-eq-ok _ (read p id) h in
    let (target, _, after_target) = >>=-eq-ok _ (target_of p s ep slot id entries.0) after_read in
    let (u, checked, done) =
      >>=-eq-ok _ (check_target p ep slot (find_object target s.objects)) after_target in
    let (o, found, is_target) =
      check_target_ok p ep slot (find_object target s.objects) u checked in
    (target, o, ground arith, found, is_target)
