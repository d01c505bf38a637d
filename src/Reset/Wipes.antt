-- ===== src/Reset/Wipes.antt =====
-- What a reset removes and what it leaves: ResetTenant of
-- reference-client/internal/testrouter/reset.go.
use masterdata_sync_working.Prelude.{
  ℕ, ◌+◌, String, Bool, true, false, not, Option, none, some, List, [], ◌∷◌, ◌==◌, keep, map,
  if◌then◌else◌, is_some, ◌≡◌, refl, ap, ◌∙◌, arith,
}
use masterdata_sync_working.Failure.{ok}
use masterdata_sync_working.Platform.{Platform}
use masterdata_sync_working.Model.{EntityType, Object, Endpoint}
use masterdata_sync_working.Store.{Store, find_object, object_type, typ_of, find_endpoint}
use masterdata_sync_working.Mapping.Invariant.{IsConsistent, IsConsistent-same}
use masterdata_sync_working.Reset.{wiped, opt_out, keep_known, reset_tenant}

abbrev pub other_tenant : ℕ → Object → Bool
other_tenant tenant o = not (o.tenant_id == tenant)

-- Each identifier stands once in the list of objects, as in the map.
abbrev pub UniqueIds : List Object → Type 0
UniqueIds [] = Unit {0}
UniqueIds (o ∷ os) = (find_object o.id os ≡ none) × UniqueIds os

pub find_object-kept :
    (tenant id : ℕ) (os : List Object)
    → find_object id os ≡ none
    → find_object id (keep (other_tenant tenant) os) ≡ none
unfolding find_object
find_object-kept tenant id [] h = refl
find_object-kept tenant id (o ∷ os) h = ground (arith, find_object-kept tenant id os)

-- What of an object a reset leaves.
abbrev pub surviving : ℕ → Option Object → Option Object
surviving tenant none = none
surviving tenant (some o) = if o.tenant_id == tenant then none else some o

pub find_object-keep :
    (tenant id : ℕ) (os : List Object)
    → UniqueIds os
    → find_object id (keep (other_tenant tenant) os) ≡ surviving tenant (find_object id os)
unfolding find_object
find_object-keep tenant id [] u = refl
find_object-keep tenant id (o ∷ os) u =
    ground (arith, find_object-keep tenant id os u.1, find_object-kept tenant id os)

-- What of an endpoint a reset leaves.
abbrev pub opted_out : ℕ → Option Endpoint → Option Endpoint
opted_out tenant none = none
opted_out tenant (some ep) = some (opt_out tenant ep)

-- How a reset of a tenant leaves an endpoint: one of the tenant is opted into nothing, with no load
-- and no mark of one; any other is as it was; and none is added or removed.
abbrev pub ResetEndpoint : ℕ → Option Endpoint → Option Endpoint → Type 0
ResetEndpoint tenant none after = after ≡ none
ResetEndpoint tenant (some ep) after =
    (q : Endpoint) × (after ≡ some q)
    × (q.id ≡ ep.id)
    × (q.tenant_id ≡ ep.tenant_id)
    × (((ep.tenant_id == tenant) ≡ true)
        → ((u : EntityType) → q.toggles u ≡ false)
          × (q.load ≡ none)
          × (q.previous_load_completed_at ≡ none)
          × ((u : EntityType) → q.declared u ≡ ep.declared u))
    × (((ep.tenant_id == tenant) ≡ false) → q ≡ ep)

opted_out-ResetEndpoint :
    (tenant : ℕ) (before after : Option Endpoint)
    → after ≡ opted_out tenant before
    → ResetEndpoint tenant before after
unfolding opt_out
opted_out-ResetEndpoint tenant none after h = h
opted_out-ResetEndpoint tenant (some ep) after h = (
  opt_out tenant ep,
  h,
  ground arith,
  ground arith,
  λ e. (λ u. rw e refl, rw e refl, rw e refl, λ u. rw e refl),
  λ e. rw e refl,
)

abbrev pub Wiped : ℕ → Store → Store → Type 0
Wiped tenant s t =
    (t.objects ≡ (wiped tenant s).objects)
    × (t.local ≡ (wiped tenant s).local)
    × (t.canonical ≡ (wiped tenant s).canonical)
    × (t.endpoints ≡ (wiped tenant s).endpoints)
    × (t.seq ≡ s.seq + 1)

wiped-seq : (tenant : ℕ) (s : Store) → (wiped tenant s).seq ≡ s.seq
unfolding wiped
wiped-seq tenant s = refl

pub reset-Wiped :
    (p : Platform) (tenant : ℕ) (s t : Store) → reset_tenant p tenant s ≡ ok t → Wiped tenant s t
unfolding reset_tenant
reset-Wiped p tenant s t h = ground (arith, wiped-seq tenant s)

map-opt_out :
    (tenant id : ℕ) (es : List Endpoint)
    → find_endpoint id (map (opt_out tenant) es) ≡ opted_out tenant (find_endpoint id es)
unfolding find_endpoint opt_out
map-opt_out tenant id [] = refl
map-opt_out tenant id (e ∷ es) = ground (arith, map-opt_out tenant id es)

known_local :
    (os : List Object) (o : Option ℕ) (id : ℕ)
    → keep_known os o ≡ some id
    → (o ≡ some id) × (is_some (find_object id os) ≡ true)
known_local os none id h = cc
known_local os (some i) id h = ground arith

module _ (p : Platform) (tenant : ℕ) (s t : Store) (done : reset_tenant p tenant s ≡ ok t) where
  -- A reset takes every object of the tenant and no other, opts the tenant's endpoints out of
  -- everything with no load and no mark of one, leaves every other endpoint, and takes one position.
  pub reset_tenant_lem :
      UniqueIds s.objects
      → ((id : ℕ) → find_object id t.objects ≡ surviving tenant (find_object id s.objects))
        × ((id : ℕ)
            → ResetEndpoint tenant (find_endpoint id s.endpoints) (find_endpoint id t.endpoints))
        × (t.seq ≡ s.seq + 1)
  unfolding wiped
  reset_tenant_lem unique =
      let w = reset-Wiped p tenant s t done in
      (
        λ id. ap (find_object id) w.0 ∙ find_object-keep tenant id s.objects unique,
        λ id.
            opted_out-ResetEndpoint tenant (find_endpoint id s.endpoints)
              (find_endpoint id t.endpoints)
              (ap (find_endpoint id) w.3 ∙ map-opt_out tenant id s.endpoints),
        w.4,
      )

  reset_type :
      UniqueIds s.objects
      → (id : ℕ) → object_type t id ≡ typ_of (surviving tenant (find_object id s.objects))
  reset_type unique id = ap typ_of ((reset_tenant_lem unique).0 id)

  -- A pair outlives the reset exactly when its object does.
  pub reset_tenant-local :
      UniqueIds s.objects
      → (e : ℕ) (u : EntityType) (l : String) → t.local e u l ≡ keep_known t.objects (s.local e u l)
  unfolding wiped
  reset_tenant-local unique e u l = let w = reset-Wiped p tenant s t done in rw (w.1, w.0) refl

  -- A reset keeps the mapping consistent: no pair is left that names an object which went.
  pub reset_tenant-IsConsistent : UniqueIds s.objects → IsConsistent s → IsConsistent t
  unfolding wiped
  reset_tenant-IsConsistent unique inv = IsConsistent-same (wiped tenant s) t w.1 w.2 types kept
    where
      w : Wiped tenant s t
      w = reset-Wiped p tenant s t done

      types : (id : ℕ) → object_type t id ≡ object_type (wiped tenant s) id
      types id = ap (λ os. typ_of (find_object id os)) w.0

      there :
          (id : ℕ)
          → find_object id (keep (other_tenant tenant) s.objects)
            ≡ surviving tenant (find_object id s.objects)
      there id = find_object-keep tenant id s.objects unique

      kept : IsConsistent (wiped tenant s)
      kept = record {
        from_local = λ e u l id h. (
          ground (
            arith,
            there id,
            known_local (keep (other_tenant tenant) s.objects) (s.local e u l) id h,
            inv.from_local e u l id,
          ),
          ground (
            arith,
            known_local (keep (other_tenant tenant) s.objects) (s.local e u l) id h,
            inv.from_local e u l id,
          ),
        );
        held = λ e id l h. ground (arith, there id, inv.held e id l);
        from_canonical = λ e id l u h k. ground (arith, there id, inv.from_canonical e id l u);
      }
