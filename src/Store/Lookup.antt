-- ===== src/Store/Lookup.antt =====
-- Lookups after writes: objects of the store in reference-client/internal/testrouter/ssot.go.
use masterdata_sync_working.Prelude.{
  ℕ, true, some, List, [], ◌∷◌, ◌==◌, if◌then◌else◌, ◌≡◌, refl, arith,
}
use masterdata_sync_working.Model.{EntityType, same_type, Object, Endpoint}
use masterdata_sync_working.Store.{find_object, put_object, find_endpoint, put_endpoint}

pub find-put_object :
    (id : ℕ) (o : Object) (os : List Object)
    → find_object id (put_object o os) ≡ (if o.id == id then some o else find_object id os)
unfolding find_object put_object
find-put_object id o [] = refl
find-put_object id o (x ∷ os) = ground (arith, find-put_object id o os)

pub same_type_eq : (t u : EntityType) → same_type t u ≡ true → t ≡ u
same_type_eq t u h = ground arith

pub same_type_refl : (t : EntityType) → same_type t t ≡ true
same_type_refl t = ground arith

-- An object is found under its own identifier.
pub find_object-id :
    (id : ℕ) (os : List Object) (o : Object) → find_object id os ≡ some o → o.id ≡ id
unfolding find_object
find_object-id id [] o h = cc
find_object-id id (x ∷ os) o h = ground (arith, find_object-id id os o)

pub find-put_endpoint :
    (id : ℕ) (e : Endpoint) (es : List Endpoint)
    → find_endpoint id (put_endpoint e es) ≡ (if e.id == id then some e else find_endpoint id es)
unfolding find_endpoint put_endpoint
find-put_endpoint id e [] = refl
find-put_endpoint id e (x ∷ es) = ground (arith, find-put_endpoint id e es)
