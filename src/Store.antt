-- ===== src/Store.antt =====
-- The SSOT: store, localKey and canonicalKey of reference-client/internal/testrouter/ssot.go. A
-- map that is only looked up is a function; `objects`, `endpoints` and `resets`, which the code
-- also ranges over, are lists with one entry for each identifier.
pub mod Lookup
use masterdata_sync_working.Prelude.{
  ℕ, String, Bool, true, false, ◌&&◌, Option, none, some, List, [], ◌∷◌, ◌==◌, str_eq,
  if◌then◌else◌,
}
use masterdata_sync_working.Model.{EntityType, same_type, Object, Endpoint}
use masterdata_sync_working.Identity.{LocalEntry, WireId, render_with}
use masterdata_sync_working.Platform.{Platform}
use masterdata_sync_working.Hub.{Hub}

-- A tenant's latest reset, with the applications it was announced to.
pub record TenantReset : Type 0 where
  pub tenant_id : ℕ
  pub seq : ℕ
  pub apps : List String

pub record Store : Type 0 where
  pub objects : List Object
  -- by endpoint, entity type and localId
  pub local : ℕ → EntityType → String → Option ℕ
  -- by endpoint and object
  pub canonical : ℕ → ℕ → Option String
  pub local_entries : ℕ → ℕ → Option LocalEntry
  pub endpoints : List Endpoint
  pub tenants : ℕ → Bool
  pub participants : ℕ → List String
  pub resets : List TenantReset
  pub seq : ℕ
  pub hub : Hub

-- newStore
abbrev pub new_store : Store
new_store = record {
  objects = [];
  local = λ _ _ _. none;
  canonical = λ _ _. none;
  local_entries = λ _ _. none;
  endpoints = [];
  tenants = λ _. false;
  participants = λ _. [];
  resets = [];
  seq = 0;
  hub = [];
}

-- s.objects[id]
unfoldable pub find_object : ℕ → List Object → Option Object
find_object id [] = none
find_object id (o ∷ os) = if o.id == id then some o else find_object id os

-- s.objects[o.id] = o, which is also what a write through the pointer does.
unfoldable pub put_object : Object → List Object → List Object
put_object o [] = o ∷ []
put_object o (x ∷ os) = if x.id == o.id then o ∷ os else x ∷ put_object o os

unfoldable pub find_endpoint : ℕ → List Endpoint → Option Endpoint
find_endpoint id [] = none
find_endpoint id (e ∷ es) = if e.id == id then some e else find_endpoint id es

-- A write through an endpoint's pointer.
unfoldable pub put_endpoint : Endpoint → List Endpoint → List Endpoint
put_endpoint e [] = e ∷ []
put_endpoint e (x ∷ es) = if x.id == e.id then e ∷ es else x ∷ put_endpoint e es

abbrev pub typ_of : Option Object → Option EntityType
typ_of none = none
typ_of (some o) = some o.typ

abbrev pub object_type : Store → ℕ → Option EntityType
object_type s id = typ_of (find_object id s.objects)

-- A map's entry at one key set to a value, or deleted.
abbrev pub at_local :
    ℕ
    → EntityType
    → String
    → Option ℕ
    → (ℕ → EntityType → String → Option ℕ)
    → ℕ
    → EntityType
    → String
    → Option ℕ
at_local ep typ local_id v m e t l =
    if ep == e && same_type typ t && str_eq local_id l then v else m e t l

abbrev pub at_pair {ℓ} : {A : Type ℓ} → ℕ → ℕ → Option A → (ℕ → ℕ → Option A) → ℕ → ℕ → Option A
at_pair ep obj v m e o = if ep == e && obj == o then v else m e o

-- s.local[localKeyOf(ep, typ, localID)]
abbrev pub lookup_local : Store → Endpoint → EntityType → String → Option ℕ
lookup_local s ep typ local_id = s.local ep.id typ local_id

-- recordLocalEntry
unfoldable pub record_local_entry : ℕ → ℕ → Option LocalEntry → Store → Store
record_local_entry ep obj e s = record s { local_entries = at_pair ep obj e s.local_entries }

-- renderID
unfoldable pub render_id : Platform → Store → ℕ → ℕ → WireId
render_id p s ep obj = render_with p obj (s.canonical ep obj) (s.local_entries ep obj)
