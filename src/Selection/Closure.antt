-- ===== src/Selection/Closure.antt =====
-- What a selection and a declaration guarantee: selectTypes and declare of
-- reference-client/internal/testrouter/router.go, DependencyClosure of agmasync/initialload.go.
use masterdata_sync_working.Prelude.{
  ◌&&◌, ℕ, suc, Bool, true, false, [], ◌∷◌, ◌||◌, List, any, any-keep, ◌≡◌, ◌∙◌, arith,
}
use masterdata_sync_working.Model.{EntityType, party, farm, field, field_boundary, same_type}
use masterdata_sync_working.InitialLoad.{entity_types}
use masterdata_sync_working.Selection.{names, wants, add, add_each, dependency_closure}

names-dependency_closure :
    (t : EntityType) (types : List EntityType) → names t (dependency_closure types) ≡ wants types t
unfolding dependency_closure
names-dependency_closure t types = any-keep (same_type t) (wants types) entity_types ∙ at t
  where
    at : (t : EntityType) → any (λ x. same_type t x && wants types x) entity_types ≡ wants types t
    at party = ground arith
    at farm = ground arith
    at field = ground arith
    at field_boundary = ground arith

-- A set of types that holds the types its own require.
abbrev IsClosed : (EntityType → Bool) → Type 0
IsClosed want = want field_boundary ≡ true → want field ≡ true

-- add with fuel for itself and one dependency adds its type and what that requires.
add_lem :
    (fuel : ℕ) (t u : EntityType) (want : EntityType → Bool)
    → IsClosed want
    → add (suc (suc fuel)) t want u
      ≡ (want u || (same_type u t || (same_type u field && same_type field_boundary t)))
unfolding add
add_lem fuel party party want c = ground arith
add_lem fuel party farm want c = ground arith
add_lem fuel party field want c = ground arith
add_lem fuel party field_boundary want c = ground arith
add_lem fuel farm party want c = ground arith
add_lem fuel farm farm want c = ground arith
add_lem fuel farm field want c = ground arith
add_lem fuel farm field_boundary want c = ground arith
add_lem fuel field party want c = ground arith
add_lem fuel field farm want c = ground arith
add_lem fuel field field want c = ground arith
add_lem fuel field field_boundary want c = ground arith
add_lem fuel field_boundary party want c = ground arith
add_lem fuel field_boundary farm want c = ground arith
add_lem fuel field_boundary field want c = ground arith
add_lem fuel field_boundary field_boundary want c = ground arith

add-IsClosed :
    (fuel : ℕ) (t : EntityType) (want : EntityType → Bool)
    → IsClosed want
    → IsClosed (add (suc (suc fuel)) t want)
add-IsClosed fuel t want c h =
    let b = add_lem fuel t field_boundary want c in
    let f = add_lem fuel t field want c in ground (arith, b, f)

add_each_lem :
    (types : List EntityType) (u : EntityType) (want : EntityType → Bool)
    → IsClosed want
    → add_each types want u
      ≡ (want u || (names u types || (same_type u field && names field_boundary types)))
unfolding add_each
add_each_lem [] u want c = ground arith
add_each_lem (t ∷ types) u want c =
    let rest = add_each_lem types u (add 4 t want) (add-IsClosed 2 t want c) in
    let first = add_lem 2 t u want c in rest ∙ (rw first ground arith)

-- The closure holds every type named, a field boundary's field, and nothing else.
pub dependency_closure_lem :
    (types : List EntityType) (t : EntityType)
    → names t (dependency_closure types)
      ≡ (names t types || (same_type t field && names field_boundary types))
dependency_closure_lem types t =
    names-dependency_closure t types ∙ add_each_lem types t (λ u. false) (λ h. cc)
