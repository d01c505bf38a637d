-- ===== src/Mapping/Corrects/Checks.antt =====
-- What a request has passed once the first two loops of correct are through
-- (reference-client/internal/testrouter/ssot.go).
use masterdata_sync_working.Prelude.{
  ℕ, String, true, false, some, List, [], ◌∷◌, eq_iff, str_eq_refl, ◌≡◌, refl, arith,
}
use masterdata_sync_working.Failure.{ok}
use masterdata_sync_working.Model.{EntityType, Endpoint}
use masterdata_sync_working.Store.{Store, object_type}
use masterdata_sync_working.Mapping.{Correction, lists, targets, check_listed, check_targets}
use masterdata_sync_working.Mapping.Binds.{is_object-type}

-- No localId and no target stands twice.
abbrev pub Distinct : List Correction → Type 0
Distinct [] = Unit {0}
Distinct (e ∷ es) =
    (lists e.local_id es ≡ false)
    × ((id : ℕ) → e.target ≡ some id → targets id es ≡ false)
    × Distinct es

-- What stands earlier in the request is not listed again.
lists_apart :
    (l : String) (before es : List Correction)
    → check_listed before es ≡ ok tt
    → lists l before ≡ true
    → lists l es ≡ false
unfolding check_listed
lists_apart l before [] h k = refl
lists_apart l before (e ∷ es) h k =
    ground (arith, eq_iff e.local_id l, lists_apart l (e ∷ before) es)

targets_apart :
    (id : ℕ) (before es : List Correction)
    → check_listed before es ≡ ok tt
    → targets id before ≡ true
    → targets id es ≡ false
unfolding check_listed
targets_apart id before [] h k = refl
targets_apart id before (e ∷ es) h k = ground (arith, targets_apart id (e ∷ before) es)

pub check_listed-Distinct :
    (before es : List Correction) → check_listed before es ≡ ok tt → Distinct es
unfolding check_listed
check_listed-Distinct before [] h = tt
check_listed-Distinct before (e ∷ es) h = (
  ground (arith, lists_apart e.local_id (e ∷ before) es, str_eq_refl e.local_id),
  λ id aim. ground (arith, targets_apart id (e ∷ before) es),
  check_listed-Distinct (e ∷ before) es (ground arith),
)

-- What the second loop has found of each entry: its target is an object of the type, held by no
-- localId outside the request.
module _ (s : Store) (ep : Endpoint) (typ : EntityType) (entries : List Correction) where
  abbrev pub Fits : List Correction → Type 0
  Fits [] = Unit {0}
  Fits (e ∷ es) =
      ((id : ℕ)
        → e.target ≡ some id
        → (object_type s id ≡ some typ)
          × ((l : String) → s.canonical ep.id id ≡ some l → lists l entries ≡ true))
      × Fits es

  pub check_targets-Fits :
      (es : List Correction) → check_targets s ep typ entries es ≡ ok tt → Fits es
  unfolding check_targets
  check_targets-Fits [] h = tt
  check_targets-Fits (e ∷ es) h = (
    λ id aim. (is_object-type ep typ id s (ground arith), λ l held. ground arith),
    check_targets-Fits es (ground arith),
  )
