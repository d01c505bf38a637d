-- ===== src/Examples/Setup.antt =====
-- A small tenant for the instances: two applications' endpoints and what they exchange.
use Prim.Native.String.{[] as no_text, ◌∷◌ as ◌∷ₛ◌}
use Prim.Native.Char.{nul}
use masterdata_sync_working.Prelude.{
  ℕ, zero, suc, String, Bool, true, false, Option, none, some, [], ◌∷◌, ◌≡◌, refl, ap, str_eq,
  if◌then◌else◌,
}
use masterdata_sync_working.Json.{str, Fields, empty, entry}
use masterdata_sync_working.Platform.{Platform}
use masterdata_sync_working.Model.{EntityType, farm, Endpoint, Object}
use masterdata_sync_working.Failure.{Result, ok, err}
use masterdata_sync_working.Mapping.Invariant.{IsConsistent}
use masterdata_sync_working.Store.{Store, new_store}

-- Identifiers written in unary.
unfoldable pub marks : ℕ → String
marks zero = no_text
marks (suc n) = nul ∷ₛ marks n

next : Option ℕ → Option ℕ
next none = none
next (some n) = some (suc n)

unfoldable pub count_marks : String → Option ℕ
unfolding next
count_marks no_text = some 0
count_marks (c ∷ₛ s) = next (count_marks s)

pub count_marks-marks : (n : ℕ) → count_marks (marks n) ≡ some n
unfolding count_marks marks next
count_marks-marks zero = refl
count_marks-marks (suc n) = ap next (count_marks-marks n)

abbrev pub unary : Platform
unary = record {
  parse_uuid = count_marks;
  uuid_string = marks;
  time_string = marks;
  parse_uuid-uuid_string = count_marks-marks;
}

abbrev farms : EntityType → Bool
farms farm = true
farms _ = false

abbrev endpoint : ℕ → String → Endpoint
endpoint id app_id = record {
  id = id;
  external_id = app_id;
  app_id = app_id;
  tenant_id = 1;
  declared = farms;
  toggles = farms;
  selection_changed_at = 0;
  selection_changed_seq = 0;
  load = none;
  previous_load_completed_at = none;
  drop_load = false;
  corrupt_load = false;
}

abbrev pub planner : Endpoint
planner = endpoint 1 "planner"

abbrev pub terminal : Endpoint
terminal = endpoint 2 "terminal"

abbrev pub start : Store
start = record new_store { endpoints = planner ∷ terminal ∷ []; tenants = λ t. true }

abbrev pub name_of : String → Fields
name_of name = entry "name" (str name) empty

pub second_known : {A B : Type 0} (x : A × B) {b : B} → x.1 ≡ b → x ≡ (x.0, b)
second_known x h = ap (λ b. (x.0, b)) h

-- A farm that was renamed once.
abbrev pub barn : Object
barn = record {
  id = 10;
  typ = farm;
  tenant_id = 1;
  revision = 2;
  active = true;
  modified_at = 5;
  source_endpoint_id = 1;
  seq = 2;
  content = name_of "Barn";
  stamps = λ _. some 2;
  history = λ k.
      if str_eq k "name"
      then record { revision = 1; value = some (str "Shed") }
        ∷ record { revision = 2; value = some (str "Barn") }
        ∷ []
      else [];
}

-- The tenant with the renamed farm, which no endpoint has bound.
abbrev pub stocked : Store
stocked = record start { objects = barn ∷ []; seq = 2 }

pub stocked-IsConsistent : IsConsistent stocked
stocked-IsConsistent = record {
  from_local = λ e t l id h. cc;
  held = λ e id l h. cc;
  from_canonical = λ e id l t h k. cc;
}

abbrev pub store_of : Result Store → Store
store_of (ok s) = s
store_of (err e) = start
