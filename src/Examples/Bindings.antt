-- ===== src/Examples/Bindings.antt =====
-- Runs of bind and correct: bindLocked and correctBindings of
-- reference-client/internal/testrouter/ssot.go.
use masterdata_sync_working.Prelude.{
  ℕ, String, ◌&&◌, ◌==◌, if◌then◌else◌, none, some, List, [], ◌∷◌, ◌≡◌, ◌↔◌, refl,
}
use masterdata_sync_working.Failure.{Result, ok}
use masterdata_sync_working.Model.{EntityType, farm, same_type}
use masterdata_sync_working.Store.{Store, find_object}
use masterdata_sync_working.Mapping.{
  Correction, is_object, write_pair, bind, correct, lists, targets, check_listed, check_targets,
  drop_pair, drop_listed, write_entry, write_listed,
}
use masterdata_sync_working.Mapping.Invariant.{IsConsistent, key_is}
use masterdata_sync_working.Mapping.Binds.{CanBind, bind-IsConsistent, bind_complete, bind_lem}
use masterdata_sync_working.Mapping.Corrects.{corrected}
use masterdata_sync_working.Mapping.Corrects.Result.{correct-local}
use masterdata_sync_working.Examples.Setup.{terminal, stocked, stocked-IsConsistent, store_of}

abbrev first_bind : Result Store
first_bind = bind terminal farm "T1" 10 stocked

abbrev pub bound : Store
bound = store_of first_bind

binds_barn : first_bind ≡ ok bound
unfolding bind is_object find_object
binds_barn = refl

pub bound-IsConsistent : IsConsistent bound
bound-IsConsistent =
    bind-IsConsistent terminal farm "T1" 10 stocked bound stocked-IsConsistent binds_barn

bind_complete_example :
    CanBind terminal farm "T1" 10 stocked
    ↔ ((t : Store) × (bind terminal farm "T1" 10 stocked ≡ ok t))
bind_complete_example = bind_complete terminal farm "T1" 10 stocked

bind_lem_example :
    (bound.local 2 farm "T1" ≡ some 10)
    × (bound.canonical 2 10 ≡ some "T1")
    × ((e : ℕ) (u : EntityType) (k : String)
        → bound.local e u k ≡ (if key_is 2 farm "T1" e u k then some 10 else stocked.local e u k))
    × (bound.objects ≡ stocked.objects)
    × (bound.seq ≡ stocked.seq)
    × (bound.hub ≡ stocked.hub)
bind_lem_example = bind_lem terminal farm "T1" 10 stocked bound stocked-IsConsistent binds_barn

abbrev pub entries : List Correction
entries =
    record { local_id = "T2"; target = some 10 } ∷ record { local_id = "T1"; target = none } ∷ []

abbrev pub moved_pair : Store
moved_pair = store_of (correct terminal farm entries bound)

pub corrects_pair : correct terminal farm entries bound ≡ ok moved_pair
unfolding correct bind is_object find_object write_pair lists targets check_listed check_targets
    drop_pair drop_listed write_entry write_listed
corrects_pair = refl

correct-local_example : moved_pair.local 2 farm "T2" ≡ (
    if terminal.id == 2 && same_type farm farm
    then corrected "T2" entries (bound.local 2 farm "T2")
    else bound.local 2 farm "T2")
correct-local_example =
    correct-local terminal farm entries bound bound-IsConsistent moved_pair 2 farm "T2"
      corrects_pair
