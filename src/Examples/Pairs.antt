-- ===== src/Examples/Pairs.antt =====
-- Runs of both sides of the mapping together: the pairs of reference-client/internal/platform/store and
-- those of reference-client/internal/testrouter.
use masterdata_sync_working.Prelude.{
  String, none, some, List, [], ◌∷◌, sort, eq_iff, ◌≡◌, refl, sym, ◌∙◌, arith,
}
use masterdata_sync_working.Failure.{ok}
use masterdata_sync_working.Model.{EntityType, farm, type_name}
use masterdata_sync_working.Store.{Store, find_object}
use masterdata_sync_working.Store.Lookup.{same_type_eq}
use masterdata_sync_working.Mapping.{is_object, write_pair, bind}
use masterdata_sync_working.InitialLoad.{
  is_duplicate, apply_binding, apply_each, apply_bindings, bind_result,
}
use masterdata_sync_working.Client.Pairs.{
  SyncRow, is_bound, keyed, first, sync_row, bindings, upsert, put_sync_row, drop_sync_row,
}
use masterdata_sync_working.Client.Reconcile.{
  confirmation, loaded_bindings, type_of, drop_each, drop_rejected,
}
use masterdata_sync_working.Client.Reconcile.Agreed.{IsOneTyped, confirm_agrees}
use masterdata_sync_working.Client.Correct.{drop_listed_rows, put_listed_rows, correct_rows}
use masterdata_sync_working.Client.Correct.Agreed.{held_id, correct_rows-agrees}
use masterdata_sync_working.Examples.Setup.{terminal, stocked}
use masterdata_sync_working.Examples.Bindings.{
  bound, bound-IsConsistent, entries, moved_pair, corrects_pair,
}
use masterdata_sync_working.Examples.Participant.{office, pair}

abbrev one_row : List SyncRow
one_row = pair office "T1" 10 1 ∷ []

one_row-IsOneTyped : IsOneTyped office one_row
one_row-IsOneTyped typ u l id h k =
    sym (same_type_eq farm typ (ground (arith, h))) ∙ same_type_eq farm u (ground (arith, k))

abbrev answer : Store
answer = (apply_bindings terminal (loaded_bindings office (farm ∷ []) one_row) stocked).0

nothing_dropped :
    drop_rejected office
      (apply_bindings terminal (loaded_bindings office (farm ∷ []) one_row) stocked).1
      one_row
    ≡ ok (one_row, [])
unfolding drop_rejected drop_each type_of bindings loaded_bindings confirmation is_bound sort
    type_name apply_bindings apply_each apply_binding bind_result is_duplicate bind is_object
    find_object write_pair
nothing_dropped = refl

one_row_held : sync_row office farm "T1" one_row ≡ some (pair office "T1" 10 1)
unfolding sync_row first keyed
one_row_held = refl

confirm_agrees_example : (u : EntityType) × (answer.local 2 u "T1" ≡ some 10)
confirm_agrees_example =
    confirm_agrees terminal stocked office (farm ∷ []) one_row one_row-IsOneTyped one_row []
      nothing_dropped farm "T1" (pair office "T1" 10 1) 10 refl one_row_held refl

abbrev moved_row : List SyncRow
moved_row = record (pair office "T2" 10 1) { revision = none } ∷ []

moves_row : correct_rows office farm entries one_row ≡ ok moved_row
unfolding correct_rows drop_listed_rows put_listed_rows drop_sync_row put_sync_row upsert keyed
moves_row = refl

both_bound : (l : String) → held_id office farm l one_row ≡ bound.local 2 farm l
unfolding sync_row first keyed bind is_object find_object write_pair
both_bound l = ground (arith, eq_iff "T1" l)

correct_rows-agrees_example : held_id office farm "T2" moved_row ≡ moved_pair.local 2 farm "T2"
correct_rows-agrees_example =
    correct_rows-agrees terminal office farm entries bound moved_pair one_row moved_row
      bound-IsConsistent corrects_pair moves_row both_bound "T2"
