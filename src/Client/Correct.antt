-- ===== src/Client/Correct.antt =====
-- Correct of reference-client/internal/platform/sync/outbound.go: what the platform rewrites of its own
-- pairs once agrirouter has accepted a correction.
pub mod Agreed
use masterdata_sync_working.Prelude.{ℕ, String, false, Option, none, some, List, [], ◌∷◌}
use masterdata_sync_working.Failure.{Result, ok, ◌>>=◌}
use masterdata_sync_working.Model.{EntityType}
use masterdata_sync_working.Mapping.{Correction}
use masterdata_sync_working.Client.Pairs.{Namespace, SyncRow, drop_sync_row, put_sync_row}

-- Every listed row is dropped before any is written.
unfoldable pub drop_listed_rows :
    Namespace → EntityType → List Correction → List SyncRow → List SyncRow
unfolding drop_sync_row
drop_listed_rows ns typ [] rows = rows
drop_listed_rows ns typ (e ∷ es) rows =
    drop_listed_rows ns typ es (drop_sync_row ns typ e.local_id rows)

-- The row that a correction leaves: the revision comes with the object, which is requested next.
abbrev pub corrected_row : Namespace → EntityType → String → ℕ → SyncRow
corrected_row ns typ l id = record {
  endpoint = ns;
  typ = typ;
  local_id = l;
  agrirouter_id = some id;
  revision = none;
  unbound = false;
}

unfoldable pub put_listed_rows :
    Namespace → EntityType → List Correction → List SyncRow → Result (List SyncRow)
unfolding put_sync_row
put_listed_rows ns typ [] rows = ok rows
put_listed_rows ns typ (e ∷ es) rows = elim e.target [
  | none ↦ put_listed_rows ns typ es rows
  | some id ↦ put_sync_row (corrected_row ns typ e.local_id id) rows >>= λ rows.
      put_listed_rows ns typ es rows
]

-- Correct, its transaction
unfoldable pub correct_rows :
    Namespace → EntityType → List Correction → List SyncRow → Result (List SyncRow)
unfolding drop_listed_rows put_listed_rows
correct_rows ns typ entries rows =
    put_listed_rows ns typ entries (drop_listed_rows ns typ entries rows)
