-- ===== src/Examples/Participant.antt =====
-- Runs of the platform of reference-client/internal/platform against its own database.
use masterdata_sync_working.Prelude.{
  ℕ, String, Bool, true, false, ◌&&◌, not, Option, none, some, List, [], ◌∷◌, keep, str_eq, ◌≡◌,
  ◌≤◌, refl, if◌then◌else◌, sort,
}
use masterdata_sync_working.Failure.{ok}
use masterdata_sync_working.Model.{EntityType, farm, same_type}
use masterdata_sync_working.Client.Identity.{identity_of, identity_of-render_with}
use masterdata_sync_working.Identity.{render_with}
use masterdata_sync_working.Client.Pairs.{
  Namespace, SyncRow, keyed, first, sync_row, sync_row_by_agrirouter_id, sibling_row, upsert,
  put_sync_row,
}
use masterdata_sync_working.Client.Pairs.View.{
  puts, put_row, changed, no_rows, view, ViewStep, TableStep-ViewStep, IsInjective,
  ReachableTable-IsInjective,
}
use masterdata_sync_working.Client.Database.{
  Entity, Record, Tables, Database, references, columns, keep_fields, from_entity, hold,
  upsert_record, set_position,
}
use masterdata_sync_working.Client.Apply.{
  Applier, Outcome, no_outcome, unselected_refs, write, apply_unheld, own_id, record_id, apply_in,
  apply,
}
use masterdata_sync_working.Client.Apply.Keeps.{apply-other_namespace}
use masterdata_sync_working.Client.Apply.Revision.{apply-revision}
use masterdata_sync_working.Client.Apply.Redelivery.{apply-apply}
use masterdata_sync_working.Examples.Setup.{unary, name_of}

-- The product's tables, as the list of what was written.
abbrev pub Rows : Type 0
Rows = List (String × Record)

abbrev row_is : EntityType → String → String × Record → Bool
row_is typ l q = str_eq q.0 l && same_type q.1.typ typ

abbrev found : EntityType → String → Rows → Option Record
found typ l [] = none
found typ l (q ∷ qs) = if row_is typ l q then some q.1 else found typ l qs

abbrev marked : EntityType → String → Bool → Rows → Rows
marked typ l archived [] = []
marked typ l archived (q ∷ qs) =
    (if row_is typ l q then (q.0, record q.1 { archived = archived }) else q)
    ∷ marked typ l archived qs

abbrev pub tables : Tables Rows
tables = record {
  write_row = λ pairs r l t. ok ((l, r) ∷ t);
  archive = marked;
  load = found;
  remove = λ typ l t. keep (λ (q : String × Record). not (row_is typ l q)) t;
}

abbrev pub office : Namespace
office = record { tenant_id = 1; external_id = "office" }

abbrev pub machine : Namespace
machine = record { tenant_id = 1; external_id = "machine" }

abbrev pub office_applier : Applier
office_applier = record { tenant = "farmer"; endpoint_id = 1; namespace = office }

abbrev pub delivered : ℕ → Option String → Entity
delivered revision local_id = record {
  envelope = record {
    typ = farm;
    agrirouter_id = some 10;
    local_id = local_id;
    tenant_id = some 1;
    revision = some revision;
    active = some true;
    recipient = some 1;
  };
  content = name_of "North";
}

abbrev pub nothing : Database Rows
nothing = record { pairs = []; position = ""; routes = λ e. none; held = []; records = [] }

abbrev pub pair : Namespace → String → ℕ → ℕ → SyncRow
pair ns l id revision = record {
  endpoint = ns;
  typ = farm;
  local_id = l;
  agrirouter_id = some id;
  revision = some revision;
  unbound = false;
}

identity_of-render_with_example :
    identity_of unary (render_with unary 10 (some "F1") none) ≡ ok (some 10, some "F1")
identity_of-render_with_example = identity_of-render_with unary 10 (some "F1") none

one_pair : put_sync_row (pair office "F1" 10 1) [] ≡ ok (pair office "F1" 10 1 ∷ [])
unfolding put_sync_row upsert keyed
one_pair = refl

TableStep-ViewStep_example :
    ViewStep (put_row (pair office "F1" 10 1)) (view []) (view (pair office "F1" 10 1 ∷ []))
TableStep-ViewStep_example =
    TableStep-ViewStep (put_row (pair office "F1" 10 1)) [] (pair office "F1" 10 1 ∷ [])
      (puts (pair office "F1" 10 1) one_pair)

two_pairs :
    put_sync_row (pair machine "F1" 10 1) (pair office "F1" 10 1 ∷ [])
    ≡ ok (pair office "F1" 10 1 ∷ pair machine "F1" 10 1 ∷ [])
unfolding put_sync_row upsert keyed
two_pairs = refl

ReachableTable-IsInjective_example :
    IsInjective (view (pair office "F1" 10 1 ∷ pair machine "F1" 10 1 ∷ []))
ReachableTable-IsInjective_example =
    ReachableTable-IsInjective (pair office "F1" 10 1 ∷ pair machine "F1" 10 1 ∷ []) (
      changed
        (changed no_rows (put_row (pair office "F1" 10 1)) (puts (pair office "F1" 10 1) one_pair))
        (put_row (pair machine "F1" 10 1)) (puts (pair machine "F1" 10 1) two_pairs))

-- The office is delivered a farm that it does not hold.
abbrev pub made : Database Rows
made = record {
  pairs = pair office "F1" 10 1 ∷ [];
  position = "p1";
  routes = λ e. none;
  held = record { tenant = "farmer"; typ = farm; local_id = "F1" } ∷ [];
  records =
      ("F1", record { typ = farm; archived = false; modelled = name_of "North"; ignored = [] })
      ∷ [];
}

abbrev creation : Outcome
creation = record no_outcome { local_id = "F1"; created = true; needs_binding = true }

farm_made :
    apply tables office_applier (delivered 1 none) "p1" "F1" none none nothing ≡ ok (made, creation)
unfolding apply apply_in record_id own_id apply_unheld write from_entity upsert_record hold
    unselected_refs references columns keep_fields set_position sync_row sync_row_by_agrirouter_id
    sibling_row first put_sync_row upsert keyed sort
farm_made = refl

apply-other_namespace_example :
    sync_row machine farm "F1" made.pairs ≡ sync_row machine farm "F1" nothing.pairs
apply-other_namespace_example =
    apply-other_namespace tables office_applier (delivered 1 none) "p1" "F1" none nothing made
      creation farm_made machine farm "F1" refl

-- The same farm again, one revision on.
abbrev made_again : Database Rows
made_again = record made {
  pairs = pair office "F1" 10 2 ∷ [];
  position = "p2";
  records =
      ("F1", record { typ = farm; archived = false; modelled = name_of "North"; ignored = [] })
      ∷ made.records;
}

abbrev update : Outcome
update = record no_outcome { local_id = "F1" }

farm_again :
    apply tables office_applier (delivered 2 none) "p2" "F2" none none made
    ≡ ok (made_again, update)
unfolding apply apply_in record_id own_id apply_unheld write from_entity upsert_record hold
    unselected_refs references columns keep_fields set_position sync_row sync_row_by_agrirouter_id
    sibling_row first put_sync_row upsert keyed sort
farm_again = refl

no_second : sync_row office farm "F2" made.pairs ≡ none
unfolding sync_row first keyed
no_second = refl

the_first : sync_row office farm "F1" made.pairs ≡ some (pair office "F1" 10 1)
unfolding sync_row first keyed
the_first = refl

apply-revision_example :
    (y : SyncRow) × (k : ℕ) × (sync_row office farm "F1" made_again.pairs ≡ some y)
    × (y.revision ≡ some k)
    × (1 ≤ k)
apply-revision_example =
    apply-revision tables office_applier (delivered 2 none) "p2" "F2" none made made_again update 2
      farm_again refl no_second office farm "F1" (pair office "F1" 10 1) 1 the_first refl

apply-apply_example : (update.local_id ≡ creation.local_id) × (update.created ≡ false)
apply-apply_example =
    apply-apply tables office_applier (delivered 1 none) (delivered 2 none) "p1" "p2" "F1" "F2" none
      none none nothing made made_again creation update 10 farm_made refl refl refl refl refl
      farm_again refl
