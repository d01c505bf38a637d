-- ===== src/Examples/Contents.antt =====
-- Runs of the three-way merge, of merge patches and of identifiers:
-- reference-client/internal/testrouter/ssot.go, mergepatch.go, identity.go and references.go.
use masterdata_sync_working.Prelude.{
  ℕ, String, Bool, true, false, Option, none, some, List, [], ◌∷◌, ◌≡◌, ◌≢◌, refl, ap, sym, ◌∙◌,
  arith, str_eq,
}
use masterdata_sync_working.Json.{
  Value, null, str, obj, Fields, empty, entry, get, is_null, canonical, unique, has,
}
use masterdata_sync_working.Failure.{ok, err, invalid, revision_conflict}
use masterdata_sync_working.Model.{farm, Object, RefSlot, ref_slots, party_type_of}
use masterdata_sync_working.MergePatch.{merge_patch, patch_attribute, whole_attributes}
use masterdata_sync_working.MergePatch.Rfc.{merged_field, get-merge_patch}
use masterdata_sync_working.Identity.{
  read, read_entries, is_local, is_agrirouter, canonical_id, render_with,
}
use masterdata_sync_working.Identity.Rendered.{read-render_with, read-render_with_self}
use masterdata_sync_working.References.{resolve_ref, target_of, check_target}
use masterdata_sync_working.References.Resolved.{IsTarget, resolve_ref_lem}
use masterdata_sync_working.Store.{find_object}
use masterdata_sync_working.Write.Merge.{Change, apply_changes, value_at, merge_changes}
use masterdata_sync_working.Write.Merge.History.{value_at-apply_changes}
use masterdata_sync_working.Write.Merge.ThreeWay.{
  merge_changes-Untouched, changed_attributes, merge_changes_conflict, Untouched,
}
use masterdata_sync_working.Examples.Setup.{
  unary, marks, count_marks, terminal, stocked, barn, name_of,
}

abbrev changes : List Change
changes = record { key = "name"; value = some (str "Stable") } ∷ []

value_at-apply_changes_example :
    value_at ((apply_changes changes barn).history "name") 1 ≡ value_at (barn.history "name") 1
value_at-apply_changes_example = value_at-apply_changes changes barn "name" 1 (omega arith)

abbrev area : Fields
area = entry "area" (str "12") empty

area-Untouched : Untouched barn 1 area
unfolding get value_at
area-Untouched = (refl, tt)

merge_changes-Untouched_example :
    merge_changes farm barn 1 area ≡ ok (changed_attributes farm barn area)
merge_changes-Untouched_example = merge_changes-Untouched farm barn 1 area area-Untouched

is_text : String → Option Value → Bool
is_text s (some (str t)) = str_eq t s
is_text s _ = false

apart : {A : Type 0} (test : A → Bool) (a b : A) → test a ≡ true → test b ≡ false → a ≢ b
apart test a b h k e = no (sym h ∙ ap test e ∙ k)
  where
    no : true ≡ false → ⊥
    no e = cc

apart_at_base : get "name" barn.content ≢ value_at (barn.history "name") 1
unfolding get value_at is_text
apart_at_base =
    apart (is_text "Barn") (get "name" barn.content) (value_at (barn.history "name") 1) refl refl

differs :
    patch_attribute farm "name" (value_at (barn.history "name") 1) (str "Stable")
    ≢ value_at (barn.history "name") 1
unfolding patch_attribute value_at merge_patch is_null whole_attributes ref_slots canonical
    party_type_of is_text
differs =
    apart (is_text "Stable")
      (patch_attribute farm "name" (value_at (barn.history "name") 1) (str "Stable"))
      (value_at (barn.history "name") 1) refl refl

differs_now :
    patch_attribute farm "name" (value_at (barn.history "name") 1) (str "Stable")
    ≢ get "name" barn.content
unfolding patch_attribute value_at merge_patch is_null whole_attributes ref_slots canonical
    party_type_of is_text get
differs_now =
    apart (is_text "Stable")
      (patch_attribute farm "name" (value_at (barn.history "name") 1) (str "Stable"))
      (get "name" barn.content) refl refl

stable_named : get "name" (name_of "Stable") ≡ some (str "Stable")
unfolding get
stable_named = refl

merge_changes_conflict_example :
    merge_changes farm barn 1 (name_of "Stable") ≡ err (revision_conflict 2)
merge_changes_conflict_example =
    merge_changes_conflict farm barn 1 (name_of "Stable") "name" (str "Stable") stable_named
      apart_at_base differs differs_now

abbrev removal : Fields
removal = entry "name" null empty

unique-name_of : unique (name_of "Barn") ≡ true
unfolding unique has
unique-name_of = refl

unique-removal : unique removal ≡ true
unfolding unique has
unique-removal = refl

get-merge_patch_example :
    (fs : Fields) × (merge_patch (some (obj (name_of "Barn"))) (obj removal) ≡ obj fs)
    × (get "name" fs ≡ merged_field (get "name" (name_of "Barn")) (get "name" removal))
get-merge_patch_example =
    get-merge_patch "name" (name_of "Barn") removal unique-name_of unique-removal

local_apart : "T1" ≢ marks 2
unfolding marks
local_apart = apart (λ t. str_eq t "T1") "T1" (marks 2) refl refl

read-render_with_example : read unary (render_with unary 2 (some "T1") none) ≡ ok (some 2, none)
read-render_with_example = read-render_with unary 2 "T1" none local_apart (λ l e. cc)

read-render_with_self_example :
    read unary (render_with unary 2 (some (marks 2)) none)
    ≡ err (invalid "the local entry cannot have the reserved idSource")
read-render_with_self_example = read-render_with_self unary 2 none

abbrev farm_slot : RefSlot
farm_slot = record { within = ""; key = "_agmasync_farmRef"; target = farm; party_type = "" }

resolves :
    resolve_ref unary stocked terminal farm_slot (canonical_id unary 10)
    ≡ ok (canonical_id unary 10)
unfolding resolve_ref read read_entries canonical_id is_local is_agrirouter target_of check_target
    find_object marks count_marks
resolves = refl

resolve_ref_lem_example :
    (target : ℕ) × (o : Object) × (canonical_id unary 10 ≡ canonical_id unary target)
    × (find_object target stocked.objects ≡ some o)
    × IsTarget terminal farm_slot o
resolve_ref_lem_example =
    resolve_ref_lem unary stocked terminal farm_slot (canonical_id unary 10) (canonical_id unary 10)
      resolves
