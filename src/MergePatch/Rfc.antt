-- ===== src/MergePatch/Rfc.antt =====
-- What a merge patch does to each field: RFC 7396 for reference-client/internal/testrouter/mergepatch.go.
use masterdata_sync_working.Prelude.{
  String, true, false, Option, none, some, str_eq, eq_iff, if◌then◌else◌, ◌≡◌, refl, ap, arith, ◌∙◌,
  Bool-cases, inl, inr,
}
use masterdata_sync_working.Json.{
  Value, Fields, obj, empty, entry, get, put, del, has, unique, into_map, is_null,
}
use masterdata_sync_working.Json.Laws.{get-put, get-del}
use masterdata_sync_working.MergePatch.{merge_patch, patch_fields}

get_of_not_has : (k : String) (fs : Fields) → has k fs ≡ false → get k fs ≡ none
unfolding has get
get_of_not_has k empty h = refl
get_of_not_has k (entry j v fs) h = ground (arith, get_of_not_has k fs)

-- A field of the merge: untouched where the patch leaves it out, gone where the patch says null,
-- and otherwise the patch's value merged into the target's.
abbrev pub merged_field : Option Value → Option Value → Option Value
merged_field current none = current
merged_field current (some v) = if is_null v then none else some (merge_patch current v)

step-get :
    (k j : String) (v : Value) (target : Fields)
    → get j (if is_null v then del k target else put k (merge_patch (get k target) v) target)
      ≡ (if str_eq k j then merged_field (get j target) (some v) else get j target)
step-get k j v target =
    ground
      (arith, get-del j k target, get-put j k (merge_patch (get k target) v) target, eq_iff k j)

pub get-patch_fields :
    (j : String) (patch target : Fields)
    → unique patch ≡ true
    → get j (patch_fields target patch) ≡ merged_field (get j target) (get j patch)
unfolding patch_fields unique get
get-patch_fields j empty target u = refl
get-patch_fields j (entry k v rest) target u = elim (Bool-cases (has k rest)) [
  | inl again ↦ ground arith
  | inr once ↦ rw once (
      ground (
        arith,
        get-patch_fields j rest
            (if is_null v then del k target else put k (merge_patch (get k target) v) target),
        step-get k j v target,
        get_of_not_has k rest,
        eq_iff k j,
      ))
]

get-into_map :
    (j : String) (fs m : Fields)
    → unique fs ≡ true
    → get j (into_map fs m) ≡ (if has j fs then get j fs else get j m)
unfolding into_map unique get has
get-into_map j empty m u = refl
get-into_map j (entry k v fs) m u =
    ground (arith, get-into_map j fs (put k v m), get-put j k v m, eq_iff k j)

get-target : (j : String) (fs : Fields) → unique fs ≡ true → get j (into_map fs empty) ≡ get j fs
unfolding get
get-target j fs u = ground (arith, get-into_map j fs empty u, get_of_not_has j fs)

-- A field of an object merged with a patch: where the patch leaves it out it is the target's, where
-- the patch says null it is gone, and otherwise it is the patch's value merged into the target's.
pub get-merge_patch :
    (j : String) (target patch : Fields)
    → unique target ≡ true
    → unique patch ≡ true
    → (fs : Fields) × (merge_patch (some (obj target)) (obj patch) ≡ obj fs)
      × (get j fs ≡ merged_field (get j target) (get j patch))
unfolding merge_patch
get-merge_patch j target patch u v = (
  patch_fields (into_map target empty) patch,
  refl,
  get-patch_fields j patch (into_map target empty) v
      ∙ ap (λ o. merged_field o (get j patch)) (get-target j target u),
)
