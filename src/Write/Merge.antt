-- ===== src/Write/Merge.antt =====
-- The three-way merge inside put, and valueAt: reference-client/internal/testrouter/ssot.go. The
-- base revision of a write is a Go int, which may be negative.
pub mod ThreeWay
pub mod History
use masterdata_sync_working.Prelude.{
  ℕ, ◌+◌, String, Bool, true, false, ◌&&◌, ◌||◌, not, Option, none, some, List, [], ◌∷◌, ◌++◌, any,
  ◌==◌, ltb, str_eq, set_key, if◌then◌else◌,
}
use masterdata_sync_working.Json.{Value, Fields, empty, entry, get, put, del, equal}
use masterdata_sync_working.Failure.{Result, ok, err, revision_conflict, ◌>>=◌}
use masterdata_sync_working.Model.{EntityType, Object, AttributeValue}
use masterdata_sync_working.MergePatch.{patch_attribute}

-- `negsuc n` is -(n + 1).
pub data ℤ : Type 0 where
  pos : ℕ → ℤ
  negsuc : ℕ → ℤ

-- An attribute with the value that a write leaves it with, `none` for absent.
pub record Change : Type 0 where
  pub key : String
  pub value : Option Value

put_some : String → Option Value → Fields → Fields
put_some k none fs = fs
put_some k (some v) fs = put k v fs

-- The content of a new object: the patch applied to nothing.
unfoldable pub new_content : EntityType → Fields → Fields → Fields
unfolding put_some
new_content typ empty content = content
new_content typ (entry k v fs) content =
    new_content typ fs (put_some k (patch_attribute typ k none v) content)

-- What each attribute that the write carries would become.
unfoldable pub patched : EntityType → Fields → Fields → List Change
patched typ content empty = []
patched typ content (entry k v fs) =
    record { key = k; value = patch_attribute typ k (get k content) v } ∷ patched typ content fs

unfoldable pub change_at : String → List Change → Option (Option Value)
change_at k [] = none
change_at k (c ∷ cs) = if str_eq c.key k then some c.value else change_at k cs

unfoldable pub changes_something : Fields → List Change → Bool
unfolding equal
changes_something content = any λ (c : Change). not (equal c.value (get c.key content))

-- The value of the last entry at or below the revision.
value_from : Option Value → List AttributeValue → ℕ → Option Value
value_from v [] revision = v
value_from v (e ∷ es) revision =
    if ltb revision e.revision then v else value_from e.value es revision

-- valueAt
unfoldable pub value_at : List AttributeValue → ℕ → Option Value
unfolding value_from
value_at history revision = value_from none history revision

-- A base that the merge accepts: not below 1 and not above the current revision.
unfoldable pub read_base : ℤ → ℕ → Option ℕ
read_base (pos b) revision = if ltb revision b || ltb b 1 then none else some b
read_base (negsuc b) revision = none

unfoldable pub same_revision : ℤ → ℕ → Bool
same_revision (pos b) revision = b == revision
same_revision (negsuc b) revision = false

-- The decision for one attribute, from its value at the base, what the write intends there, its
-- current value and what the write would leave: `none` where it stays as it stands.
unfoldable pub three_way :
    ℕ → String → (at_base intended current left : Option Value) → Result (Option Change)
three_way revision k at_base intended current left =
    if equal intended at_base
    then ok none
    else if not (equal current at_base) && not (equal intended current)
    then err (revision_conflict revision)
    else if equal left current
    then ok none
    else ok (some (record { key = k; value = left }))

unfoldable pub merge_attribute : EntityType → Object → ℕ → String → Value → Result (Option Change)
unfolding three_way
merge_attribute typ o base k v =
    three_way o.revision k (value_at (o.history k) base)
      (patch_attribute typ k (value_at (o.history k) base) v) (get k o.content)
      (patch_attribute typ k (get k o.content) v)

abbrev add_change : Option Change → List Change → List Change
add_change none cs = cs
add_change (some c) cs = c ∷ cs

-- The loop that collects what the write changes, or stops at a conflict.
unfoldable pub merge_changes : EntityType → Object → ℕ → Fields → Result (List Change)
merge_changes typ o base empty = ok []
merge_changes typ o base (entry k v fs) = merge_attribute typ o base k v >>= λ c.
    merge_changes typ o base fs >>= λ cs. ok (add_change c cs)

set_content : String → Option Value → Fields → Fields
set_content k none content = del k content
set_content k (some v) content = put k v content

unfoldable pub apply_change : Change → Object → Object
unfolding set_content
apply_change c o = record o {
  content = set_content c.key c.value o.content;
  stamps = set_key c.key o.revision o.stamps;
  history = λ k.
      if str_eq c.key k
      then o.history k ++ record { revision = o.revision; value = c.value } ∷ []
      else o.history k;
}

-- The loop that applies the changes, at the revision that the object has by then.
unfoldable pub apply_changes : List Change → Object → Object
unfolding apply_change
apply_changes [] o = o
apply_changes (c ∷ cs) o = apply_changes cs (apply_change c o)
