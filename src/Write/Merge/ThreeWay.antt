-- ===== src/Write/Merge/ThreeWay.antt =====
-- When the three-way merge of put succeeds, and what it leaves alone:
-- reference-client/internal/testrouter/ssot.go.
use masterdata_sync_working.Prelude.{
  ℕ, String, Bool, true, false, ◌&&◌, not, Option, none, some, List, [], ◌∷◌, ◌∙◌, sym, eq_iff,
  if◌then◌else◌, ◌≡◌, ◌≢◌, inl, inr, refl, ap, arith, Bool-cases,
}
use masterdata_sync_working.Json.{Value, Fields, empty, entry, get, equal}
use masterdata_sync_working.Json.Laws.{equal_refl, equal_sound}
use masterdata_sync_working.Failure.{ok, err, revision_conflict}
use masterdata_sync_working.Model.{EntityType, Object}
use masterdata_sync_working.MergePatch.{patch_attribute}
use masterdata_sync_working.Write.Merge.{
  Change, value_at, three_way, merge_attribute, merge_changes, add_change,
}

-- Both sides changed an attribute since the base, and not to the same thing.
abbrev apart : (at_base intended current : Option Value) → Bool
apart at_base intended current =
    not (equal intended at_base) && not (equal current at_base) && not (equal intended current)

three_way-apart :
    (r : ℕ) (k : String) (at_base intended current left : Option Value)
    → apart at_base intended current ≡ true
    → three_way r k at_base intended current left ≡ err (revision_conflict r)
unfolding three_way
three_way-apart r k at_base intended current left h = ground arith

-- What a successful merge does with one attribute.
abbrev Merged : String → (current left : Option Value) → Option Change → Type 0
Merged k current left none = Unit
Merged k current left (some c) = (c.key ≡ k) × (c.value ≡ left)

three_way_joined :
    (r : ℕ) (k : String) (at_base intended current left : Option Value)
    → apart at_base intended current ≡ false
    → (c : Option Change) × (three_way r k at_base intended current left ≡ ok c)
unfolding three_way
three_way_joined r k at_base intended current left h = (
  if equal intended at_base
      then none
      else if equal left current
      then none
      else some (record { key = k; value = left }),
  ground arith,
)

-- The write and the intervening changes clash at an attribute.
unfoldable pub clashes : EntityType → Object → ℕ → String → Value → Bool
clashes typ o base k v =
    let at_base = value_at (o.history k) base in
    apart at_base (patch_attribute typ k at_base v) (get k o.content)

unfoldable pub any_clash : EntityType → Object → ℕ → Fields → Bool
any_clash typ o base empty = false
any_clash typ o base (entry k v fs) =
    if clashes typ o base k v then true else any_clash typ o base fs

merge_attribute_clash :
    (typ : EntityType) (o : Object) (base : ℕ) (k : String) (v : Value)
    → clashes typ o base k v ≡ true
    → merge_attribute typ o base k v ≡ err (revision_conflict o.revision)
unfolding merge_attribute clashes
merge_attribute_clash typ o base k v h = three_way-apart o.revision k _ _ _ _ h

merge_attribute_ok :
    (typ : EntityType) (o : Object) (base : ℕ) (k : String) (v : Value)
    → clashes typ o base k v ≡ false
    → (c : Option Change) × (merge_attribute typ o base k v ≡ ok c)
unfolding merge_attribute clashes
merge_attribute_ok typ o base k v h = three_way_joined o.revision k _ _ _ _ h

-- A merge conflicts exactly when some attribute of the write clashes.
merge_changes_clash :
    (typ : EntityType) (o : Object) (base : ℕ) (incoming : Fields)
    → any_clash typ o base incoming ≡ true
    → merge_changes typ o base incoming ≡ err (revision_conflict o.revision)
unfolding any_clash merge_changes
merge_changes_clash typ o base empty h = cc
merge_changes_clash typ o base (entry k v fs) h = elim (Bool-cases (clashes typ o base k v)) [
  | inl now ↦ rw (merge_attribute_clash typ o base k v now) refl
  | inr later ↦
      let (c, e) = merge_attribute_ok typ o base k v later in
      rw (e, merge_changes_clash typ o base fs (ground arith)) refl
]

merge_changes_ok :
    (typ : EntityType) (o : Object) (base : ℕ) (incoming : Fields)
    → any_clash typ o base incoming ≡ false
    → (cs : List Change) × (merge_changes typ o base incoming ≡ ok cs)
unfolding any_clash merge_changes
merge_changes_ok typ o base empty h = ([], refl)
merge_changes_ok typ o base (entry k v fs) h =
    let (c, e) = merge_attribute_ok typ o base k v (ground arith) in
    let (cs, rest) = merge_changes_ok typ o base fs (ground arith) in
    (add_change c cs, rw (e, rest) refl)

-- Nobody has changed the attributes that the write carries since its base.
abbrev pub Untouched : Object → ℕ → Fields → Type 0
Untouched o base empty = Unit {0}
Untouched o base (entry k v fs) =
    (get k o.content ≡ value_at (o.history k) base) × Untouched o base fs

-- What a write changes where it is simply applied to the current content: each of its attributes
-- that comes out with another value than the current one, with that value.
abbrev pub changed_attributes : EntityType → Object → Fields → List Change
changed_attributes typ o empty = []
changed_attributes typ o (entry k v fs) =
    let left = patch_attribute typ k (get k o.content) v in
    let rest = changed_attributes typ o fs in
    if equal left (get k o.content) then rest else record { key = k; value = left } ∷ rest

-- One attribute that nobody has changed since the base.
three_way_same :
    (r : ℕ) (k : String) (at_base current left : Option Value)
    → current ≡ at_base
    → three_way r k at_base left current left
      ≡ ok (if equal left current then none else some (record { key = k; value = left }))
unfolding three_way
three_way_same r k at_base current left h =
    let same : equal left current ≡ equal left at_base = ap (equal left) h in
    let still : equal current at_base ≡ true = ap (λ c. equal c at_base) h ∙ equal_refl at_base in
    elim (Bool-cases (equal left at_base)) [
      | inl e ↦ rw (e, same, e) refl
      | inr e ↦ rw (e, still, same, e) refl
    ]

merge_attribute_same :
    (typ : EntityType) (o : Object) (base : ℕ) (k : String) (v : Value)
    → get k o.content ≡ value_at (o.history k) base
    → merge_attribute typ o base k v
      ≡ ok (
          if equal (patch_attribute typ k (get k o.content) v) (get k o.content)
          then none
          else some (record { key = k; value = patch_attribute typ k (get k o.content) v }))
unfolding merge_attribute
merge_attribute_same typ o base k v h =
    ap
      (λ at_base.
        three_way o.revision k (value_at (o.history k) base) (patch_attribute typ k at_base v)
          (get k o.content) (patch_attribute typ k (get k o.content) v))
      (sym h)
    ∙ three_way_same o.revision k (value_at (o.history k) base) (get k o.content)
        (patch_attribute typ k (get k o.content) v) h

-- A write that carries only attributes nobody has changed since its base is merged without a
-- conflict, into just the changes of applying it to the current content: each attribute to which it
-- gives another value changes to that value, and no other.
pub merge_changes-Untouched :
    (typ : EntityType) (o : Object) (base : ℕ) (incoming : Fields)
    → Untouched o base incoming
    → merge_changes typ o base incoming ≡ ok (changed_attributes typ o incoming)
unfolding merge_changes
merge_changes-Untouched typ o base empty u = refl
merge_changes-Untouched typ o base (entry k v fs) u =
    let rest = merge_changes-Untouched typ o base fs u.1 in
    let first = merge_attribute_same typ o base k v u.0 in
    elim (Bool-cases (equal (patch_attribute typ k (get k o.content) v) (get k o.content))) [
      | inl e ↦ rw (first, e, rest) refl
      | inr e ↦ rw (first, e, rest) refl
    ]

not_equal : (a b : Option Value) → a ≢ b → equal a b ≡ false
not_equal a b h = elim (Bool-cases (equal a b)) [
  | inl e ↦ absurd (h (equal_sound a b e))
  | inr e ↦ e
]

clash_found :
    (typ : EntityType) (o : Object) (base : ℕ) (incoming : Fields) (k : String) (v : Value)
    → get k incoming ≡ some v
    → clashes typ o base k v ≡ true
    → any_clash typ o base incoming ≡ true
unfolding any_clash get
clash_found typ o base empty k v h c = cc
clash_found typ o base (entry j w fs) k v h c =
    ground (arith, eq_iff j k, clash_found typ o base fs k v)

clash :
    (typ : EntityType) (o : Object) (base : ℕ) (k : String) (v : Value)
    → get k o.content ≢ value_at (o.history k) base
    → patch_attribute typ k (value_at (o.history k) base) v ≢ value_at (o.history k) base
    → patch_attribute typ k (value_at (o.history k) base) v ≢ get k o.content
    → clashes typ o base k v ≡ true
unfolding clashes
clash typ o base k v theirs ours differ =
    rw (not_equal _ _ theirs, not_equal _ _ ours, not_equal _ _ differ) refl

-- An attribute that someone else changed since the base, that the write changes too and to
-- something else, makes the merge a conflict with the revision that stands.
pub merge_changes_conflict :
    (typ : EntityType) (o : Object) (base : ℕ) (incoming : Fields) (k : String) (v : Value)
    → get k incoming ≡ some v
    → get k o.content ≢ value_at (o.history k) base
    → patch_attribute typ k (value_at (o.history k) base) v ≢ value_at (o.history k) base
    → patch_attribute typ k (value_at (o.history k) base) v ≢ get k o.content
    → merge_changes typ o base incoming ≡ err (revision_conflict o.revision)
merge_changes_conflict typ o base incoming k v sent theirs ours differ =
    merge_changes_clash typ o base incoming
      (clash_found typ o base incoming k v sent (clash typ o base k v theirs ours differ))
