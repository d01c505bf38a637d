-- ===== src/Write/Merge/History.antt =====
-- What an object's history remembers: history, valueAt and the loop of put that appends to it, in
-- reference-client/internal/testrouter/ssot.go.
use masterdata_sync_working.Prelude.{
  ℕ, ◌+◌, ◌≤◌, ◌<◌, String, Option, none, some, List, [], ◌∷◌, ◌++◌, str_eq, if◌then◌else◌, ◌≡◌,
  refl, ◌∙◌, arith,
}
use masterdata_sync_working.Json.{Value, Fields, get}
use masterdata_sync_working.Json.Laws.{get-put, get-del}
use masterdata_sync_working.Model.{Object, AttributeValue}
use masterdata_sync_working.Write.Merge.{
  Change, set_content, value_from, value_at, apply_change, apply_changes,
}

-- No entry is later than a revision.
abbrev pub Upto : ℕ → List AttributeValue → Type 0
Upto r [] = Unit {0}
Upto r (e ∷ es) = (e.revision ≤ r) × Upto r es

Upto-mono : (r s : ℕ) (es : List AttributeValue) → r ≤ s → Upto r es → Upto s es
Upto-mono r s [] h u = tt
Upto-mono r s (e ∷ es) h u = (omega arith, Upto-mono r s es h u.1)

Upto-append :
    (r : ℕ) (es : List AttributeValue) (e : AttributeValue)
    → Upto r es
    → e.revision ≤ r
    → Upto r (es ++ e ∷ [])
Upto-append r [] e u h = (h, tt)
Upto-append r (x ∷ es) e u h = (u.0, Upto-append r es e u.1 h)

-- A later revision reads the last entry.
value_from-later :
    (v : Option Value) (es : List AttributeValue) (r s : ℕ)
    → Upto r es
    → r ≤ s
    → value_from v es s ≡ value_from v es r
unfolding value_from
value_from-later v [] r s u h = refl
value_from-later v (e ∷ es) r s u h = ground (arith, value_from-later e.value es r s u.1)

value_from-append :
    (v : Option Value) (es : List AttributeValue) (e : AttributeValue) (r : ℕ)
    → Upto r es
    → e.revision ≤ r
    → value_from v (es ++ e ∷ []) r ≡ e.value
unfolding value_from
value_from-append v [] e r u h = ground arith
value_from-append v (x ∷ es) e r u h = ground (arith, value_from-append x.value es e r u.1)

-- An entry appended at a later revision is not seen from an earlier one.
value_from-earlier :
    (v : Option Value) (es : List AttributeValue) (e : AttributeValue) (r : ℕ)
    → r < e.revision
    → value_from v (es ++ e ∷ []) r ≡ value_from v es r
unfolding value_from
value_from-earlier v [] e r h = ground arith
value_from-earlier v (x ∷ es) e r h = ground (arith, value_from-earlier x.value es e r h)

-- The history ends at the current revision, and agrees there with the content.
pub record IsRecorded (o : Object) : Type 0 where
  pub upto : (k : String) → Upto o.revision (o.history k)
  pub current : (k : String) → value_at (o.history k) o.revision ≡ get k o.content

abbrev pub raised : Object → Object
raised o = record o { revision = o.revision + 1 }

pub raised-IsRecorded : (o : Object) → IsRecorded o → IsRecorded (raised o)
unfolding value_at
raised-IsRecorded o h = record {
  upto = λ k. Upto-mono o.revision (o.revision + 1) (o.history k) (omega arith) (h.upto k);
  current = λ k.
      value_from-later none (o.history k) o.revision (o.revision + 1) (h.upto k) (omega arith)
      ∙ h.current k;
}

set_content-get :
    (k j : String) (v : Option Value) (c : Fields)
    → get j (set_content k v c) ≡ (if str_eq k j then v else get j c)
unfolding set_content
set_content-get k j none c = get-del j k c
set_content-get k j (some v) c = get-put j k v c

pub apply_change-IsRecorded :
    (c : Change) (o : Object) → IsRecorded o → IsRecorded (apply_change c o)
unfolding apply_change value_at
apply_change-IsRecorded c o h = record {
  upto = λ k. ground (
    arith,
    h.upto k,
    Upto-append o.revision (o.history k) (record { revision = o.revision; value = c.value })
        (h.upto k),
  );
  current = λ k. ground (
    arith,
    h.current k,
    set_content-get c.key k c.value o.content,
    value_from-append none (o.history k) (record { revision = o.revision; value = c.value })
        o.revision (h.upto k),
  );
}

pub apply_changes-IsRecorded :
    (cs : List Change) (o : Object) → IsRecorded o → IsRecorded (apply_changes cs o)
unfolding apply_changes
apply_changes-IsRecorded [] o h = h
apply_changes-IsRecorded (c ∷ cs) o h =
    apply_changes-IsRecorded cs (apply_change c o) (apply_change-IsRecorded c o h)

-- The fields that the changes of a write leave alone.
pub apply_changes-fixed :
    (cs : List Change) (o : Object)
    → ((apply_changes cs o).revision ≡ o.revision)
      × ((apply_changes cs o).id ≡ o.id)
      × ((apply_changes cs o).typ ≡ o.typ)
      × ((apply_changes cs o).tenant_id ≡ o.tenant_id)
      × ((apply_changes cs o).active ≡ o.active)
unfolding apply_changes apply_change
apply_changes-fixed [] o = (refl, refl, refl, refl, refl)
apply_changes-fixed (c ∷ cs) o = apply_changes-fixed cs (apply_change c o)

-- An attribute's value at a revision before the object's own reads the same after any changes.
pub value_at-apply_changes :
    (cs : List Change) (o : Object) (k : String) (r : ℕ)
    → r < o.revision
    → value_at ((apply_changes cs o).history k) r ≡ value_at (o.history k) r
unfolding apply_changes apply_change value_at
value_at-apply_changes [] o k r h = refl
value_at-apply_changes (c ∷ cs) o k r h = ground (
  arith,
  value_at-apply_changes cs (apply_change c o) k r h,
  value_from-earlier none (o.history k) (record { revision = o.revision; value = c.value }) r h,
)
