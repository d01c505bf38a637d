-- ===== src/Client/Pairs/View.antt =====
-- What agmasync_object stands for: at most one row for each endpoint, entity type and local
-- identifier. The operations of reference-client/internal/platform/store/store.go that change the table,
-- as steps on it and on that view.
use masterdata_sync_working.Prelude.{
  ℕ, String, ◌&&◌, str_eq, str_eq_refl, Bool, true, false, Option, none, some, List, [], any, ◌==◌,
  if◌then◌else◌, ◌≡◌, refl, sym, ◌∙◌, arith, Bool-cases, ◌⊎◌, inl, inr,
}
use masterdata_sync_working.Failure.{ok}
use masterdata_sync_working.Model.{EntityType, same_type}
use masterdata_sync_working.Client.Pairs.{
  Namespace, SyncRow, keyed, canonically, first, sync_row, upsert, breaks_index, put_sync_row,
  unbind, drop_sync_row, delete_rows, discard_tenant,
}
use masterdata_sync_working.Client.Pairs.Keys.{
  first_holds, first_none, keyed_eq, same_key, sync_row-upsert, sync_row-unbind,
  sync_row-drop_sync_row, sync_row-delete_rows, sync_row-discard_tenant, forgotten,
}
use masterdata_sync_working.Store.Lookup.{same_type_refl}
use mathlib.Core.Option

-- The changes of the table.
pub data TableChange : Type 0 where
  put_row : SyncRow → TableChange
  unbind_row : Namespace → EntityType → String → TableChange
  drop_row : Namespace → EntityType → String → TableChange
  delete_record_rows : EntityType → String → TableChange
  discard_rows : (tenant : ℕ) → TableChange

-- A change of the table that succeeds, by the operation of the store that makes it.
pub data TableStep : TableChange → List SyncRow → List SyncRow → Type 0 where
  puts :
      {rows after : List SyncRow} (r : SyncRow)
      → put_sync_row r rows ≡ ok after
      → TableStep (put_row r) rows after
  unbinds :
      {rows : List SyncRow} (ns : Namespace) (typ : EntityType) (l : String)
      → TableStep (unbind_row ns typ l) rows (unbind ns typ l rows)
  drops :
      {rows : List SyncRow} (ns : Namespace) (typ : EntityType) (l : String)
      → TableStep (drop_row ns typ l) rows (drop_sync_row ns typ l rows)
  deletes_record :
      {rows : List SyncRow} (typ : EntityType) (l : String)
      → TableStep (delete_record_rows typ l) rows (delete_rows typ l rows)
  discards :
      {rows : List SyncRow} (tenant : ℕ)
      → TableStep (discard_rows tenant) rows (discard_tenant tenant rows).0

-- The tables that changes lead to from the empty one.
pub data ReachableTable : List SyncRow → Type 0 where
  no_rows : ReachableTable []
  changed :
      {rows after : List SyncRow}
      → ReachableTable rows
      → (c : TableChange) → TableStep c rows after
      → ReachableTable after

-- The row of a key, if it has one.
abbrev pub View : Type 0
View = Namespace → EntityType → String → Option SyncRow

abbrev pub view : List SyncRow → View
view rows ns typ l = sync_row ns typ l rows

-- What an unbound row keeps: its key and the mark, and neither an identifier nor a revision.
abbrev pub marked : SyncRow → SyncRow
marked x = record x { agrirouter_id = none; revision = none; unbound = true }

-- What each change does to what the table stands for. A row may be written only where no other
-- record of its endpoint has its canonical identifier, and is not marked then; an unbound row stays,
-- marked.
abbrev pub ViewStep : TableChange → View → View → Type 0
ViewStep (put_row r) v w =
    ((l : String) (x : SyncRow) (id : ℕ)
      → v r.endpoint r.typ l ≡ some x
      → r.agrirouter_id ≡ some id
      → x.agrirouter_id ≡ some id
      → l ≡ r.local_id)
    × ((ns : Namespace) (typ : EntityType) (l : String)
        → w ns typ l
          ≡ (if keyed ns typ l r then some (record r { unbound = false }) else v ns typ l))
ViewStep (unbind_row ns' typ' l') v w =
    (ns : Namespace) (typ : EntityType) (l : String)
    → w ns typ l
      ≡ (if same_key ns' typ' l' ns typ l then Option.map marked (v ns typ l) else v ns typ l)
ViewStep (drop_row ns' typ' l') v w =
    (ns : Namespace) (typ : EntityType) (l : String)
    → w ns typ l ≡ (if same_key ns' typ' l' ns typ l then none else v ns typ l)
ViewStep (delete_record_rows typ' l') v w =
    (ns : Namespace) (typ : EntityType) (l : String)
    → w ns typ l ≡ (if same_type typ typ' && str_eq l l' then none else v ns typ l)
ViewStep (discard_rows tenant) v w =
    (ns : Namespace) (typ : EntityType) (l : String)
    → w ns typ l ≡ (if ns.tenant_id == tenant then none else v ns typ l)

pub canonically_holds :
    (ns : Namespace) (typ : EntityType) (x : SyncRow) (id : ℕ)
    → x.endpoint ≡ ns
    → x.typ ≡ typ
    → x.agrirouter_id ≡ some id
    → canonically ns typ id x ≡ true
canonically_holds ns typ x id a b h =
    rw (a, b, h) ground (arith, str_eq_refl ns.external_id, same_type_refl typ)

-- The row that PutSyncRow writes is of no key whose canonical identifier another row has.
put_unclashed :
    (r : SyncRow) (rows : List SyncRow)
    → any (breaks_index r) rows ≡ false
    → (l : String) (x : SyncRow) (id : ℕ) → sync_row r.endpoint r.typ l rows ≡ some x
    → r.agrirouter_id ≡ some id
    → x.agrirouter_id ≡ some id
    → l ≡ r.local_id
unfolding sync_row
put_unclashed r rows clear l x id found mine its =
    let e = keyed_eq r.endpoint r.typ l x (first_holds (keyed r.endpoint r.typ l) rows x found) in
    let c = first_none (keyed r.endpoint r.typ l) (breaks_index r) rows x found clear in
    elim (Bool-cases (keyed r.endpoint r.typ r.local_id x)) [
      | inl same ↦ sym e.2 ∙ (keyed_eq r.endpoint r.typ r.local_id x same).2
      | inr other ↦
          let clash = canonically_holds r.endpoint r.typ x id e.0 e.1 its in ground (arith, clash)
    ]

pub put_sync_row_lem :
    (r : SyncRow) (rows after : List SyncRow)
    → put_sync_row r rows ≡ ok after
    → (any (breaks_index r) rows ≡ false) × (after ≡ upsert (record r { unbound = false }) rows)
unfolding put_sync_row
put_sync_row_lem r rows after h = ground arith

-- What the table holds once PutSyncRow has written a row.
pub sync_row-put_sync_row :
    (r : SyncRow) (rows after : List SyncRow)
    → put_sync_row r rows ≡ ok after
    → (ns : Namespace) (typ : EntityType) (l : String)
    → sync_row ns typ l after
      ≡ (if keyed ns typ l r then some (record r { unbound = false }) else sync_row ns typ l rows)
unfolding keyed
sync_row-put_sync_row r rows after h ns typ l =
    rw (put_sync_row_lem r rows after h).1
      (sync_row-upsert (record r { unbound = false }) rows ns typ l)

-- Each operation of the store on the table does what it promises to what the table stands for: a
-- put writes the row of its key, clear of the mark, only where no other record of the endpoint has
-- its canonical identifier; an unbind keeps the row, marked and without its identifier and revision;
-- the others delete the row of a key, the rows of a record and the rows of a tenant; and each leaves
-- the rows of every other key.
pub TableStep-ViewStep :
    (c : TableChange) (rows after : List SyncRow)
    → TableStep c rows after
    → ViewStep c (view rows) (view after)
unfolding keyed
TableStep-ViewStep _ rows after (puts r h) = (
  put_unclashed r rows (put_sync_row_lem r rows after h).0,
  λ ns typ l. sync_row-put_sync_row r rows after h ns typ l,
)
TableStep-ViewStep _ rows _ (unbinds ns typ l) = sync_row-unbind ns typ l rows
TableStep-ViewStep _ rows _ (drops ns typ l) = sync_row-drop_sync_row ns typ l rows
TableStep-ViewStep _ rows _ (deletes_record typ l) = sync_row-delete_rows typ l rows
TableStep-ViewStep _ rows _ (discards tenant) = sync_row-discard_tenant tenant rows

-- No two records of an endpoint and type have one canonical identifier.
abbrev pub IsInjective : View → Type 0
IsInjective v =
    (ns : Namespace) (typ : EntityType) (l k : String) (x y : SyncRow) (id : ℕ)
    → v ns typ l ≡ some x
    → v ns typ k ≡ some y
    → x.agrirouter_id ≡ some id
    → y.agrirouter_id ≡ some id
    → l ≡ k

pub forgotten_bound :
    (b : Bool) (o : Option SyncRow) (x : SyncRow) (id : ℕ)
    → (if b then Option.map forgotten o else o) ≡ some x
    → x.agrirouter_id ≡ some id
    → o ≡ some x
forgotten_bound true none x id h k = cc
forgotten_bound true (some y) x id h k = ground arith
forgotten_bound false o x id h k = h

written :
    (b : Bool) (r x : SyncRow) (o : Option SyncRow)
    → (if b then some r else o) ≡ some x
    → (b ≡ true) × (x ≡ r) ⊎ (b ≡ false) × (o ≡ some x)
written true r x o h = inl (refl, ground arith)
written false r x o h = inr (refl, h)

abbrev clear_of : SyncRow → SyncRow
clear_of r = record r { unbound = false }

ViewStep-IsInjective :
    (c : TableChange) (v w : View) → ViewStep c v w → IsInjective v → IsInjective w
ViewStep-IsInjective (put_row r) v w (clear, e) inj ns typ l k x y id h h' a b =
    elim (written (keyed ns typ l r) (clear_of r) x (v ns typ l) (sym (e ns typ l) ∙ h)) [
      | inl (same, is) ↦
          elim (written (keyed ns typ k r) (clear_of r) y (v ns typ k) (sym (e ns typ k) ∙ h')) [
            | inl (same', is') ↦ sym (keyed_eq ns typ l r same).2 ∙ (keyed_eq ns typ k r same').2
            | inr (other', was') ↦ sym (at ns typ l k r x y id same is a clear was' b)
          ]
      | inr (other, was) ↦
          elim (written (keyed ns typ k r) (clear_of r) y (v ns typ k) (sym (e ns typ k) ∙ h')) [
            | inl (same', is') ↦ at ns typ k l r y x id same' is' b clear was a
            | inr (other', was') ↦ inj ns typ l k x y id was was' a b
          ]
    ]
  where
    at :
        (ns : Namespace) (typ : EntityType) (l k : String) (r x y : SyncRow) (id : ℕ)
        → keyed ns typ l r ≡ true
        → x ≡ clear_of r
        → x.agrirouter_id ≡ some id
        → ((l : String) (x : SyncRow) (id : ℕ)
            → v r.endpoint r.typ l ≡ some x
            → r.agrirouter_id ≡ some id
            → x.agrirouter_id ≡ some id
            → l ≡ r.local_id)
        → v ns typ k ≡ some y
        → y.agrirouter_id ≡ some id
        → k ≡ l
    at ns typ l k r x y id same is a clear was b =
        let e = keyed_eq ns typ l r same in clear k y id (rw (e.0, e.1) was) (rw is at a) b ∙ e.2
ViewStep-IsInjective (unbind_row ns' typ' l') v w e inj ns typ l k x y id h h' a b =
    inj ns typ l k x y id
      (forgotten_bound (same_key ns' typ' l' ns typ l) (v ns typ l) x id (sym (e ns typ l) ∙ h) a)
      (forgotten_bound (same_key ns' typ' l' ns typ k) (v ns typ k) y id (sym (e ns typ k) ∙ h') b)
      a b
ViewStep-IsInjective (drop_row ns' typ' l') v w e inj ns typ l k x y id h h' a b =
    let was = e ns typ l in
    let was' = e ns typ k in inj ns typ l k x y id (ground (arith, was)) (ground (arith, was')) a b
ViewStep-IsInjective (delete_record_rows typ' l') v w e inj ns typ l k x y id h h' a b =
    let was = e ns typ l in
    let was' = e ns typ k in inj ns typ l k x y id (ground (arith, was)) (ground (arith, was')) a b
ViewStep-IsInjective (discard_rows tenant) v w e inj ns typ l k x y id h h' a b =
    let was = e ns typ l in
    let was' = e ns typ k in inj ns typ l k x y id (ground (arith, was)) (ground (arith, was')) a b

-- In every table that changes lead to from the empty one, an endpoint has at most one record of a
-- type for one canonical identifier.
pub ReachableTable-IsInjective :
    (rows : List SyncRow) → ReachableTable rows → IsInjective (view rows)
unfolding sync_row first
ReachableTable-IsInjective _ no_rows = λ ns typ l k x y id h h' a b. cc
ReachableTable-IsInjective _ (changed {rows} {after} r c step) =
    ViewStep-IsInjective c (view rows) (view after) (TableStep-ViewStep c rows after step)
      (ReachableTable-IsInjective rows r)
