-- ===== src/Client/Pairs/Keys.antt =====
-- What the queries on agmasync_object find after a change, of
-- reference-client/internal/platform/store/store.go.
use masterdata_sync_working.Prelude.{
  ℕ, String, Bool, true, false, ◌&&◌, ◌||◌, not, none, some, List, [], ◌∷◌, any, any-sort, any-keep,
  keep, ◌==◌, str_eq, eq_iff, str_eq_refl, if◌then◌else◌, ◌≡◌, refl, sym, ◌∙◌, subst, arith,
  Bool-cases, inl, inr,
}
use mathlib.Core.Option
use masterdata_sync_working.Model.{EntityType, same_type}
use masterdata_sync_working.Store.Lookup.{same_type_eq, same_type_refl}
use masterdata_sync_working.Client.Pairs.{
  Namespace, SyncRow, same_namespace, keyed, first, sync_row, upsert, unbind, drop_sync_row,
  delete_rows, discard_tenant, bindings, by_key, is_bound,
}

module _ {ℓ} {A : Type ℓ} where
  pub first_holds : (q : A → Bool) (xs : List A) (x : A) → first q xs ≡ some x → q x ≡ true
  unfolding first
  first_holds q [] x h = cc
  first_holds q (y ∷ xs) x h = elim (Bool-cases (q y)) [
    | inl yes_y ↦ subst (λ z. q z ≡ true) (same (rw yes_y at h)) yes_y
    | inr no_y ↦ first_holds q xs x (rw no_y at h)
  ]
    where
      same : {a b : A} → some a ≡ some b → a ≡ b
      same e = cc

  pub first_none :
      (q p : A → Bool) (xs : List A) (x : A) → first q xs ≡ some x → any p xs ≡ false → p x ≡ false
  unfolding first
  first_none q p [] x h k = cc
  first_none q p (y ∷ xs) x h k = elim (Bool-cases (q y)) [
    | inl found ↦ subst (λ z. p z ≡ false) (same (rw found at h)) (head k)
    | inr other ↦ first_none q p xs x (rw other at h) (tail k)
  ]
    where
      same : {a b : A} → some a ≡ some b → a ≡ b
      same e = cc

      head : (p y || any p xs) ≡ false → p y ≡ false
      head e = ground arith

      tail : (p y || any p xs) ≡ false → any p xs ≡ false
      tail e = ground arith

-- A row has one key.
pub keyed_eq :
    (ns : Namespace) (typ : EntityType) (l : String) (r : SyncRow)
    → keyed ns typ l r ≡ true
    → (r.endpoint ≡ ns) × (r.typ ≡ typ) × (r.local_id ≡ l)
unfolding keyed
keyed_eq ns typ l r h = (
  ground (arith, eq_iff r.endpoint.external_id ns.external_id),
  ground (arith, same_type_eq r.typ typ),
  ground (arith, eq_iff r.local_id l),
)

pub keyed_self : (r : SyncRow) → keyed r.endpoint r.typ r.local_id r ≡ true
unfolding keyed
keyed_self r =
    ground (arith, str_eq_refl r.endpoint.external_id, str_eq_refl r.local_id, same_type_refl r.typ)

-- Whether two keys are the same.
unfoldable pub same_key : Namespace → EntityType → String → Namespace → EntityType → String → Bool
same_key ns' typ' l' ns typ l = same_namespace ns' ns && same_type typ' typ && str_eq l' l

pub same_key_eq :
    (ns' : Namespace) (typ' : EntityType) (l' : String) (ns : Namespace) (typ : EntityType)
    (l : String)
    → same_key ns' typ' l' ns typ l ≡ true
    → (ns' ≡ ns) × (typ' ≡ typ) × (l' ≡ l)
unfolding same_key
same_key_eq ns' typ' l' ns typ l h = (
  ground (arith, eq_iff ns'.external_id ns.external_id),
  ground (arith, same_type_eq typ' typ),
  ground (arith, eq_iff l' l),
)

-- A row of one key is of another when the keys are the same.
keyed_at :
    (ns' ns : Namespace) (typ' typ : EntityType) (l' l : String) (r : SyncRow)
    → keyed ns' typ' l' r ≡ true
    → keyed ns typ l r ≡ same_key ns' typ' l' ns typ l
unfolding keyed same_key
keyed_at ns' ns typ' typ l' l r h = let e = keyed_eq ns' typ' l' r h in rw (e.0, e.1, e.2)

module _ {ℓ} {A : Type ℓ} where
  first-keep :
      (p q : A → Bool) (xs : List A)
      → ((x : A) → p x ≡ true → q x ≡ true)
      → first p (keep q xs) ≡ first p xs
  unfolding first
  first-keep p q [] h = refl
  first-keep p q (x ∷ xs) h = ground (arith, first-keep p q xs h, h x)

  first-keep-none :
      (p q : A → Bool) (xs : List A)
      → ((x : A) → p x ≡ true → q x ≡ false)
      → first p (keep q xs) ≡ none
  unfolding first
  first-keep-none p q [] h = refl
  first-keep-none p q (x ∷ xs) h = ground (arith, first-keep-none p q xs h, h x)

keyed_both :
    (ns' ns : Namespace) (typ' typ : EntityType) (l' l : String) (r : SyncRow)
    → keyed ns typ l r ≡ true
    → keyed ns' typ' l' r ≡ same_key ns' typ' l' ns typ l
keyed_both ns' ns typ' typ l' l r h = elim (Bool-cases (same_key ns' typ' l' ns typ l)) [
  | inl same ↦ let e = same_key_eq ns' typ' l' ns typ l same in rw (same, e.0, e.1, e.2) h
  | inr other ↦ elim (Bool-cases (keyed ns' typ' l' r)) [
    | inl found ↦ let e = keyed_at ns' ns typ' typ l' l r found in ground arith
    | inr not_found ↦ not_found ∙ sym other
  ]
]

pub sync_row-upsert :
    (r : SyncRow) (rows : List SyncRow) (ns : Namespace) (typ : EntityType) (l : String)
    → sync_row ns typ l (upsert r rows)
      ≡ (if keyed ns typ l r then some r else sync_row ns typ l rows)
unfolding sync_row first upsert
sync_row-upsert r [] ns typ l = refl
sync_row-upsert r (x ∷ rows) ns typ l =
    let self = keyed_at r.endpoint ns r.typ typ r.local_id l r (keyed_self r) in
    ground (
      arith,
      self,
      keyed_at r.endpoint ns r.typ typ r.local_id l x,
      keyed_both r.endpoint ns r.typ typ r.local_id l x,
      sync_row-upsert r rows ns typ l,
    )

abbrev pub forgotten : SyncRow → SyncRow
forgotten r = record r { agrirouter_id = none; revision = none; unbound = true }

keyed-forgotten :
    (ns : Namespace) (typ : EntityType) (l : String) (r : SyncRow)
    → keyed ns typ l (forgotten r) ≡ keyed ns typ l r
unfolding keyed
keyed-forgotten ns typ l r = refl

pub sync_row-unbind :
    (ns' : Namespace) (typ' : EntityType) (l' : String) (rows : List SyncRow) (ns : Namespace)
    (typ : EntityType) (l : String)
    → sync_row ns typ l (unbind ns' typ' l' rows) ≡ (
        if same_key ns' typ' l' ns typ l
        then Option.map forgotten (sync_row ns typ l rows)
        else sync_row ns typ l rows)
unfolding sync_row first unbind
sync_row-unbind ns' typ' l' [] ns typ l = ground arith
sync_row-unbind ns' typ' l' (x ∷ rows) ns typ l =
    let later = sync_row-unbind ns' typ' l' rows ns typ l in
    elim (Bool-cases (keyed ns' typ' l' x)) [
      | inl found ↦
          let e = keyed_at ns' ns typ' typ l' l x found in
          rw found ground (arith, later, e, keyed-forgotten ns typ l x)
      | inr other ↦ rw other ground (arith, later, keyed_both ns' ns typ' typ l' l x)
    ]

pub sync_row-drop_sync_row :
    (ns' : Namespace) (typ' : EntityType) (l' : String) (rows : List SyncRow) (ns : Namespace)
    (typ : EntityType) (l : String)
    → sync_row ns typ l (drop_sync_row ns' typ' l' rows)
      ≡ (if same_key ns' typ' l' ns typ l then none else sync_row ns typ l rows)
unfolding sync_row drop_sync_row
sync_row-drop_sync_row ns' typ' l' rows ns typ l =
    elim (Bool-cases (same_key ns' typ' l' ns typ l)) [
      | inl same ↦ rw same (
          first-keep-none (keyed ns typ l) (λ (r : SyncRow). not (keyed ns' typ' l' r)) rows
            (λ x h. rw (keyed_both ns' ns typ' typ l' l x h, same) refl))
      | inr other ↦ rw other (
          first-keep (keyed ns typ l) (λ (r : SyncRow). not (keyed ns' typ' l' r)) rows
            (λ x h. rw (keyed_both ns' ns typ' typ l' l x h, other) refl))
    ]

pub sync_row-delete_rows :
    (typ' : EntityType) (l' : String) (rows : List SyncRow) (ns : Namespace) (typ : EntityType)
    (l : String)
    → sync_row ns typ l (delete_rows typ' l' rows)
      ≡ (if same_type typ typ' && str_eq l l' then none else sync_row ns typ l rows)
unfolding sync_row delete_rows
sync_row-delete_rows typ' l' rows ns typ l = elim (Bool-cases (same_type typ typ' && str_eq l l')) [
  | inl same ↦ rw same (
      first-keep-none (keyed ns typ l)
        (λ (r : SyncRow). not (same_type r.typ typ' && str_eq r.local_id l')) rows
        (λ x h. let e = keyed_eq ns typ l x h in rw (e.1, e.2, same) refl))
  | inr other ↦ rw other (
      first-keep (keyed ns typ l)
        (λ (r : SyncRow). not (same_type r.typ typ' && str_eq r.local_id l')) rows
        (λ x h. let e = keyed_eq ns typ l x h in rw (e.1, e.2, other) refl))
]

pub sync_row-discard_tenant :
    (tenant : ℕ) (rows : List SyncRow) (ns : Namespace) (typ : EntityType) (l : String)
    → sync_row ns typ l (discard_tenant tenant rows).0
      ≡ (if ns.tenant_id == tenant then none else sync_row ns typ l rows)
unfolding sync_row discard_tenant
sync_row-discard_tenant tenant rows ns typ l = elim (Bool-cases (ns.tenant_id == tenant)) [
  | inl same ↦ rw same (
      first-keep-none (keyed ns typ l) (λ (r : SyncRow). not (r.endpoint.tenant_id == tenant)) rows
        (λ x h. rw ((keyed_eq ns typ l x h).0, same) refl))
  | inr other ↦ rw other (
      first-keep (keyed ns typ l) (λ (r : SyncRow). not (r.endpoint.tenant_id == tenant)) rows
        (λ x h. rw ((keyed_eq ns typ l x h).0, other) refl))
]

-- What Bindings lists.
pub any-bindings :
    (q : SyncRow → Bool) (ns : Namespace) (rows : List SyncRow)
    → any q (bindings ns rows) ≡ any (λ r. q r && (same_namespace r.endpoint ns && is_bound r)) rows
unfolding bindings
any-bindings q ns rows = any-sort by_key q _ ∙ any-keep q _ rows

pub any_implies :
    (p q : SyncRow → Bool) (rows : List SyncRow)
    → ((r : SyncRow) → p r ≡ true → q r ≡ true)
    → any p rows ≡ true
    → any q rows ≡ true
any_implies p q [] step h = h
any_implies p q (r ∷ rows) step h = ground (arith, step r, any_implies p q rows step)
