-- ===== src/Client/Reconcile/Dropped.antt =====
-- What dropRejected of reference-client/internal/platform/sync/initialload.go leaves bound.
use masterdata_sync_working.Prelude.{
  ℕ, String, true, false, ◌&&◌, Option, none, some, List, [], ◌∷◌, ◌==◌, ==_iff, str_eq, eq_iff,
  str_eq_refl, ◌≡◌, refl, sym, ◌∙◌, arith, Bool-cases, Option-cases, inl, inr,
}
use masterdata_sync_working.Model.{EntityType, Binding, Rejection}
use masterdata_sync_working.Store.Lookup.{same_type_refl}
use masterdata_sync_working.InitialLoad.Duplicates.{rejects}
use masterdata_sync_working.Client.Pairs.{Namespace, SyncRow, sync_row, unbind}
use masterdata_sync_working.Client.Pairs.Keys.{sync_row-unbind, same_key, forgotten}
use masterdata_sync_working.Client.Pairs.View.{forgotten_bound}
use masterdata_sync_working.Client.Reconcile.{drop_each}
use mathlib.Core.Option

-- What one rejection leaves for the others.
after_one :
    (ns : Namespace) (typed : String → ℕ → Option EntityType) (r : Rejection) (rs : List Rejection)
    (rows : List SyncRow)
    → (drop_each ns typed (r ∷ rs) rows).0
      ≡ (drop_each ns typed rs (elim (typed r.local_id r.agrirouter_id) [
        | none ↦ rows
        | some typ ↦ unbind ns typ r.local_id rows
      ])).0
unfolding drop_each
after_one ns typed r rs rows = elim (Option-cases (typed r.local_id r.agrirouter_id)) [
  | inl unplaced ↦ ground arith
  | inr (u, placed) ↦ ground arith
]

pub still_bound :
    (ns : Namespace) (typed : String → ℕ → Option EntityType) (rs : List Rejection)
    (rows : List SyncRow) (typ : EntityType) (l : String) (x : SyncRow) (id : ℕ)
    → sync_row ns typ l (drop_each ns typed rs rows).0 ≡ some x
    → x.agrirouter_id ≡ some id
    → sync_row ns typ l rows ≡ some x
unfolding drop_each
still_bound ns typed [] rows typ l x id h k = h
still_bound ns typed (r ∷ rs) rows typ l x id h k =
    let later = still_bound ns typed rs _ typ l x id (rw (after_one ns typed r rs rows) at h) k in
    elim (Option-cases (typed r.local_id r.agrirouter_id)) [
      | inl unplaced ↦ rw unplaced at later
      | inr (u, placed) ↦
          forgotten_bound (same_key ns u r.local_id ns typ l) (sync_row ns typ l rows) x id
            (sym (sync_row-unbind ns u r.local_id rows ns typ l) ∙ (rw placed at later)) k
    ]

unbound_after :
    (ns : Namespace) (typ : EntityType) (l : String) (rows : List SyncRow) (x : SyncRow)
    → sync_row ns typ l (unbind ns typ l rows) ≡ some x
    → x.agrirouter_id ≡ none
unfolding same_key
unbound_after ns typ l rows x h =
    of_forgotten (sync_row ns typ l rows)
      (sym ((sync_row-unbind ns typ l rows ns typ l) ∙ (rw self refl)) ∙ h)
  where
    self : same_key ns typ l ns typ l ≡ true
    self = ground (arith, str_eq_refl ns.external_id, str_eq_refl l, same_type_refl typ)

    of_forgotten : (o : Option SyncRow) → Option.map forgotten o ≡ some x → x.agrirouter_id ≡ none
    of_forgotten none e = cc
    of_forgotten (some y) e = ground arith

-- A row that is still bound was of no rejection.
pub not_rejected :
    (ns : Namespace) (typed : String → ℕ → Option EntityType) (rs : List Rejection)
    (rows : List SyncRow) (typ : EntityType) (b : Binding) (x : SyncRow)
    → sync_row ns typ b.local_id (drop_each ns typed rs rows).0 ≡ some x
    → x.agrirouter_id ≡ some b.agrirouter_id
    → typed b.local_id b.agrirouter_id ≡ some typ
    → rejects b rs ≡ false
unfolding drop_each rejects
not_rejected ns typed [] rows typ b x h k t = refl
not_rejected ns typed (r ∷ rs) rows typ b x h k t =
    let h = rw (after_one ns typed r rs rows) at h in
    let later = not_rejected ns typed rs _ typ b x h k t in
    let bound = still_bound ns typed rs _ typ b.local_id x b.agrirouter_id h k in
    elim (Bool-cases (str_eq r.local_id b.local_id && r.agrirouter_id == b.agrirouter_id)) [
      | inl same ↦
          let l = (eq_iff r.local_id b.local_id).0 (ground arith) in
          let i = (==_iff r.agrirouter_id b.agrirouter_id).0 (ground arith) in
          let placed : typed r.local_id r.agrirouter_id ≡ some typ = rw (l, i) t in
          let none_left = unbound_after ns typ b.local_id rows x (rw (placed, l) at bound) in
          ground (arith, none_left, k)
      | inr other ↦ rw other later
    ]
