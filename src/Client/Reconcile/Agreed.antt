-- ===== src/Client/Reconcile/Agreed.antt =====
-- What both sides hold after a confirmation: applyBindings of
-- reference-client/internal/testrouter/initialload.go, and the Loader of
-- reference-client/internal/platform/sync/initialload.go.
use masterdata_sync_working.Prelude.{
  ℕ, String, Bool, true, false, ◌&&◌, none, some, List, [], ◌∷◌, any, ==_iff, str_eq, eq_iff, ◌≡◌,
  refl, sym, ap, ◌∙◌, subst, arith, Bool-cases, Option-cases, inl, inr,
}
use masterdata_sync_working.Failure.{ok}
use masterdata_sync_working.Model.{EntityType, same_type, Endpoint, Binding, Rejection}
use masterdata_sync_working.Store.{Store}
use masterdata_sync_working.Store.Lookup.{same_type_eq, same_type_refl}
use masterdata_sync_working.InitialLoad.{apply_bindings}
use masterdata_sync_working.InitialLoad.Duplicates.{
  Answered, AllAnswered, apply_bindings-AllAnswered,
}
use masterdata_sync_working.Client.Pairs.{
  Namespace, SyncRow, names, same_namespace, keyed, canonically, is_bound, first, sync_row,
  bindings,
}
use masterdata_sync_working.Client.Pairs.Keys.{first_none, first_holds, any-bindings, any_implies}
use masterdata_sync_working.Client.Reconcile.{
  confirmation, loaded_bindings, type_of, drop_each, drop_rejected,
}
use masterdata_sync_working.Client.Reconcile.Dropped.{still_bound, not_rejected}

-- A row of a pair.
abbrev pub is_pair : Namespace → EntityType → String → ℕ → SyncRow → Bool
is_pair ns typ l id r = canonically ns typ id r && str_eq r.local_id l

-- A pair is of one entity type in an endpoint's namespace, as one canonical object is.
abbrev pub IsOneTyped : Namespace → List SyncRow → Type 0
IsOneTyped ns rows =
    (typ u : EntityType) (l : String) (id : ℕ)
    → any (is_pair ns typ l id) rows ≡ true
    → any (is_pair ns u l id) rows ≡ true
    → typ ≡ u

first-any :
    (p q : SyncRow → Bool) (rows : List SyncRow) (x : SyncRow)
    → first p rows ≡ some x
    → q x ≡ true
    → any q rows ≡ true
first-any p q rows x h k = elim (Bool-cases (any q rows)) [
  | inl found ↦ found
  | inr not_found ↦ let miss = first_none p q rows x h not_found in ground (arith, miss, k)
]

abbrev matches : String → ℕ → SyncRow → Bool
matches l id r = str_eq r.local_id l && names r.agrirouter_id id

type_of-none :
    (rows : List SyncRow) (l : String) (id : ℕ)
    → any (matches l id) rows ≡ false
    → type_of rows l id ≡ none
unfolding type_of
type_of-none [] l id h = refl
type_of-none (r ∷ rows) l id h = ground (arith, type_of-none rows l id)

-- The type that a pair is given is that of a row with it.
type_of-any :
    (rows : List SyncRow) (l : String) (id : ℕ)
    → any (matches l id) rows ≡ true
    → (typ : EntityType) × (type_of rows l id ≡ some typ)
      × (any (λ r. matches l id r && same_type r.typ typ) rows ≡ true)
unfolding type_of
type_of-any [] l id h = cc
type_of-any (r ∷ rows) l id h = elim (Bool-cases (any (matches l id) rows)) [
  | inl later ↦
      let (typ, found, row) = type_of-any rows l id later in
      (typ, rw found refl, ground (arith, row))
  | inr none_later ↦
      let left = type_of-none rows l id none_later in
      let here : matches l id r ≡ true = ground arith in
      (r.typ, rw (left, here) refl, ground (arith, here, same_type_refl r.typ))
]

confirmed_rest :
    (ep : Endpoint) (t : Store) (rs : List Rejection) (types : List EntityType) (r : SyncRow)
    (rows : List SyncRow)
    → AllAnswered ep t rs (confirmation types (r ∷ rows))
    → AllAnswered ep t rs (confirmation types rows)
unfolding confirmation
confirmed_rest ep t rs types r rows all = elim (Bool-cases (any (same_type r.typ) types)) [
  | inl wanted ↦ elim (Option-cases r.agrirouter_id) [
    | inl gone ↦ rw (wanted, gone) at all
    | inr (id, named) ↦ (rw (wanted, named) at all).1
  ]
  | inr unwanted ↦ rw unwanted at all
]

confirmed_here :
    (ep : Endpoint) (t : Store) (rs : List Rejection) (types : List EntityType) (r : SyncRow)
    (rows : List SyncRow) (l : String) (id : ℕ)
    → any (same_type r.typ) types ≡ true
    → matches l id r ≡ true
    → AllAnswered ep t rs (confirmation types (r ∷ rows))
    → Answered ep t rs (record { local_id = l; agrirouter_id = id })
unfolding confirmation
confirmed_here ep t rs types r rows l id wanted here all = elim (Option-cases r.agrirouter_id) [
  | inl gone ↦ absurd gone here
  | inr (i, named) ↦
      let local = (eq_iff r.local_id l).0 (ground (arith, here)) in
      let same : i ≡ id = (==_iff i id).0 (ground (arith, here, named)) in
      let first = (rw (wanted, named) at all).0 in
      subst (λ k. Answered ep t rs (record { local_id = k; agrirouter_id = id })) local
        (subst (λ i. Answered ep t rs (record { local_id = r.local_id; agrirouter_id = i })) same
          first)
]
  where
    absurd :
        r.agrirouter_id ≡ none
        → matches l id r ≡ true
        → Answered ep t rs (record { local_id = l; agrirouter_id = id })
    absurd gone here = inr (ground (arith, gone, here))

-- A pair of a wanted row is among those confirmed, and so answered.
answered :
    (ep : Endpoint) (t : Store) (rs : List Rejection) (types : List EntityType) (typ : EntityType)
    (l : String) (id : ℕ) (rows : List SyncRow)
    → any (same_type typ) types ≡ true
    → any (λ r. matches l id r && same_type r.typ typ) rows ≡ true
    → AllAnswered ep t rs (confirmation types rows)
    → Answered ep t rs (record { local_id = l; agrirouter_id = id })
answered ep t rs types typ l id [] wanted found all = cc
answered ep t rs types typ l id (r ∷ rows) wanted found all =
    elim (Bool-cases (matches l id r && same_type r.typ typ)) [
      | inl here ↦
          confirmed_here ep t rs types r rows l id
            (rw (same_type_eq r.typ typ (ground (arith, here))) wanted) (ground (arith, here)) all
      | inr elsewhere ↦
          answered ep t rs types typ l id rows wanted (ground arith)
            (confirmed_rest ep t rs types r rows all)
    ]

module _ (ep : Endpoint) (s : Store) (ns : Namespace) (types : List EntityType)
    (rows : List SyncRow) (one : IsOneTyped ns rows) where
  -- A pair that a row has is given the row's own type.
  type_of_own :
      (typ : EntityType) (l : String) (id : ℕ)
      → any (λ r. matches l id r && same_type r.typ typ) (bindings ns rows) ≡ true
      → type_of (bindings ns rows) l id ≡ some typ
  unfolding is_bound
  type_of_own typ l id own =
      let (u, found, row) =
        type_of-any (bindings ns rows) l id
          (any_implies _ _ (bindings ns rows) (λ r h. ground (arith, h)) own) in
      found ∙ ap some (one u typ l id (in_table u row) (in_table typ own))
    where
      in_table :
          (u : EntityType)
          → any (λ r. matches l id r && same_type r.typ u) (bindings ns rows) ≡ true
          → any (is_pair ns u l id) rows ≡ true
      in_table u h =
          any_implies _ _ rows (λ r h. ground (arith, h))
            (sym (any-bindings (λ r. matches l id r && same_type r.typ u) ns rows) ∙ h)

  listed :
      (typ : EntityType) (l : String) (x : SyncRow) (id : ℕ)
      → sync_row ns typ l rows ≡ some x
      → x.agrirouter_id ≡ some id
      → any (λ r. matches l id r && same_type r.typ typ) (bindings ns rows) ≡ true
  unfolding sync_row keyed is_bound
  listed typ l x id h k =
      let key = first_holds (keyed ns typ l) rows x h in
      any-bindings _ ns rows
      ∙ first-any (keyed ns typ l)
          (λ r.
            (matches l id r && same_type r.typ typ) && (same_namespace r.endpoint ns && is_bound r))
          rows x h (ground (arith, key, k))

  -- When a confirmation of the endpoint's pairs of some types is answered, and the pairs refused are
  -- given up, each pair of those types that the participant still has is in the router's mapping.
  -- A pair is of one entity type in the participant's table.
  pub confirm_agrees :
      (rows' : List SyncRow) (dropped : List (EntityType × String))
      → let answer = apply_bindings ep (loaded_bindings ns types rows) s in
        drop_rejected ns answer.1 rows ≡ ok (rows', dropped)
        → (typ : EntityType) (l : String) (x : SyncRow) (id : ℕ) → any (same_type typ) types ≡ true
        → sync_row ns typ l rows' ≡ some x
        → x.agrirouter_id ≡ some id
        → (u : EntityType) × (answer.0.local ep.id u l ≡ some id)
  unfolding drop_rejected loaded_bindings
  confirm_agrees rows' dropped h typ l x id wanted held k =
      let answer = apply_bindings ep (loaded_bindings ns types rows) s in
      let b : Binding = record { local_id = l; agrirouter_id = id } in
      let typed = type_of (bindings ns rows) in
      let left : rows' ≡ (drop_each ns typed answer.1 rows).0 = ground arith in
      let held = rw left at held in
      let before = still_bound ns typed answer.1 rows typ l x id held k in
      let own = listed typ l x id before k in
      let accepted =
        not_rejected ns typed answer.1 rows typ b x held k (type_of_own typ l id own) in
      elim (answered ep answer.0 answer.1 types typ l id (bindings ns rows) wanted own
        (apply_bindings-AllAnswered ep (loaded_bindings ns types rows) s)) [
          | inl mapped ↦ mapped
          | inr back ↦ (typ, ground (arith, accepted, back))
        ]
