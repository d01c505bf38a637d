-- ===== src/Mapping/Binds.antt =====
-- What bind does: bindLocked of reference-client/internal/testrouter/ssot.go.
use masterdata_sync_working.Prelude.{
  ℕ, String, true, eq_iff, if◌then◌else◌, Option, none, some, str_eq_refl, ◌≡◌, ◌⊎◌, ◌↔◌, inl, inr,
  refl, subst, arith,
}
use masterdata_sync_working.Failure.{ok}
use masterdata_sync_working.Model.{EntityType, Object, Endpoint, opted_into}
use masterdata_sync_working.Store.{Store, object_type, typ_of, find_object, at_pair}
use masterdata_sync_working.Store.Lookup.{same_type_eq, same_type_refl}
use masterdata_sync_working.Mapping.{bind, is_object, write_pair}
use masterdata_sync_working.Mapping.Invariant.{
  IsConsistent, IsConsistent-same, write_pair-IsConsistent, key_is,
}

pub is_object-type :
    (ep : Endpoint) (typ : EntityType) (id : ℕ) (s : Store)
    → is_object ep typ (find_object id s.objects) ≡ true
    → object_type s id ≡ some typ
unfolding is_object
is_object-type ep typ id s h = at (find_object id s.objects) h
  where
    at : (o : Option Object) → is_object ep typ o ≡ true → typ_of o ≡ some typ
    at none h = cc
    at (some o) h = ground (arith, same_type_eq o.typ typ)

-- An object of the endpoint's tenant and of the type.
abbrev pub IsObject : Endpoint → EntityType → ℕ → Store → Type 0
IsObject ep typ id s =
    (o : Object) × (find_object id s.objects ≡ some o)
    × (o.typ ≡ typ)
    × (o.tenant_id ≡ ep.tenant_id)

is_object-IsObject :
    (ep : Endpoint) (typ : EntityType) (id : ℕ) (s : Store) (o : Object)
    → find_object id s.objects ≡ some o
    → o.typ ≡ typ
    → o.tenant_id ≡ ep.tenant_id
    → is_object ep typ (find_object id s.objects) ≡ true
unfolding is_object
is_object-IsObject ep typ id s o found is mine =
    rw found (rw (is, mine) ground (arith, same_type_refl typ))

IsObject-is_object :
    (ep : Endpoint) (typ : EntityType) (id : ℕ) (s : Store)
    → is_object ep typ (find_object id s.objects) ≡ true
    → IsObject ep typ id s
unfolding is_object
IsObject-is_object ep typ id s h = at (find_object id s.objects) refl h
  where
    at :
        (found : Option Object)
        → find_object id s.objects ≡ found
        → is_object ep typ found ≡ true
        → IsObject ep typ id s
    at none e h = cc
    at (some o) e h = (o, e, ground (arith, same_type_eq o.typ typ), ground arith)

module _ (ep : Endpoint) (typ : EntityType) (l : String) (id : ℕ) (s : Store) where
  -- Why a pair may be recorded: it is there already, or neither of its ends is taken.
  abbrev pub CanBind : Type 0
  CanBind =
      IsObject ep typ id s
      × (ep.toggles typ ≡ true)
      × ((s.local ep.id typ l ≡ some id)
          ⊎ ((s.local ep.id typ l ≡ none) × (s.canonical ep.id id ≡ none)))

  abbrev recorded : Store
  recorded = record (write_pair ep typ l id s) {
    local_entries = at_pair ep.id id none s.local_entries;
  }

  recorded-IsConsistent :
      IsConsistent s
      → is_object ep typ (find_object id s.objects) ≡ true
      → s.local ep.id typ l ≡ none
      → s.canonical ep.id id ≡ none
      → IsConsistent recorded
  unfolding write_pair
  recorded-IsConsistent inv known no_local no_canonical =
      IsConsistent-same (write_pair ep typ l id s) recorded refl refl (λ i. refl)
        (write_pair-IsConsistent ep typ l id s inv (is_object-type ep typ id s known) no_local
          no_canonical)

  pub bind_cases :
      (t : Store)
      → bind ep typ l id s ≡ ok t
      → ((s.local ep.id typ l ≡ some id) × (t ≡ s))
        ⊎ ((s.local ep.id typ l ≡ none)
            × (s.canonical ep.id id ≡ none)
            × (is_object ep typ (find_object id s.objects) ≡ true)
            × (t ≡ recorded))
  unfolding bind
  bind_cases t h = ground (arith)

  -- A bind that is accepted keeps the two maps of the mapping consistent.
  pub bind-IsConsistent : (t : Store) → IsConsistent s → bind ep typ l id s ≡ ok t → IsConsistent t
  bind-IsConsistent t inv h = elim (bind_cases t h) [
    | inl same ↦ rw same.1 inv
    | inr new ↦ rw new.3 (recorded-IsConsistent inv new.2 new.0 new.1)
  ]

  known :
      (t : Store) → bind ep typ l id s ≡ ok t → is_object ep typ (find_object id s.objects) ≡ true
  unfolding bind
  known t h = ground arith

  opted : (t : Store) → bind ep typ l id s ≡ ok t → ep.toggles typ ≡ true
  unfolding bind
  opted t h = ground arith

  free :
      (t : Store)
      → bind ep typ l id s ≡ ok t
      → (s.local ep.id typ l ≡ some id)
        ⊎ ((s.local ep.id typ l ≡ none) × (s.canonical ep.id id ≡ none))
  unfolding bind
  free t h = ground arith

  -- A bind is accepted exactly when the object is one of the tenant and of the type, the type is
  -- selected, and the pair is in the mapping already or neither side of it is bound.
  pub bind_complete : CanBind ↔ ((t : Store) × (bind ep typ l id s ≡ ok t))
  unfolding bind
  bind_complete = (
    λ c.
        let known = is_object-IsObject ep typ id s c.0.0 c.0.1 c.0.2 c.0.3 in
        elim c.2 [
          | inl there ↦ (s, ground (arith, known, there))
          | inr free ↦ (recorded, ground (arith, known, free))
        ],
    λ r. (IsObject-is_object ep typ id s (known r.0 r.1), opted r.0 r.1, free r.0 r.1),
  )

  -- After an accepted bind of a consistent mapping both maps hold the pair, and every other localId,
  -- every object, the position and the streams are as they were.
  pub bind_lem :
      (t : Store)
      → IsConsistent s
      → bind ep typ l id s ≡ ok t
      → (t.local ep.id typ l ≡ some id)
        × (t.canonical ep.id id ≡ some l)
        × ((e : ℕ) (u : EntityType) (k : String)
            → t.local e u k ≡ (if key_is ep.id typ l e u k then some id else s.local e u k))
        × (t.objects ≡ s.objects)
        × (t.seq ≡ s.seq)
        × (t.hub ≡ s.hub)
  unfolding write_pair
  bind_lem t inv h = elim (bind_cases t h) [
    | inl same ↦ rw same.1 (
      same.0,
      (inv.from_local ep.id typ l id same.0).1,
      λ e u k. ground (arith, same.0, same_type_eq typ u, eq_iff l k),
      refl,
      refl,
      refl,
    )
    | inr new ↦ rw new.3 (
      ground (arith, same_type_refl typ, str_eq_refl l),
      ground arith,
      λ e u k. refl,
      refl,
      refl,
      refl,
    )
  ]

  bind_opted : (t : Store) → bind ep typ l id s ≡ ok t → opted_into ep typ ≡ true
  unfolding bind
  bind_opted t h = ground arith

  again :
      is_object ep typ (find_object id s.objects) ≡ true
      → opted_into ep typ ≡ true
      → bind ep typ l id recorded ≡ ok recorded
  unfolding bind write_pair
  again known opted = ground (arith, same_type_refl typ, str_eq_refl l)

  -- A repeated bind changes nothing more.
  pub bind-bind : (t : Store) → bind ep typ l id s ≡ ok t → bind ep typ l id t ≡ ok t
  bind-bind t h = elim (bind_cases t h) [
    | inl same ↦ rw same.1 (subst (λ u. bind ep typ l id s ≡ ok u) same.1 h)
    | inr new ↦ rw new.3 (again new.2 (bind_opted t h))
  ]
