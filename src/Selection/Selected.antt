-- ===== src/Selection/Selected.antt =====
-- What a selection guarantees: selectTypes of reference-client/internal/testrouter/router.go.
use masterdata_sync_working.Prelude.{
  ℕ, ◌+◌, Bool, true, false, ◌||◌, is_some, some, List, [], ◌∷◌, any, all, keep, ◌≡◌, refl, sym, ap,
  subst, fun_ext, ◌∙◌, arith, Bool-cases, inl, inr,
}
use masterdata_sync_working.Failure.{ok, err, invalid}
use masterdata_sync_working.Platform.{Platform}
use masterdata_sync_working.Model.{EntityType, party, farm, field, field_boundary, Endpoint}
use masterdata_sync_working.Store.{Store, find_endpoint, put_endpoint}
use masterdata_sync_working.Store.Lookup.{find-put_endpoint, same_type_eq}
use masterdata_sync_working.InitialLoad.{
  entity_types, write_endpoint, publish_selection, record_participant, started,
}
use masterdata_sync_working.Selection.{
  names, wants, dependency_closure, toggled, adds, removes, selected, select_types,
}
use masterdata_sync_working.Selection.Closure.{dependency_closure_lem}

-- An endpoint that exchanges only what it declared, with the field of every field boundary, and has
-- an initial load exactly while it exchanges something.
pub record IsSelected (ep : Endpoint) : Type 0 where
  pub declared : (t : EntityType) → ep.toggles t ≡ true → ep.declared t ≡ true
  pub closed : ep.toggles field_boundary ≡ true → ep.toggles field ≡ true
  pub loads : is_some ep.load ≡ any ep.toggles entity_types

all-declared :
    (declared : EntityType → Bool) (ts : List EntityType) (t : EntityType)
    → all declared ts ≡ true
    → names t ts ≡ true
    → declared t ≡ true
all-declared declared [] t h k = cc
all-declared declared (x ∷ ts) t h k = ground (arith, same_type_eq t x, all-declared declared ts t)

selected-toggles :
    (ep : Endpoint) (types : List EntityType) (now : ℕ)
    → (selected ep types now).toggles ≡ toggled types
unfolding selected started
selected-toggles ep types now = ground arith

selected-declared :
    (ep : Endpoint) (types : List EntityType) (now : ℕ)
    → (selected ep types now).declared ≡ ep.declared
unfolding selected started
selected-declared ep types now = ground arith

selected-id :
    (ep : Endpoint) (types : List EntityType) (now : ℕ) → (selected ep types now).id ≡ ep.id
unfolding selected started
selected-id ep types now = ground arith

abbrev by_type : (a b c d : Bool) → EntityType → Bool
by_type a b c d t = elim t [ party ↦ a | farm ↦ b | field ↦ c | field_boundary ↦ d ]

by_type_eq : (f : EntityType → Bool) → by_type (f party) (f farm) (f field) (f field_boundary) ≡ f
by_type_eq f = fun_ext at
  where
    at : (t : EntityType) → by_type (f party) (f farm) (f field) (f field_boundary) t ≡ f t
    at party = refl
    at farm = refl
    at field = refl
    at field_boundary = refl

-- A selection that adds nothing and is not empty leaves something that was selected.
abbrev Keeps : (toggles w : EntityType → Bool) → Type 0
Keeps toggles w =
    adds toggles (keep w entity_types) ≡ false
    → any (toggled (keep w entity_types)) entity_types ≡ true
    → any toggles entity_types ≡ true

kept : (toggles w : EntityType → Bool) → Keeps toggles w
unfolding adds toggled
kept toggles w =
    subst (λ f. Keeps f w) (by_type_eq toggles)
      (subst
        (λ v.
          Keeps (by_type (toggles party) (toggles farm) (toggles field) (toggles field_boundary)) v)
        (by_type_eq w)
        (at (toggles party) (toggles farm) (toggles field) (toggles field_boundary) (w party)
          (w farm) (w field) (w field_boundary)))
  where
    at : (a b c d e f g i : Bool) → Keeps (by_type a b c d) (by_type e f g i)
    at a b c d e f g i h k = ground arith

selected-loads :
    (ep : Endpoint) (types : List EntityType) (now : ℕ)
    → is_some ep.load ≡ any ep.toggles entity_types
    → is_some (selected ep (dependency_closure types) now).load
      ≡ any (toggled (dependency_closure types)) entity_types
unfolding selected started dependency_closure
selected-loads ep types now h = ground (arith, kept ep.toggles (wants types))

selected-IsSelected :
    (ep : Endpoint) (types : List EntityType) (now : ℕ)
    → IsSelected ep
    → all ep.declared (dependency_closure types) ≡ true
    → IsSelected (selected ep (dependency_closure types) now)
unfolding toggled
selected-IsSelected ep types now before h = record {
  declared = λ t on.
      ap (λ (f : EntityType → Bool). f t) (selected-declared ep closure now)
      ∙ all-declared ep.declared closure t h (on_names t on);
  closed = λ on.
      ap (λ (f : EntityType → Bool). f field) (selected-toggles ep closure now)
      ∙ with_field (on_names field_boundary on);
  loads =
      selected-loads ep types now before.loads
      ∙ ap (λ (f : EntityType → Bool). any f entity_types) (sym (selected-toggles ep closure now));
}
  where
    closure : List EntityType
    closure = dependency_closure types

    on_names :
        (t : EntityType) → (selected ep closure now).toggles t ≡ true → toggled closure t ≡ true
    on_names t on = ap (λ (f : EntityType → Bool). f t) (sym (selected-toggles ep closure now)) ∙ on

    with_field : toggled closure field_boundary ≡ true → toggled closure field ≡ true
    with_field h =
        ground
          (arith, dependency_closure_lem types field, dependency_closure_lem types field_boundary)

IsSelected-same :
    (ep e : Endpoint)
    → e.toggles ≡ ep.toggles
    → e.declared ≡ ep.declared
    → e.load ≡ ep.load
    → IsSelected ep
    → IsSelected e
IsSelected-same ep e same_toggles same_declared same_load h = record {
  declared = λ t. rw (same_toggles, same_declared) (h.declared t);
  closed = rw same_toggles h.closed;
  loads = rw (same_toggles, same_load) h.loads;
}

-- An endpoint that is written is found.
found_written :
    (id : ℕ) (e : Endpoint) (es : List Endpoint)
    → e.id ≡ id
    → find_endpoint id (put_endpoint e es) ≡ some e
found_written id e es h = find-put_endpoint id e es ∙ ground arith

ok_inj : {a b : Store} → ok a ≡ ok b → a ≡ b
ok_inj h = cc

SelectedIn : Endpoint → List EntityType → Store → Type 0
SelectedIn ep types t =
    (e : Endpoint) × (find_endpoint ep.id t.endpoints ≡ some e)
    × IsSelected e
    × ((u : EntityType) → e.toggles u ≡ names u (dependency_closure types))

written-SelectedIn :
    (ep e : Endpoint) (types : List EntityType) (now : ℕ) (es : List Endpoint) (t : Store)
    → IsSelected (selected ep (dependency_closure types) now)
    → e ≡ record (selected ep (dependency_closure types) now) {
      selection_changed_seq = e.selection_changed_seq;
    }
    → t.endpoints ≡ put_endpoint e es
    → SelectedIn ep types t
unfolding toggled SelectedIn
written-SelectedIn ep e types now es t chosen same written = (
  e,
  ap (find_endpoint ep.id) written
      ∙ found_written ep.id e es (ap (λ (x : Endpoint). x.id) same ∙ selected-id ep closure now),
  IsSelected-same (selected ep closure now) e (ap (λ (x : Endpoint). x.toggles) same)
      (ap (λ (x : Endpoint). x.declared) same) (ap (λ (x : Endpoint). x.load) same) chosen,
  λ u.
      ap (λ (x : Endpoint). x.toggles u) same
      ∙ ap (λ (f : EntityType → Bool). f u) (selected-toggles ep closure now),
)
  where
    closure : List EntityType
    closure = dependency_closure types

-- An accepted selection leaves the endpoint with the closure of the types selected and nothing else,
-- inside its declaration, and with an initial load exactly while it exchanges something, if it was
-- so before.
pub select_types-IsSelected :
    (p : Platform) (ep : Endpoint) (types : List EntityType) (now : ℕ) (s t : Store)
    → IsSelected ep
    → select_types p ep types now s ≡ ok t
    → (e : Endpoint) × (find_endpoint ep.id t.endpoints ≡ some e)
      × IsSelected e
      × ((u : EntityType) → e.toggles u ≡ names u (dependency_closure types))
unfolding select_types publish_selection record_participant SelectedIn
select_types-IsSelected p ep types now s t before h = elim (Bool-cases (all ep.declared closure)) [
  | inr undeclared ↦ absurd (refused (sym (stopped undeclared) ∙ h))
  | inl declared ↦ elim (Bool-cases (adds ep.toggles closure || removes ep.toggles closure)) [
    | inl moved ↦
        written-SelectedIn ep (record chosen { selection_changed_seq = s.seq + 1 }) types now
          (put_endpoint chosen s.endpoints) t (selected-IsSelected ep types now before declared)
          refl (ap (λ (x : Store). x.endpoints) (sym (ok_inj (sym (announced declared moved) ∙ h))))
    | inr same ↦
        written-SelectedIn ep chosen types now s.endpoints t
          (selected-IsSelected ep types now before declared) refl
          (ap (λ (x : Store). x.endpoints) (sym (ok_inj (sym (stored declared same) ∙ h))))
  ]
]
  where
    closure : List EntityType
    closure = dependency_closure types

    chosen : Endpoint
    chosen = selected ep closure now

    refused : err (invalid "entity types are not declared") ≡ ok t → ⊥
    refused e = cc

    stopped :
        all ep.declared closure ≡ false
        → select_types p ep types now s ≡ err (invalid "entity types are not declared")
    stopped undeclared = rw (undeclared, select_types) refl

    announced :
        all ep.declared closure ≡ true
        → (adds ep.toggles closure || removes ep.toggles closure) ≡ true
        → select_types p ep types now s ≡ ok (publish_selection p chosen (write_endpoint chosen s))
    announced declared moved = rw (declared, select_types) (rw moved refl)

    stored :
        all ep.declared closure ≡ true
        → (adds ep.toggles closure || removes ep.toggles closure) ≡ false
        → select_types p ep types now s ≡ ok (write_endpoint chosen s)
    stored declared same = rw (declared, select_types) (rw same refl)
