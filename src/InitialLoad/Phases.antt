-- ===== src/InitialLoad/Phases.antt =====
-- The initial-load state machine: advanceLoadState and raiseAwaitingUser of
-- reference-client/internal/testrouter/initialload.go.
use masterdata_sync_working.Prelude.{
  ℕ, Bool, true, false, not, ◌&&◌, some, List, eq_iff, str_eq_refl, if◌then◌else◌, ◌≡◌, ◌≢◌, ◌↔◌,
  inl, inr, refl, ◌∙◌, arith, Bool-cases, sym,
}
use masterdata_sync_working.Failure.{ok, err, initial_load_conflict}
use masterdata_sync_working.Model.{
  Endpoint, LoadState, LoadPhase, loading_from_agrirouter, reconciling, loading_to_agrirouter,
  completed, other, same_phase, Binding, Rejection,
}
use masterdata_sync_working.Store.{Store, find_endpoint}
use masterdata_sync_working.Store.Lookup.{find-put_endpoint}
use masterdata_sync_working.InitialLoad.{
  legal, advanced, apply_bindings, advance_load_state, write_endpoint, load_or_zero,
}

-- The transitions that an endpoint may drive: the two steps, and repeating where it is, except in
-- the state that only agrirouter enters.
pub data Allowed : LoadPhase → LoadPhase → Type 0 where
  repeats : {a b : LoadPhase} → a ≡ b → b ≢ loading_from_agrirouter → Allowed a b
  binds : {a b : LoadPhase} → a ≡ reconciling → b ≡ loading_to_agrirouter → Allowed a b
  finishes : {a b : LoadPhase} → a ≡ loading_to_agrirouter → b ≡ completed → Allowed a b

pub same_phase_eq : (a b : LoadPhase) → same_phase a b ≡ true → a ≡ b
same_phase_eq (other s) (other t) h = ground (arith, eq_iff s t)
same_phase_eq a b h = ground arith

pub same_phase_refl : (a : LoadPhase) → same_phase a a ≡ true
same_phase_refl (other s) = str_eq_refl s
same_phase_refl a = ground arith

-- The guards of advanceLoadState, as one test.
abbrev passes : LoadPhase → LoadPhase → Bool
passes current target = not (same_phase target loading_from_agrirouter) && legal current target

passes-Allowed : (a b : LoadPhase) → passes a b ≡ true → Allowed a b
unfolding legal
passes-Allowed a b h = elim (Bool-cases (same_phase b a)) [
  | inl same ↦ repeats (sym (same_phase_eq b a same)) (λ e. ground arith)
  | inr moved ↦ elim (Bool-cases (same_phase a reconciling && same_phase b loading_to_agrirouter)) [
    | inl first ↦
        binds (same_phase_eq a reconciling (ground arith))
          (same_phase_eq b loading_to_agrirouter (ground arith))
    | inr second ↦
        finishes (same_phase_eq a loading_to_agrirouter (ground arith))
          (same_phase_eq b completed (ground arith))
  ]
]

passes_same : (a : LoadPhase) → a ≢ loading_from_agrirouter → passes a a ≡ true
unfolding legal
passes_same a n = ground (arith, same_phase_refl a, same_phase_eq a loading_from_agrirouter)

Allowed-passes : (a b : LoadPhase) → Allowed a b → passes a b ≡ true
unfolding legal
Allowed-passes a b (repeats e n) = rw e (passes_same b n)
Allowed-passes a b (binds e f) = rw (e, f) refl
Allowed-passes a b (finishes e f) = rw (e, f) refl

-- The endpoint that a legal transition writes back.
abbrev moved : Endpoint → LoadState → LoadPhase → List Binding → ℕ → Store → Store
moved ep l target bindings now s =
    if same_phase target loading_to_agrirouter
    then (let r = apply_bindings ep bindings s in write_endpoint (advanced ep l target r.1 now) r.0)
    else write_endpoint (advanced ep l target l.rejected now) s

module _ (ep : Endpoint) (l : LoadState) (held : ep.load ≡ some l) (target : LoadPhase)
    (bindings : List Binding) (now : ℕ) (s : Store) where
  advance_passes :
      passes l.state target ≡ true
      → advance_load_state ep target bindings now s ≡ ok (moved ep l target bindings now s)
  unfolding advance_load_state
  advance_passes h = rw (held, advance_load_state) (ground arith)

  advance_stops :
      passes l.state target ≡ false
      → advance_load_state ep target bindings now s ≡ err initial_load_conflict
  unfolding advance_load_state
  advance_stops h = rw (held, advance_load_state) (ground arith)

  -- A request advances the load exactly when the transition is one that an endpoint may drive, and
  -- is answered with the initial-load conflict otherwise.
  pub advance_load_state_iff :
      (Allowed l.state target
        ↔ ((t : Store) × (advance_load_state ep target bindings now s ≡ ok t)))
      × ((¬ Allowed l.state target)
          ↔ (advance_load_state ep target bindings now s ≡ err initial_load_conflict))
  advance_load_state_iff = (
    (
      λ a. (moved ep l target bindings now s, advance_passes (Allowed-passes l.state target a)),
      λ r. elim (Bool-cases (passes l.state target)) [
        | inl h ↦ passes-Allowed l.state target h
        | inr h ↦ absurd (failed r.0 (sym (advance_stops h) ∙ r.1))
      ],
    ),
    (
      λ n. elim (Bool-cases (passes l.state target)) [
        | inl h ↦ absurd (n (passes-Allowed l.state target h))
        | inr h ↦ advance_stops h
      ],
      λ e a.
          failed (moved ep l target bindings now s)
            (sym e ∙ advance_passes (Allowed-passes l.state target a)),
    ),
  )
    where
      failed : (t : Store) → err initial_load_conflict ≡ ok t → ⊥
      failed t e = cc

  -- What an accepted request leaves of the endpoint.
  abbrev pub AdvancedTo : Store → Type 0
  AdvancedTo t =
      (e : Endpoint) × (k : LoadState) × (find_endpoint ep.id t.endpoints ≡ some e)
      × (e.load ≡ some k)
      × (k.state ≡ target)
      × (k.awaiting_user ≡ (if same_phase target l.state then l.awaiting_user else false))
      × (e.previous_load_completed_at
          ≡ (if same_phase target completed then some now else ep.previous_load_completed_at))

  advanced_at :
      (rejected : List Rejection) (u : Store)
      → AdvancedTo (write_endpoint (advanced ep l target rejected now) u)
  unfolding advanced
  advanced_at rejected u =
      let e = advanced ep l target rejected now in
      (
        e,
        load_or_zero e.load,
        find-put_endpoint ep.id e u.endpoints ∙ ground arith,
        refl,
        refl,
        refl,
        refl,
      )

  -- An accepted request leaves the endpoint in the state asked for; a move clears `awaiting_user`, a
  -- repeat leaves it; completing marks the time of the completion, and nothing else does.
  pub advance_load_state_lem :
      (t : Store) → advance_load_state ep target bindings now s ≡ ok t → AdvancedTo t
  advance_load_state_lem t h = elim (Bool-cases (passes l.state target)) [
    | inl p ↦ rw (← same (sym (advance_passes p) ∙ h)) at_moved
    | inr n ↦ absurd (failed (sym (advance_stops n) ∙ h))
  ]
    where
      same : {a b : Store} → ok a ≡ ok b → a ≡ b
      same e = cc

      failed : err initial_load_conflict ≡ ok t → ⊥
      failed e = cc

      at_moved : AdvancedTo (moved ep l target bindings now s)
      at_moved = elim (Bool-cases (same_phase target loading_to_agrirouter)) [
        | inl b ↦
            rw b (advanced_at (apply_bindings ep bindings s).1 (apply_bindings ep bindings s).0)
        | inr b ↦ rw b (advanced_at l.rejected s)
      ]
