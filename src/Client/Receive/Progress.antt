-- ===== src/Client/Receive/Progress.antt =====
-- The position that the receive loop reports and the one it stores:
-- reference-client/internal/platform/sync/receive.go.
use masterdata_sync_working.Prelude.{
  ◌+◌, String, Bool, true, false, ◌&&◌, is_some, none, some, List, [], ◌∷◌, any, ◌==◌, str_eq, ◌≡◌,
  refl, sym, ap, ◌∙◌, arith, Bool-cases, Option-cases, inl, inr,
}
use masterdata_sync_working.Failure.{Result, ok, err, ◌>>=◌, >>=-eq-ok}
use masterdata_sync_working.Write.Cases.{Result-cases}
use masterdata_sync_working.Client.Pairs.{discard_tenant}
use masterdata_sync_working.Client.Database.{Entity, Database, set_position}
use masterdata_sync_working.Client.Apply.{Applier, Outcome, apply_in, positioned, apply}
use masterdata_sync_working.Client.Receive.{
  Receiver, DeliveredEvent, Carried, caught_up, route_change, reset, unknown, object, ReceiveResult,
  Stand, counted, committed, apply_selection, apply_reset, empty_routes, applier_for, bound_once,
  bind_applied, receive_object, receive_frame, ends, go_on, consume,
}

-- A frame without an identifier.
abbrev pub is_unnamed : Result (DeliveredEvent × String) → Bool
is_unnamed (err f) = false
is_unnamed (ok ev) = str_eq ev.0.id ""

module _ {T W : Type 0} (rc : Receiver T W) where
  -- The reported position is the stored one.
  abbrev pub IsCurrent : Stand T W → Type 0
  IsCurrent st = st.2.position ≡ st.1.position

  set_position_at :
      (id : String) (d : Database T) → str_eq id "" ≡ false → (set_position id d).position ≡ id
  unfolding set_position
  set_position_at id d named = ground arith

  -- A chain that ends with the position being set.
  ends_positioned :
      (id : String) (call : Result (Database T)) (d' : Database T)
      → str_eq id "" ≡ false
      → (call >>= λ d. ok (set_position id d)) ≡ ok d'
      → d'.position ≡ id
  ends_positioned id call d' named h =
      let (d, _, e) = >>=-eq-ok (λ d. ok (set_position id d)) call h in
      ap (λ (d : Database T). d.position) (sym (ok_inj e)) ∙ set_position_at id d named
    where
      ok_inj : {a b : Database T} → ok a ≡ ok b → a ≡ b
      ok_inj e = cc

  first_ok : (p q : Database T × Outcome) → ok p ≡ ok q → ok p.0 ≡ ok q.0
  first_ok p q e = cc

  apply_position :
      (a : Applier) (e : Entity) (id fresh : String) (d d' : Database T) (o : Outcome)
      → str_eq id "" ≡ false
      → is_some e.envelope.tenant_id ≡ true
      → apply rc.tables a e id fresh none none d ≡ ok (d', o)
      → d'.position ≡ id
  unfolding apply
  apply_position a e id fresh d d' o named of_tenant h =
      elim (Option-cases e.envelope.agrirouter_id) [
        | inl gone ↦ ground (arith, h, gone)
        | inr (i, found) ↦ elim (Option-cases e.envelope.tenant_id) [
          | inl gone ↦ ground (arith, of_tenant, gone)
          | inr (tenant, of) ↦ elim (Bool-cases (tenant == a.namespace.tenant_id)) [
            | inr away ↦ ground (arith, h, found, of, away)
            | inl here ↦
                placed (apply_in rc.tables a e i fresh none none d) named
                  (ground (arith, h, found, of, here))
          ]
        ]
      ]
    where
      placed :
          (call : Result (Database T × Outcome))
          → str_eq id "" ≡ false
          → (call >>= positioned rc.tables a id) ≡ ok (d', o)
          → d'.position ≡ id
      placed (err f) named e = cc
      placed (ok u) named e =
          ends_positioned id (ok u.0) d' named (first_ok (set_position id u.0, u.1) (d', o) e)

  committed-IsCurrent :
      (id : String) (res : ReceiveResult) (w : W) (d : Database T) (call : Result (Database T))
      → str_eq id "" ≡ false
      → res.position ≡ d.position
      → ((d' : Database T) → call ≡ ok d' → d'.position ≡ id)
      → IsCurrent (committed rc id res w d call)
  committed-IsCurrent id res w d (err f) named h set = h
  committed-IsCurrent id res w d (ok d') named h set = rw named (sym (set d' refl))

  bound_once-IsCurrent :
      (bound : W × Result (Unit {0})) (d : Database T) (res : ReceiveResult)
      → res.position ≡ d.position
      → IsCurrent (bound_once rc bound d res)
  bound_once-IsCurrent (w, err f) d res h = h
  bound_once-IsCurrent (w, ok u) d res h = h

  bind_applied-IsCurrent :
      (a : Applier) (e : Entity) (o : Outcome) (w : W) (d : Database T) (res : ReceiveResult)
      → res.position ≡ d.position
      → IsCurrent (bind_applied rc a e o w d res)
  unfolding bind_applied
  bind_applied-IsCurrent a e o w d res h = elim (Bool-cases o.needs_binding) [
    | inr held ↦ rw held h
    | inl new ↦ rw new (elim (Option-cases e.envelope.agrirouter_id) [
      | inl gone ↦ rw gone h
      | inr (canonical, named) ↦
          rw named
            (bound_once-IsCurrent (rc.bind_object a e.envelope.typ o.local_id canonical w) d res h)
    ])
  ]

  counted_position : (o : Outcome) (res : ReceiveResult) → (counted o res).position ≡ res.position
  unfolding counted
  counted_position o res = ground arith

  go_on-IsCurrent :
      (last : Bool) (st : Stand T W) (next : W → Database T → ReceiveResult → Stand T W)
      → IsCurrent st
      → ((w : W) (d : Database T) (res : ReceiveResult)
          → res.position ≡ d.position
          → IsCurrent (next w d res))
      → IsCurrent (go_on rc last st next)
  unfolding go_on
  go_on-IsCurrent last (w, d, res, some f) next h step = h
  go_on-IsCurrent true (w, d, res, none) next h step = h
  go_on-IsCurrent false (w, d, res, none) next h step = step w d res h

  receive-IsCurrent :
      (ev : DeliveredEvent) (fresh : String) (w : W) (d : Database T) (res : ReceiveResult)
      → str_eq ev.id "" ≡ false
      → res.position ≡ d.position
      → IsCurrent (receive_frame rc ev fresh w d res)
  unfolding receive_frame receive_object apply_selection apply_reset
  receive-IsCurrent ev fresh w d res named h = at ev.carried
    where
      at :
          (c : Carried)
          → IsCurrent (receive_frame rc (record { id = ev.id; carried = c }) fresh w d res)
      at caught_up = rw named refl
      at (route_change sel) =
          committed-IsCurrent ev.id res w d (apply_selection rc ev.id sel d) named h
            (λ d' h. ends_positioned ev.id _ d' named h)
      at (reset r) = committed-IsCurrent ev.id res w d (apply_reset rc ev.id r d) named h (λ d' h.
          let dropped = discard_tenant r.tenant_id d.pairs in
          let (u, _, h) =
            >>=-eq-ok (λ d. rc.on_reset r dropped.1 d >>= λ d. ok (set_position ev.id d))
              (empty_routes rc r.tenant_id r.endpoint_ids (record d { pairs = dropped.0 })) h in
          ends_positioned ev.id (rc.on_reset r dropped.1 u) d' named h)
      at unknown = h
      at (object e) = elim (Bool-cases (is_some e.envelope.tenant_id)) [
        | inr gone ↦ rw gone h
        | inl of ↦ rw of (elim (Result-cases (applier_for rc e.envelope)) [
          | inr (f, no_applier) ↦ rw no_applier h
          | inl (a, found) ↦
              rw found (elim (Result-cases (apply rc.tables a e ev.id fresh none none d)) [
                | inr (f, failed) ↦ rw failed h
                | inl ((d', o), applied) ↦ rw applied (
                    bind_applied-IsCurrent a e o w d'
                      (counted o (record res { received = res.received + 1; position = ev.id }))
                      (counted_position o _
                        ∙ sym (apply_position a e ev.id fresh d d' o named of applied)))
              ])
        ])
      ]

  -- Where the loop starts from the stored position and every frame has an identifier, the position it
  -- reports is the stored one wherever it stops, at an error too.
  pub consume-IsCurrent :
      (until_caught_up : Bool) (evs : List (Result (DeliveredEvent × String))) (w : W)
      (d : Database T) (res : ReceiveResult)
      → any is_unnamed evs ≡ false
      → res.position ≡ d.position
      → IsCurrent (consume rc until_caught_up evs w d res)
  unfolding consume
  consume-IsCurrent until [] w d res named h = h
  consume-IsCurrent until (err f ∷ evs) w d res named h = h
  consume-IsCurrent until (ok ev ∷ evs) w d res named h =
      go_on-IsCurrent (until && ends rc ev.0.carried) (receive_frame rc ev.0 ev.1 w d res)
        (λ w d res. consume rc until evs w d res)
        (receive-IsCurrent ev.0 ev.1 w d res (ground (arith, named)) h)
        (λ w d res h. consume-IsCurrent until evs w d res (ground (arith, named)) h)
