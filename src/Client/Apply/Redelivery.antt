-- ===== src/Client/Apply/Redelivery.antt =====
-- A delivered object that comes again: reference-client/internal/platform/sync/inbound.go.
use masterdata_sync_working.Prelude.{
  ℕ, String, false, ◌||◌, Option, none, some, List, [], ◌∷◌, any, ◌==◌, str_eq, ◌≡◌, refl, sym, ap,
  arith, Bool-cases, Option-cases, inl, inr,
}
use masterdata_sync_working.Failure.{Result, ok, err, ◌>>=◌}
use masterdata_sync_working.Model.{EntityType}
use masterdata_sync_working.Client.Identity.{Envelope}
use masterdata_sync_working.Client.Pairs.{
  SyncRow, breaks_index, first, upsert, sync_row, sync_row_by_agrirouter_id,
}
use masterdata_sync_working.Client.Pairs.View.{put_sync_row_lem, canonically_holds}
use masterdata_sync_working.Client.Database.{Entity, Tables, Database}
use masterdata_sync_working.Client.Apply.{
  Applier, Outcome, pair_of, is_older, is_active, record_id, own_id, apply_in, Reconciler, done,
  write, apply,
}
use masterdata_sync_working.Client.Apply.Keeps.{
  Effect, leaves, writes, apply-Effect, positioned_lem,
}

-- The row just written is the one found by its canonical identifier.
upsert_found :
    (r : SyncRow) (id : ℕ) (rows : List SyncRow)
    → r.agrirouter_id ≡ some id
    → any (breaks_index r) rows ≡ false
    → sync_row_by_agrirouter_id r.endpoint r.typ id (upsert r rows) ≡ some r
unfolding sync_row_by_agrirouter_id first upsert
upsert_found r id [] named clear =
    let is = canonically_holds r.endpoint r.typ r id refl refl named in ground (arith, is)
upsert_found r id (x ∷ rows) named clear =
    let is = canonically_holds r.endpoint r.typ r id refl refl named in
    let later = upsert_found r id rows named in ground (arith, is, later)

module _ {T : Type 0} (db : Tables T) (a : Applier) where
  done_outcome :
      (call : Result (Database T)) (o' o : Outcome) (d : Database T)
      → (call >>= done db a o') ≡ ok (d, o)
      → o' ≡ o
  done_outcome (err f) o' o d h = cc
  done_outcome (ok u) o' o d h = cc

  own_record :
      (env : Envelope) (id : ℕ) (rows : List SyncRow) (l : String)
      → own_id a env id rows ≡ l
      → str_eq l "" ≡ false
      → record_id a env id rows ≡ (l, false)
  unfolding record_id
  own_record env id rows l own named = rw (own, named) refl

  -- What a pair finds is no new record.
  held_outcome :
      (e : Entity) (id : ℕ) (fresh : String) (recognise : Option (Reconciler T))
      (selected : Option (List EntityType)) (d d' : Database T) (o : Outcome) (l : String)
      → apply_in db a e id fresh recognise selected d ≡ ok (d', o)
      → own_id a e.envelope id d.pairs ≡ l
      → str_eq l "" ≡ false
      → (o.local_id ≡ l) × (o.created ≡ false)
  unfolding apply_in
  held_outcome e id fresh recognise selected d d' o l h own named =
      let found = own_record e.envelope id d.pairs l own named in
      elim (Bool-cases (is_older e.envelope (sync_row a.namespace e.envelope.typ l d.pairs))) [
        | inl older ↦
            let same = done_outcome (ok d) _ o d' (rw (found, named, older) at h) in
            (
              sym (ap (λ (o : Outcome). o.local_id) same),
              sym (ap (λ (o : Outcome). o.created) same),
            )
        | inr newer ↦
            let same =
              done_outcome (write db a e.envelope.typ l e (is_active e.envelope) selected d) _ o d'
                (rw (found, named, newer) at h) in
            (
              sym (ap (λ (o : Outcome). o.local_id) same),
              sym (ap (λ (o : Outcome). o.created) same),
            )
      ]

  apply_here :
      (e : Entity) (id : ℕ) (position fresh : String) (recognise : Option (Reconciler T))
      (selected : Option (List EntityType)) (d d' : Database T) (o : Outcome)
      → apply db a e position fresh recognise selected d ≡ ok (d', o)
      → e.envelope.agrirouter_id ≡ some id
      → o.discarded ≡ false
      → (u : Database T) × (apply_in db a e id fresh recognise selected d ≡ ok (u, o))
  unfolding apply
  apply_here e id position fresh recognise selected d d' o h named kept =
      elim (Option-cases e.envelope.tenant_id) [
        | inl gone ↦ (d, ground arith)
        | inr (tenant, of) ↦ elim (Bool-cases (tenant == a.namespace.tenant_id)) [
          | inl here ↦
              let (u, applied, _) =
                positioned_lem db a position (apply_in db a e id fresh recognise selected d) d' o
                  (ground arith) in
              (u, applied)
          | inr away ↦ (d, ground arith)
        ]
      ]

  own_id_found :
      (env : Envelope) (id : ℕ) (rows : List SyncRow) (row : SyncRow)
      → sync_row_by_agrirouter_id a.namespace env.typ id rows ≡ some row
      → own_id a env id rows ≡ row.local_id
  unfolding own_id
  own_id_found env id rows row h = ground arith

  -- The record that an object was written to is the one its canonical identifier finds.
  written_found :
      (e e' : Entity) (id : ℕ) (fresh : String) (d d' : Database T) (o : Outcome)
      → Effect db a e fresh d d' o
      → (o.superseded || o.ignored || o.discarded) ≡ false
      → e.envelope.agrirouter_id ≡ some id
      → e'.envelope.typ ≡ e.envelope.typ
      → own_id a e'.envelope id d'.pairs ≡ o.local_id
  written_found e e' id fresh d d' o (leaves kept why) wrote is typ = cc
  written_found e e' id fresh d d' o (writes put new) wrote is typ =
      let r = pair_of a e.envelope e.envelope.typ o.local_id in
      let p = put_sync_row_lem r d.pairs d'.pairs put in
      let found = upsert_found r id d.pairs is p.0 in
      own_id_found e'.envelope id d'.pairs r (rw (typ, p.1) found)

  -- An object that Apply has written to a record is found again by its canonical identifier: a later
  -- delivery of it in the tenant is for the same record, whatever the recogniser, and makes none.
  pub apply-apply :
      (e e' : Entity) (position position' fresh fresh' : String) (recognise : Option (Reconciler T))
      (selected selected' : Option (List EntityType)) (d d' d'' : Database T) (o o' : Outcome)
      (id : ℕ)
      → apply db a e position fresh none selected d ≡ ok (d', o)
      → (o.superseded || o.ignored || o.discarded) ≡ false
      → str_eq o.local_id "" ≡ false
      → e.envelope.agrirouter_id ≡ some id
      → e'.envelope.agrirouter_id ≡ some id
      → e'.envelope.typ ≡ e.envelope.typ
      → apply db a e' position' fresh' recognise selected' d' ≡ ok (d'', o')
      → o'.discarded ≡ false
      → (o'.local_id ≡ o.local_id) × (o'.created ≡ false)
  apply-apply e e' position position' fresh fresh' recognise selected selected' d d' d'' o o' id h
        done_it named is is' typ again kept =
      let own =
        written_found e e' id fresh d d' o (apply-Effect db a e position fresh selected d d' o h)
          done_it is typ in
      let (u, applied) =
        apply_here e' id position' fresh' recognise selected' d' d'' o' again is' kept in
      held_outcome e' id fresh' recognise selected' d' u o' o.local_id applied own named
