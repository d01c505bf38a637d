-- ===== src/Client/Apply/Keeps.antt =====
-- What an applied object leaves in the pairs of reference-client/internal/platform/sync/inbound.go.
use masterdata_sync_working.Prelude.{
  ℕ, String, Bool, true, false, ◌||◌, not, Option, none, List, ◌==◌, str_eq, ◌≡◌, refl, ◌∙◌, subst,
  arith, Bool-cases, Option-cases, inl, inr, ◌⊎◌,
}
use masterdata_sync_working.Failure.{Result, ok, err, ◌>>=◌, >>=-eq-ok}
use masterdata_sync_working.Model.{EntityType}
use masterdata_sync_working.Client.Pairs.{
  Namespace, SyncRow, same_namespace, keyed, sync_row, put_sync_row,
}
use masterdata_sync_working.Client.Pairs.View.{sync_row-put_sync_row}
use masterdata_sync_working.Client.Database.{
  Entity, Record, Tables, Database, from_entity, set_position, upsert_record, hold,
}
use masterdata_sync_working.Client.Apply.{
  Applier, Outcome, pair_of, is_older, is_active, unselected_refs, put_pair, done, write,
  apply_unheld, record_id, apply_in, positioned, apply,
}

elsewhere :
    (ns : Namespace) (typ : EntityType) (l : String) (r : SyncRow)
    → same_namespace r.endpoint ns ≡ false
    → keyed ns typ l r ≡ false
unfolding keyed
elsewhere ns typ l r other = ground arith

module _ {T : Type 0} (db : Tables T) (a : Applier) where
  upsert_record_pairs :
      (tenant : String) (r : Record) (l : String) (d d' : Database T)
      → upsert_record db tenant r l d ≡ ok d'
      → d'.pairs ≡ d.pairs
  unfolding upsert_record hold
  upsert_record_pairs tenant r l d d' h =
      let (t, _, kept) =
        >>=-eq-ok (λ t. ok (hold tenant r.typ l (record d { records = t })))
          (db.write_row d.pairs r l d.records) h in
      ground (arith, kept)

  put_pair_lem :
      (call : Result (Database T)) (r : SyncRow) (rows : List SyncRow) (d' : Database T)
      → ((d : Database T) → call ≡ ok d → d.pairs ≡ rows)
      → (call >>= put_pair db a r) ≡ ok d'
      → put_sync_row r rows ≡ ok d'.pairs
  put_pair_lem (err e) r rows d' same h = cc
  put_pair_lem (ok d) r rows d' same h =
      let (pairs, put, kept) =
        >>=-eq-ok (λ pairs. ok (record d { pairs = pairs })) (put_sync_row r d.pairs) h in
      let before = same d refl in ground (arith, put, kept, before)

  write_lem :
      (typ : EntityType) (l : String) (e : Entity) (active : Bool)
      (selected : Option (List EntityType)) (d d' : Database T)
      → write db a typ l e active selected d ≡ ok d'
      → put_sync_row (pair_of a e.envelope typ l) d.pairs ≡ ok d'.pairs
  unfolding write
  write_lem typ l e active selected d d' h =
      let up = λ (r : Record).
        upsert_record db a.tenant
          (record r { archived = not active; ignored = unselected_refs db a typ selected d }) l d in
      let (r, _, written) =
        >>=-eq-ok (λ r. up r >>= put_pair db a (pair_of a e.envelope typ l)) (from_entity typ e)
          h in
      put_pair_lem (up r) (pair_of a e.envelope typ l) d.pairs d'
        (λ u put. upsert_record_pairs a.tenant _ l d u put) written

  -- Nothing is written, or the pair of one record: one just made, or one whose revision is not above
  -- the object's.
  pub data Effect (e : Entity) (fresh : String) (d d' : Database T) (o : Outcome) : Type 0 where
    leaves :
        d'.pairs ≡ d.pairs
        → (o.superseded || o.ignored || o.discarded) ≡ true
        → Effect e fresh d d' o
    writes :
        (put_sync_row (pair_of a e.envelope e.envelope.typ o.local_id) d.pairs ≡ ok d'.pairs)
        → (o.local_id ≡ fresh)
          ⊎ (is_older e.envelope (sync_row a.namespace e.envelope.typ o.local_id d.pairs) ≡ false)
        → Effect e fresh d d' o

  wrote :
      (e : Entity) (fresh : String) (d d' : Database T) (o' o : Outcome)
      (call : Result (Database T))
      → ((u : Database T)
          → call ≡ ok u
          → put_sync_row (pair_of a e.envelope e.envelope.typ o'.local_id) d.pairs ≡ ok u.pairs)
      → (o'.local_id ≡ fresh)
        ⊎ (is_older e.envelope (sync_row a.namespace e.envelope.typ o'.local_id d.pairs) ≡ false)
      → (call >>= done db a o') ≡ ok (d', o)
      → Effect e fresh d d' o
  wrote e fresh d d' o' o (err f) put new h = cc
  wrote e fresh d d' o' o (ok u) put new h =
      subst (λ (q : Database T × Outcome). Effect e fresh d q.0 q.1) (same h)
        (writes (put u refl) new)
    where
      same : {x y : Database T × Outcome} → ok x ≡ ok y → x ≡ y
      same h = cc

  unheld-Effect :
      (e : Entity) (active : Bool) (fresh : String) (selected : Option (List EntityType))
      (d d' : Database T) (o : Outcome)
      → apply_unheld db a e active fresh none selected d ≡ ok (d', o)
      → Effect e fresh d d' o
  unfolding apply_unheld
  unheld-Effect e true fresh selected d d' o h =
      wrote e fresh d d' _ o (write db a e.envelope.typ fresh e true selected d)
        (write_lem e.envelope.typ fresh e true selected d) (inl refl) h
  unheld-Effect e false fresh selected d d' o h = leaves (ground arith) (ground arith)

  in-Effect :
      (e : Entity) (id : ℕ) (fresh : String) (selected : Option (List EntityType))
      (d d' : Database T) (o : Outcome)
      → apply_in db a e id fresh none selected d ≡ ok (d', o)
      → Effect e fresh d d' o
  unfolding apply_in
  in-Effect e id fresh selected d d' o h =
      let l = (record_id a e.envelope id d.pairs).0 in
      elim (Bool-cases (str_eq l "")) [
        | inl unheld ↦ unheld-Effect e (is_active e.envelope) fresh selected d d' o (rw unheld at h)
        | inr held ↦
            elim (Bool-cases
              (is_older e.envelope (sync_row a.namespace e.envelope.typ l d.pairs))) [
                | inl older ↦ leaves (ground arith) (ground arith)
                | inr newer ↦
                    wrote e fresh d d' _ o
                      (write db a e.envelope.typ l e (is_active e.envelope) selected d)
                      (write_lem e.envelope.typ l e (is_active e.envelope) selected d) (inr newer)
                      (rw (held, newer) at h)
              ]
      ]

  Effect-pairs :
      (e : Entity) (fresh : String) (d u d' : Database T) (o : Outcome)
      → d'.pairs ≡ u.pairs
      → Effect e fresh d u o
      → Effect e fresh d d' o
  Effect-pairs e fresh d u d' o same (leaves kept why) = leaves (same ∙ kept) why
  Effect-pairs e fresh d u d' o same (writes put new) = writes (rw same put) new

  pub positioned_lem :
      (position : String) (call : Result (Database T × Outcome)) (d' : Database T) (o : Outcome)
      → (call >>= positioned db a position) ≡ ok (d', o)
      → (u : Database T) × (call ≡ ok (u, o)) × (d'.pairs ≡ u.pairs)
  unfolding set_position
  positioned_lem position (err f) d' o h = cc
  positioned_lem position (ok (u, o')) d' o h = (u, ground arith, ground arith)

  pub apply-Effect :
      (e : Entity) (position fresh : String) (selected : Option (List EntityType))
      (d d' : Database T) (o : Outcome)
      → apply db a e position fresh none selected d ≡ ok (d', o)
      → Effect e fresh d d' o
  unfolding apply
  apply-Effect e position fresh selected d d' o h = elim (Option-cases e.envelope.agrirouter_id) [
    | inl gone ↦ leaves (ground arith) (ground arith)
    | inr (id, found) ↦ elim (Option-cases e.envelope.tenant_id) [
      | inl gone ↦ leaves (ground arith) (ground arith)
      | inr (tenant, named) ↦ elim (Bool-cases (tenant == a.namespace.tenant_id)) [
        | inl here ↦
            let (u, applied, kept) =
              positioned_lem position (apply_in db a e id fresh none selected d) d' o
                (ground arith) in
            Effect-pairs e fresh d u d' o kept (in-Effect e id fresh selected d u o applied)
        | inr away ↦ leaves (ground arith) (ground arith)
      ]
    ]
  ]

  -- An object applied without a recogniser changes the pairs of the applier's own endpoint alone.
  pub apply-other_namespace :
      (e : Entity) (position fresh : String) (selected : Option (List EntityType))
      (d d' : Database T) (o : Outcome)
      → apply db a e position fresh none selected d ≡ ok (d', o)
      → (ns : Namespace) (typ : EntityType) (l : String) → same_namespace a.namespace ns ≡ false
      → sync_row ns typ l d'.pairs ≡ sync_row ns typ l d.pairs
  apply-other_namespace e position fresh selected d d' o h ns typ l other =
      match_effect (apply-Effect e position fresh selected d d' o h)
    where
      match_effect : Effect e fresh d d' o → sync_row ns typ l d'.pairs ≡ sync_row ns typ l d.pairs
      match_effect (leaves kept why) = rw kept refl
      match_effect (writes put new) =
          let r = pair_of a e.envelope e.envelope.typ o.local_id in
          let now = sync_row-put_sync_row r d.pairs d'.pairs put ns typ l in
          let apart = elsewhere ns typ l r other in ground (arith, now, apart)
