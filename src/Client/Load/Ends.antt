-- ===== src/Client/Load/Ends.antt =====
-- How the loop that takes the canonical set ends: Run of
-- reference-client/internal/platform/sync/initialload.go.
use masterdata_sync_working.Prelude.{
  ℕ, zero, suc, ◌+◌, ◌≤◌, Bool, true, false, Option, none, some, List, [], ◌∷◌, if◌then◌else◌, ◌≡◌,
  refl, ◌∙◌, subst, arith, Bool-cases, inl, inr, leb,
}
use masterdata_sync_working.Failure.{Failure, Result, ok, err}
use masterdata_sync_working.Model.{EntityType, LoadPhase, loading_from_agrirouter, same_phase}
use masterdata_sync_working.Write.Cases.{Result-cases}
use masterdata_sync_working.Client.Database.{Entity, Tables, Database}
use masterdata_sync_working.Client.Apply.{Applier, Outcome, Reconciler, apply}
use masterdata_sync_working.Client.Send.{Requests}
use masterdata_sync_working.Client.Load.{
  SetFrame, recounted, LoadRequests, LoadResult, count_outcome, flagged, raise, Stage, Loading,
  take_applied, take_frames, taken, take_canonical_set, then_status, at_phase, take_until,
}

-- Counting an outcome takes no set.
counted_attempts :
    (e : Entity) (o : Outcome) (res : LoadResult) → (count_outcome e o res).attempts ≡ res.attempts
unfolding count_outcome
counted_attempts e o res = ground arith

failed :
    (f : Failure) (phase : LoadPhase)
    → err f ≡ ok phase
    → same_phase phase loading_from_agrirouter ≡ false
failed f phase h = cc

arrived :
    (p q : LoadPhase)
    → same_phase p loading_from_agrirouter ≡ false
    → ok p ≡ ok q
    → same_phase q loading_from_agrirouter ≡ false
arrived p q over h = subst (λ q. same_phase q loading_from_agrirouter ≡ false) (ok_inj h) over
  where
    ok_inj : {a b : LoadPhase} → ok a ≡ ok b → a ≡ b
    ok_inj e = cc

module _ {T W : Type 0} (db : Tables T) (lq : LoadRequests W) (rq : Requests W) (a : Applier)
    (recognise : Option (Reconciler T)) (types : List EntityType) where
  flagged_attempts :
      (q : W × Result (Unit {0})) (res : LoadResult)
      → (flagged db lq rq a recognise types q res).1.attempts ≡ res.attempts
  flagged_attempts (w, err f) res = refl
  flagged_attempts (w, ok u) res = refl

  raise_attempts :
      (w : W) (res : LoadResult)
      → (raise db lq rq a recognise types w res).1.attempts ≡ res.attempts
  unfolding raise
  raise_attempts w res = told res.awaiting_user
    where
      told :
          (b : Bool)
          → (if b
              then (w, res)
              else flagged db lq rq a recognise types (lq.report_attention w) res).1.attempts
            ≡ res.attempts
      told true = refl
      told false = flagged_attempts (lq.report_attention w) res

  take_applied_attempts :
      (e : Entity) (o : Outcome) (w : W) (res : LoadResult)
      → (take_applied db lq rq a recognise types e o w res).1.attempts ≡ res.attempts
  unfolding take_applied
  take_applied_attempts e o w res =
      let now = count_outcome e o (record res { received = res.received + 1 }) in
      let same = counted_attempts e o (record res { received = res.received + 1 }) in
      elim (Bool-cases o.discarded) [
        | inl gone ↦ rw gone refl
        | inr kept ↦ rw kept (elim (Bool-cases o.awaiting_user) [
          | inl waits ↦ rw waits (raise_attempts w now ∙ same)
          | inr done ↦ rw done same
        ])
      ]

  take_frames_attempts :
      (frames : List SetFrame) (w : W) (d : Database T) (res : LoadResult)
      → (take_frames db lq rq a recognise types frames w d res).2.attempts ≡ res.attempts
  unfolding take_frames
  take_frames_attempts [] w d res = refl
  take_frames_attempts (err f ∷ frames) w d res = refl
  take_frames_attempts (ok none ∷ frames) w d res = take_frames_attempts frames w d res
  take_frames_attempts (ok (some e) ∷ frames) w d res =
      elim (Result-cases (apply db a e.0 "" e.1 recognise (some types) d)) [
        | inr (f, failed) ↦ rw (failed, take_frames) refl
        | inl ((d', o), applied) ↦
            let next = take_applied db lq rq a recognise types e.0 o w res in
            rw (applied, take_frames)
              (take_frames_attempts frames next.0 d' next.1 ∙ take_applied_attempts e.0 o w res)
      ]

  taken_attempts :
      (q : W × Result (List SetFrame)) (d : Database T) (res : LoadResult)
      → (taken db lq rq a recognise types q d res).2.attempts ≡ res.attempts
  unfolding taken
  taken_attempts (w, err f) d res = refl
  taken_attempts (w, ok frames) d res = take_frames_attempts frames w d (recounted res)

  at_phase_attempts :
      (q : W × Result LoadPhase) (d : Database T) (res : LoadResult)
      → (at_phase db lq rq a recognise types q d res).2.attempts ≡ res.attempts
  at_phase_attempts (w, phase) d res = refl

  then_status_attempts :
      (st : Loading db lq rq a recognise types)
      → (then_status db lq rq a recognise types st).2.attempts ≡ st.2.attempts
  then_status_attempts (w, d, res, some f) = refl
  then_status_attempts (w, d, res, none) = at_phase_attempts (lq.status w) d res

  -- How the loop has ended: with no more takes than the cap, and where it goes on to reconcile, with
  -- agrirouter done sending the set.
  abbrev pub Ended : ℕ → Stage db lq rq a recognise types → Type 0
  Ended cap r =
      (r.2.attempts ≤ cap)
      × ((phase : LoadPhase) → r.3 ≡ ok phase → same_phase phase loading_from_agrirouter ≡ false)

  -- The loop ends, whatever agrirouter answers, within as many rounds as there are takes left and
  -- one; it has then taken the set no more often than the cap, and where it goes on to reconcile,
  -- agrirouter has sent the whole set.
  pub take_until_ends :
      (cap fuel : ℕ) (st : Stage db lq rq a recognise types)
      → st.2.attempts ≤ cap
      → cap + 1 ≤ st.2.attempts + fuel
      → (r : Stage db lq rq a recognise types) × (take_until db lq rq a recognise types cap fuel st
          ≡ some r)
        × Ended cap r
  unfolding take_until take_canonical_set
  take_until_ends cap fuel (w, d, res, err f) low fuelled =
      ((w, d, res, err f), refl, (low, λ phase h. failed f phase h))
  take_until_ends cap zero (w, d, res, ok phase) low fuelled = absurd (omega (arith, low, fuelled))
  take_until_ends cap (suc fuel) (w, d, res, ok phase) low fuelled =
      let again : LoadResult = record res { attempts = res.attempts + 1 } in
      let loaded = take_canonical_set db lq rq a recognise types w d again in
      let next = then_status db lq rq a recognise types loaded in
      let counts : next.2.attempts ≡ res.attempts + 1 =
        then_status_attempts loaded ∙ taken_attempts (lq.take_events w) d again in
      elim (Bool-cases (same_phase phase loading_from_agrirouter)) [
        | inr over ↦ rw over ((w, d, res, ok phase), refl, (low, λ q h. arrived phase q over h))
        | inl loading ↦ elim (Bool-cases (leb cap res.attempts)) [
          | inl spent ↦ rw (loading, spent) ((w, d, res, err _), refl, (low, λ q h. failed _ q h))
          | inr left ↦
              rw (loading, left)
                (take_until_ends cap fuel next (ground (arith, counts, left))
                  (omega (arith, counts, fuelled)))
        ]
      ]
