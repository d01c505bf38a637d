-- ===== src/Mapping/Corrects/Result.antt =====
-- The result of a correction that is accepted: correct of
-- reference-client/internal/testrouter/ssot.go.
use masterdata_sync_working.Prelude.{
  ℕ, String, true, ◌&&◌, Option, none, some, List, [], ◌∷◌, ◌==◌, str_eq_refl, if◌then◌else◌, ◌≡◌,
  refl, ap, ◌∙◌, arith, Option-cases, inl, inr,
}
use masterdata_sync_working.Failure.{ok}
use masterdata_sync_working.Model.{EntityType, Endpoint, same_type}
use masterdata_sync_working.Store.{Store, find_object, object_type, typ_of}
use masterdata_sync_working.Store.Lookup.{same_type_refl}
use masterdata_sync_working.Mapping.{
  Correction, lists, drop_listed, write_listed, check_listed, check_targets, correct,
}
use masterdata_sync_working.Mapping.Invariant.{IsConsistent}
use masterdata_sync_working.Mapping.Corrects.Checks.{
  Distinct, Fits, check_listed-Distinct, check_targets-Fits,
}
use masterdata_sync_working.Mapping.Corrects.Drops.{
  Free, corrected, unbound, drop_listed-unbound, write_listed-unbound, drop_listed-local,
  drop_listed-IsConsistent, write_listed-IsConsistent, write_listed-local,
}

module _ (ep : Endpoint) (typ : EntityType) (entries : List Correction) (s : Store)
    (inv : IsConsistent s) where
  pub dropped : Store
  dropped = drop_listed ep typ entries s

  dropped-IsConsistent : IsConsistent dropped
  unfolding dropped
  dropped-IsConsistent = drop_listed-IsConsistent ep typ entries s inv

  dropped_type : (id : ℕ) → object_type dropped id ≡ object_type s id
  unfolding dropped
  dropped_type id =
      ap (λ os. typ_of (find_object id os)) (ap (λ x. x.0) (drop_listed-unbound ep typ entries s))

  -- A target's holder is listed, so its pair is gone.
  target_free :
      (id : ℕ)
      → object_type s id ≡ some typ
      → ((l : String) → s.canonical ep.id id ≡ some l → lists l entries ≡ true)
      → dropped.canonical ep.id id ≡ none
  unfolding dropped
  target_free id known held = elim (Option-cases (dropped.canonical ep.id id)) [
    | inl free ↦ free
    | inr (l, taken) ↦ absurd (taken_twice l taken)
  ]
    where
      taken_twice : (l : String) → dropped.canonical ep.id id ≡ some l → ⊥
      taken_twice l taken =
          let there =
            dropped-IsConsistent.from_canonical ep.id id l typ taken (dropped_type id ∙ known) in
          let before = drop_listed-local ep typ ep.id typ l entries s in
          ground (arith, there, before, same_type_refl typ, inv.from_local ep.id typ l id, held l)

  listed-Free :
      (es : List Correction)
      → ((l : String) → lists l es ≡ true → lists l entries ≡ true)
      → Fits s ep typ entries es
      → Free ep typ dropped es
  unfolding lists dropped
  listed-Free [] among f = tt
  listed-Free (e ∷ es) among f = (
    ground (
      arith,
      drop_listed-local ep typ ep.id typ e.local_id entries s,
      same_type_refl typ,
      str_eq_refl e.local_id,
      among e.local_id,
    ),
    λ id aim. (dropped_type id ∙ (f.0 id aim).0, target_free id (f.0 id aim).0 (f.0 id aim).1),
    listed-Free es (λ l h. among l (ground arith)) f.1,
  )

  -- A listed localId is dropped before, so only its own entry decides where it ends.
  pub corrected_dropped :
      (l : String) (es : List Correction) (o : Option ℕ)
      → corrected l es (if lists l es then none else o) ≡ corrected l es o
  unfolding lists
  corrected_dropped l [] o = refl
  corrected_dropped l (e ∷ es) o = ground (arith, corrected_dropped l es o)

  written :
      (e : ℕ) (u : EntityType) (l : String)
      → Distinct entries
      → Free ep typ dropped entries
      → (write_listed ep typ entries dropped).local e u l ≡ (
          if ep.id == e && same_type typ u
          then corrected l entries (s.local e u l)
          else s.local e u l)
  unfolding dropped
  written e u l d f = ground (
    arith,
    write_listed-local ep typ e u l entries dropped d f dropped-IsConsistent,
    drop_listed-local ep typ e u l entries s,
    corrected_dropped l entries (s.local e u l),
  )

  pub corrected_parts :
      (t : Store)
      → correct ep typ entries s ≡ ok t
      → (check_listed [] entries ≡ ok tt)
        × (check_targets s ep typ entries entries ≡ ok tt)
        × (t ≡ write_listed ep typ entries dropped)
  unfolding correct dropped
  corrected_parts t h = ground arith

  entries-Free : check_targets s ep typ entries entries ≡ ok tt → Free ep typ dropped entries
  entries-Free h = listed-Free entries (λ l k. k) (check_targets-Fits s ep typ entries entries h)

  -- An accepted correction keeps the two maps of the mapping consistent, through any swap.
  pub correct-IsConsistent : (t : Store) → correct ep typ entries s ≡ ok t → IsConsistent t
  correct-IsConsistent t h =
      let parts = corrected_parts t h in
      rw parts.2 (
        write_listed-IsConsistent ep typ entries dropped (check_listed-Distinct [] entries parts.0)
          (entries-Free parts.1) dropped-IsConsistent)

  -- Each listed localId ends where its entry says, and every other key stays.
  pub correct-local :
      (t : Store) (e : ℕ) (u : EntityType) (l : String)
      → correct ep typ entries s ≡ ok t
      → t.local e u l ≡ (
          if ep.id == e && same_type typ u
          then corrected l entries (s.local e u l)
          else s.local e u l)
  correct-local t e u l h =
      let parts = corrected_parts t h in
      rw parts.2 (written e u l (check_listed-Distinct [] entries parts.0) (entries-Free parts.1))

  -- An accepted correction makes no revision, takes no position and is sent to nobody.
  pub correct_quiet :
      (t : Store)
      → correct ep typ entries s ≡ ok t
      → (t.objects ≡ s.objects) × (t.seq ≡ s.seq) × (t.hub ≡ s.hub)
  unfolding dropped
  correct_quiet t h = (ap (λ x. x.0) same, ap (λ x. x.1) same, ap (λ x. x.2) same)
    where
      same : unbound t ≡ unbound s
      same =
          rw (corrected_parts t h).2
            (write_listed-unbound ep typ entries dropped ∙ drop_listed-unbound ep typ entries s)
