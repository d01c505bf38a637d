-- ===== src/Client/Recognise.antt =====
-- ByName of reference-client/internal/platform/sync/recognise.go: a delivered object matched by name to
-- a record that the tenant holds. Go's strings.TrimSpace and strings.ToLower are the argument `fold`.
use masterdata_sync_working.Prelude.{
  ℕ, String, Bool, true, false, not, Option, none, some, List, [], ◌∷◌, all, str_eq, if◌then◌else◌,
  ◌≡◌, refl, subst, arith, Bool-cases, Option-cases, inl, inr, ◌⊎◌,
}
use masterdata_sync_working.Json.{Value, Fields, str, get}
use masterdata_sync_working.Failure.{panic, Result, ok, err, not_found, ◌>>=◌, >>=-eq-ok}
use masterdata_sync_working.Model.{EntityType, field_boundary, same_type}
use masterdata_sync_working.Client.Pairs.{bound_in_tenant}
use masterdata_sync_working.Client.Database.{Entity, Tables, Database, local_ids}
use masterdata_sync_working.Client.Apply.{Recognition}

abbrev text_or_empty : Option Value → String
text_or_empty (some (str s)) = s
text_or_empty _ = ""

-- nameFrom: "" where there is no key; a boundary has none.
unfoldable pub name_from : (String → String) → EntityType → Fields → String
name_from fold typ fields =
    if same_type typ field_boundary then "" else fold (text_or_empty (get "name" fields))

-- Recognition{}
abbrev unrecognised : Recognition
unrecognised = record { local_id = ""; awaiting_user = false; blocked = false }

-- No record, the one, or a person's decision between several.
abbrev conclusion : List String → Recognition
conclusion [] = unrecognised
conclusion (l ∷ []) = record unrecognised { local_id = l }
conclusion (l ∷ k ∷ ls) = record unrecognised { awaiting_user = true; blocked = true }

-- `append(found, id)`
abbrev pub appended : String → Result (List String) → Result (List String)
appended l rest = rest >>= λ ls. ok (l ∷ ls)

module _ {T : Type 0} (fold : String → String) (db : Tables T) (tenant : String) where
  -- The loop over the tenant's records: those that nothing in the agrirouter tenant binds and that
  -- have the name.
  unfoldable pub candidates :
      ℕ → EntityType → String → Database T → List String → Result (List String)
  unfolding name_from bound_in_tenant
  candidates tenant_id typ wanted d [] = ok []
  candidates tenant_id typ wanted d (l ∷ ls) =
      let rest = candidates tenant_id typ wanted d ls in
      if bound_in_tenant tenant_id typ l d.pairs then rest else elim (db.load typ l d.records) [
        | none ↦ err not_found
        | some r ↦ if str_eq (name_from fold typ r.modelled) wanted then appended l rest else rest
      ]

  abbrev pub concluded : Database T → List String → Result (Database T × Recognition)
  concluded d ls = ok (d, conclusion ls)

  -- Recognise, which writes nothing
  unfoldable pub by_name : Entity → Database T → Result (Database T × Recognition)
  unfolding candidates local_ids
  by_name e d =
      let typ = e.envelope.typ in
      let wanted = name_from fold typ e.content in
      if str_eq wanted "" then ok (d, unrecognised) else elim e.envelope.tenant_id [
        | none ↦ err panic
        | some tenant_id ↦
            candidates tenant_id typ wanted d (local_ids tenant typ d) >>= concluded d
      ]

  free_rest :
      (free : String → Bool) (l : String) (call : Result (List String)) (found : List String)
      → free l ≡ true
      → ((ls : List String) → call ≡ ok ls → all free ls ≡ true)
      → appended l call ≡ ok found
      → all free found ≡ true
  free_rest free l call found here later h =
      let (ls, rest, is) = >>=-eq-ok (λ ls. ok (l ∷ ls)) call h in
      let tail = later ls rest in ground (arith, is, here, tail)

  candidates-free :
      (tenant_id : ℕ) (typ : EntityType) (wanted : String) (d : Database T) (ls : List String)
      (found : List String)
      → candidates tenant_id typ wanted d ls ≡ ok found
      → all (λ l. not (bound_in_tenant tenant_id typ l d.pairs)) found ≡ true
  unfolding candidates
  candidates-free tenant_id typ wanted d [] found h = ground (arith, h)
  candidates-free tenant_id typ wanted d (l ∷ ls) found h =
      let later = candidates-free tenant_id typ wanted d ls in
      elim (Bool-cases (bound_in_tenant tenant_id typ l d.pairs)) [
        | inl taken ↦ later found (rw (taken, candidates) at h)
        | inr loose ↦ elim (Option-cases (db.load typ l d.records)) [
          | inl gone ↦ ground (arith, h, loose, gone)
          | inr (r, loaded) ↦ elim (Bool-cases (str_eq (name_from fold typ r.modelled) wanted)) [
            | inl same ↦
                free_rest (λ l. not (bound_in_tenant tenant_id typ l d.pairs)) l
                  (candidates tenant_id typ wanted d ls) found (rw loose refl) later
                  (rw (loose, loaded, same, candidates) at h)
            | inr other ↦ later found (rw (loose, loaded, other, candidates) at h)
          ]
        ]
      ]

  answer-free :
      (tenant_id : ℕ) (typ : EntityType) (d : Database T) (ls : List String)
      → all (λ l. not (bound_in_tenant tenant_id typ l d.pairs)) ls ≡ true
      → ((conclusion ls).local_id ≡ "")
        ⊎ (bound_in_tenant tenant_id typ (conclusion ls).local_id d.pairs ≡ false)
  answer-free tenant_id typ d [] free = inl refl
  answer-free tenant_id typ d (l ∷ []) free = inr (ground (arith, free))
  answer-free tenant_id typ d (l ∷ k ∷ ls) free = inl refl

  answered :
      (tenant_id : ℕ) (typ : EntityType) (d d' : Database T) (ls : List String)
      (known : Recognition)
      → all (λ l. not (bound_in_tenant tenant_id typ l d.pairs)) ls ≡ true
      → concluded d ls ≡ ok (d', known)
      → (d' ≡ d)
        × ((known.local_id ≡ "") ⊎ (bound_in_tenant tenant_id typ known.local_id d.pairs ≡ false))
  answered tenant_id typ d d' ls known free h =
      subst
        (λ (q : Database T × Recognition).
          (q.0 ≡ d)
          × ((q.1.local_id ≡ "") ⊎ (bound_in_tenant tenant_id typ q.1.local_id d.pairs ≡ false)))
        (same _ _ h) (refl, answer-free tenant_id typ d ls free)
    where
      same : (p q : Database T × Recognition) → ok p ≡ ok q → p ≡ q
      same p q e = cc

  -- A delivered object is matched to no record that an endpoint has bound in the object's tenant, and
  -- matching writes nothing.
  pub by_name-unbound :
      (e : Entity) (d d' : Database T) (known : Recognition) (tenant_id : ℕ)
      → by_name e d ≡ ok (d', known)
      → e.envelope.tenant_id ≡ some tenant_id
      → (d' ≡ d)
        × ((known.local_id ≡ "")
            ⊎ (bound_in_tenant tenant_id e.envelope.typ known.local_id d.pairs ≡ false))
  unfolding by_name
  by_name-unbound e d d' known tenant_id h of =
      elim (Bool-cases (str_eq (name_from fold e.envelope.typ e.content) "")) [
        | inl unnamed ↦ answered tenant_id e.envelope.typ d d' [] known refl (rw unnamed at h)
        | inr named ↦
            let (ls, found, same) =
              >>=-eq-ok (concluded d)
                (candidates tenant_id e.envelope.typ (name_from fold e.envelope.typ e.content) d
                  (local_ids tenant e.envelope.typ d))
                (ground (arith, h, named, of)) in
            answered tenant_id e.envelope.typ d d' ls known
              (candidates-free tenant_id e.envelope.typ _ d _ ls found) same
      ]
