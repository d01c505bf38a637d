-- ===== src/InitialLoad/Duplicates.antt =====
-- What applyBindings records and what it rejects:
-- reference-client/internal/testrouter/initialload.go.
use masterdata_sync_working.Prelude.{
  ℕ, String, Bool, true, false, ◌&&◌, none, some, List, [], ◌∷◌, ◌++◌, ◌==◌, str_eq, eq_iff,
  str_eq_refl, if◌then◌else◌, ◌≡◌, ◌⊎◌, inl, inr, refl, arith, Option-cases,
}
use masterdata_sync_working.Failure.{Failure, ok, mapping_conflict}
use masterdata_sync_working.Model.{EntityType, Endpoint, Binding, Rejection}
use masterdata_sync_working.Store.{Store, find_object}
use masterdata_sync_working.Store.Lookup.{same_type_eq, same_type_refl}
use masterdata_sync_working.Mapping.{bind, write_pair}
use masterdata_sync_working.Mapping.Invariant.{IsConsistent}
use masterdata_sync_working.Mapping.Binds.{bind-IsConsistent, bind_cases}
use masterdata_sync_working.Write.Cases.{Result-cases}
use masterdata_sync_working.InitialLoad.{
  is_duplicate, apply_binding, apply_each, apply_bindings, bind_result, rejection_of,
}

-- What one round leaves: what held of the store still holds.
module _ (ep : Endpoint) (duplicate : Binding → Bool) (P : Store → Type 0)
    (step : (s t : Store) (typ : EntityType) (l : String) (id : ℕ)
      → bind ep typ l id s ≡ ok t
      → P s
      → P t) where
  apply_binding_keeps : (d : Bool) (b : Binding) (s : Store) → P s → P (apply_binding ep d b s).0
  unfolding apply_binding bind_result
  apply_binding_keeps true b s h = h
  apply_binding_keeps false b s h = elim (Option-cases (find_object b.agrirouter_id s.objects)) [
    | inl gone ↦ rw (gone, apply_binding) h
    | inr (o, found) ↦ elim (Result-cases (bind ep o.typ b.local_id b.agrirouter_id s)) [
      | inl (t, bound) ↦
          rw (found, apply_binding)
            (rw (bound, bind_result) (step s t o.typ b.local_id b.agrirouter_id bound h))
      | inr (e, refused) ↦ rw (found, apply_binding) (rw (refused, bind_result) h)
    ]
  ]

  pub apply_each_keeps : (bs : List Binding) (s : Store) → P s → P (apply_each ep duplicate bs s).0
  unfolding apply_each
  apply_each_keeps [] s h = h
  apply_each_keeps (b ∷ bs) s h =
      apply_each_keeps bs (apply_binding ep (duplicate b) b s).0
        (apply_binding_keeps (duplicate b) b s h)

-- A confirmation keeps the mapping consistent, whatever pairs it carries.
pub apply_bindings-IsConsistent :
    (ep : Endpoint) (bindings : List Binding) (s : Store)
    → IsConsistent s
    → IsConsistent (apply_bindings ep bindings s).0
unfolding apply_bindings
apply_bindings-IsConsistent ep bindings s inv =
    apply_each_keeps ep (is_duplicate s bindings) IsConsistent
      (λ s t typ l id bound inv. bind-IsConsistent ep typ l id s t inv bound) bindings s inv

-- A bind takes no pair away that was there.
bind_monotone :
    (ep : Endpoint) (e : ℕ) (u : EntityType) (k : String) (i : ℕ) (s t : Store) (typ : EntityType)
    (l : String) (id : ℕ)
    → bind ep typ l id s ≡ ok t
    → s.local e u k ≡ some i
    → t.local e u k ≡ some i
unfolding write_pair
bind_monotone ep e u k i s t typ l id bound h = elim (bind_cases ep typ l id s t bound) [
  | inl same ↦ rw same.1 h
  | inr new ↦ rw new.3 (written new.0)
]
  where
    written : s.local ep.id typ l ≡ none → (write_pair ep typ l id s).local e u k ≡ some i
    written free = ground (arith, eq_iff l k, same_type_eq typ u)

-- Whether a pair is among the rejections.
unfoldable pub rejects : Binding → List Rejection → Bool
rejects b [] = false
rejects b (r ∷ rs) =
    if str_eq r.local_id b.local_id && r.agrirouter_id == b.agrirouter_id
    then true
    else rejects b rs

rejects_left :
    (b : Binding) (rs qs : List Rejection) → rejects b rs ≡ true → rejects b (rs ++ qs) ≡ true
unfolding rejects
rejects_left b [] qs h = cc
rejects_left b (r ∷ rs) qs h = ground (arith, rejects_left b rs qs)

rejects_right :
    (b : Binding) (rs qs : List Rejection) → rejects b qs ≡ true → rejects b (rs ++ qs) ≡ true
unfolding rejects
rejects_right b [] qs h = h
rejects_right b (r ∷ rs) qs h = ground (arith, rejects_right b rs qs)

-- A pair is in the endpoint's mapping, or comes back as a rejection.
abbrev pub Answered : Endpoint → Store → List Rejection → Binding → Type 0
Answered ep t rs b =
    ((typ : EntityType) × (t.local ep.id typ b.local_id ≡ some b.agrirouter_id))
    ⊎ (rejects b rs ≡ true)

abbrev pub AllAnswered : Endpoint → Store → List Rejection → List Binding → Type 0
AllAnswered ep t rs [] = Unit
AllAnswered ep t rs (b ∷ bs) = Answered ep t rs b × AllAnswered ep t rs bs

rejected_self :
    (b : Binding) (r : Rejection)
    → r.local_id ≡ b.local_id
    → r.agrirouter_id ≡ b.agrirouter_id
    → rejects b (r ∷ []) ≡ true
unfolding rejects
rejected_self b r h k = ground (arith, eq_iff r.local_id b.local_id)

rejection_of-rejects : (b : Binding) (e : Failure) → rejects b (rejection_of b e ∷ []) ≡ true
unfolding rejection_of
rejection_of-rejects b (mapping_conflict c) = rejected_self b _ refl refl
rejection_of-rejects b e = rejected_self b _ refl refl

module _ (ep : Endpoint) where
  bound_pair :
      (typ : EntityType) (l : String) (id : ℕ) (s t : Store)
      → bind ep typ l id s ≡ ok t
      → t.local ep.id typ l ≡ some id
  unfolding write_pair
  bound_pair typ l id s t h = elim (bind_cases ep typ l id s t h) [
    | inl same ↦ rw same.1 same.0
    | inr new ↦ rw new.3 (ground (arith, same_type_refl typ, str_eq_refl l))
  ]

  apply_binding-Answered :
      (d : Bool) (b : Binding) (s : Store) → let r = apply_binding ep d b s in Answered ep r.0 r.1 b
  unfolding apply_binding bind_result
  apply_binding-Answered true b s = inr (rejected_self b _ refl refl)
  apply_binding-Answered false b s = elim (Option-cases (find_object b.agrirouter_id s.objects)) [
    | inl gone ↦ rw (gone, apply_binding) (inr (rejected_self b _ refl refl))
    | inr (o, found) ↦ elim (Result-cases (bind ep o.typ b.local_id b.agrirouter_id s)) [
      | inl (t, bound) ↦
          rw (found, apply_binding)
            (rw (bound, bind_result)
              (inl (o.typ, bound_pair o.typ b.local_id b.agrirouter_id s t bound)))
      | inr (e, refused) ↦
          rw (found, apply_binding) (rw (refused, bind_result) (inr (rejection_of-rejects b e)))
    ]
  ]

  later_Answered :
      (duplicate : Binding → Bool) (b : Binding) (bs : List Binding) (s : Store)
      (rs : List Rejection)
      → Answered ep s rs b
      → let r = apply_each ep duplicate bs s in Answered ep r.0 (rs ++ r.1) b
  later_Answered duplicate b bs s rs (inl (typ, held)) = inl (
    typ,
    apply_each_keeps ep duplicate (λ t. t.local ep.id typ b.local_id ≡ some b.agrirouter_id)
        (λ s t u l id bound h.
          bind_monotone ep ep.id typ b.local_id b.agrirouter_id s t u l id bound h)
        bs s held,
  )
  later_Answered duplicate b bs s rs (inr back) = inr (rejects_left b rs _ back)

  AllAnswered-more :
      (t : Store) (rs qs : List Rejection) (bs : List Binding)
      → AllAnswered ep t qs bs
      → AllAnswered ep t (rs ++ qs) bs
  AllAnswered-more t rs qs [] h = tt
  AllAnswered-more t rs qs (b ∷ bs) h = (at h.0, AllAnswered-more t rs qs bs h.1)
    where
      at : Answered ep t qs b → Answered ep t (rs ++ qs) b
      at (inl held) = inl held
      at (inr back) = inr (rejects_right b rs qs back)

  apply_each-AllAnswered :
      (duplicate : Binding → Bool) (bs : List Binding) (s : Store)
      → let r = apply_each ep duplicate bs s in AllAnswered ep r.0 r.1 bs
  unfolding apply_each
  apply_each-AllAnswered duplicate [] s = tt
  apply_each-AllAnswered duplicate (b ∷ bs) s =
      let first = apply_binding ep (duplicate b) b s in
      (
        later_Answered duplicate b bs first.0 first.1 (apply_binding-Answered (duplicate b) b s),
        AllAnswered-more (apply_each ep duplicate bs first.0).0 first.1
            (apply_each ep duplicate bs first.0).1 bs (apply_each-AllAnswered duplicate bs first.0),
      )

  -- Every pair of a confirmation is in the mapping at its end or comes back as a rejection.
  pub apply_bindings-AllAnswered :
      (bindings : List Binding) (s : Store)
      → let r = apply_bindings ep bindings s in AllAnswered ep r.0 r.1 bindings
  unfolding apply_bindings
  apply_bindings-AllAnswered bindings s =
      apply_each-AllAnswered (is_duplicate s bindings) bindings s
