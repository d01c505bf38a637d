-- ===== src/Client/Codec/Steps.antt =====
-- What each step of ToEntity does to one attribute:
-- reference-client/internal/platform/store/entities.go.
use masterdata_sync_working.Prelude.{
  String, Bool, true, false, ◌||◌, Option, none, some, List, [], ◌∷◌, any, str_eq, eq_iff,
  if◌then◌else◌, ◌≡◌, refl, sym, ap, ◌∙◌, arith, Bool-cases, inl, inr, ◌⊎◌,
}
use masterdata_sync_working.Json.{
  Fields, Value, null, obj, str, entry, empty, get, put, del, has, is_null,
}
use masterdata_sync_working.Json.Laws.{get-put, get-del}
use masterdata_sync_working.Failure.{ok, ◌>>=◌, >>=-eq-ok}
use masterdata_sync_working.Model.{EntityType, party, same_type, details_key}
use masterdata_sync_working.Store.Lookup.{same_type_eq}
use masterdata_sync_working.Client.Database.{Record, columns}
use masterdata_sync_working.Client.Codec.{
  nested_fields, not_nullable, is_nested, with_nulls, with_details, with_parts, parts_of,
  parts_patch, with_patch, modelled_parts, modelled_details, party_type, details_patch,
  content_to_send,
}

abbrev pub is_null_at : Option Value → Bool
is_null_at none = false
is_null_at (some v) = is_null v

ok_inj : {a b : Fields} → ok a ≡ ok b → a ≡ b
ok_inj e = cc

parts_patch_obj :
    (raw : Option Value) (parts : List String) (v : Value)
    → parts_patch raw parts ≡ ok (some v)
    → is_null v ≡ false
unfolding parts_patch is_null
parts_patch_obj raw parts v h =
    let (held, _, made) = >>=-eq-ok _ (nested_fields raw) h in ground (arith, made)

module _ (k : String) where
  null_step :
      (c : Bool) (name : String) (fields : Fields)
      → (get k (if c then fields else put name null fields) ≡ get k fields)
        ⊎ ((c ≡ false) × (str_eq name k ≡ true))
  null_step true name fields = inl refl
  null_step false name fields = elim (Bool-cases (str_eq name k)) [
    | inl same ↦ inr (refl, same)
    | inr other ↦ let e = get-put k name null fields in inl (ground (arith, e, other))
  ]

  -- A column's attribute is left, or is sent as null where it may be.
  with_nulls-get :
      (typ : EntityType) (names : List String) (fields : Fields)
      → let out = get k (with_nulls typ names fields) in
        (out ≡ get k fields)
        ⊎ ((any (λ n. str_eq n k) names ≡ true) × (any (str_eq k) not_nullable ≡ false))
  unfolding with_nulls
  with_nulls-get typ [] fields = inl refl
  with_nulls-get typ (name ∷ names) fields =
      let c =
        has name fields
        || any (str_eq name) not_nullable
        || is_nested typ name
        || str_eq name details_key in
      elim (with_nulls-get typ names (if c then fields else put name null fields)) [
        | inr (later, may) ↦ inr (ground (arith, later), may)
        | inl kept ↦ elim (null_step c name fields) [
          | inl same ↦ inl (kept ∙ same)
          | inr (missing, here) ↦ inr (
            ground (arith, here),
            rw (sym ((eq_iff name k).0 here))
                (free name (is_nested typ name) (has name fields) missing),
          )
        ]
      ]
    where
      free :
          (name : String) (n h : Bool)
          → (h || any (str_eq name) not_nullable || n || str_eq name details_key) ≡ false
          → any (str_eq name) not_nullable ≡ false
      free name n h e = ground (arith, e)

  with_details-get :
      (r : Record) (fields out : Fields)
      → with_details r fields ≡ ok out
      → (get k out ≡ get k fields) ⊎ ((str_eq details_key k ≡ true) × (r.typ ≡ party))
  unfolding with_details
  with_details-get r fields out h = elim (Bool-cases (same_type r.typ party)) [
    | inr other ↦ inl (ap (get k) (sym (ok_inj (rw other at h))))
    | inl is ↦ elim (Bool-cases (str_eq details_key k)) [
      | inl here ↦ inr (here, same_type_eq r.typ party is)
      | inr elsewhere ↦ inl (at (modelled_details (party_type r)) elsewhere (rw is at h))
    ]
  ]
    where
      at :
          (m : Option (List String))
          → str_eq details_key k ≡ false
          → (elim m [
            | none ↦ ok (del details_key fields)
            | some parts ↦ details_patch (get details_key r.modelled) parts >>= λ details.
                ok (put details_key details fields)
          ])
            ≡ ok out
          → get k out ≡ get k fields
      at none e h =
          let deleted = get-del k details_key fields in
          sym (ap (get k) (ok_inj h)) ∙ deleted ∙ (rw e refl)
      at (some parts) e h =
          let (details, _, written) =
            >>=-eq-ok (λ details. ok (put details_key details fields))
              (details_patch (get details_key r.modelled) parts) h in
          sym (ap (get k) (ok_inj written)) ∙ get-put k details_key details fields ∙ (rw e refl)

  -- Where one attribute's parts are left, dropped or sent.
  abbrev Patched : String → Fields → Fields → Type 0
  Patched name fields out =
      (get k out ≡ get k fields) ⊎ ((str_eq name k ≡ true) × (is_null_at (get k out) ≡ false))

  deleted : (name : String) (fields : Fields) → Patched name fields (del name fields)
  deleted name fields =
      let e = get-del k name fields in
      elim (Bool-cases (str_eq name k)) [
        | inl here ↦ inr (here, rw e (rw here refl))
        | inr elsewhere ↦ inl (e ∙ (rw elsewhere refl))
      ]

  with_patch-get :
      (name : String) (patch : Option Value) (fields : Fields)
      → ((v : Value) → patch ≡ some v → is_null v ≡ false)
      → Patched name fields (with_patch name patch fields)
  with_patch-get name none fields h = deleted name fields
  with_patch-get name (some v) fields h =
      let e = get-put k name v fields in
      elim (Bool-cases (str_eq name k)) [
        | inl here ↦ inr (here, rw e (rw here (h v refl)))
        | inr elsewhere ↦ inl (e ∙ (rw elsewhere refl))
      ]

  then_parts :
      (p : String × List String) (ps : List (String × List String)) (fields mid out : Fields)
      → (get k out ≡ get k mid)
        ⊎ ((any (λ (p : String × List String). str_eq p.0 k) ps ≡ true)
            × (is_null_at (get k out) ≡ false))
      → Patched p.0 fields mid
      → (get k out ≡ get k fields)
        ⊎ ((any (λ (p : String × List String). str_eq p.0 k) (p ∷ ps) ≡ true)
            × (is_null_at (get k out) ≡ false))
  then_parts p ps fields mid out (inr (later, sent)) first = inr (ground (arith, later), sent)
  then_parts p ps fields mid out (inl kept) (inl same) = inl (kept ∙ same)
  then_parts p ps fields mid out (inl kept) (inr (here, sent)) =
      inr (ground (arith, here), rw kept sent)

  with_parts-get :
      (r : Record) (ps : List (String × List String)) (fields out : Fields)
      → with_parts r ps fields ≡ ok out
      → (get k out ≡ get k fields)
        ⊎ ((any (λ (p : String × List String). str_eq p.0 k) ps ≡ true)
            × (is_null_at (get k out) ≡ false))
  unfolding with_parts
  with_parts-get r [] fields out h = inl (ground arith)
  with_parts-get r (p ∷ ps) fields out h =
      at (parts_of r p) (λ mid h. with_parts-get r ps mid out h) h
    where
      at :
          (m : List String)
          → ((mid : Fields)
              → with_parts r ps mid ≡ ok out
              → (get k out ≡ get k mid)
                ⊎ ((any (λ (p : String × List String). str_eq p.0 k) ps ≡ true)
                    × (is_null_at (get k out) ≡ false)))
          → (elim m [
            | [] ↦ with_parts r ps (del p.0 fields)
            | part ∷ parts ↦ parts_patch (get p.0 r.modelled) (part ∷ parts) >>= λ patch.
                with_parts r ps (with_patch p.0 patch fields)
          ])
            ≡ ok out
          → (get k out ≡ get k fields)
            ⊎ ((any (λ (p : String × List String). str_eq p.0 k) (p ∷ ps) ≡ true)
                × (is_null_at (get k out) ≡ false))
      at [] later h =
          then_parts p ps fields (del p.0 fields) out (later (del p.0 fields) h)
            (deleted p.0 fields)
      at (part ∷ parts) later h =
          let (patch, made, rest) =
            >>=-eq-ok (λ patch. with_parts r ps (with_patch p.0 patch fields))
              (parts_patch (get p.0 r.modelled) (part ∷ parts)) h in
          then_parts p ps fields (with_patch p.0 patch fields) out
            (later (with_patch p.0 patch fields) rest)
            (with_patch-get p.0 patch fields
              (λ v e. parts_patch_obj (get p.0 r.modelled) (part ∷ parts) v (made ∙ ap ok e)))

  -- What is sent of an attribute other than `id` is what the record has for it, a null where a column
  -- that may be removed has no value, a party's details, or some parts.
  pub sent_get :
      (r : Record) (l : String) (out : Fields)
      → content_to_send r l ≡ ok out
      → str_eq "id" k ≡ false
      → (get k out ≡ get k r.modelled)
        ⊎ ((any (λ n. str_eq n k) (columns r.typ) ≡ true) × (any (str_eq k) not_nullable ≡ false))
        ⊎ ((str_eq details_key k ≡ true) × (r.typ ≡ party))
        ⊎ ((any (λ (p : String × List String). str_eq p.0 k) (modelled_parts r.typ) ≡ true)
            × (is_null_at (get k out) ≡ false))
  unfolding content_to_send
  sent_get r l out h other =
      let base = with_nulls r.typ (columns r.typ) r.modelled in
      let (detailed, d, h) =
        >>=-eq-ok
          (λ fields. with_parts r (modelled_parts r.typ) fields >>= λ fields.
            ok (put "id" (obj (entry "referenceId" (str l) empty)) fields))
          (with_details r base) h in
      let (parted, p, h) =
        >>=-eq-ok (λ fields. ok (put "id" (obj (entry "referenceId" (str l) empty)) fields))
          (with_parts r (modelled_parts r.typ) detailed) h in
      let last : get k out ≡ get k parted =
        ap (get k) (sym (ok_inj h))
        ∙ get-put k "id" (obj (entry "referenceId" (str l) empty)) parted
        ∙ (rw other refl) in
      elim (with_parts-get r (modelled_parts r.typ) detailed parted p) [
        | inr (part, sent) ↦ inr (inr (inr (part, rw last sent)))
        | inl same ↦ elim (with_details-get r base detailed d) [
          | inr details ↦ inr (inr (inl details))
          | inl same' ↦ elim (with_nulls-get r.typ (columns r.typ) r.modelled) [
            | inl kept ↦ inl (last ∙ same ∙ same' ∙ kept)
            | inr nulled ↦ inr (inl nulled)
          ]
        ]
      ]
