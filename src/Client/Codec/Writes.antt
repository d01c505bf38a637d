-- ===== src/Client/Codec/Writes.antt =====
-- What the platform's write carries: ToEntity of
-- reference-client/internal/platform/store/entities.go, against what
-- reference-client/internal/testrouter requires of a write.
use masterdata_sync_working.Prelude.{
  String, true, false, none, List, [], ◌∷◌, any, str_eq, eq_iff, ◌≡◌, refl, ◌∙◌, arith, Bool-cases,
  inl, inr,
}
use masterdata_sync_working.Json.{Fields, get}
use masterdata_sync_working.Failure.{ok}
use masterdata_sync_working.Model.{EntityType, party, farm, field, field_boundary, details_key}
use masterdata_sync_working.MergePatch.{required_attributes}
use masterdata_sync_working.Client.Database.{Record, columns}
use masterdata_sync_working.Client.Codec.{not_nullable, modelled_parts, content_to_send}
use masterdata_sync_working.Client.Codec.Steps.{is_null_at, sent_get}

-- What is sent as its parts is a column.
parts_columns :
    (typ : EntityType) (k : String)
    → any (λ (p : String × List String). str_eq p.0 k) (modelled_parts typ) ≡ true
    → any (λ n. str_eq n k) (columns typ) ≡ true
unfolding columns modelled_parts
parts_columns party k h = ground (arith, h)
parts_columns farm k h = cc
parts_columns field k h = cc
parts_columns field_boundary k h = ground (arith, h)

details_column :
    (typ : EntityType) (k : String)
    → typ ≡ party
    → str_eq details_key k ≡ true
    → any (λ n. str_eq n k) (columns typ) ≡ true
unfolding columns
details_column typ k is h = rw is (ground (arith, h))

one :
    (k : String)
    → any (str_eq k) ("name" ∷ []) ≡ true
    → (any (str_eq k) not_nullable ≡ true)
      × (str_eq "id" k ≡ false)
      × (str_eq details_key k ≡ false)
one k h = let is : k ≡ "name" = (eq_iff k "name").0 (ground (arith, h)) in rw is (refl, refl, refl)

required_cases :
    (typ : EntityType) (k : String)
    → any (str_eq k) (required_attributes typ) ≡ true
    → (any (str_eq k) not_nullable ≡ true)
      × (str_eq "id" k ≡ false)
      × (str_eq details_key k ≡ false)
required_cases field_boundary k h = elim (Bool-cases (str_eq k "boundary")) [
  | inl boundary ↦
      let is : k ≡ "boundary" = (eq_iff k "boundary").0 boundary in rw is (refl, refl, refl)
  | inr other ↦
      let is : k ≡ "_agmasync_fieldRef" =
        (eq_iff k "_agmasync_fieldRef").0 (ground (arith, h, other)) in
      rw is (refl, refl, refl)
]
required_cases party k h = one k h
required_cases farm k h = one k h
required_cases field k h = one k h

-- An attribute that is neither the identifier nor a column, and that the record's modelled content
-- does not hold, is in no write of the record, neither with a value nor as null.
pub content_to_send-unmodelled :
    (r : Record) (l : String) (out : Fields) (k : String)
    → content_to_send r l ≡ ok out
    → any (λ n. str_eq n k) ("id" ∷ columns r.typ) ≡ false
    → get k r.modelled ≡ none
    → get k out ≡ none
content_to_send-unmodelled r l out k h no_column absent =
    elim (sent_get k r l out h (ground (arith, no_column))) [
      | inl same ↦ same ∙ absent
      | inr (inl (column, _)) ↦ ground (arith, column, no_column)
      | inr (inr (inl (details, is))) ↦
          let column = details_column r.typ k is details in ground (arith, column, no_column)
      | inr (inr (inr (part, _))) ↦
          let column = parts_columns r.typ k part in ground (arith, column, no_column)
    ]

-- What agrirouter requires is never sent as null, where the record has no null for it.
pub content_to_send-required :
    (r : Record) (l : String) (out : Fields) (k : String)
    → content_to_send r l ≡ ok out
    → any (str_eq k) (required_attributes r.typ) ≡ true
    → is_null_at (get k r.modelled) ≡ false
    → is_null_at (get k out) ≡ false
content_to_send-required r l out k h required held =
    let must = required_cases r.typ k required in
    elim (sent_get k r l out h must.1) [
      | inl same ↦ rw same held
      | inr (inl (_, may)) ↦ let never = must.0 in ground (arith, may, never)
      | inr (inr (inl (details, is))) ↦ let never = must.2 in ground (arith, details, never)
      | inr (inr (inr (_, sent))) ↦ sent
    ]
