-- ===== src/Identity/Wire.antt =====
-- `Id` and references to and from JSON: the struct tags of wireID, wireUniqueID and reference in
-- reference-client/internal/testrouter/identity.go and references.go. An unknown key is ignored,
-- and a value of another type is json.Unmarshal's error, `none` here.
use masterdata_sync_working.Prelude.{String, Option, none, some, List, [], ◌∷◌, ◌≡◌, refl, arith}
use masterdata_sync_working.Json.{
  Value, null, str, arr, obj, Items, nil, cons, Fields, empty, entry, get,
}
use masterdata_sync_working.Identity.{WireId, WireUniqueId}

infixl 5 ◌>>=◌
abbrev ◌>>=◌ {ℓ κ} : {A : Type ℓ} {B : Type κ} → Option A → (A → Option B) → Option B
none >>= f = none
some a >>= f = f a

-- A `*string` field: absent and null leave it nil.
unfoldable pub decode_pointer : Option Value → Option (Option String)
decode_pointer none = some none
decode_pointer (some null) = some none
decode_pointer (some (str s)) = some (some s)
decode_pointer (some _) = none

-- A `string` field: absent and null leave it empty.
decode_text : Option Value → Option String
decode_text none = some ""
decode_text (some null) = some ""
decode_text (some (str s)) = some s
decode_text (some _) = none

decode_unique_id : Value → Option WireUniqueId
unfolding decode_text decode_pointer get
decode_unique_id null = some (record { id_text = ""; id_type_code = ""; id_source = none })
decode_unique_id (obj fs) = do
  text ← decode_text (get "idText" fs)
  code ← decode_text (get "idTypeCode" fs)
  source ← decode_pointer (get "idSource" fs)
  some (record { id_text = text; id_type_code = code; id_source = source })
decode_unique_id _ = none

decode_items : Items → Option (List WireUniqueId)
unfolding decode_unique_id
decode_items nil = some []
decode_items (cons v vs) = do u ← decode_unique_id v; us ← decode_items vs; some (u ∷ us)

decode_unique_ids : Option Value → Option (List WireUniqueId)
unfolding decode_items
decode_unique_ids none = some []
decode_unique_ids (some null) = some []
decode_unique_ids (some (arr vs)) = decode_items vs
decode_unique_ids (some _) = none

abbrev pub zero_id : WireId
zero_id = record { reference_id = none; unique_ids = [] }

unfoldable pub decode_id : Value → Option WireId
unfolding decode_unique_ids decode_pointer get
decode_id null = some zero_id
decode_id (obj fs) = do
  r ← decode_pointer (get "referenceId" fs)
  us ← decode_unique_ids (get "uniqueIds" fs)
  some (record { reference_id = r; unique_ids = us })
decode_id _ = none

id_field : Option Value → Option WireId
unfolding decode_id
id_field none = some zero_id
id_field (some v) = decode_id v

-- json.Unmarshal into a `reference`.
unfoldable pub decode_reference : Value → Option WireId
unfolding id_field
decode_reference null = some zero_id
decode_reference (obj fs) = id_field (get "id" fs)
decode_reference _ = none

-- `omitempty`
optional_text : String → Option String → Fields → Fields
optional_text k none fs = fs
optional_text k (some s) fs = entry k (str s) fs

encode_unique_id : WireUniqueId → Value
unfolding optional_text
encode_unique_id u = obj (
    entry "idText" (str u.id_text)
      (entry "idTypeCode" (str u.id_type_code) (optional_text "idSource" u.id_source empty)))

encode_items : List WireUniqueId → Items
unfolding encode_unique_id
encode_items [] = nil
encode_items (u ∷ us) = cons (encode_unique_id u) (encode_items us)

encode_unique_ids : List WireUniqueId → Fields
unfolding encode_items
encode_unique_ids [] = empty
encode_unique_ids (u ∷ us) = entry "uniqueIds" (arr (encode_items (u ∷ us))) empty

unfoldable pub encode_id : WireId → Value
unfolding optional_text encode_unique_ids
encode_id id = obj (optional_text "referenceId" id.reference_id (encode_unique_ids id.unique_ids))

-- json.Marshal of a `reference`.
unfoldable pub encode_reference : WireId → Value
unfolding encode_id
encode_reference id = obj (entry "id" (encode_id id) empty)

decode-encode_unique_id : (u : WireUniqueId) → decode_unique_id (encode_unique_id u) ≡ some u
unfolding decode_unique_id encode_unique_id
decode-encode_unique_id u = ground arith

decode-encode_items : (us : List WireUniqueId) → decode_items (encode_items us) ≡ some us
unfolding decode_items encode_items
decode-encode_items [] = refl
decode-encode_items (u ∷ us) = ground (arith, decode-encode_unique_id u, decode-encode_items us)

decode-encode_unique_ids :
    (us : List WireUniqueId) → decode_unique_ids (get "uniqueIds" (encode_unique_ids us)) ≡ some us
unfolding decode_unique_ids encode_unique_ids get
decode-encode_unique_ids [] = refl
decode-encode_unique_ids (u ∷ us) = decode-encode_items (u ∷ us)

decode-encode_id : (id : WireId) → decode_id (encode_id id) ≡ some id
unfolding decode_id encode_id get
decode-encode_id id = at id.reference_id id.unique_ids
  where
    at :
        (r : Option String) (us : List WireUniqueId)
        → decode_id (encode_id (record { reference_id = r; unique_ids = us }))
          ≡ some (record { reference_id = r; unique_ids = us })
    at none [] = refl
    at none (u ∷ us) = rw (decode-encode_items (u ∷ us))
    at (some r) [] = refl
    at (some r) (u ∷ us) = rw (decode-encode_items (u ∷ us))

-- A reference that the router writes is read back as the `Id` it was written from.
pub decode-encode_reference : (id : WireId) → decode_reference (encode_reference id) ≡ some id
unfolding decode_reference encode_reference get
decode-encode_reference id = decode-encode_id id
