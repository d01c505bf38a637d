-- ===== src/Client/Identity.antt =====
-- The identities of a delivered object: agmasync/identity.go, and Envelope of agmasync/entity.go.
use masterdata_sync_working.Prelude.{
  ℕ, String, Bool, Option, none, some, List, [], ◌∷◌, str_eq_refl, if◌then◌else◌, ◌≡◌, arith,
}
use masterdata_sync_working.Failure.{Result, ok, err, invalid}
use masterdata_sync_working.Platform.{Platform}
use masterdata_sync_working.Model.{EntityType}
use masterdata_sync_working.Identity.{
  WireId, WireUniqueId, LocalEntry, is_agrirouter, agrirouter_id_source, canonical_id, render_with,
}

-- The fields common to every delivered object, with the identifiers lifted out of `content.id`.
pub record Envelope : Type 0 where
  pub typ : EntityType
  pub agrirouter_id : Option ℕ
  pub local_id : Option String
  pub tenant_id : Option ℕ
  pub revision : Option ℕ
  pub active : Option Bool
  pub recipient : Option ℕ

module _ (p : Platform) where
  -- The loop of IdentityOf: the first entry of the reserved source is the one.
  unfoldable pub agrirouter_entry : List WireUniqueId → Result (Option ℕ)
  unfolding is_agrirouter
  agrirouter_entry [] = ok none
  agrirouter_entry (e ∷ es) =
      if is_agrirouter e
      then elim (p.parse_uuid e.id_text) [
        | none ↦ err (invalid "reading agrirouter identifier")
        | some id ↦ ok (some id)
      ]
      else agrirouter_entry es

  -- IdentityOf
  unfoldable pub identity_of : WireId → Result (Option ℕ × Option String)
  unfolding agrirouter_entry
  identity_of id = elim (agrirouter_entry id.unique_ids) [
    | err e ↦ err e
    | ok agrirouter_id ↦ ok (agrirouter_id, id.reference_id)
  ]

  -- Whatever identifier the router sends an endpoint for an object, the participant reads from it the
  -- object's canonical identifier and the endpoint's own, absent where the endpoint has bound none.
  pub identity_of-render_with :
      (id : ℕ) (local : Option String) (e : Option LocalEntry)
      → identity_of (render_with p id local e) ≡ ok (some id, local)
  unfolding identity_of render_with canonical_id is_agrirouter
  identity_of-render_with id none e =
      ground (arith, str_eq_refl agrirouter_id_source, p.parse_uuid-uuid_string id)
  identity_of-render_with id (some l) none =
      ground (arith, str_eq_refl agrirouter_id_source, p.parse_uuid-uuid_string id)
  identity_of-render_with id (some l) (some e) =
      ground (arith, str_eq_refl agrirouter_id_source, p.parse_uuid-uuid_string id)
