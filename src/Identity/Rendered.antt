-- ===== src/Identity/Rendered.antt =====
-- What an endpoint is sent as an `Id`, and what the router makes of it when it comes back.
use masterdata_sync_working.Prelude.{
  ℕ, String, Bool, false, Option, none, some, str_eq, ◌≡◌, ◌≢◌, refl, arith, eq_iff, str_eq_refl,
  ap, Bool-cases, ◌⊎◌, inl, inr,
}
use masterdata_sync_working.Failure.{ok, err, invalid}
use masterdata_sync_working.Platform.{Platform}
use masterdata_sync_working.Identity.{
  LocalEntry, is_agrirouter, read, canonical_id, render_with, agrirouter_id_source,
}

abbrev reserved : Option String → Bool
reserved none = false
reserved (some s) = str_eq s agrirouter_id_source

source_is_reserved :
    (e : LocalEntry) → (e.source ≡ some agrirouter_id_source) ⊎ (reserved e.source ≡ false)
source_is_reserved e = at e.source
  where
    at : (o : Option String) → (o ≡ some agrirouter_id_source) ⊎ (reserved o ≡ false)
    at none = inr refl
    at (some s) = elim (Bool-cases (str_eq s agrirouter_id_source)) [
      | inl h ↦ inl (ap some ((eq_iff s agrirouter_id_source).0 h))
      | inr h ↦ inr h
    ]

module _ (p : Platform) where
  pub read-canonical_id : (id : ℕ) → read p (canonical_id p id) ≡ ok (some id, none)
  unfolding read canonical_id is_agrirouter
  read-canonical_id id = rw (p.parse_uuid-uuid_string id) refl

  -- A bound object's `Id`, as its endpoint is sent it, is read back as the object and the local
  -- entry that it was rendered from, if the local identifier is not the canonical one and the
  -- entry's source is not the reserved one.
  pub read-render_with :
      (id : ℕ) (local_id : String) (e : Option LocalEntry)
      → local_id ≢ p.uuid_string id
      → ((l : LocalEntry) → e ≡ some l → l.source ≢ some agrirouter_id_source)
      → read p (render_with p id (some local_id) e) ≡ ok (some id, e)
  unfolding read render_with is_agrirouter
  read-render_with id local_id none other free =
      ground (arith, eq_iff (p.uuid_string id) local_id, p.parse_uuid-uuid_string id)
  read-render_with id local_id (some e) other free = ground (
    arith,
    eq_iff (p.uuid_string id) local_id,
    str_eq_refl local_id,
    p.parse_uuid-uuid_string id,
    free e refl,
    source_is_reserved e,
  )

  -- An endpoint whose own identifier for an object is the canonical one is sent an `Id` that the
  -- router refuses when it comes back, whatever local entry goes with it.
  pub read-render_with_self :
      (id : ℕ) (e : Option LocalEntry)
      → read p (render_with p id (some (p.uuid_string id)) e)
        ≡ err (invalid "the local entry cannot have the reserved idSource")
  unfolding read render_with is_agrirouter
  read-render_with_self id none = ground (arith, str_eq_refl (p.uuid_string id))
  read-render_with_self id (some e) = ground (arith, str_eq_refl (p.uuid_string id))
