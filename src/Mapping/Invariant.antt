-- ===== src/Mapping/Invariant.antt =====
-- The two maps of the identifier mapping say the same: local and canonical of the store in
-- reference-client/internal/testrouter/ssot.go.
use masterdata_sync_working.Prelude.{
  ℕ, String, Bool, Option, none, some, ◌&&◌, ◌==◌, str_eq, eq_iff, str_eq_refl, ◌≡◌, ◌≢◌, refl,
  arith,
}
use masterdata_sync_working.Model.{EntityType, same_type, Endpoint}
use masterdata_sync_working.Store.{Store, object_type}
use masterdata_sync_working.Store.Lookup.{same_type_eq, same_type_refl}
use masterdata_sync_working.Mapping.{write_pair, drop_pair}

-- Every pair is in both maps, and names an object of the type that it is held under.
pub record IsConsistent (s : Store) : Type 0 where
  pub from_local :
      (e : ℕ) (t : EntityType) (l : String) (id : ℕ)
      → s.local e t l ≡ some id
      → (object_type s id ≡ some t) × (s.canonical e id ≡ some l)
  pub held : (e id : ℕ) (l : String) → s.canonical e id ≡ some l → object_type s id ≢ none
  pub from_canonical :
      (e id : ℕ) (l : String) (t : EntityType)
      → s.canonical e id ≡ some l
      → object_type s id ≡ some t
      → s.local e t l ≡ some id

-- Whether a key is the one that an entry is set at.
abbrev pub key_is : ℕ → EntityType → String → ℕ → EntityType → String → Bool
key_is ep typ l e t k = ep == e && same_type typ t && str_eq l k

pub write_pair-IsConsistent :
    (ep : Endpoint) (typ : EntityType) (l : String) (id : ℕ) (s : Store)
    → IsConsistent s
    → object_type s id ≡ some typ
    → s.local ep.id typ l ≡ none
    → s.canonical ep.id id ≡ none
    → IsConsistent (write_pair ep typ l id s)
unfolding write_pair
write_pair-IsConsistent ep typ l id s inv known no_local no_canonical = record {
  from_local = λ e t k i h.
      ground
        (arith, same_type_eq typ t, eq_iff l k, inv.from_local e t k i, inv.from_local e t k id);
  held = λ e i k h. ground (arith, inv.held e i k);
  from_canonical = λ e i k t h h'.
      ground (arith, same_type_refl t, same_type_eq typ t, eq_iff l k, inv.from_canonical e i k t);
}

pub drop_pair-IsConsistent :
    (ep : Endpoint) (typ : EntityType) (l : String) (s : Store)
    → IsConsistent s
    → IsConsistent (drop_pair ep typ l (s.local ep.id typ l) s)
unfolding drop_pair
drop_pair-IsConsistent ep typ l s inv = at (s.local ep.id typ l) refl
  where
    dropped :
        (id : ℕ) → s.local ep.id typ l ≡ some id → IsConsistent (drop_pair ep typ l (some id) s)
    dropped id held = record {
      from_local = λ e t k i h. ground (
        arith,
        same_type_eq typ t,
        same_type_refl t,
        eq_iff l k,
        str_eq_refl l,
        inv.from_local e t k i,
        inv.from_local e t k id,
        inv.from_local e typ l id,
      );
      held = λ e i k h. ground (arith, inv.held e i k);
      from_canonical = λ e i k t h h'.
          ground (arith, same_type_eq typ t, eq_iff l k, inv.from_canonical e i k t);
    }

    at : (o : Option ℕ) → s.local ep.id typ l ≡ o → IsConsistent (drop_pair ep typ l o s)
    at none e = inv
    at (some id) e = dropped id e

-- The maps are looked at, and the objects' types: another store with the same ones is as good.
pub IsConsistent-same :
    (s t : Store)
    → t.local ≡ s.local
    → t.canonical ≡ s.canonical
    → ((id : ℕ) → object_type t id ≡ object_type s id)
    → IsConsistent s
    → IsConsistent t
IsConsistent-same s t same_local same_canonical same_types inv = record {
  from_local =
      λ e u l i h. rw (same_types i, same_canonical) (inv.from_local e u l i (rw same_local at h));
  held = λ e i l h. rw (same_types i) (inv.held e i l (rw same_canonical at h));
  from_canonical = λ e i l u h h'.
      rw same_local (inv.from_canonical e i l u (rw same_canonical at h) (rw (same_types i) at h'));
}
