-- ===== src/Mapping/Corrects/Drops.antt =====
-- The last two loops of correct (reference-client/internal/testrouter/ssot.go): every listed pair
-- is dropped, and then each is written.
use masterdata_sync_working.Prelude.{
  ℕ, String, false, ◌&&◌, Option, none, some, List, [], ◌∷◌, ◌==◌, str_eq, eq_iff, str_eq_refl,
  if◌then◌else◌, ◌≡◌, refl, ◌∙◌, arith,
}
use masterdata_sync_working.Model.{Object, EntityType, Endpoint, same_type}
use masterdata_sync_working.Hub.{Hub}
use masterdata_sync_working.Store.{Store, object_type}
use masterdata_sync_working.Store.Lookup.{same_type_eq}
use masterdata_sync_working.Mapping.{
  Correction, lists, targets, drop_pair, drop_listed, write_pair, write_entry, write_listed,
}
use masterdata_sync_working.Mapping.Invariant.{
  IsConsistent, drop_pair-IsConsistent, write_pair-IsConsistent,
}
use masterdata_sync_working.Mapping.Corrects.Checks.{Distinct}

-- Where a request's entries leave a localId.
abbrev pub corrected : String → List Correction → Option ℕ → Option ℕ
corrected l [] o = o
corrected l (e ∷ es) o = if str_eq e.local_id l then e.target else corrected l es o

pub corrected_unlisted :
    (l : String) (es : List Correction) (o : Option ℕ) → lists l es ≡ false → corrected l es o ≡ o
unfolding lists
corrected_unlisted l [] o h = refl
corrected_unlisted l (e ∷ es) o h = ground (arith, corrected_unlisted l es o)

-- What a change of the mapping leaves alone.
abbrev pub unbound : Store → List Object × ℕ × Hub
unbound s = (s.objects, s.seq, s.hub)

module _ (ep : Endpoint) (typ : EntityType) where
  drop_pair-local :
      (e : ℕ) (t : EntityType) (l k : String) (s : Store)
      → (drop_pair ep typ k (s.local ep.id typ k) s).local e t l
        ≡ (if ep.id == e && same_type typ t && str_eq k l then none else s.local e t l)
  unfolding drop_pair
  drop_pair-local e t l k s = at (s.local ep.id typ k) refl
    where
      at :
          (o : Option ℕ)
          → s.local ep.id typ k ≡ o
          → (drop_pair ep typ k o s).local e t l
            ≡ (if ep.id == e && same_type typ t && str_eq k l then none else s.local e t l)
      at none h = ground (arith, same_type_eq typ t, eq_iff k l)
      at (some id) h = ground arith

  pub drop_listed-local :
      (e : ℕ) (t : EntityType) (l : String) (es : List Correction) (s : Store)
      → (drop_listed ep typ es s).local e t l
        ≡ (if ep.id == e && same_type typ t && lists l es then none else s.local e t l)
  unfolding drop_listed lists
  drop_listed-local e t l [] s = ground arith
  drop_listed-local e t l (c ∷ es) s = ground (
    arith,
    drop_listed-local e t l es (drop_pair ep typ c.local_id (s.local ep.id typ c.local_id) s),
    drop_pair-local e t l c.local_id s,
  )

  pub drop_listed-IsConsistent :
      (es : List Correction) (s : Store) → IsConsistent s → IsConsistent (drop_listed ep typ es s)
  unfolding drop_listed
  drop_listed-IsConsistent [] s inv = inv
  drop_listed-IsConsistent (c ∷ es) s inv =
      drop_listed-IsConsistent es (drop_pair ep typ c.local_id (s.local ep.id typ c.local_id) s)
        (drop_pair-IsConsistent ep typ c.local_id s inv)

  -- What a request's entries need to be written one after the other.
  abbrev pub Free : Store → List Correction → Type 0
  Free s [] = Unit {0}
  Free s (e ∷ es) =
      (s.local ep.id typ e.local_id ≡ none)
      × ((id : ℕ)
          → e.target ≡ some id
          → (object_type s id ≡ some typ) × (s.canonical ep.id id ≡ none))
      × Free s es

  -- Another entry written leaves the rest free.
  Free-write :
      (k : String) (aim : ℕ) (es : List Correction) (s : Store)
      → lists k es ≡ false
      → targets aim es ≡ false
      → Free s es
      → Free (write_pair ep typ k aim s) es
  unfolding write_pair lists targets
  Free-write k aim [] s h h' f = tt
  Free-write k aim (e ∷ es) s h h' f = (
    ground (arith, eq_iff k e.local_id, str_eq_refl k),
    λ id at. ((f.1 id at).0, ground (arith, (f.1 id at).1)),
    Free-write k aim es s (ground arith) (ground arith) f.2,
  )

  write_next :
      (e : Correction) (es : List Correction) (s : Store) (o : Option ℕ)
      → e.target ≡ o
      → Distinct (e ∷ es)
      → Free s (e ∷ es)
      → IsConsistent s
      → IsConsistent (write_entry ep typ e.local_id o s)
        × Free (write_entry ep typ e.local_id o s) es
  unfolding write_entry
  write_next e es s none h d f inv = (inv, f.2)
  write_next e es s (some id) h d f inv = (
    write_pair-IsConsistent ep typ e.local_id id s inv (f.1 id h).0 f.0 (f.1 id h).1,
    Free-write e.local_id id es s d.0 (d.1 id h) f.2,
  )

  pub write_listed-IsConsistent :
      (es : List Correction) (s : Store)
      → Distinct es
      → Free s es
      → IsConsistent s
      → IsConsistent (write_listed ep typ es s)
  unfolding write_listed
  write_listed-IsConsistent [] s d f inv = inv
  write_listed-IsConsistent (e ∷ es) s d f inv =
      let next = write_next e es s e.target refl d f inv in
      write_listed-IsConsistent es (write_entry ep typ e.local_id e.target s) d.2 next.1 next.0

  write_entry-local :
      (e : ℕ) (t : EntityType) (l k : String) (o : Option ℕ) (s : Store)
      → s.local ep.id typ k ≡ none
      → (write_entry ep typ k o s).local e t l
        ≡ (if ep.id == e && same_type typ t && str_eq k l then o else s.local e t l)
  unfolding write_entry write_pair
  write_entry-local e t l k none s h = ground (arith, same_type_eq typ t, eq_iff k l)
  write_entry-local e t l k (some id) s h = ground arith

  pub write_listed-local :
      (e : ℕ) (t : EntityType) (l : String) (es : List Correction) (s : Store)
      → Distinct es
      → Free s es
      → IsConsistent s
      → (write_listed ep typ es s).local e t l
        ≡ (if ep.id == e && same_type typ t then corrected l es (s.local e t l) else s.local e t l)
  unfolding write_listed
  write_listed-local e t l [] s d f inv = ground arith
  write_listed-local e t l (c ∷ es) s d f inv =
      let next = write_next c es s c.target refl d f inv in
      ground (
        arith,
        write_listed-local e t l es (write_entry ep typ c.local_id c.target s) d.2 next.1 next.0,
        write_entry-local e t l c.local_id c.target s f.0,
        corrected_unlisted l es c.target,
        eq_iff c.local_id l,
        d.0,
      )

  drop_pair-unbound :
      (k : String) (o : Option ℕ) (s : Store) → unbound (drop_pair ep typ k o s) ≡ unbound s
  unfolding drop_pair
  drop_pair-unbound k none s = refl
  drop_pair-unbound k (some id) s = refl

  pub drop_listed-unbound :
      (es : List Correction) (s : Store) → unbound (drop_listed ep typ es s) ≡ unbound s
  unfolding drop_listed
  drop_listed-unbound [] s = refl
  drop_listed-unbound (c ∷ es) s =
      drop_listed-unbound es (drop_pair ep typ c.local_id (s.local ep.id typ c.local_id) s)
      ∙ drop_pair-unbound c.local_id (s.local ep.id typ c.local_id) s

  write_entry-unbound :
      (l : String) (o : Option ℕ) (s : Store) → unbound (write_entry ep typ l o s) ≡ unbound s
  unfolding write_entry
  write_entry-unbound l none s = refl
  write_entry-unbound l (some id) s = refl

  pub write_listed-unbound :
      (es : List Correction) (s : Store) → unbound (write_listed ep typ es s) ≡ unbound s
  unfolding write_listed
  write_listed-unbound [] s = refl
  write_listed-unbound (c ∷ es) s =
      write_listed-unbound es (write_entry ep typ c.local_id c.target s)
      ∙ write_entry-unbound c.local_id c.target s
