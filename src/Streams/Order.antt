-- ===== src/Streams/Order.antt =====
-- The delivery order: sortedObjects of reference-client/internal/testrouter/streams.go and tierOf of
-- model.go.
use masterdata_sync_working.Prelude.{
  ℕ, String, ◌<◌, Bool, true, false, ◌&&◌, ◌||◌, List, Sorted, Sorted-sort, any, ◌==◌, ltb, str_eq,
  eq_iff, if◌then◌else◌, ◌≡◌, refl, sym, subst, arith,
}
use masterdata_sync_working.Json.{get}
use masterdata_sync_working.Model.{
  EntityType, party, farm, field, field_boundary, same_type, Object, RefSlot, ref_slots, tier_of,
  party_type_of, details_key, party_type_person, party_type_organization,
}
use masterdata_sync_working.Streams.{object_before, sorted_objects}

before_trans :
    (x y z : Object)
    → object_before y x ≡ false
    → object_before z y ≡ false
    → object_before z x ≡ false
unfolding object_before
before_trans x y z h k = at (tier_of x) (tier_of y) (tier_of z) x.seq y.seq z.seq h k
  where
    before : ℕ → ℕ → ℕ → ℕ → Bool
    before t u m n = ltb t u || (t == u && ltb m n)

    at :
        (a b c k m n : ℕ) → before b a m k ≡ false → before c b n m ≡ false → before c a n k ≡ false
    at a b c k m n h g = ground arith

before_asym : (x y : Object) → object_before y x ≡ true → object_before x y ≡ false
unfolding object_before
before_asym x y h = at (tier_of x) (tier_of y) x.seq y.seq h
  where
    before : ℕ → ℕ → ℕ → ℕ → Bool
    before t u m n = ltb t u || (t == u && ltb m n)

    at : (a b k m : ℕ) → before b a m k ≡ true → before a b k m ≡ false
    at a b k m h = ground arith

-- Objects go out by tier, and within a tier by the position they last changed at.
pub sorted_objects-Sorted : (os : List Object) → Sorted object_before (sorted_objects os)
unfolding sorted_objects
sorted_objects-Sorted os = Sorted-sort object_before before_trans before_asym os

-- An object may reference another: a slot of its type targets the other's type, and party type where
-- the slot names one, and a party that references is a person.
abbrev pub MayReference : Object → Object → Type 0
MayReference o t =
    (any
        (λ (slot : RefSlot).
          same_type slot.target t.typ
          && (str_eq slot.party_type ""
              || str_eq slot.party_type (party_type_of (get details_key t.content))))
        (ref_slots o.typ)
      ≡ true)
    × (o.typ ≡ party → party_type_of (get details_key o.content) ≡ party_type_person)

-- The tier of a party by its party type.
abbrev party_tier : String → ℕ
party_tier u = if str_eq u party_type_person then 1 else 0

party_tiers :
    (po pt : String)
    → po ≡ party_type_person
    → str_eq party_type_organization pt ≡ true
    → party_tier pt < party_tier po
party_tiers po pt h k =
    subst (λ u. party_tier pt < party_tier u) (sym h)
      (subst (λ u. party_tier u < party_tier party_type_person) (same party_type_organization pt k)
        persons_last)
  where
    same : (u v : String) → str_eq u v ≡ true → u ≡ v
    same u v e = ground (arith, eq_iff u v)

    persons_last : party_tier party_type_organization < party_tier party_type_person
    persons_last = ground arith

MayReference-tier : (o t : Object) → MayReference o t → tier_of t < tier_of o
unfolding tier_of ref_slots
MayReference-tier o t h =
    at o.typ t.typ (party_type_of (get details_key o.content))
      (party_type_of (get details_key t.content)) h.0 h.1
  where
    tier : EntityType → String → ℕ
    tier a u = elim a [ party ↦ party_tier u | farm ↦ 2 | field ↦ 3 | field_boundary ↦ 4 ]

    at :
        (a b : EntityType) (po pt : String)
        → any
            (λ (slot : RefSlot).
              same_type slot.target b && (str_eq slot.party_type "" || str_eq slot.party_type pt))
            (ref_slots a)
          ≡ true
        → (a ≡ party → po ≡ party_type_person)
        → tier b pt < tier a po
    at party party po pt h k = party_tiers po pt (k refl) (ground (arith, h))
    at party farm po pt h k = ground arith
    at party field po pt h k = ground arith
    at party field_boundary po pt h k = ground arith
    at farm b po pt h k = ground arith
    at field b po pt h k = ground arith
    at field_boundary b po pt h k = ground arith

-- The objects are sent in the delivery order, which puts an object that another may reference before
-- the other.
pub sorted_objects_references :
    (os : List Object) (o t : Object)
    → MayReference o t
    → Sorted object_before (sorted_objects os) × (object_before t o ≡ true)
unfolding object_before
sorted_objects_references os o t h =
    (sorted_objects-Sorted os, first (tier_of t) (tier_of o) t.seq o.seq (MayReference-tier o t h))
  where
    first : (a b k m : ℕ) → a < b → (ltb a b || (a == b && ltb k m)) ≡ true
    first a b k m h = ground arith
