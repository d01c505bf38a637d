-- ===== src/Prelude/Sort.antt =====
-- slices.SortFunc and sort.Slice: an insertion sort by the comparison, and a map's entries in the
-- order of it.
use mathlib.Core.Path.{◌≡◌, refl}
use mathlib.Core.Logic.{inl, inr}
use mathlib.Core.Bool.{Bool, true, false, ◌||◌}
use mathlib.Core.List.{List, [], ◌∷◌}
use native.Mathlib.Omega.{arith}
use masterdata_sync_working.Prelude.Tests.{if◌then◌else◌, Bool-cases}
use masterdata_sync_working.Prelude.Maps.{any}

module _ {ℓ} {A : Type ℓ} (before : A → A → Bool) where
  insert_sorted : A → List A → List A
  insert_sorted x [] = x ∷ []
  insert_sorted x (y ∷ ys) = if before y x then y ∷ insert_sorted x ys else x ∷ y ∷ ys

  unfoldable pub sort : List A → List A
  unfolding insert_sorted
  sort [] = []
  sort (x ∷ xs) = insert_sorted x (sort xs)

  any-insert_sorted :
      (p : A → Bool) (x : A) (ys : List A) → any p (insert_sorted x ys) ≡ (p x || any p ys)
  unfolding insert_sorted
  any-insert_sorted p x [] = refl
  any-insert_sorted p x (y ∷ ys) = ground (arith, any-insert_sorted p x ys)

  -- A sorted list has the same elements.
  pub any-sort : (p : A → Bool) (xs : List A) → any p (sort xs) ≡ any p xs
  unfolding sort
  any-sort p [] = refl
  any-sort p (x ∷ xs) = ground (arith, any-insert_sorted p x (sort xs), any-sort p xs)

-- Each element stands before all that follow it, in a comparison that orders by rank.
module _ {ℓ} {A : Type ℓ} (before : A → A → Bool) where
  abbrev pub NotAfter : A → List A → Type 0
  NotAfter x [] = Unit {0}
  NotAfter x (y ∷ ys) = (before y x ≡ false) × NotAfter x ys

  abbrev pub Sorted : List A → Type 0
  Sorted [] = Unit {0}
  Sorted (x ∷ xs) = NotAfter x xs × Sorted xs

  module _ (trans : (x y z : A) → before y x ≡ false → before z y ≡ false → before z x ≡ false)
      (asym : (x y : A) → before y x ≡ true → before x y ≡ false) where
    NotAfter-trans : (x y : A) (zs : List A) → before y x ≡ false → NotAfter y zs → NotAfter x zs
    NotAfter-trans x y [] h n = tt
    NotAfter-trans x y (z ∷ zs) h n = (trans x y z h n.0, NotAfter-trans x y zs h n.1)

    NotAfter-insert :
        (w x : A) (ys : List A)
        → before x w ≡ false
        → NotAfter w ys
        → NotAfter w (insert_sorted before x ys)
    unfolding insert_sorted
    NotAfter-insert w x [] h n = (h, tt)
    NotAfter-insert w x (y ∷ ys) h n = ground (arith, NotAfter-insert w x ys h n.1)

    Sorted-insert : (x : A) (ys : List A) → Sorted ys → Sorted (insert_sorted before x ys)
    unfolding insert_sorted
    Sorted-insert x [] s = (tt, tt)
    Sorted-insert x (y ∷ ys) s = elim (Bool-cases (before y x)) [
      | inl first ↦ rw first (NotAfter-insert y x ys (asym x y first) s.0, Sorted-insert x ys s.1)
      | inr later ↦ rw later ((later, NotAfter-trans x y ys later s.0), s)
    ]

    pub Sorted-sort : (xs : List A) → Sorted (sort before xs)
    unfolding sort
    Sorted-sort [] = tt
    Sorted-sort (x ∷ xs) = Sorted-insert x (sort before xs) (Sorted-sort xs)
