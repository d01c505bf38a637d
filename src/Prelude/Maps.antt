-- ===== src/Prelude/Maps.antt =====
-- Go maps whose keys the code only looks up, sets and deletes, as functions; a key with no entry
-- is `none`. Lists as the code ranges over them.
use Prim.Native.Nat.{ℕ, suc}
use Prim.Native.String.{String}
use mathlib.Core.Path.{◌≡◌, refl}
use mathlib.Core.Bool.{Bool, true, false, ◌&&◌, ◌||◌}
use mathlib.Core.Option.{Option, some}
use mathlib.Core.List.{List, [], ◌∷◌, ◌++◌, map}
use text.Mathlib.Text.{◌==◌ as str_eq}
use text.Mathlib.TextEquality.{eq_iff}
use native.Mathlib.Omega.{arith}
use masterdata_sync_working.Prelude.Tests.{if◌then◌else◌}

module _ {ℓ} {A : Type ℓ} where
  abbrev pub length : List A → ℕ
  length [] = 0
  length (x ∷ xs) = suc (length xs)

  abbrev pub all : (A → Bool) → List A → Bool
  all p [] = true
  all p (x ∷ xs) = p x && all p xs

  abbrev pub any : (A → Bool) → List A → Bool
  any p [] = false
  any p (x ∷ xs) = p x || any p xs

  -- The elements that pass a test, in order.
  abbrev pub keep : (A → Bool) → List A → List A
  keep p [] = []
  keep p (x ∷ xs) = if p x then x ∷ keep p xs else keep p xs

  pub any-keep : (q p : A → Bool) (xs : List A) → any q (keep p xs) ≡ any (λ x. q x && p x) xs
  any-keep q p [] = refl
  any-keep q p (x ∷ xs) = ground (arith, any-keep q p xs)

  pub any-append : (q : A → Bool) (xs ys : List A) → any q (xs ++ ys) ≡ (any q xs || any q ys)
  any-append q [] ys = refl
  any-append q (x ∷ xs) ys = ground (arith, any-append q xs ys)

  pub any_ext : (q r : A → Bool) (xs : List A) → ((x : A) → q x ≡ r x) → any q xs ≡ any r xs
  any_ext q r [] h = refl
  any_ext q r (x ∷ xs) h = ground (arith, h x, any_ext q r xs h)

  pub any_none : (q : A → Bool) (xs : List A) → ((x : A) → q x ≡ false) → any q xs ≡ false
  any_none q [] h = refl
  any_none q (x ∷ xs) h = ground (arith, h x, any_none q xs h)

  -- `m[k] = v` on a map with text keys.
  abbrev pub set_key : String → A → (String → Option A) → String → Option A
  set_key k v m j = if str_eq k j then some v else m j

pub str_eq_refl : (s : String) → str_eq s s ≡ true
str_eq_refl s = (eq_iff s s).1 refl

module _ {ℓ κ} {A : Type ℓ} {B : Type κ} where
  pub any-map : (q : B → Bool) (f : A → B) (xs : List A) → any q (map f xs) ≡ any (λ x. q (f x)) xs
  any-map q f [] = refl
  any-map q f (x ∷ xs) = ground (arith, any-map q f xs)
