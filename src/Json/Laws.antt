-- ===== src/Json/Laws.antt =====
-- The laws of the map operations and of equality on JSON values.
use masterdata_sync_working.Prelude.{
  String, Bool, true, false, ◌&&◌, Option, none, some, str_eq, eq_iff, if◌then◌else◌, ◌≡◌, refl, ap,
  ap₂, arith, str_eq_refl,
}
use masterdata_sync_working.Json.{
  Value, Items, Fields, null, boolean, num, str, arr, obj, nil, cons, empty, entry, get, put, del,
  same, same_items, same_fields, equal,
}

pub get-put :
    (j k : String) (v : Value) (fs : Fields)
    → get j (put k v fs) ≡ (if str_eq k j then some v else get j fs)
unfolding get put
get-put j k v empty = refl
get-put j k v (entry i w fs) = ground (arith, eq_iff k j, eq_iff i k, eq_iff i j, get-put j k v fs)

pub get-del :
    (j k : String) (fs : Fields) → get j (del k fs) ≡ (if str_eq k j then none else get j fs)
unfolding get del
get-del j k empty = ground arith
get-del j k (entry i w fs) = ground (arith, eq_iff k j, eq_iff i k, eq_iff i j, get-del j k fs)

mutual
  unfolding same

  same_refl : (v : Value) → same v v ≡ true
  same_refl null = refl
  same_refl (boolean true) = refl
  same_refl (boolean false) = refl
  same_refl (num s) = str_eq_refl s
  same_refl (str s) = str_eq_refl s
  same_refl (arr xs) = same_items_refl xs
  same_refl (obj fs) = same_fields_refl fs

  same_items_refl : (xs : Items) → same_items xs xs ≡ true
  same_items_refl nil = refl
  same_items_refl (cons x xs) = ground (arith, same_refl x, same_items_refl xs)

  same_fields_refl : (fs : Fields) → same_fields fs fs ≡ true
  same_fields_refl empty = refl
  same_fields_refl (entry k v fs) = ground (arith, str_eq_refl k, same_refl v, same_fields_refl fs)

pub equal_refl : (v : Option Value) → equal v v ≡ true
unfolding equal
equal_refl none = refl
equal_refl (some v) = same_refl v

both : (a b : Bool) → (a && b) ≡ true → (a ≡ true) × (b ≡ true)
both true b h = (refl, h)
both false b h = cc

three_path :
    {j k : String} {v w : Value} {fs gs : Fields}
    → j ≡ k
    → v ≡ w
    → fs ≡ gs
    → entry j v fs ≡ entry k w gs
three_path p q r = cc

mutual
  unfolding same

  same_sound : (v w : Value) → same v w ≡ true → v ≡ w
  same_sound null null h = refl
  same_sound (boolean true) (boolean true) h = refl
  same_sound (boolean false) (boolean false) h = refl
  same_sound (num s) (num t) h = ap num ((eq_iff s t).0 h)
  same_sound (str s) (str t) h = ap str ((eq_iff s t).0 h)
  same_sound (arr xs) (arr ys) h = ap arr (same_items_sound xs ys h)
  same_sound (obj fs) (obj gs) h = ap obj (same_fields_sound fs gs h)
  same_sound v w h = cc

  same_items_sound : (xs ys : Items) → same_items xs ys ≡ true → xs ≡ ys
  same_items_sound nil nil h = refl
  same_items_sound (cons x xs) (cons y ys) h =
      let (head, tail) = both (same x y) (same_items xs ys) h in
      ap₂ cons (same_sound x y head) (same_items_sound xs ys tail)
  same_items_sound xs ys h = cc

  same_fields_sound : (fs gs : Fields) → same_fields fs gs ≡ true → fs ≡ gs
  same_fields_sound empty empty h = refl
  same_fields_sound (entry j v fs) (entry k w gs) h =
      let (front, tail) = both (str_eq j k && same v w) (same_fields fs gs) h in
      let (key, value) = both (str_eq j k) (same v w) front in
      three_path ((eq_iff j k).0 key) (same_sound v w value) (same_fields_sound fs gs tail)
  same_fields_sound fs gs h = cc

pub equal_sound : (v w : Option Value) → equal v w ≡ true → v ≡ w
unfolding equal
equal_sound none none h = refl
equal_sound (some v) (some w) h = ap some (same_sound v w h)
equal_sound v w h = cc
