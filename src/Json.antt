-- ===== src/Json.antt =====
-- JSON as encoding/json decodes it: a `json.RawMessage` that is not nil is a `Value`, and a
-- `map[string]json.RawMessage` is its `Fields`, which json.Marshal writes with sorted keys.
-- An object holds each key once. A number keeps its literal, as json.Number does.
pub mod Laws
use Prim.Native.String.{compare}
use text.Mathlib.Text.{is_lt}
use masterdata_sync_working.Prelude.{
  String, Bool, true, false, ◌&&◌, Option, none, some, str_eq, if◌then◌else◌,
}

mutual
  pub data Value : Type 0 where
    null : Value
    boolean : Bool → Value
    num : String → Value
    str : String → Value
    arr : Items → Value
    obj : Fields → Value

  pub data Items : Type 0 where
    nil : Items
    cons : Value → Items → Items

  pub data Fields : Type 0 where
    empty : Fields
    entry : String → Value → Fields → Fields

-- `m[k]`
unfoldable pub get : String → Fields → Option Value
get k empty = none
get k (entry j v fs) = if str_eq j k then some v else get k fs

-- `m[k] = v`, the keys kept in byte order as json.Marshal writes them.
unfoldable pub put : String → Value → Fields → Fields
put k v empty = entry k v empty
put k v (entry j w fs) =
    if str_eq j k
    then entry k v fs
    else if is_lt (compare k j)
    then entry k v (entry j w fs)
    else entry j w (put k v fs)

-- `delete(m, k)`
unfoldable pub del : String → Fields → Fields
del k empty = empty
del k (entry j w fs) = if str_eq j k then del k fs else entry j w (del k fs)

unfoldable pub has : String → Fields → Bool
has k empty = false
has k (entry j v fs) = if str_eq j k then true else has k fs

-- Each key stands once.
unfoldable pub unique : Fields → Bool
unique empty = true
unique (entry k v fs) = if has k fs then false else unique fs

-- json.Unmarshal of an object into a Go map, onto what the map holds already.
unfoldable pub into_map : Fields → Fields → Fields
unfolding put
into_map empty m = m
into_map (entry k v fs) m = into_map fs (put k v m)

-- testrouter/mergepatch.go, isNull
unfoldable pub is_null : Value → Bool
is_null null = true
is_null _ = false

unfoldable mutual
  pub same : Value → Value → Bool
  same null null = true
  same (boolean true) (boolean true) = true
  same (boolean false) (boolean false) = true
  same (num s) (num t) = str_eq s t
  same (str s) (str t) = str_eq s t
  same (arr xs) (arr ys) = same_items xs ys
  same (obj fs) (obj gs) = same_fields fs gs
  same _ _ = false

  pub same_items : Items → Items → Bool
  same_items nil nil = true
  same_items (cons x xs) (cons y ys) = same x y && same_items xs ys
  same_items _ _ = false

  pub same_fields : Fields → Fields → Bool
  same_fields empty empty = true
  same_fields (entry j v fs) (entry k w gs) = str_eq j k && same v w && same_fields fs gs
  same_fields _ _ = false

-- bytes.Equal on two canonical encodings, nil standing for an absent attribute.
unfoldable pub equal : Option Value → Option Value → Bool
unfolding same
equal none none = true
equal (some v) (some w) = same v w
equal _ _ = false

-- testrouter/mergepatch.go, canonicalJSON: sorted keys at every depth.
unfoldable mutual
  pub canonical : Value → Value
  canonical (arr xs) = arr (canonical_items xs)
  canonical (obj fs) = obj (canonical_fields fs empty)
  canonical v = v

  pub canonical_items : Items → Items
  canonical_items nil = nil
  canonical_items (cons x xs) = cons (canonical x) (canonical_items xs)

  pub canonical_fields : Fields → Fields → Fields
  canonical_fields empty acc = acc
  canonical_fields (entry k v fs) acc = canonical_fields fs (put k (canonical v) acc)
