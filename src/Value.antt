-- ===== src/Value.antt =====
-- The dynamic values of the Go sources: `any` as `encoding/json` and the packages fill it, with
-- `map[string]any` and `[]any`, and the readers `getString`, `getMap` of ccnf/identity.go.
pub mod Platform
pub mod Same
pub mod Get
pub mod Equal
use nexus_go_ccnf_ref.Base.{
  ℕ, ◌+◌, suc, Text, codes, text_eq, ℤ, Bool, true, false, Option, none, some, List, [], ◌∷◌,
  if◌then◌else◌,
}

-- A `float64` is its 64 bits. `arr` is a `[]any` that is not nil: neither `json.Unmarshal` nor the
-- packages put a nil one into an `any`. `other` has the dynamic types besides these that the sources
-- put into an `any`, with their contents.
mutual
  pub data Value : Type 0 where
    null : Value
    bool : Bool → Value
    int : ℤ → Value
    int64 : ℤ → Value
    float : ℕ → Value
    str : Text → Value
    arr : Items → Value
    obj : Fields → Value
    other : Dynamic → Value

  -- `[]string`, `*string` and `[]byte`, each nil or not; a `[]map[string]any` by its maps; a pointer
  -- to a struct by the struct's type and fields.
  pub data Dynamic : Type 0 where
    string_slice : Option (List Text) → Dynamic
    string_pointer : Option Text → Dynamic
    byte_slice : Option Text → Dynamic
    map_slice : Items → Dynamic
    struct_pointer : Text → Fields → Dynamic

  pub data Items : Type 0 where
    nil : Items
    cons : Value → Items → Items

  -- The entries of a map, in the order in which a `range` visits them.
  pub data Fields : Type 0 where
    end : Fields
    field : Text → Value → Fields → Fields

-- `v, ok := m[k]`
unfoldable pub get : Fields → Text → Option Value
get end k = none
get (field j v fs) k = if text_eq j k then some v else get fs k

-- `m[k] = v`
unfoldable pub put : Fields → Text → Value → Fields
put end k v = field k v end
put (field j w fs) k v = if text_eq j k then field j v fs else field j w (put fs k v)

-- `delete(m, k)`
unfoldable pub remove : Fields → Text → Fields
remove end k = end
remove (field j w fs) k = let rest = remove fs k in if text_eq j k then fs else field j w rest

unfoldable pub field_keys : Fields → List Text
field_keys end = []
field_keys (field k v fs) = k ∷ field_keys fs

-- A nil map reads, ranges and encodes as an empty one.
abbrev pub or_empty : Option Fields → Fields
or_empty none = end
or_empty (some fs) = fs

-- a map in an `any`
abbrev pub map_value : Option Fields → Value
map_value m = obj (or_empty m)

-- the type assertions `v.(string)` and `v.(map[string]any)`, with `ok` as an option
abbrev pub as_string : Option Value → Option Text
as_string (some (str s)) = some s
as_string _ = none

abbrev pub as_map : Option Value → Option Fields
as_map (some (obj fs)) = some fs
as_map _ = none

abbrev pub text_or_empty : Option Text → Text
text_or_empty none = []
text_or_empty (some s) = s

-- `getString`: the empty string for a nil map, a missing key and another type
unfoldable pub get_string : Option Fields → Text → Text
unfolding get
get_string none k = []
get_string (some m) k = text_or_empty (as_string (get m k))

-- `getMap`: nil in those cases
unfoldable pub get_map : Option Fields → Text → Option Fields
unfolding get
get_map none k = none
get_map (some m) k = as_map (get m k)
