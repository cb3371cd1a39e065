-- ===== src/Ccnf/Mutate.antt =====
-- The copies and the mutations of ccnf/r2.go. A draw of the random numbers is an argument.
pub mod Order
use nexus_go_ccnf_ref.Base.{
  ℕ, Text, codes, ◌==◌, ℤ, Option, none, some, List, [], ◌∷◌, ◌++◌, if◌then◌else◌, Bool, true,
  false,
}
use nexus_go_ccnf_ref.Base.Sort.{sort_strings}
use nexus_go_ccnf_ref.Value.{
  Value, Items, Fields, null, float, str, arr, obj, nil, cons, end, field, get, put, field_keys,
}

abbrev pub or_null_value : Option Value → Value
or_null_value none = null
or_null_value (some v) = v

-- The loop that fills the new map, key by key.
unfoldable pub rebuild : List Text → Fields → Fields
rebuild [] m = end
rebuild (k ∷ order) m = field k (or_null_value (get m k)) (rebuild order m)

-- `append(keys[1:], keys[0])`
unfoldable pub rotate : List Text → List Text
rotate [] = []
rotate (k ∷ ks) = ks ++ (k ∷ [])

unfoldable pub reorder : Fields → Fields
unfolding rebuild rotate
reorder m = rebuild (rotate (sort_strings (field_keys m))) m

unfoldable mutual
  unfolding reorder

  pub permute_value : Value → Value
  permute_value (obj m) = obj (reorder (permute_values m))
  permute_value v = v

  -- the maps among the values, permuted
  pub permute_values : Fields → Fields
  permute_values end = end
  permute_values (field k v fs) = field k (permute_value v) (permute_values fs)

unfoldable pub permute_map_keys : Fields → Fields
permute_map_keys m = reorder (permute_values m)

unfoldable mutual
  pub deep_clone_value : Value → Value
  deep_clone_value (obj m) = obj (deep_clone_map m)
  deep_clone_value (arr s) = arr (deep_clone_slice s)
  deep_clone_value v = v

  pub deep_clone_map : Fields → Fields
  deep_clone_map end = end
  deep_clone_map (field k v m) = field k (deep_clone_value v) (deep_clone_map m)

  pub deep_clone_slice : Items → Items
  deep_clone_slice nil = nil
  deep_clone_slice (cons v s) = cons (deep_clone_value v) (deep_clone_slice s)

unfoldable pub add_field : Fields → Fields
unfolding deep_clone_map
add_field base =
    put (deep_clone_map base) (codes "context")
      (obj (field (codes "origin") (str (codes "mutation")) end))

abbrev pub format_bool : Bool → Text
format_bool true = codes "true"
format_bool false = codes "false"

abbrev pub without_actor : ℕ → Fields → Option Value → Fields
without_actor draw clone none = clone
without_actor draw clone (some actor) =
    put clone (codes "actor") (obj (field (codes "type") (str (format_bool (draw == 0))) end))

-- the draw is of `Intn(2)`
unfoldable pub remove_field : ℕ → Fields → Fields
unfolding deep_clone_map
remove_field draw base =
    let clone = deep_clone_map base in without_actor draw clone (get clone (codes "actor"))

-- The sum of a float and a small number is given; the draw is of `Intn(3)`.
abbrev pub perturbed : (ℕ → ℕ → ℕ) → ℕ → Fields → Option Value → Fields
perturbed add_float draw clone (some (float ts)) =
    put clone (codes "timestamp") (float (add_float ts draw))
perturbed add_float draw clone _ = clone

unfoldable pub perturb_timestamp : (ℕ → ℕ → ℕ) → ℕ → Fields → Fields
unfolding deep_clone_map
perturb_timestamp add_float draw base =
    let clone = deep_clone_map base in
    perturbed add_float draw clone (get clone (codes "timestamp"))

unfoldable pub reorder_keys : Fields → Fields
unfolding permute_map_keys deep_clone_map
reorder_keys base = permute_map_keys (deep_clone_map base)
