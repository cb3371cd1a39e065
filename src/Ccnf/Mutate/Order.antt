-- ===== src/Ccnf/Mutate/Order.antt =====
-- A permuted map is the same map.
use nexus_go_ccnf_ref.Base.{
  Text, text_eq, text_eq_iff, text_eq_refl, Bool, true, false, Bool-cases, Option, none, some, List,
  [], ◌∷◌, ◌++◌, if◌then◌else◌, ◌≡◌, refl, sym, ap, ap₂, ◌∙◌, arith, inl, inr,
}
use mathlib.Core.Path.{subst}
use mathlib.Core.Option.{some-injective}
use nexus_go_ccnf_ref.Base.Sets.{member, member-append}
use nexus_go_ccnf_ref.Base.Sort.{sort_strings, insert}
use nexus_go_ccnf_ref.Base.SortBy.{member-insert, member-sort_strings}
use nexus_go_ccnf_ref.Value.{
  Value, Items, Fields, null, bool, int, int64, float, str, arr, obj, other, nil, cons, end, field,
  get, remove, field_keys,
}
use nexus_go_ccnf_ref.Value.Equal.{IsPlain, IsPlainMap}
use nexus_go_ccnf_ref.Value.Same.{Same, SameFields, same, maps, no_fields, entry, exchange, chain}
use nexus_go_ccnf_ref.Value.Platform.{Platform}
use nexus_go_ccnf_ref.Ccnf.Serializer.{canonical_json}
use nexus_go_ccnf_ref.Ccnf.Serializer.Order.{canonical_json-Same}
use nexus_go_ccnf_ref.Ccnf.Mutate.{
  or_null_value, rebuild, rotate, reorder, permute_value, permute_values, permute_map_keys,
  deep_clone_value, deep_clone_map, deep_clone_slice, reorder_keys,
}

abbrev DistinctKeys : Fields → Type 0
DistinctKeys end = Unit
DistinctKeys (field k v m) = (get m k ≡ none) × DistinctKeys m

fields_same : (m : Fields) → SameFields m m
fields_same end = no_fields
fields_same (field k v m) = entry k (same v) (fields_same m)

get-remove_ne : (m : Fields) (j k : Text) → text_eq k j ≡ false → get (remove m k) j ≡ get m j
unfolding get remove
get-remove_ne end j k h = refl
get-remove_ne (field i v m) j k h =
    ground (arith, get-remove_ne m j k h, text_eq_iff i k, text_eq_iff i j, text_eq_iff k j)

remove-DistinctKeys : (m : Fields) (k : Text) → DistinctKeys m → DistinctKeys (remove m k)
unfolding remove
remove-DistinctKeys end k h = tt
remove-DistinctKeys (field i v m) k h = elim (Bool-cases (text_eq i k)) [
  | inl same_key ↦ rw same_key h.1
  | inr other_key ↦ rw other_key (
    get-remove_ne m i k (ground (arith, other_key, text_eq_iff i k, text_eq_iff k i)) ∙ h.0,
    remove-DistinctKeys m k h.1,
  )
]

get-remove_self : (m : Fields) (k : Text) → DistinctKeys m → get (remove m k) k ≡ none
unfolding get remove
get-remove_self end k h = refl
get-remove_self (field i v m) k h = elim (Bool-cases (text_eq i k)) [
  | inl same_key ↦ rw same_key (subst (λ z. get m z ≡ none) ((text_eq_iff i k).0 same_key) h.0)
  | inr other_key ↦ rw (other_key, other_key) (get-remove_self m k h.1)
]

-- An entry can be brought to the front.
SameFields-front :
    (m : Fields) (k : Text) (v : Value) → get m k ≡ some v → SameFields m (field k v (remove m k))
unfolding get remove
SameFields-front end k v h = cc h
SameFields-front (field i w m) k v h = elim (Bool-cases (text_eq i k)) [
  | inl same_key ↦ rw same_key (
      subst (λ z. SameFields (field i w m) (field z v m)) ((text_eq_iff i k).0 same_key)
        (subst (λ z. SameFields (field i w m) (field i z m)) (some-injective w v (rw same_key at h))
          (fields_same (field i w m))))
  | inr other_key ↦ rw other_key (
      chain (entry i (same w) (SameFields-front m k v (rw other_key at h)))
        (exchange i k w v (remove m k) (λ e. cc ((text_eq_iff i k).1 e, other_key))))
]

-- No key stands twice.
abbrev Once : List Text → Type 0
Once [] = Unit
Once (k ∷ ks) = (member k ks ≡ false) × Once ks

insert-Once : (k : Text) (l : List Text) → member k l ≡ false → Once l → Once (insert k l)
unfolding insert member
insert-Once k [] h o = (refl, tt)
insert-Once k (j ∷ l) h o =
    ground (arith, insert-Once k l, member-insert j k l, text_eq_iff j k, text_eq_iff k j, h, o)

sort_strings-Once : (l : List Text) → Once l → Once (sort_strings l)
unfolding sort_strings
sort_strings-Once [] h = tt
sort_strings-Once (k ∷ l) h =
    insert-Once k (sort_strings l) (member-sort_strings k l ∙ h.0) (sort_strings-Once l h.1)

append-Once : (k : Text) (l : List Text) → member k l ≡ false → Once l → Once (l ++ (k ∷ []))
unfolding member
append-Once k [] h o = (refl, tt)
append-Once k (j ∷ l) h o = (
  member-append j l (k ∷ []) ∙ ground (arith, o.0, h, text_eq_iff j k, text_eq_iff k j),
  append-Once k l (ground (arith, h)) o.1,
)

rotate-Once : (l : List Text) → Once l → Once (rotate l)
unfolding rotate
rotate-Once [] h = tt
rotate-Once (k ∷ l) h = append-Once k l h.0 h.1

member-rotate : (k : Text) (l : List Text) → member k (rotate l) ≡ member k l
unfolding rotate member
member-rotate k [] = refl
member-rotate k (j ∷ l) = member-append k l (j ∷ []) ∙ ground arith

abbrev is_set : Option Value → Bool
is_set none = false
is_set (some v) = true

member-field_keys : (k : Text) (m : Fields) → member k (field_keys m) ≡ is_set (get m k)
unfolding member field_keys get
member-field_keys k end = refl
member-field_keys k (field i v m) = ground (arith, member-field_keys k m)

field_keys-Once : (m : Fields) → DistinctKeys m → Once (field_keys m)
unfolding field_keys
field_keys-Once end h = tt
field_keys-Once (field k v m) h = (member-field_keys k m ∙ ap is_set h.0, field_keys-Once m h.1)

rebuild-remove :
    (ks : List Text) (m : Fields) (k : Text)
    → member k ks ≡ false
    → rebuild ks (remove m k) ≡ rebuild ks m
unfolding rebuild member
rebuild-remove [] m k h = refl
rebuild-remove (j ∷ ks) m k h =
    ap₂ (λ o rest. field j (or_null_value o) rest)
      (get-remove_ne m j k (ground (arith, h, text_eq_iff j k, text_eq_iff k j)))
      (rebuild-remove ks m k (ground (arith, h)))

empty-SameFields : (m : Fields) → ((k : Text) → false ≡ is_set (get m k)) → SameFields m end
unfolding get
empty-SameFields end h = no_fields
empty-SameFields (field k v m) h = absurd (found (h k))
  where
    found : (false ≡ is_set (if text_eq k k then some v else get m k)) → ⊥
    found e = cc (rw (text_eq_refl k) at e)

is_set-some : (o : Option Value) → is_set o ≡ true → (v : Value) × (o ≡ some v)
is_set-some none h = absurd (cc h)
is_set-some (some v) h = (v, refl)

-- The other keys are those of the map without the first.
member-remove :
    (k : Text) (ks : List Text) (m : Fields) (j : Text)
    → DistinctKeys m
    → member k ks ≡ false
    → member j (k ∷ ks) ≡ is_set (get m j)
    → member j ks ≡ is_set (get (remove m k) j)
unfolding member
member-remove k ks m j d o h = elim (Bool-cases (text_eq k j)) [
  | inl same_key ↦
      subst (λ z. member z ks ≡ is_set (get (remove m k) z)) ((text_eq_iff k j).0 same_key)
        (o ∙ sym (ap is_set (get-remove_self m k d)))
  | inr other_key ↦ (rw other_key at h) ∙ sym (ap is_set (get-remove_ne m j k other_key))
]

-- A map is what the loop fills from its keys, in any order.
SameFields-rebuild :
    (ks : List Text) (m : Fields)
    → DistinctKeys m
    → Once ks
    → ((k : Text) → member k ks ≡ is_set (get m k))
    → SameFields m (rebuild ks m)
unfolding rebuild
SameFields-rebuild [] m d o h = empty-SameFields m (λ k. unfold member in h k)
SameFields-rebuild (k ∷ ks) m d o h =
    let (v, e) = is_set-some (get m k) (sym (h k) ∙ unfold member in rw (text_eq_refl k) refl) in
    chain (SameFields-front m k v e) (
      subst (λ u. SameFields (field k v (remove m k)) (field k (or_null_value u) (rebuild ks m)))
        (sym e)
        (subst (λ r. SameFields (field k v (remove m k)) (field k v r)) (rebuild-remove ks m k o.0)
          (entry k (same v) (
            SameFields-rebuild ks (remove m k) (remove-DistinctKeys m k d) o.1
              (λ j. member-remove k ks m j d o.0 (h j))))))

reorder-SameFields : (m : Fields) → DistinctKeys m → SameFields m (reorder m)
unfolding reorder
reorder-SameFields m d =
    SameFields-rebuild (rotate (sort_strings (field_keys m))) m d
      (rotate-Once (sort_strings (field_keys m))
        (sort_strings-Once (field_keys m) (field_keys-Once m d)))
      (λ k.
        member-rotate k (sort_strings (field_keys m))
        ∙ member-sort_strings k (field_keys m)
        ∙ member-field_keys k m)

get-permute_values : (k : Text) (m : Fields) → get m k ≡ none → get (permute_values m) k ≡ none
unfolding get permute_values
get-permute_values k end h = refl
get-permute_values k (field j v m) h = ground (arith, get-permute_values k m, h)

permute_values-DistinctKeys : (m : Fields) → IsPlainMap m → DistinctKeys (permute_values m)
unfolding permute_values
permute_values-DistinctKeys end h = tt
permute_values-DistinctKeys (field k v m) h =
    (get-permute_values k m h.0, permute_values-DistinctKeys m h.2)

mutual
  unfolding permute_values

  permute_value-Same : (v : Value) → IsPlain v → Same v (permute_value v)
  permute_value-Same null h = same null
  permute_value-Same (bool b) h = same (bool b)
  permute_value-Same (int n) h = same (int n)
  permute_value-Same (int64 n) h = same (int64 n)
  permute_value-Same (float f) h = same (float f)
  permute_value-Same (str s) h = same (str s)
  permute_value-Same (arr xs) h = same (arr xs)
  permute_value-Same (obj m) h = maps (
      chain (permute_values-SameFields m h)
        (reorder-SameFields (permute_values m) (permute_values-DistinctKeys m h)))
  permute_value-Same (other d) h = same (other d)

  permute_values-SameFields : (m : Fields) → IsPlainMap m → SameFields m (permute_values m)
  permute_values-SameFields end h = no_fields
  permute_values-SameFields (field k v m) h =
      entry k (permute_value-Same v h.1) (permute_values-SameFields m h.2)

mutual
  unfolding deep_clone_map

  deep_clone_value_lem : (v : Value) → deep_clone_value v ≡ v
  deep_clone_value_lem null = refl
  deep_clone_value_lem (bool b) = refl
  deep_clone_value_lem (int n) = refl
  deep_clone_value_lem (int64 n) = refl
  deep_clone_value_lem (float f) = refl
  deep_clone_value_lem (str s) = refl
  deep_clone_value_lem (arr s) = ap arr (deep_clone_slice_lem s)
  deep_clone_value_lem (obj m) = ap obj (deep_clone_map_lem m)
  deep_clone_value_lem (other d) = refl

  pub deep_clone_map_lem : (m : Fields) → deep_clone_map m ≡ m
  deep_clone_map_lem end = refl
  deep_clone_map_lem (field k v m) =
      ap₂ (λ w n. field k w n) (deep_clone_value_lem v) (deep_clone_map_lem m)

  deep_clone_slice_lem : (s : Items) → deep_clone_slice s ≡ s
  deep_clone_slice_lem nil = refl
  deep_clone_slice_lem (cons v s) = ap₂ cons (deep_clone_value_lem v) (deep_clone_slice_lem s)

-- `ReorderKeys` leaves the canonical text of a map as it is, where the map holds what JSON parses to.
pub canonical_json-reorder_keys :
    (p : Platform) (m : Fields)
    → IsPlainMap m
    → canonical_json p (obj (reorder_keys m)) ≡ canonical_json p (obj m)
unfolding reorder_keys permute_map_keys permute_values
canonical_json-reorder_keys p m h =
    ap (λ n. canonical_json p (obj (permute_map_keys n))) (deep_clone_map_lem m)
    ∙ sym (canonical_json-Same p (obj m) (permute_value (obj m)) (permute_value-Same (obj m) h))
