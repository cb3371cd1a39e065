-- ===== src/Ccnf/Canonicalize.antt =====
-- ccnf/canonicalize.go: copies, timestamps and numbers. The maps that are changed in place are the
-- fresh copies, so each function returns the changed map.
use nexus_go_ccnf_ref.Base.{
  ℕ, ◌^◌, ◌%◌, Text, codes, text_eq, ℤ, pos, Bool, not, ◌&&◌, ◌||◌, Option, none, some,
  if◌then◌else◌, ◌==◌, ltb, ◌≡◌, refl, ap, ap₂, [],
}
use nexus_go_ccnf_ref.Value.{
  Value, Items, Fields, null, bool, int, int64, float, str, arr, obj, other, nil, cons, end, field,
}
use nexus_go_ccnf_ref.Value.Platform.{Platform}
use nexus_go_ccnf_ref.Ccnf.Normalize.{normalize_fields}

unfoldable mutual
  pub deep_copy : Value → Value
  deep_copy (obj fs) = obj (deep_copy_map fs)
  deep_copy (arr xs) = arr (deep_copy_slice xs)
  deep_copy null = null
  deep_copy (bool b) = bool b
  deep_copy (int n) = int n
  deep_copy (int64 n) = int64 n
  deep_copy (float f) = float f
  deep_copy (str s) = str s
  deep_copy (other d) = other d

  pub deep_copy_slice : Items → Items
  deep_copy_slice nil = nil
  deep_copy_slice (cons v xs) = cons (deep_copy v) (deep_copy_slice xs)

  pub deep_copy_map : Fields → Fields
  deep_copy_map end = end
  deep_copy_map (field k v fs) = field k (deep_copy v) (deep_copy_map fs)

mutual
  unfolding deep_copy

  deep_copy-eq : (v : Value) → deep_copy v ≡ v
  deep_copy-eq (obj fs) = ap obj (deep_copy_map-eq fs)
  deep_copy-eq (arr xs) = ap arr (deep_copy_slice-eq xs)
  deep_copy-eq null = refl
  deep_copy-eq (bool b) = refl
  deep_copy-eq (int n) = refl
  deep_copy-eq (int64 n) = refl
  deep_copy-eq (float f) = refl
  deep_copy-eq (str s) = refl
  deep_copy-eq (other d) = refl

  deep_copy_slice-eq : (xs : Items) → deep_copy_slice xs ≡ xs
  deep_copy_slice-eq nil = refl
  deep_copy_slice-eq (cons v xs) = ap₂ cons (deep_copy-eq v) (deep_copy_slice-eq xs)

  pub deep_copy_map-eq : (fs : Fields) → deep_copy_map fs ≡ fs
  deep_copy_map-eq end = refl
  deep_copy_map-eq (field k v fs) = ap₂ (field k) (deep_copy-eq v) (deep_copy_map-eq fs)

-- `a == b` on float64: IEEE 754, where NaN differs from itself and the two zeros are equal
abbrev pub is_nan : ℕ → Bool
is_nan f = ltb 0x7ff0000000000000 (f % 2 ^ 63)

abbrev pub is_zero : ℕ → Bool
is_zero f = f % 2 ^ 63 == 0

unfoldable pub float_eq : ℕ → ℕ → Bool
float_eq f g = not (is_nan f) && (not (is_nan g) && (f == g || (is_zero f && is_zero g)))

-- the branch for a string at "timestamp"
abbrev pub stamp : Text → Option ℤ → Value
stamp s none = str s
stamp s (some t) = int64 t

-- the two layouts of `parseTimestamp`
abbrev pub stamp_or : Option ℤ → Option ℤ → ℤ
stamp_or (some t) other_layout = t
stamp_or none (some t) = t
stamp_or none none = pos 0

module _ (p : Platform) where
  unfoldable mutual
    pub convert_timestamps : Fields → Fields
    convert_timestamps end = end
    convert_timestamps (field k v fs) = field k (convert_entry k v) (convert_timestamps fs)

    -- one pass of the loop
    pub convert_entry : Text → Value → Value
    convert_entry k (str s) =
        if text_eq k (codes "timestamp") then stamp s (p.parse_rfc3339 s) else str s
    convert_entry k (float f) =
        if text_eq k (codes "timestamp") then int64 (p.float_to_int64 f) else float f
    convert_entry k (obj fs) = obj (convert_timestamps fs)
    convert_entry k (arr xs) = arr (convert_elements xs)
    convert_entry k null = null
    convert_entry k (bool b) = bool b
    convert_entry k (int n) = int n
    convert_entry k (int64 n) = int64 n
    convert_entry k (other d) = other d

    -- The maps among the elements; an array in an array is left alone.
    pub convert_elements : Items → Items
    convert_elements nil = nil
    convert_elements (cons v xs) = cons (convert_element v) (convert_elements xs)

    pub convert_element : Value → Value
    convert_element (obj fs) = obj (convert_timestamps fs)
    convert_element (arr xs) = arr xs
    convert_element null = null
    convert_element (bool b) = bool b
    convert_element (int n) = int n
    convert_element (int64 n) = int64 n
    convert_element (float f) = float f
    convert_element (str s) = str s
    convert_element (other d) = other d

  unfoldable pub normalize_number : ℕ → Value
  unfolding float_eq
  normalize_number f =
      if float_eq f (p.int64_to_float (p.float_to_int64 f))
      then int64 (p.float_to_int64 f)
      else float f

  unfoldable mutual
    unfolding normalize_number

    pub normalize_absent_fields : Fields → Fields
    normalize_absent_fields end = end
    normalize_absent_fields (field k v fs) =
        field k (normalize_entry k v) (normalize_absent_fields fs)

    pub normalize_entry : Text → Value → Value
    normalize_entry k null = null
    normalize_entry k (float f) = normalize_number f
    normalize_entry k (str s) =
        if text_eq s [] && text_eq k (codes "collapse_key") then null else str s
    normalize_entry k (obj fs) = obj (normalize_absent_fields fs)
    normalize_entry k (arr xs) = arr (normalize_elements xs)
    normalize_entry k (bool b) = bool b
    normalize_entry k (int n) = int n
    normalize_entry k (int64 n) = int64 n
    normalize_entry k (other d) = other d

    pub normalize_elements : Items → Items
    normalize_elements nil = nil
    normalize_elements (cons v xs) = cons (normalize_element v) (normalize_elements xs)

    pub normalize_element : Value → Value
    normalize_element (obj fs) = obj (normalize_absent_fields fs)
    normalize_element (arr xs) = arr xs
    normalize_element null = null
    normalize_element (bool b) = bool b
    normalize_element (int n) = int n
    normalize_element (int64 n) = int64 n
    normalize_element (float f) = float f
    normalize_element (str s) = str s
    normalize_element (other d) = other d

  unfoldable pub canonicalize_fields : Fields → Fields
  unfolding normalize_fields deep_copy convert_timestamps normalize_absent_fields
  canonicalize_fields m =
      normalize_absent_fields (convert_timestamps (deep_copy_map (normalize_fields p m end)))

  -- `parseTimestamp`; its users drop the flag
  unfoldable pub parse_timestamp : Option Value → ℤ
  parse_timestamp (some (float f)) = p.float_to_int64 f
  parse_timestamp (some (int64 n)) = n
  parse_timestamp (some (str s)) = stamp_or (p.parse_rfc3339 s) (p.parse_zulu s)
  parse_timestamp _ = pos 0
