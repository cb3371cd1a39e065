-- ===== src/Ccnf/Serializer.antt =====
-- `CanonicalJSON` of ccnf/serializer.go.
pub mod Strings
pub mod Order
use nexus_go_ccnf_ref.Base.{
  ℕ, ◌+◌, ◌/◌, ◌%◌, Text, codes, ℤ, List, [], ◌∷◌, ◌++◌, map, Option, none, some, Bool, true, false,
  ◌||◌, if◌then◌else◌, ltb, ◌==◌,
}
use nexus_go_ccnf_ref.Base.Sort.{sort_strings}
use nexus_go_ccnf_ref.Base.Map.{Map, lookup, keys}
use nexus_go_ccnf_ref.Value.{
  Value, Items, Fields, null, bool, int, int64, float, str, arr, obj, other, nil, cons, end, field,
}
use nexus_go_ccnf_ref.Value.Platform.{Platform}
use nexus_go_ccnf_ref.Ccnf.Numerals.{hex_char, format_int}

-- One pass of the loop of `encodeString`.
unfoldable pub encode_byte : ℕ → Text → Text
unfolding hex_char
encode_byte c rest =
    if c == b'"'
    then 0x5c ∷ b'"' ∷ rest
    else if c == 0x5c
    then 0x5c ∷ 0x5c ∷ rest
    else if c == 10
    then 0x5c ∷ b'n' ∷ rest
    else if c == 13
    then 0x5c ∷ b'r' ∷ rest
    else if c == 9
    then 0x5c ∷ b't' ∷ rest
    else if ltb c 0x20
    then 0x5c ∷ b'u' ∷ b'0' ∷ b'0' ∷ hex_char (c / 16) ∷ hex_char (c % 16) ∷ rest
    else c ∷ rest

-- The passes from a position to the end, and the closing quote.
unfoldable pub encode_bytes : Text → Text
unfolding encode_byte
encode_bytes [] = b'"' ∷ []
encode_bytes (c ∷ s) = encode_byte c (encode_bytes s)

unfoldable pub encode_string : Text → Text
unfolding encode_bytes
encode_string s = b'"' ∷ encode_bytes s

-- `strings.ContainsAny(s, "eE")`
unfoldable pub has_exponent : Text → Bool
has_exponent [] = false
has_exponent (c ∷ s) = c == b'e' || c == b'E' || has_exponent s

-- `encodeFloat`; its last two branches return the same text.
unfoldable pub encode_float : Platform → ℕ → Text
unfolding has_exponent
encode_float p f = if has_exponent (p.format_float f) then codes "null" else p.format_float f

-- The elements with a comma in front of each but the first.
unfoldable pub join_commas : List Text → Text
join_commas [] = []
join_commas (x ∷ []) = x
join_commas (x ∷ y ∷ xs) = x ++ (b',' ∷ join_commas (y ∷ xs))

-- `encodeMap`, over the encoded entries of the map: `encode(m[k])` for each sorted key, where a
-- missing key reads as nil.
abbrev pub or_null : Option Text → Text
or_null none = codes "null"
or_null (some e) = e

unfoldable pub render_map : (Text → Option Text) → List Text → Text
unfolding join_commas
render_map at ks =
    b'{' ∷ (join_commas (map (λ k. encode_string k ++ (b':' ∷ or_null (at k))) ks) ++ (b'}' ∷ []))

unfoldable pub encode_table : Map Text → Text
unfolding render_map
encode_table table = render_map (λ k. lookup k table) (sort_strings (keys table))

-- `encodeArray`, over the encoded elements; `none` is a nil slice.
unfoldable pub encode_array : Option (List Text) → Text
unfolding join_commas
encode_array none = codes "null"
encode_array (some elems) = b'[' ∷ (join_commas elems ++ (b']' ∷ []))

module _ (p : Platform) where
  unfoldable mutual
    unfolding encode_array

    pub encode : Value → Text
    encode null = codes "null"
    encode (bool true) = codes "true"
    encode (bool false) = codes "false"
    encode (int n) = format_int n
    encode (int64 n) = format_int n
    encode (float f) = encode_float p f
    encode (str s) = encode_string s
    encode (arr xs) = encode_array (some (encode_items xs))
    encode (obj fs) = encode_table (encode_fields fs)
    encode (other d) = codes "null"

    pub encode_items : Items → List Text
    encode_items nil = []
    encode_items (cons v xs) = encode v ∷ encode_items xs

    pub encode_fields : Fields → Map Text
    encode_fields end = []
    encode_fields (field k v fs) = (k, encode v) ∷ encode_fields fs

  unfoldable pub canonical_json : Value → Text
  unfolding encode
  canonical_json v = encode v
