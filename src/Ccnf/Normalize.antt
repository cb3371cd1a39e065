-- ===== src/Ccnf/Normalize.antt =====
-- ccnf/normalize.go: zero-width characters are dropped, and NFC applied, in every string and key.
use nexus_go_ccnf_ref.Base.{
  ℕ, Text, Bool, false, ◌&&◌, ◌||◌, List, [], ◌∷◌, ◌++◌, if◌then◌else◌, ◌==◌, leb,
}
use nexus_go_ccnf_ref.Value.{
  Value, Items, Fields, null, bool, int, int64, float, str, arr, obj, other, nil, cons, end, field,
  put,
}
use nexus_go_ccnf_ref.Value.Platform.{Platform}

-- The bytes 0x80 to 0xbf continue a character of UTF-8.
abbrev pub starts_with_continuation : Text → Bool
starts_with_continuation [] = false
starts_with_continuation (c ∷ s) = leb 0x80 c && leb c 0xbf

unfoldable pub join_rune : ℕ → List Text → List Text
join_rune c [] = (c ∷ []) ∷ []
join_rune c (g ∷ gs) = if starts_with_continuation g then (c ∷ g) ∷ gs else (c ∷ []) ∷ g ∷ gs

-- The characters of valid UTF-8, which is what `json.Unmarshal` yields, each as its bytes.
unfoldable pub runes : Text → List Text
unfolding join_rune
runes [] = []
runes (c ∷ s) = join_rune c (runes s)

-- U+200B to U+200D, and U+FEFF
unfoldable pub is_zero_width : Text → Bool
is_zero_width (a ∷ b ∷ c ∷ []) =
    (a == 0xe2 && (b == 0x80 && (leb 0x8b c && leb c 0x8d)))
    || (a == 0xef && (b == 0xbb && c == 0xbf))
is_zero_width _ = false

-- The characters that the function of `strings.Map` keeps, joined again.
unfoldable pub kept : List Text → Text
unfolding is_zero_width
kept [] = []
kept (g ∷ gs) = if is_zero_width g then kept gs else g ++ kept gs

unfoldable pub strip_zero_width : Text → Text
unfolding kept runes
strip_zero_width s = kept (runes s)

module _ (p : Platform) where
  unfoldable pub normalize_string : Text → Text
  unfolding strip_zero_width
  normalize_string s = p.nfc (strip_zero_width s)

  unfoldable mutual
    unfolding normalize_string put

    pub normalize_strings : Value → Value
    normalize_strings (str s) = str (normalize_string s)
    normalize_strings (obj fs) = obj (normalize_fields fs end)
    normalize_strings (arr xs) = arr (normalize_items xs)
    normalize_strings null = null
    normalize_strings (bool b) = bool b
    normalize_strings (int n) = int n
    normalize_strings (int64 n) = int64 n
    normalize_strings (float f) = float f
    normalize_strings (other d) = other d

    pub normalize_items : Items → Items
    normalize_items nil = nil
    normalize_items (cons v xs) = cons (normalize_strings v) (normalize_items xs)

    -- `m[normalizeString(k)] = normalizeStrings(vv)`, entry by entry
    pub normalize_fields : Fields → Fields → Fields
    normalize_fields end m = m
    normalize_fields (field k v fs) m =
        normalize_fields fs (put m (normalize_string k) (normalize_strings v))
