-- ===== src/Value/Equal.antt =====
-- `reflect.DeepEqual`.
use nexus_go_ccnf_ref.Base.{
  ℕ, suc, Text, text_eq, text_eq_refl, text_eq_iff, int_eq, int_eq_refl, Bool, true, false, ◌&&◌,
  Option, none, some, List, [], ◌∷◌, ◌==◌, ◌≡◌, refl, arith, ==-refl,
}
use nexus_go_ccnf_ref.Value.{
  Value, Items, Fields, null, bool, int, int64, float, str, arr, obj, other, Dynamic, string_slice,
  string_pointer, byte_slice, map_slice, struct_pointer, nil, cons, end, field, get,
}
use nexus_go_ccnf_ref.Ccnf.Canonicalize.{float_eq, is_nan}

abbrev pub bool_eq : Bool → Bool → Bool
bool_eq true b = b
bool_eq false true = false
bool_eq false false = true

abbrev pub count_fields : Fields → ℕ
count_fields end = 0
count_fields (field k v fs) = suc (count_fields fs)

-- the value at a key, if there is one, passes the test
abbrev pub matches_with : (Value → Bool) → Option Value → Bool
matches_with test none = false
matches_with test (some w) = test w

unfoldable pub equal_texts : List Text → List Text → Bool
equal_texts [] [] = true
equal_texts (s ∷ ss) (t ∷ ts) = text_eq s t && equal_texts ss ts
equal_texts _ _ = false

-- a nil slice or pointer is equal to a nil one only
abbrev pub both_or_none {ℓ} : {A : Type ℓ} → (A → A → Bool) → Option A → Option A → Bool
both_or_none eq none none = true
both_or_none eq (some a) (some b) = eq a b
both_or_none eq _ _ = false

-- Values of different types differ, an `int` and an `int64` too. `float64` values are compared by
-- `==`, maps by their keys, and what a pointer points to by its contents. Go also takes one and the
-- same map, slice or pointer for equal to itself, which differs from this only where it holds a NaN.
unfoldable mutual
  unfolding equal_texts

  pub deep_equal : Value → Value → Bool
  deep_equal null null = true
  deep_equal (bool a) (bool b) = bool_eq a b
  deep_equal (int a) (int b) = int_eq a b
  deep_equal (int64 a) (int64 b) = int_eq a b
  deep_equal (float a) (float b) = float_eq a b
  deep_equal (str s) (str t) = text_eq s t
  deep_equal (arr xs) (arr ys) = equal_items xs ys
  deep_equal (obj fs) (obj gs) = count_fields fs == count_fields gs && found_fields fs gs
  deep_equal (other d) (other e) = equal_dynamic d e
  deep_equal _ _ = false

  equal_dynamic : Dynamic → Dynamic → Bool
  equal_dynamic (string_slice a) (string_slice b) = both_or_none equal_texts a b
  equal_dynamic (string_pointer a) (string_pointer b) = both_or_none text_eq a b
  equal_dynamic (byte_slice a) (byte_slice b) = both_or_none text_eq a b
  equal_dynamic (map_slice xs) (map_slice ys) = equal_items xs ys
  equal_dynamic (struct_pointer t fs) (struct_pointer u gs) =
      text_eq t u && (count_fields fs == count_fields gs && found_fields fs gs)
  equal_dynamic _ _ = false

  equal_items : Items → Items → Bool
  equal_items nil nil = true
  equal_items (cons v xs) (cons w ys) = deep_equal v w && equal_items xs ys
  equal_items _ _ = false

  found_fields : Fields → Fields → Bool
  found_fields end gs = true
  found_fields (field k v fs) gs = matches_with (deep_equal v) (get gs k) && found_fields fs gs

-- What JSON parses to: no NaN, no other type, and no key twice in a map.
abbrev mutual
  pub IsPlain : Value → Type 0
  IsPlain null = Unit
  IsPlain (bool b) = Unit
  IsPlain (int n) = Unit
  IsPlain (int64 n) = Unit
  IsPlain (float f) = is_nan f ≡ false
  IsPlain (str s) = Unit
  IsPlain (arr xs) = ArePlain xs
  IsPlain (obj fs) = IsPlainMap fs
  IsPlain (other d) = ⊥

  pub ArePlain : Items → Type 0
  ArePlain nil = Unit
  ArePlain (cons v xs) = IsPlain v × ArePlain xs

  pub IsPlainMap : Fields → Type 0
  IsPlainMap end = Unit
  IsPlainMap (field k v fs) = (get fs k ≡ none) × IsPlain v × IsPlainMap fs

abbrev FoundIn : Fields → Fields → Type 0
FoundIn end gs = Unit
FoundIn (field k v fs) gs = (get gs k ≡ some v) × FoundIn fs gs

FoundIn-field :
    (k : Text) (v : Value) (fs gs : Fields)
    → get fs k ≡ none
    → FoundIn fs gs
    → FoundIn fs (field k v gs)
unfolding get
FoundIn-field k v end gs h f = tt
FoundIn-field k v (field j w fs) gs h f =
    (ground (arith, text_eq_iff j k, text_eq_iff k j), FoundIn-field k v fs gs (ground arith) f.1)

FoundIn-refl : (fs : Fields) → IsPlainMap fs → FoundIn fs fs
unfolding get
FoundIn-refl end p = tt
FoundIn-refl (field k v fs) (fresh, plain, rest) =
    (rw (text_eq_refl k), FoundIn-field k v fs fs fresh (FoundIn-refl fs rest))

float_eq_refl : (f : ℕ) → is_nan f ≡ false → float_eq f f ≡ true
unfolding float_eq
float_eq_refl f h = ground arith

mutual
  unfolding deep_equal

  -- Such a value is equal to itself.
  pub deep_equal_refl : (v : Value) → IsPlain v → deep_equal v v ≡ true
  deep_equal_refl null p = refl
  deep_equal_refl (bool b) p = ground arith
  deep_equal_refl (int n) p = int_eq_refl n
  deep_equal_refl (int64 n) p = int_eq_refl n
  deep_equal_refl (float f) p = float_eq_refl f p
  deep_equal_refl (str s) p = text_eq_refl s
  deep_equal_refl (arr xs) p = equal_items_refl xs p
  deep_equal_refl (obj fs) p =
      rw (==-refl (count_fields fs), found_fields-FoundIn fs fs (FoundIn-refl fs p) p) refl
  deep_equal_refl (other d) p = absurd p

  equal_items_refl : (xs : Items) → ArePlain xs → equal_items xs xs ≡ true
  equal_items_refl nil p = refl
  equal_items_refl (cons v xs) (h, t) = rw (deep_equal_refl v h, equal_items_refl xs t) refl

  found_fields-FoundIn :
      (fs gs : Fields) → FoundIn fs gs → IsPlainMap fs → found_fields fs gs ≡ true
  found_fields-FoundIn end gs f p = refl
  found_fields-FoundIn (field k v fs) gs f (fresh, plain, rest) =
      rw (f.0, deep_equal_refl v plain, found_fields-FoundIn fs gs f.1 rest) refl
