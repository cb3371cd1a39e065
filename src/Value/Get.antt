-- ===== src/Value/Get.antt =====
-- Reading a map after a write.
use nexus_go_ccnf_ref.Base.{
  Text, ◌≡◌, refl, some, arith, if◌then◌else◌, text_eq, text_eq_iff, text_eq_refl, false,
}
use nexus_go_ccnf_ref.Value.{Value, Fields, obj, end, field, get, put, get_map, get_string}

pub get-put :
    (fs : Fields) (k j : Text) (v : Value)
    → get (put fs k v) j ≡ (if text_eq k j then some v else get fs j)
unfolding get put
get-put end k j v = refl
get-put (field i w fs) k j v =
    ground (arith, get-put fs k j v, text_eq_iff i k, text_eq_iff i j, text_eq_iff k j)

-- A write at one key does not show at another.
module _ (fs : Fields) (k j : Text) (v : Value) (differ : text_eq k j ≡ false) where
  pub get-put_ne : get (put fs k v) j ≡ get fs j
  get-put_ne = rw (get-put, differ)

  pub get_map-put_ne : get_map (some (put fs k v)) j ≡ get_map (some fs) j
  unfolding get_map
  get_map-put_ne = rw get-put_ne

  pub get_string-put_ne : get_string (some (put fs k v)) j ≡ get_string (some fs) j
  unfolding get_string
  get_string-put_ne = rw get-put_ne

pub get-put_self : (fs : Fields) (k : Text) (v : Value) → get (put fs k v) k ≡ some v
get-put_self fs k v = rw (get-put, text_eq_refl k)

pub get_map-put_self : (fs gs : Fields) (k : Text) → get_map (some (put fs k (obj gs))) k ≡ some gs
unfolding get_map
get_map-put_self fs gs k = rw get-put_self
