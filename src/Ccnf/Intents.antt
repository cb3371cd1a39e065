-- ===== src/Ccnf/Intents.antt =====
-- ccnf/intents.go: the controlled vocabulary.
use nexus_go_ccnf_ref.Base.{
  Text, codes, text_eq, Bool, ◌||◌, false, Option, some, List, [], ◌∷◌, if◌then◌else◌,
}
use nexus_go_ccnf_ref.Value.{Value, Fields, str, obj, end, field, get, get_string}
use nexus_go_ccnf_ref.Ccnf.Result.{Result, ok, err, intent_normalization}

unfoldable pub contains : List Text → Text → Bool
contains [] s = false
contains (t ∷ ts) s = text_eq t s || contains ts s

abbrev pub controlled_vocab : List Text
controlled_vocab =
    codes "create"
    ∷ codes "update"
    ∷ codes "delete"
    ∷ codes "execute"
    ∷ codes "validate"
    ∷ codes "emit"
    ∷ []

abbrev pub normalized : Text → Text → Text → Fields
normalized action target_type target_id = field (codes "type") (str (codes "normalized_verb")) (
    field (codes "action") (str action) (
      field (codes "target_type") (str target_type)
        (field (codes "target_id") (str target_id) end)))

-- the case of an object
unfoldable pub normalize_object : Fields → Result Fields
normalize_object v =
    let action = get_string (some v) (codes "action") in
    if text_eq action []
    then err intent_normalization
    else if contains controlled_vocab action
    then ok (
        normalized action (get_string (some v) (codes "target_type"))
          (get_string (some v) (codes "target_id")))
    else err intent_normalization

-- the `switch` on the raw intent
unfoldable pub normalize_raw : Option Value → Result Fields
normalize_raw (some (obj v)) = normalize_object v
normalize_raw _ = err intent_normalization

unfoldable pub normalize_intent : Fields → Result Fields
normalize_intent m = normalize_raw (get m (codes "intent"))
