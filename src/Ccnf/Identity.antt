-- ===== src/Ccnf/Identity.antt =====
-- ccnf/identity.go: the entity key and the collapse key.
use nexus_go_ccnf_ref.Base.{
  Text, codes, text_eq, Option, none, some, List, [], ◌∷◌, ◌++◌, if◌then◌else◌, ◌||◌,
}
use nexus_go_ccnf_ref.Base.Sort.{sort_strings}
use nexus_go_ccnf_ref.Value.{
  Value, Fields, null, str, end, field, get, get_string, get_map, map_value, field_keys,
}
use nexus_go_ccnf_ref.Value.Platform.{Platform}
use nexus_go_ccnf_ref.Ccnf.Numerals.{hex_encode}
use nexus_go_ccnf_ref.Ccnf.Serializer.{canonical_json}
use nexus_go_ccnf_ref.Ccnf.Result.{Result, ok, err, no_action}

unfoldable pub domain_to_scope : Text → Text
domain_to_scope domain =
    if text_eq domain (codes "execution")
    then codes "executiongraph.v2"
    else if text_eq domain (codes "specification")
    then codes "specification.v1"
    else if text_eq domain (codes "system")
    then codes "system.v1"
    else domain ++ codes ".v1"

-- the value at a key, nil where there is none
abbrev pub value_or_null : Option Value → Value
value_or_null none = null
value_or_null (some v) = v

-- the fields that are hashed
unfoldable pub identity_fields : Text → Option Fields → Option Fields → Fields
unfolding domain_to_scope
identity_fields domain intent actor = field (codes "domain") (str domain) (
    field (codes "intent") (map_value intent) (
      field (codes "actor") (map_value actor)
        (field (codes "scope") (str (domain_to_scope domain)) end)))

module _ (p : Platform) where
  -- the writes of the loop of `hashEntitySignature`
  unfoldable pub signature_bytes : Fields → List Text → Text
  signature_bytes fields [] = []
  signature_bytes fields (k ∷ ks) =
      k
      ++ (0 ∷ (canonical_json p (value_or_null (get fields k)) ++ (0 ∷ signature_bytes fields ks)))

  unfoldable pub hash_entity_signature : Fields → Text
  unfolding signature_bytes
  hash_entity_signature fields =
      hex_encode (p.sum256 (signature_bytes fields (sort_strings (field_keys fields))))

  -- The entity key, the identity's type and its scope.
  unfoldable pub derive_identity : Fields → Result (Text × Text × Text)
  derive_identity m =
      let domain = get_string (some m) (codes "domain") in
      let intent = get_map (some m) (codes "intent") in
      if text_eq (get_string intent (codes "action")) []
      then err no_action
      else ok (
        hash_entity_signature (identity_fields domain intent (get_map (some m) (codes "actor"))),
        codes "event",
        domain_to_scope domain,
      )

unfoldable pub derive_collapse_key : Fields → Option Text
derive_collapse_key m =
    let intent = get_map (some m) (codes "intent") in
    let target_type = get_string intent (codes "target_type") in
    let target_id = get_string intent (codes "target_id") in
    if text_eq target_type [] || text_eq target_id []
    then none
    else some (target_type ++ (b':' ∷ target_id))

unfoldable pub derive_alias_keys : Fields → List Text
derive_alias_keys m = []
