-- ===== src/Ccnf/Cer.antt =====
-- The CER of ccnf/types.go, its map (ccnf/serialize.go), its hash and signature (ccnf/hash.go), and
-- its text (ccnf/cer.go).
pub mod Parse
pub mod Hash
use nexus_go_ccnf_ref.Base.{Text, codes, ℤ, pos, Option, none, some, List, [], ◌∷◌}
use nexus_go_ccnf_ref.Value.{
  Value, Items, Fields, null, int, int64, str, obj, other, string_slice, string_pointer, map_slice,
  nil, cons, end, field, remove, map_value,
}
use nexus_go_ccnf_ref.Value.Platform.{Platform}
use nexus_go_ccnf_ref.Ccnf.Numerals.{hex_encode}
use nexus_go_ccnf_ref.Ccnf.Serializer.{canonical_json}
use nexus_go_ccnf_ref.Ccnf.Deltas.{StateDelta}

pub record Identity : Type 0 where
  pub entity_key : Text
  pub kind : Text
  pub scope : Text
  pub collapse_key : Option Text
  pub alias_keys : List Text

pub record Cer : Type 0 where
  pub event_id : Text
  pub event_version : ℤ
  pub ccnf_version : ℤ
  pub system : Text
  pub domain : Text
  pub timestamp : ℤ
  pub actor : Option Fields
  pub intent : Option Fields
  pub identity : Identity
  pub causality : Option Fields
  pub artifact_refs : List Text
  pub state_delta : List StateDelta
  pub payload : Option Fields
  pub compression : Option Fields
  pub signature : Option Fields

abbrev pub current_ccnf_version : ℤ
current_ccnf_version = pos 1

abbrev pub current_event_version : ℤ
current_event_version = pos 1

abbrev pub system_name : Text
system_name = codes "nexus"

-- a `*string` and a `[]string` in an `any`
abbrev pub pointer_value : Option Text → Value
pointer_value p = other (string_pointer p)

abbrev pub strings_value : List Text → Value
strings_value ss = other (string_slice (some ss))

-- the entry that the loop of `marshalStateDelta` makes
abbrev pub delta_entry : StateDelta → Fields
delta_entry d = field (codes "artifact_id") (str d.artifact_id) (
    field (codes "before_hash") (pointer_value d.before_hash) (
      field (codes "after_hash") (str d.after_hash)
        (field (codes "patch") (map_value d.patch) end)))

unfoldable pub delta_entries : List StateDelta → Items
delta_entries [] = nil
delta_entries (d ∷ deltas) = cons (obj (delta_entry d)) (delta_entries deltas)

-- `marshalStateDelta` returns a `[]map[string]any`.
abbrev pub marshal_state_delta : List StateDelta → Value
marshal_state_delta deltas = other (map_slice (delta_entries deltas))

unfoldable pub identity_map : Identity → Fields
identity_map i = field (codes "entity_key") (str i.entity_key) (
    field (codes "type") (str i.kind) (
      field (codes "scope") (str i.scope) (
        field (codes "collapse_key") (pointer_value i.collapse_key)
          (field (codes "alias_keys") (strings_value i.alias_keys) end))))

-- the rest of the literal of `BuildCERMap`
unfoldable pub build_tail : Cer → Fields
build_tail c = field (codes "causality") (map_value c.causality) (
    field (codes "artifact_refs") (strings_value c.artifact_refs) (
      field (codes "state_delta") (marshal_state_delta c.state_delta) (
        field (codes "payload") (map_value c.payload) (
          field (codes "compression") (map_value c.compression)
            (field (codes "signature") (map_value c.signature) end)))))

unfoldable pub build_cer_map : Cer → Fields
unfolding identity_map build_tail
build_cer_map c = field (codes "event_id") (str c.event_id) (
    field (codes "event_version") (int c.event_version) (
      field (codes "ccnf_version") (int c.ccnf_version) (
        field (codes "system") (str c.system) (
          field (codes "domain") (str c.domain) (
            field (codes "timestamp") (int64 c.timestamp) (
              field (codes "actor") (map_value c.actor) (
                field (codes "intent") (map_value c.intent)
                  (field (codes "identity") (obj (identity_map c.identity)) (build_tail c)))))))))

module _ (p : Platform) where
  unfoldable pub serialize_cer : Cer → Text
  unfolding build_cer_map
  serialize_cer c = canonical_json p (obj (build_cer_map c))

  unfoldable pub compute_hash : Cer → Text
  unfolding build_cer_map
  compute_hash c =
      hex_encode (p.sum256 (canonical_json p (obj (remove (build_cer_map c) (codes "signature")))))

  unfoldable pub build_signature : Cer → Fields
  unfolding compute_hash
  build_signature c =
      field (codes "hash") (str (compute_hash c)) (field (codes "signed_by") null end)
