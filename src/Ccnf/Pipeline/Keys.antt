-- ===== src/Ccnf/Pipeline/Keys.antt =====
-- The entity key, the intent, the payload and the signature of an accepted event.
use mathlib.Core.Path.{subst}
use nexus_go_ccnf_ref.Base.{
  Text, codes, text_eq, text_eq_iff, text_leb, Bool-cases, inl, inr, [], ◌∷◌, ◌++◌, if◌then◌else◌,
  ℤ, ◌≡◌, refl, ap, ◌∙◌, ◌↔◌, true, Option, some, arith,
}
use nexus_go_ccnf_ref.Base.Sort.{insert, sort_strings}
use nexus_go_ccnf_ref.Ccnf.Numerals.{hex_encode}
use nexus_go_ccnf_ref.Ccnf.Serializer.{canonical_json}
use nexus_go_ccnf_ref.Value.{
  Value, Fields, obj, str, end, field, field_keys, map_value, get, get_map, get_string,
}
use nexus_go_ccnf_ref.Value.Get.{get_map-put_ne, get_map-put_self, get_string-put_ne}
use nexus_go_ccnf_ref.Value.Platform.{Platform}
use nexus_go_ccnf_ref.Ccnf.Canonicalize.{canonicalize_fields}
use nexus_go_ccnf_ref.Ccnf.Result.{ok}
use nexus_go_ccnf_ref.Ccnf.Intents.{
  contains, controlled_vocab, normalize_object, normalize_raw, normalize_intent,
}
use nexus_go_ccnf_ref.Ccnf.Identity.{
  derive_identity, domain_to_scope, signature_bytes, hash_entity_signature, identity_fields,
}
use nexus_go_ccnf_ref.Ccnf.Cer.{Cer, compute_hash}
use nexus_go_ccnf_ref.Ccnf.Cer.Hash.{compute_hash-signed}
use nexus_go_ccnf_ref.Ccnf.Pipeline.{run, assemble}
use nexus_go_ccnf_ref.Ccnf.Pipeline.Steps.{
  Steps, with_intent, run_canonical-Steps, run-run_canonical,
}

-- The six actions.
pub data IsAction : Text → Type 0 where
  create : IsAction (codes "create")
  update : IsAction (codes "update")
  delete : IsAction (codes "delete")
  execute : IsAction (codes "execute")
  validate : IsAction (codes "validate")
  emit : IsAction (codes "emit")

-- An action of the vocabulary is one of the six.
pub contains-IsAction : (a : Text) → contains controlled_vocab a ≡ true → IsAction a
unfolding contains
contains-IsAction a h = elim (Bool-cases (text_eq (codes "create") a)) [
  | inl is ↦ subst IsAction ((text_eq_iff _ a).0 is) create
  | inr c ↦ elim (Bool-cases (text_eq (codes "update") a)) [
    | inl is ↦ subst IsAction ((text_eq_iff _ a).0 is) update
    | inr u ↦ elim (Bool-cases (text_eq (codes "delete") a)) [
      | inl is ↦ subst IsAction ((text_eq_iff _ a).0 is) delete
      | inr d ↦ elim (Bool-cases (text_eq (codes "execute") a)) [
        | inl is ↦ subst IsAction ((text_eq_iff _ a).0 is) execute
        | inr e ↦ elim (Bool-cases (text_eq (codes "validate") a)) [
          | inl is ↦ subst IsAction ((text_eq_iff _ a).0 is) validate
          | inr v ↦ subst IsAction ((text_eq_iff _ a).0 (ground (arith, h, c, u, d, e, v))) emit
        ]
      ]
    ]
  ]
]

pub IsAction-contains : (a : Text) → IsAction a → contains controlled_vocab a ≡ true
unfolding contains text_eq
IsAction-contains _ create = refl
IsAction-contains _ update = refl
IsAction-contains _ delete = refl
IsAction-contains _ execute = refl
IsAction-contains _ validate = refl
IsAction-contains _ emit = refl

vocabulary_iff : (action : Text) → IsAction action ↔ (contains controlled_vocab action ≡ true)
vocabulary_iff action = (IsAction-contains action, contains-IsAction action)

-- An intent with the four keys, one of the six actions, and the target of the input; what is no
-- string in the input counts as the empty text.
pub record IsIntent (raw : Fields) (intent : Fields) : Type 0 where
  pub shape :
      intent
      ≡ field (codes "type") (str (codes "normalized_verb")) (
          field (codes "action") (str (get_string (some raw) (codes "action"))) (
            field
              (codes "target_type")
              (str (get_string (some raw) (codes "target_type")))
              (field (codes "target_id") (str (get_string (some raw) (codes "target_id"))) end)))
  pub is_action : IsAction (get_string (some raw) (codes "action"))

normalize_object-IsIntent :
    (raw intent : Fields) → normalize_object raw ≡ ok intent → IsIntent raw intent
unfolding normalize_object
normalize_object-IsIntent raw intent h = record {
  shape = ground arith;
  is_action = contains-IsAction (get_string (some raw) (codes "action")) (ground arith);
}

normalize_raw-eq-ok :
    (o : Option Value) (intent : Fields)
    → normalize_raw o ≡ ok intent
    → (raw : Fields) × (o ≡ some (obj raw)) × (normalize_object raw ≡ ok intent)
unfolding normalize_raw
normalize_raw-eq-ok (some (obj raw)) intent h = (raw, refl, h)
normalize_raw-eq-ok _ intent h = cc

pub normalize_intent-IsIntent :
    (m intent : Fields)
    → normalize_intent m ≡ ok intent
    → (raw : Fields) × (get m (codes "intent") ≡ some (obj raw)) × IsIntent raw intent
unfolding normalize_intent
normalize_intent-IsIntent m intent h =
    let (given, at, e) = normalize_raw-eq-ok (get m (codes "intent")) intent h in
    (given, at, normalize_object-IsIntent given intent e)

-- The scope of a domain: of the four cases only that of execution is one of its own.
abbrev pub scope_of : Text → Text
scope_of domain =
    if text_eq domain (codes "execution") then codes "executiongraph.v2" else domain ++ codes ".v1"

module _ (p : Platform) where
  -- `Run` succeeds only if the canonical fields hold an object as intent, whose action is create,
  -- update, delete, execute, validate or emit; the event's intent has the type normalized_verb and
  -- that object's action, target_type and target_id, in this order and nothing else, where one
  -- that is no string counts as empty. And these six are the vocabulary.
  pub run-IsIntent :
      (raw : Text) (v : ℤ) (m : Fields) (c : Cer)
      → p.unmarshal raw ≡ some (obj m)
      → run p raw v ≡ ok c
      → (given intent : Fields) × (get (canonicalize_fields p m) (codes "intent")
          ≡ some (obj given))
        × (c.intent ≡ some intent)
        × IsIntent given intent
        × ((action : Text) → IsAction action ↔ (contains controlled_vocab action ≡ true))
  unfolding assemble
  run-IsIntent raw v m c e h =
      let s = run_canonical-Steps p v _ c (run-run_canonical p raw v m c e h).1 in
      let (given, at, is) =
        normalize_intent-IsIntent (canonicalize_fields p m) s.intent s.intended in
      (given, s.intent, at, ap (λ (x : Cer). x.intent) s.assembled, is, vocabulary_iff)

  -- The signature of an accepted event holds the hash of the event as it is, signature included.
  pub run-signed :
      (raw : Text) (v : ℤ) (m : Fields) (c : Cer)
      → p.unmarshal raw ≡ some (obj m)
      → run p raw v ≡ ok c
      → get_string c.signature (codes "hash") ≡ compute_hash p c
  run-signed raw v m c e h =
      let s = run_canonical-Steps p v _ c (run-run_canonical p raw v m c e h).1 in
      rw s.assembled (compute_hash-signed p _)

  derive_identity-key :
      (m : Fields) (i : Text × Text × Text)
      → derive_identity p m ≡ ok i
      → i.0
        ≡ hash_entity_signature p (
            identity_fields
              (get_string (some m) (codes "domain"))
              (get_map (some m) (codes "intent"))
              (get_map (some m) (codes "actor")))
  unfolding derive_identity
  derive_identity-key m i h = ground arith

  -- A key and the canonical JSON of a value, each ended by a zero byte, in front of more.
  abbrev pub keyed : Text → Value → Text → Text
  keyed k v rest = k ++ (0 ∷ (canonical_json p v ++ (0 ∷ rest)))

  -- What the entity key hashes: actor, domain, intent and scope.
  abbrev pub key_bytes : Text → Option Fields → Option Fields → Text
  key_bytes domain intent actor = keyed (codes "actor") (map_value actor) (
      keyed (codes "domain") (str domain) (
        keyed (codes "intent") (map_value intent)
          (keyed (codes "scope") (str (scope_of domain)) [])))

  domain_to_scope-scope_of : (domain : Text) → domain_to_scope domain ≡ scope_of domain
  unfolding domain_to_scope
  domain_to_scope-scope_of domain =
      ground
        (arith, text_eq_iff domain (codes "specification"), text_eq_iff domain (codes "system"))

  hash_entity_signature-key_bytes :
      (domain : Text) (intent actor : Option Fields)
      → hash_entity_signature p (identity_fields domain intent actor)
        ≡ hex_encode (p.sum256 (key_bytes domain intent actor))
  unfolding hash_entity_signature signature_bytes identity_fields sort_strings insert get text_eq
      field_keys text_leb
  hash_entity_signature-key_bytes domain intent actor = rw (domain_to_scope-scope_of domain) refl

  entity_key-Steps :
      (v : ℤ) (m : Fields) (c : Cer)
      → Steps p v m c
      → c.identity.entity_key
        ≡ hash_entity_signature p (
            identity_fields
              (get_string (some m) (codes "domain"))
              c.intent
              (get_map (some m) (codes "actor")))
  unfolding text_eq assemble
  entity_key-Steps v m c s =
      let key = derive_identity-key (with_intent m s.intent) s.identity s.identified in
      let domain = get_string-put_ne m (codes "intent") (codes "domain") (obj s.intent) refl in
      let actor = get_map-put_ne m (codes "intent") (codes "actor") (obj s.intent) refl in
      let self = get_map-put_self m s.intent (codes "intent") in
      let intent : c.intent ≡ some s.intent = ap (λ (x : Cer). x.intent) s.assembled in
      ap (λ (x : Cer). x.identity.entity_key) s.assembled ∙ (key ∙ rw (domain, actor, self, intent))

  -- The entity key of an accepted event is the digest, in hexadecimal, of the keys actor, domain,
  -- intent and scope in this order, each followed by a zero byte, the canonical JSON of its value
  -- and a zero byte: the actor and the domain of the canonical fields, the event's intent, and the
  -- scope, which is executiongraph.v2 for the domain execution and any other domain with .v1.
  pub run-key :
      (raw : Text) (v : ℤ) (m : Fields) (c : Cer)
      → p.unmarshal raw ≡ some (obj m)
      → run p raw v ≡ ok c
      → c.identity.entity_key
        ≡ hex_encode (
            p.sum256 (
              key_bytes
                (get_string (some (canonicalize_fields p m)) (codes "domain"))
                c.intent
                (get_map (some (canonicalize_fields p m)) (codes "actor"))))
  run-key raw v m c e h =
      entity_key-Steps v _ c (run_canonical-Steps p v _ c (run-run_canonical p raw v m c e h).1)
      ∙ hash_entity_signature-key_bytes _ c.intent _
