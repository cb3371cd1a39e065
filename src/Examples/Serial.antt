-- ===== src/Examples/Serial.antt =====
-- Canonical text and hashes of small values.
use nexus_go_ccnf_ref.Base.{codes, pos, some, none, [], ◌∷◌, ◌++◌, ◌≡◌, ◌≢◌, arith}
use nexus_go_ccnf_ref.Value.{null, int, obj, end, field}
use nexus_go_ccnf_ref.Value.Same.{maps, exchange}
use nexus_go_ccnf_ref.Ccnf.Cer.{
  Cer, compute_hash, strings_value, pointer_value, marshal_state_delta,
}
use nexus_go_ccnf_ref.Ccnf.Cer.Hash.{forget, compute_hash-forget}
use nexus_go_ccnf_ref.Ccnf.Serializer.{encode_string, canonical_json}
use nexus_go_ccnf_ref.Ccnf.Serializer.Order.{canonical_json-Same}
use nexus_go_ccnf_ref.Ccnf.Serializer.Strings.{read_string, read_string-encode_string}
use nexus_go_ccnf_ref.Examples.{sample_platform, sample_intent}

a-ne-b : codes "a" ≢ codes "b"
a-ne-b h = ground (arith, h)

canonical_json-Same_example :
    canonical_json sample_platform
      (obj (field (codes "a") null (field (codes "b") (int (pos 2)) end)))
    ≡ canonical_json sample_platform
        (obj (field (codes "b") (int (pos 2)) (field (codes "a") null end)))
canonical_json-Same_example =
    canonical_json-Same sample_platform
      (obj (field (codes "a") null (field (codes "b") (int (pos 2)) end)))
      (obj (field (codes "b") (int (pos 2)) (field (codes "a") null end)))
      (maps (exchange (codes "a") (codes "b") null (int (pos 2)) end a-ne-b))

-- a quotation mark, a line feed and a letter
read_string-encode_string_example :
    read_string (encode_string (34 ∷ 10 ∷ 65 ∷ []) ++ codes ",")
    ≡ some (34 ∷ 10 ∷ 65 ∷ [], codes ",")
read_string-encode_string_example =
    read_string-encode_string (34 ∷ 10 ∷ 65 ∷ []) (codes ",") (omega arith)

abbrev note : Cer
note = record {
  event_id = codes "e1";
  event_version = pos 1;
  ccnf_version = pos 1;
  system = codes "nexus";
  domain = codes "code";
  timestamp = pos 7;
  actor = none;
  intent = some sample_intent;
  identity = record {
    entity_key = codes "k";
    kind = codes "event";
    scope = codes "code.v1";
    collapse_key = none;
    alias_keys = [];
  };
  causality = none;
  artifact_refs = codes "acct:main" ∷ [];
  state_delta = [];
  payload = none;
  compression = none;
  signature = none;
}

compute_hash-forget_example :
    (compute_hash sample_platform (forget note [] [] (some (codes "c")) [])
      ≡ compute_hash sample_platform note)
    × (canonical_json sample_platform (strings_value []) ≡ codes "null")
    × (canonical_json sample_platform (marshal_state_delta []) ≡ codes "null")
    × (canonical_json sample_platform (pointer_value (some (codes "c"))) ≡ codes "null")
    × (canonical_json sample_platform (strings_value []) ≡ codes "null")
compute_hash-forget_example = compute_hash-forget sample_platform note [] [] (some (codes "c")) []
