-- ===== src/Examples/Pipeline.antt =====
-- The pipeline on the sample event.
use nexus_go_ccnf_ref.Base.{
  true, Text, codes, pos, some, none, [], ◌≡◌, ◌↔◌, refl, text_eq, text_leb,
}
use nexus_go_ccnf_ref.Base.Map.{lookup, keys, set}
use nexus_go_ccnf_ref.Base.Sort.{insert, sort_strings}
use nexus_go_ccnf_ref.Value.{end, Fields, obj, get, put, remove, field_keys, get_string, get_map}
use nexus_go_ccnf_ref.Ccnf.Result.{Result, ok, err}
use nexus_go_ccnf_ref.Ccnf.Artifacts.{
  cut, split_n, all_nonempty, is_valid_artifact_id, patch_of, resolve_keys, resolve_data,
  resolve_artifacts,
}
use nexus_go_ccnf_ref.Ccnf.Canonicalize.{
  deep_copy, deep_copy_map, convert_timestamps, normalize_absent_fields, canonicalize_fields,
  parse_timestamp,
}
use nexus_go_ccnf_ref.Ccnf.Cer.{
  Cer, current_ccnf_version, identity_map, build_cer_map, serialize_cer, compute_hash,
  build_signature,
}
use nexus_go_ccnf_ref.Ccnf.Deltas.{asserted_map, compute_patch_hash, compute_state_deltas}
use nexus_go_ccnf_ref.Ccnf.Identity.{
  domain_to_scope, identity_fields, signature_bytes, hash_entity_signature, derive_identity,
  derive_collapse_key, derive_alias_keys,
}
use nexus_go_ccnf_ref.Ccnf.Intents.{
  contains, controlled_vocab, normalize_object, normalize_raw, normalize_intent,
}
use nexus_go_ccnf_ref.Ccnf.Normalize.{
  join_rune, runes, is_zero_width, kept, strip_zero_width, normalize_string,
}
use nexus_go_ccnf_ref.Ccnf.Numerals.{decimal, format_int, hex_char, hex_encode}
use nexus_go_ccnf_ref.Ccnf.Serializer.{
  encode_byte, encode_bytes, encode_string, join_commas, render_map, encode_table, encode,
  encode_items, encode_fields, canonical_json,
}
use nexus_go_ccnf_ref.Ccnf.Pipeline.{
  has_fields, root_object, structural_parse_raw, check_embedded_version, check_target_id,
  normalize_causality, filtered_data, with_data, with_others, payload_of, build_payload, assemble,
  run_normalized, run_canonical, run,
}
use nexus_go_ccnf_ref.Ccnf.Pipeline.Acceptable.{IsAcceptable}
use nexus_go_ccnf_ref.Ccnf.Pipeline.Accepts.{run_iff}
use nexus_go_ccnf_ref.Ccnf.Pipeline.Payload.{run-payload}
use nexus_go_ccnf_ref.Ccnf.Pipeline.Artifacts.{Refers, run-Refers}
use nexus_go_ccnf_ref.Ccnf.Pipeline.Keys.{
  IsAction, IsIntent, key_bytes, run-IsIntent, run-signed, run-key,
}
use nexus_go_ccnf_ref.Examples.{sample_platform, sample}

abbrev empty_cer : Cer
empty_cer = record {
  event_id = [];
  event_version = pos 0;
  ccnf_version = pos 0;
  system = [];
  domain = [];
  timestamp = pos 0;
  actor = none;
  intent = none;
  identity = record {
    entity_key = [];
    kind = [];
    scope = [];
    collapse_key = none;
    alias_keys = [];
  };
  causality = none;
  artifact_refs = [];
  state_delta = [];
  payload = none;
  compression = none;
  signature = none;
}

abbrev event_or_empty : Result Cer → Cer
event_or_empty (ok c) = c
event_or_empty (err e) = empty_cer

-- the event that the pipeline makes of the sample
abbrev sample_event : Cer
sample_event = event_or_empty (run sample_platform [] (pos 1))

sample_accepted : run sample_platform [] (pos 1) ≡ ok sample_event
unfolding text_eq text_leb lookup keys set insert sort_strings get put remove field_keys get_string
    get_map cut split_n all_nonempty is_valid_artifact_id patch_of resolve_keys resolve_data
    resolve_artifacts deep_copy deep_copy_map convert_timestamps normalize_absent_fields
    canonicalize_fields parse_timestamp identity_map build_cer_map serialize_cer compute_hash
    build_signature asserted_map compute_patch_hash compute_state_deltas domain_to_scope
    identity_fields signature_bytes hash_entity_signature derive_identity derive_collapse_key
    derive_alias_keys contains normalize_object normalize_raw normalize_intent join_rune runes
    is_zero_width kept strip_zero_width normalize_string decimal format_int hex_char hex_encode
    encode_byte encode_bytes encode_string join_commas render_map encode_table encode encode_items
    encode_fields canonical_json has_fields root_object structural_parse_raw check_embedded_version
    check_target_id normalize_causality filtered_data with_data with_others payload_of build_payload
    assemble run_normalized run_canonical run
sample_accepted = refl

run-Refers_example :
    Refers sample_platform (canonicalize_fields sample_platform sample) sample_event
run-Refers_example = run-Refers sample_platform [] (pos 1) sample sample_event refl sample_accepted

run-IsIntent_example :
    (given intent : Fields) × (get (canonicalize_fields sample_platform sample) (codes "intent")
      ≡ some (obj given))
    × (sample_event.intent ≡ some intent)
    × IsIntent given intent
    × ((action : Text) → IsAction action ↔ (contains controlled_vocab action ≡ true))
run-IsIntent_example =
    run-IsIntent sample_platform [] (pos 1) sample sample_event refl sample_accepted

run-signed_example :
    get_string sample_event.signature (codes "hash") ≡ compute_hash sample_platform sample_event
run-signed_example = run-signed sample_platform [] (pos 1) sample sample_event refl sample_accepted

run-key_example :
    sample_event.identity.entity_key
    ≡ hex_encode (
        sample_platform.sum256 (
          key_bytes sample_platform
            (get_string (some (canonicalize_fields sample_platform sample)) (codes "domain"))
            sample_event.intent
            (get_map (some (canonicalize_fields sample_platform sample)) (codes "actor"))))
run-key_example = run-key sample_platform [] (pos 1) sample sample_event refl sample_accepted

run_iff_example :
    ((c : Cer) × (run sample_platform [] (pos 1) ≡ ok c))
    ↔ ((pos 1 ≡ current_ccnf_version) × IsAcceptable sample_platform sample)
run_iff_example = run_iff sample_platform [] (pos 1) sample refl

run-payload_example : get_map sample_event.payload (codes "data") ≡ some end
run-payload_example =
    run-payload sample_platform [] (pos 1) sample sample_event refl sample_accepted
