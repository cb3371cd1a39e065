-- ===== src/Ccnf/Cer/Hash.antt =====
-- What the hash of a CER covers.
use nexus_go_ccnf_ref.Base.{Text, codes, Option, some, List, ◌≡◌, refl, text_eq}
use nexus_go_ccnf_ref.Value.{get_string, remove}
use nexus_go_ccnf_ref.Value.Platform.{Platform}
use nexus_go_ccnf_ref.Ccnf.Deltas.{StateDelta}
use nexus_go_ccnf_ref.Ccnf.Cer.{
  Cer, build_cer_map, build_tail, identity_map, strings_value, pointer_value, marshal_state_delta,
  compute_hash, build_signature,
}
use nexus_go_ccnf_ref.Ccnf.Serializer.{canonical_json, encode}

-- A CER without the fields that reach the encoder as a Go type that its `switch` does not name.
abbrev pub forget : Cer → List Text → List StateDelta → Option Text → List Text → Cer
forget c refs deltas collapse aliases = record c {
  artifact_refs = refs;
  state_delta = deltas;
  identity = record c.identity { collapse_key = collapse; alias_keys = aliases };
}

module _ (p : Platform) where
  -- The hash of an event is the same for any artifact references, state deltas, collapse key and
  -- alias keys: the encoder writes null for what the event's map holds for each of the four.
  pub compute_hash-forget :
      (c : Cer) (refs : List Text) (deltas : List StateDelta) (collapse : Option Text)
      (aliases : List Text)
      → (compute_hash p (forget c refs deltas collapse aliases) ≡ compute_hash p c)
        × (canonical_json p (strings_value refs) ≡ codes "null")
        × (canonical_json p (marshal_state_delta deltas) ≡ codes "null")
        × (canonical_json p (pointer_value collapse) ≡ codes "null")
        × (canonical_json p (strings_value aliases) ≡ codes "null")
  unfolding compute_hash build_cer_map build_tail identity_map remove text_eq canonical_json encode
  compute_hash-forget c refs deltas collapse aliases = (refl, refl, refl, refl, refl)

  -- The signature does not enter the hash, so a signed CER hashes to the hash it carries.
  pub compute_hash-signed :
      (c : Cer)
      → let signed : Cer = record c { signature = some (build_signature p c) } in
        get_string signed.signature (codes "hash") ≡ compute_hash p signed
  unfolding compute_hash build_signature get_string remove text_eq
  compute_hash-signed c = refl
