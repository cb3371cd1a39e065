-- ===== src/Conformance/Commands.antt =====
-- The commands of conformance/runner.go for one file or the standard input: `hashFile`, `canonicalFile`, `verifyFile` and
-- `processInput`.
use nexus_go_ccnf_ref.Base.{
  Text, codes, text_eq, pos, Option, none, some, List, [], ◌∷◌, if◌then◌else◌, ◌≡◌, refl,
}
use nexus_go_ccnf_ref.Value.{
  Value, Fields, null, bool, int, int64, float, str, arr, obj, other, end, get, as_map, remove,
}
use nexus_go_ccnf_ref.Ccnf.Numerals.{hex_encode}
use nexus_go_ccnf_ref.Ccnf.Result.{Result, ok, err}
use nexus_go_ccnf_ref.Ccnf.Serializer.{canonical_json}
use nexus_go_ccnf_ref.Ccnf.Cer.{
  Cer, compute_hash, build_cer_map, serialize_cer, current_ccnf_version,
}
use nexus_go_ccnf_ref.Ccnf.Pipeline.{run}
use nexus_go_ccnf_ref.Conformance.{Harness}

-- The exit with 1, or what is printed on the standard output before the exit with 0.
pub data Output : Type 0 where
  failure : Output
  printed : Text → Output

abbrev pub first_map : Option Fields → Option Fields → Option Fields
first_map none later = later
first_map (some m) later = some m

-- the loop over the fields, up to the first that holds a map
unfoldable pub first_input : Fields → List Text → Option Fields
first_input raw [] = none
first_input raw (k ∷ ks) = first_map (as_map (get raw k)) (first_input raw ks)

abbrev pub input_fields : List Text
input_fields = codes "input" ∷ codes "input_a" ∷ codes "input_b" ∷ []

module _ (h : Harness) where
  abbrev pub on_run : (Cer → Text) → Result Cer → Output
  on_run print (err e) = failure
  on_run print (ok cer) = printed (print cer)

  abbrev pub on_marshal : (Cer → Text) → Option Text → Output
  on_marshal print none = failure
  on_marshal print (some input_json) = on_run print (run h.platform input_json (pos 1))

  abbrev pub on_input : (Cer → Text) → Option Fields → Output
  on_input print none = failure
  on_input print (some input) = on_marshal print (h.marshal input)

  -- `json.Unmarshal` into a map: the text `null` gives a nil map.
  unfoldable pub on_raw : (Cer → Text) → Option Value → Output
  unfolding first_input
  on_raw print (some (obj raw)) = on_input print (first_input raw input_fields)
  on_raw print (some null) = on_input print (first_input end input_fields)
  on_raw print _ = failure

  unfoldable pub on_file : (Cer → Text) → Option Text → Output
  unfolding on_raw
  on_file print none = failure
  on_file print (some bytes) = on_raw print (h.platform.unmarshal bytes)

  unfoldable pub hash_file : Option Text → Output
  hash_file contents = on_file (compute_hash h.platform) contents

  unfoldable pub canonical_file : Option Text → Output
  canonical_file contents =
      on_file
        (λ cer. canonical_json h.platform (obj (remove (build_cer_map cer) (codes "signature"))))
        contents

  unfoldable pub process_input : Option Text → Output
  process_input none = failure
  process_input (some bytes) =
      if text_eq bytes []
      then failure
      else on_run (serialize_cer h.platform) (run h.platform bytes current_ccnf_version)

  -- The report of a valid event is left out.
  unfoldable pub verify_file : Option Text → Output
  verify_file none = failure
  verify_file (some bytes) = on_run (λ cer. []) (run h.platform bytes current_ccnf_version)

  abbrev pub map_output : (Text → Text) → Output → Output
  map_output f failure = failure
  map_output f (printed text) = printed (f text)

  on_run-map :
      (f : Text → Text) (print : Cer → Text) (r : Result Cer)
      → on_run (λ cer. f (print cer)) r ≡ map_output f (on_run print r)
  on_run-map f print (err e) = refl
  on_run-map f print (ok cer) = refl

  on_marshal-map :
      (f : Text → Text) (print : Cer → Text) (o : Option Text)
      → on_marshal (λ cer. f (print cer)) o ≡ map_output f (on_marshal print o)
  on_marshal-map f print none = refl
  on_marshal-map f print (some input_json) = on_run-map f print (run h.platform input_json (pos 1))

  on_input-map :
      (f : Text → Text) (print : Cer → Text) (o : Option Fields)
      → on_input (λ cer. f (print cer)) o ≡ map_output f (on_input print o)
  on_input-map f print none = refl
  on_input-map f print (some input) = on_marshal-map f print (h.marshal input)

  on_raw-map :
      (f : Text → Text) (print : Cer → Text) (o : Option Value)
      → on_raw (λ cer. f (print cer)) o ≡ map_output f (on_raw print o)
  unfolding on_raw
  on_raw-map f print none = refl
  on_raw-map f print (some (obj raw)) = on_input-map f print (first_input raw input_fields)
  on_raw-map f print (some null) = on_input-map f print (first_input end input_fields)
  on_raw-map f print (some (bool b)) = refl
  on_raw-map f print (some (int n)) = refl
  on_raw-map f print (some (int64 n)) = refl
  on_raw-map f print (some (float x)) = refl
  on_raw-map f print (some (str t)) = refl
  on_raw-map f print (some (arr xs)) = refl
  on_raw-map f print (some (other d)) = refl

  on_file-map :
      (f : Text → Text) (print : Cer → Text) (contents : Option Text)
      → on_file (λ cer. f (print cer)) contents ≡ map_output f (on_file print contents)
  unfolding on_file
  on_file-map f print none = refl
  on_file-map f print (some bytes) = on_raw-map f print (h.platform.unmarshal bytes)

  -- The command `hash` prints the hexadecimal SHA-256 of what the command `canonical` prints for the
  -- same file, and fails where that fails.
  pub hash_file-canonical_file :
      (contents : Option Text)
      → hash_file contents
        ≡ map_output (λ text. hex_encode (h.platform.sum256 text)) (canonical_file contents)
  unfolding hash_file canonical_file compute_hash
  hash_file-canonical_file contents =
      on_file-map (λ text. hex_encode (h.platform.sum256 text))
        (λ cer. canonical_json h.platform (obj (remove (build_cer_map cer) (codes "signature"))))
        contents
