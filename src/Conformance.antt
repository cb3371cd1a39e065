-- ===== src/Conformance.antt =====
-- conformance/runner.go: the suite of golden vectors. What `os.ReadDir` and `os.ReadFile` give,
-- `json.Marshal` of an input and the details that the texts of errors have behind their constants are
-- given.
pub mod Contains
pub mod Vectors
pub mod Commands
use nexus_go_ccnf_ref.Base.{
  ℕ, suc, ◌+◌, Text, codes, text_eq, has_prefix, has_suffix, ◌||◌, ℤ, pos, Bool, true, false, not,
  ◌&&◌, ◌==◌, Option, none, some, List, [], ◌∷◌, ◌++◌, if◌then◌else◌,
}
use nexus_go_ccnf_ref.Value.{
  Value, Fields, null, float, obj, end, get, as_string, as_map, or_empty, text_or_empty,
}
use nexus_go_ccnf_ref.Value.Platform.{Platform}
use nexus_go_ccnf_ref.Ccnf.Result.{Error, Result, ok, err, error_message}
use nexus_go_ccnf_ref.Ccnf.Cer.{Cer, compute_hash}
use nexus_go_ccnf_ref.Ccnf.Pipeline.{run}

-- An entry of the directory, with what reading it gives.
pub record VectorFile : Type 0 where
  pub name : Text
  pub is_dir : Bool
  pub contents : Option Text

-- `inputOK` and the failures so far
pub record Progress : Type 0 where
  pub input_ok : Bool
  pub failed : ℕ

pub record Tally : Type 0 where
  pub passed : ℕ
  pub failed : ℕ

-- the entries of the directory that `runVectors` takes
unfoldable pub is_vector : VectorFile → Bool
is_vector f =
    not f.is_dir
    && (has_suffix f.name (codes ".json") && not (text_eq f.name (codes "expected-hashes.json")))

unfoldable pub vector_files : List VectorFile → List VectorFile
unfolding is_vector
vector_files [] = []
vector_files (f ∷ entries) =
    let rest = vector_files entries in if is_vector f then f ∷ rest else rest

abbrev pub fail : Progress → Progress
fail s = record { input_ok = false; failed = suc s.failed }

-- a nil map reads as an empty one
unfoldable pub expected_hash : Fields → Text → Text → Progress → Progress
expected_hash expected key actual s =
    let want = text_or_empty (as_string (get expected key)) in
    if text_eq want [] then s else if not (text_eq actual want) then fail s else s

-- `suffix`
unfoldable pub suffix_of : Text → Text
suffix_of label =
    if text_eq label (codes "input_a")
    then codes "_a"
    else if text_eq label (codes "input_b")
    then codes "_b"
    else []

-- What the suite is run with.
pub record Harness : Type 0 where
  pub platform : Platform
  pub marshal : Fields → Option Text
  -- what the text of an error has behind its constant, for an input and a version
  pub detail : Text → ℤ → Error → Text

-- `strings.Contains`
unfoldable pub contains_text : Text → Text → Bool
contains_text [] t = text_eq t []
contains_text (c ∷ s) t = has_prefix (c ∷ s) t || contains_text s t

module _ (h : Harness) where
  -- an input of which an error is expected
  unfoldable pub on_error : Text → ℤ → Text → Result Cer → Progress → Progress
  unfolding contains_text
  on_error input_json ccnf_version err_str (ok cer) s = fail s
  on_error input_json ccnf_version err_str (err e) s =
      if not (contains_text (error_message e (h.detail input_json ccnf_version e)) err_str)
      then fail s
      else s

  unfoldable pub on_cer : Fields → Text → Result Cer → Progress → Progress
  unfolding expected_hash suffix_of
  on_cer expected label (err e) s = fail s
  on_cer expected label (ok cer) s =
      expected_hash expected (codes "canonical_hash" ++ suffix_of label)
        (compute_hash h.platform cer)
        (expected_hash expected (codes "entity_key" ++ suffix_of label) cer.identity.entity_key s)

  abbrev pub run_marshalled : ℤ → Fields → Text → Option Text → Progress → Progress
  run_marshalled ccnf_version expected label none s = fail s
  run_marshalled ccnf_version expected label (some input_json) s =
      let err_str = text_or_empty (as_string (get expected (codes "error"))) in
      let cer = run h.platform input_json ccnf_version in
      if not (text_eq err_str [])
      then on_error input_json ccnf_version err_str cer s
      else on_cer expected label cer s

  -- the loop over the inputs
  unfoldable pub run_inputs : ℤ → Fields → List (Text × Fields) → Progress → Progress
  unfolding on_error on_cer
  run_inputs ccnf_version expected [] s = s
  run_inputs ccnf_version expected ((label, input) ∷ inputs) s =
      run_inputs ccnf_version expected inputs
        (run_marshalled ccnf_version expected label (h.marshal input) s)

  abbrev pub with_input : Text → Option Fields → List (Text × Fields) → List (Text × Fields)
  with_input label none inputs = inputs
  with_input label (some input) inputs = (label, input) ∷ inputs

  abbrev pub input_at : Text → Fields → List (Text × Fields) → List (Text × Fields)
  input_at label raw inputs = with_input label (as_map (get raw label)) inputs

  unfoldable pub inputs_of : Fields → List (Text × Fields)
  inputs_of raw =
      input_at (codes "input") raw
        (input_at (codes "input_a") raw (input_at (codes "input_b") raw []))

  unfoldable pub vector_version : Option Value → ℤ
  vector_version (some (float v)) = h.platform.float_to_int64 v
  vector_version _ = pos 1

  abbrev pub run_some : ℤ → Fields → List (Text × Fields) → Progress → Progress
  run_some ccnf_version expected [] s = fail s
  run_some ccnf_version expected (input ∷ inputs) s =
      run_inputs ccnf_version expected (input ∷ inputs)
        (record { input_ok = true; failed = s.failed })

  unfoldable pub run_raw : Fields → Progress → Progress
  unfolding run_inputs inputs_of vector_version
  run_raw raw s =
      run_some (vector_version (get raw (codes "ccnf_version")))
        (or_empty (as_map (get raw (codes "expected")))) (inputs_of raw) s

  -- `json.Unmarshal` into a map: the text `null` gives a nil map.
  unfoldable pub run_parsed : Option Value → Progress → Progress
  unfolding run_raw
  run_parsed (some (obj raw)) s = run_raw raw s
  run_parsed (some null) s = run_raw end s
  run_parsed _ s = fail s

  abbrev pub run_contents : Option Text → Progress → Progress
  run_contents none s = fail s
  run_contents (some bytes) s = run_parsed (h.platform.unmarshal bytes) s

  unfoldable pub run_file : VectorFile → ℕ → Progress
  unfolding run_parsed
  run_file f failed = run_contents f.contents (record { input_ok = false; failed = failed })

  abbrev pub tally : Progress → ℕ → Tally
  tally s passed = record { passed = if s.input_ok then suc passed else passed; failed = s.failed }

  -- the loop over the files
  unfoldable pub run_files : List VectorFile → Tally → Tally
  unfolding run_file
  run_files [] t = t
  run_files (f ∷ files) t = run_files files (tally (run_file f t.failed) t.passed)

  -- The exit code of the suite; `none` is a directory that cannot be read.
  unfoldable pub run_vectors : Option (List VectorFile) → ℕ
  unfolding run_files vector_files
  run_vectors none = 1
  run_vectors (some entries) =
      let t = run_files (vector_files entries) (record { passed = 0; failed = 0 }) in
      if t.failed == 0 then 0 else 1
