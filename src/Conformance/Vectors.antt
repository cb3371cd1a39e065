-- ===== src/Conformance/Vectors.antt =====
-- The suite exits with 0 exactly if every vector passes.
use nexus_go_ccnf_ref.Base.{
  ℕ, suc, ◌≤◌, Text, codes, text_eq, ℤ, Bool, true, false, not, ◌||◌, Option, none, some, List, [],
  ◌∷◌, ◌++◌, if◌then◌else◌, ◌≡◌, refl, sym, ◌∙◌, arith, ◌↔◌, All,
}
use mathlib.Core.Path.{subst}
use mathlib.Core.Option.{some-injective}
use nexus_go_ccnf_ref.Value.{
  Value, Fields, null, bool, int, int64, float, str, arr, obj, other, end, get, as_string, as_map,
  or_empty, text_or_empty,
}
use nexus_go_ccnf_ref.Ccnf.Result.{Result, ok, err, error_message}
use nexus_go_ccnf_ref.Ccnf.Cer.{Cer, compute_hash}
use nexus_go_ccnf_ref.Ccnf.Pipeline.{run}
use nexus_go_ccnf_ref.Conformance.Contains.{Holds, contains_text_iff}
use nexus_go_ccnf_ref.Conformance.{
  VectorFile, Progress, Tally, vector_files, fail, expected_hash, suffix_of, contains_text, Harness,
  on_error, on_cer, run_marshalled, run_inputs, inputs_of, vector_version, run_some, run_raw,
  run_parsed, run_contents, run_file, tally, run_files, run_vectors,
}

-- The failures that a step adds are none exactly if `P` holds.
record Judges {ℓ} (P : Type ℓ) (s t : ℕ) : Type ℓ where
  grows : s ≤ t
  exact : (t ≡ s) ↔ P

module _ {ℓ} {P : Type ℓ} where
  Judges-pass : (s : ℕ) → P → Judges P s s
  Judges-pass s h = record { grows = omega arith; exact = (λ e. h, λ k. refl) }

  Judges-fail : (s : ℕ) → ¬ P → Judges P s (suc s)
  Judges-fail s h = record {
    grows = omega arith;
    exact = (λ e. absurd (omega (arith, e)), λ k. absurd (h k));
  }

  Judges-seq {κ} : {Q : Type κ} {s t u : ℕ} → Judges P s t → Judges Q t u → Judges (P × Q) s u
  Judges-seq {s = s} {t = t} {u = u} a b = record {
    grows = omega (arith, a.grows, b.grows);
    exact = (
      λ e. (
        a.exact.0 (omega (arith, a.grows, b.grows, e)),
        b.exact.0 (omega (arith, a.grows, b.grows, e)),
      ),
      λ h. b.exact.1 h.1 ∙ a.exact.1 h.0,
    );
  }

  Judges-iff {κ} : {Q : Type κ} {s t : ℕ} → (P → Q) → (Q → P) → Judges P s t → Judges Q s t
  Judges-iff f g a = record {
    grows = a.grows;
    exact = (λ e. f (a.exact.0 e), λ h. a.exact.1 (g h));
  }

-- A text that a vector gives at a key is the one that is found.
abbrev pub Expects : Fields → Text → Text → Type 0
Expects expected key actual =
    let want = text_or_empty (as_string (get expected key)) in
    (text_eq want [] || text_eq actual want) ≡ true

Judges-expected_hash :
    (expected : Fields) (key actual : Text) (s : Progress)
    → Judges (Expects expected key actual) s.failed (expected_hash expected key actual s).failed
unfolding expected_hash
Judges-expected_hash expected key actual s =
    split (text_eq (text_or_empty (as_string (get expected key))) [])
      (text_eq actual (text_or_empty (as_string (get expected key))))
  where
    split :
        (a b : Bool)
        → Judges ((a || b) ≡ true) s.failed (if a then s else if not b then fail s else s).failed
    split true b = Judges-pass s.failed refl
    split false true = Judges-pass s.failed refl
    split false false = Judges-fail s.failed (λ e. cc e)

module _ (h : Harness) where
  abbrev pub error_of : Fields → Text
  error_of expected = text_or_empty (as_string (get expected (codes "error")))

  -- An event record with the keys and the hash that the vector gives.
  abbrev pub MeetsHashes : Fields → Text → Result Cer → Type 0
  MeetsHashes expected label (err e) = ⊥
  MeetsHashes expected label (ok cer) =
      Expects expected (codes "entity_key" ++ suffix_of label) cer.identity.entity_key
      × Expects expected (codes "canonical_hash" ++ suffix_of label) (compute_hash h.platform cer)

  -- An error whose text holds the expected one.
  abbrev pub MeetsError : Text → ℤ → Text → Result Cer → Type 0
  MeetsError json v err_str (ok cer) = ⊥
  MeetsError json v err_str (err e) = Holds (error_message e (h.detail json v e)) err_str

  abbrev pub Meets : Text → ℤ → Fields → Text → Result Cer → Type 0
  Meets json v expected label cer =
      if text_eq (error_of expected) []
      then MeetsHashes expected label cer
      else MeetsError json v (error_of expected) cer

  -- An input that passes.
  abbrev pub InputPasses : ℤ → Fields → Text × Fields → Type 0
  InputPasses ccnf_version expected (label, input) =
      (json : Text) × (h.marshal input ≡ some json)
      × Meets json ccnf_version expected label (run h.platform json ccnf_version)

  Judges-on_error :
      (json : Text) (v : ℤ) (err_str : Text) (cer : Result Cer) (s : Progress)
      → Judges (MeetsError json v err_str cer) s.failed (on_error h json v err_str cer s).failed
  unfolding on_error
  Judges-on_error json v err_str (ok cer) s = Judges-fail s.failed (λ e. e)
  Judges-on_error json v err_str (err e) s =
      Judges-iff (contains_text_iff (error_message e (h.detail json v e)) err_str).0
        (contains_text_iff (error_message e (h.detail json v e)) err_str).1
        (split (contains_text (error_message e (h.detail json v e)) err_str))
    where
      split : (b : Bool) → Judges (b ≡ true) s.failed (if not b then fail s else s).failed
      split true = Judges-pass s.failed refl
      split false = Judges-fail s.failed (λ e. cc e)

  Judges-on_cer :
      (expected : Fields) (label : Text) (cer : Result Cer) (s : Progress)
      → Judges (MeetsHashes expected label cer) s.failed (on_cer h expected label cer s).failed
  unfolding on_cer
  Judges-on_cer expected label (err e) s = Judges-fail s.failed (λ e. e)
  Judges-on_cer expected label (ok cer) s =
      Judges-seq
        (Judges-expected_hash expected (codes "entity_key" ++ suffix_of label)
          cer.identity.entity_key s)
        (Judges-expected_hash expected (codes "canonical_hash" ++ suffix_of label)
          (compute_hash h.platform cer)
          (expected_hash expected (codes "entity_key" ++ suffix_of label) cer.identity.entity_key
            s))

  Judges-run :
      (b : Bool) (json : Text) (v : ℤ) (expected : Fields) (label : Text) (cer : Result Cer)
      (s : Progress)
      → Judges
          (if b then MeetsHashes expected label cer else MeetsError json v (error_of expected) cer)
          s.failed
          (if not b
            then on_error h json v (error_of expected) cer s
            else on_cer h expected label cer s).failed
  Judges-run true json v expected label cer s = Judges-on_cer expected label cer s
  Judges-run false json v expected label cer s = Judges-on_error json v (error_of expected) cer s

  Judges-run_marshalled :
      (v : ℤ) (expected : Fields) (label : Text) (input : Fields) (o : Option Text) (s : Progress)
      → h.marshal input ≡ o
      → Judges
          (InputPasses v expected (label, input))
          s.failed
          (run_marshalled h v expected label o s).failed
  Judges-run_marshalled v expected label input none s e =
      Judges-fail s.failed (λ (json, k, m). cc (sym e ∙ k))
  Judges-run_marshalled v expected label input (some json) s e =
      Judges-iff (λ m. (json, e, m))
        (λ (json', k, m).
          subst (λ j. Meets j v expected label (run h.platform j v))
            (some-injective json' json (sym k ∙ e)) m)
        (Judges-run (text_eq (error_of expected) []) json v expected label (run h.platform json v)
          s)

  Judges-run_inputs :
      (v : ℤ) (expected : Fields) (inputs : List (Text × Fields)) (s : Progress)
      → Judges
          (All (InputPasses v expected) inputs)
          s.failed
          (run_inputs h v expected inputs s).failed
  unfolding run_inputs
  Judges-run_inputs v expected [] s = Judges-pass s.failed tt
  Judges-run_inputs v expected ((label, input) ∷ inputs) s =
      Judges-seq (Judges-run_marshalled v expected label input (h.marshal input) s refl) (
        Judges-run_inputs v expected inputs (run_marshalled h v expected label (h.marshal input) s))

  -- The inputs of a vector: one or more, and all of them pass.
  abbrev pub SomePass : ℤ → Fields → List (Text × Fields) → Type 0
  SomePass v expected [] = ⊥
  SomePass v expected (input ∷ inputs) = All (InputPasses v expected) (input ∷ inputs)

  abbrev pub RawPasses : Fields → Type 0
  RawPasses raw =
      SomePass (vector_version h (get raw (codes "ccnf_version")))
        (or_empty (as_map (get raw (codes "expected")))) (inputs_of h raw)

  abbrev pub ParsedPasses : Option Value → Type 0
  ParsedPasses (some (obj raw)) = RawPasses raw
  ParsedPasses (some null) = RawPasses end
  ParsedPasses _ = ⊥

  -- A file that is read, parses to an object and passes.
  abbrev pub ContentsPass : Option Text → Type 0
  ContentsPass none = ⊥
  ContentsPass (some bytes) = ParsedPasses (h.platform.unmarshal bytes)

  abbrev pub FilePasses : VectorFile → Type 0
  FilePasses f = ContentsPass f.contents

  Judges-run_some :
      (v : ℤ) (expected : Fields) (inputs : List (Text × Fields)) (s : Progress)
      → Judges (SomePass v expected inputs) s.failed (run_some h v expected inputs s).failed
  Judges-run_some v expected [] s = Judges-fail s.failed (λ e. e)
  Judges-run_some v expected (input ∷ inputs) s =
      Judges-run_inputs v expected (input ∷ inputs) (record { input_ok = true; failed = s.failed })

  Judges-run_raw :
      (raw : Fields) (s : Progress) → Judges (RawPasses raw) s.failed (run_raw h raw s).failed
  unfolding run_raw
  Judges-run_raw raw s = Judges-run_some _ _ (inputs_of h raw) s

  Judges-run_parsed :
      (o : Option Value) (s : Progress) → Judges (ParsedPasses o) s.failed (run_parsed h o s).failed
  unfolding run_parsed
  Judges-run_parsed (some (obj raw)) s = Judges-run_raw raw s
  Judges-run_parsed (some null) s = Judges-run_raw end s
  Judges-run_parsed none s = Judges-fail s.failed (λ e. e)
  Judges-run_parsed (some (bool b)) s = Judges-fail s.failed (λ e. e)
  Judges-run_parsed (some (int n)) s = Judges-fail s.failed (λ e. e)
  Judges-run_parsed (some (int64 n)) s = Judges-fail s.failed (λ e. e)
  Judges-run_parsed (some (float f)) s = Judges-fail s.failed (λ e. e)
  Judges-run_parsed (some (str t)) s = Judges-fail s.failed (λ e. e)
  Judges-run_parsed (some (arr xs)) s = Judges-fail s.failed (λ e. e)
  Judges-run_parsed (some (other d)) s = Judges-fail s.failed (λ e. e)

  Judges-run_contents :
      (o : Option Text) (s : Progress)
      → Judges (ContentsPass o) s.failed (run_contents h o s).failed
  Judges-run_contents none s = Judges-fail s.failed (λ e. e)
  Judges-run_contents (some bytes) s = Judges-run_parsed (h.platform.unmarshal bytes) s

  Judges-run_file :
      (f : VectorFile) (failed : ℕ) → Judges (FilePasses f) failed (run_file h f failed).failed
  unfolding run_file
  Judges-run_file f failed =
      Judges-run_contents f.contents (record { input_ok = false; failed = failed })

  Judges-run_files :
      (files : List VectorFile) (t : Tally)
      → Judges (All FilePasses files) t.failed (run_files h files t).failed
  unfolding run_files
  Judges-run_files [] t = Judges-pass t.failed tt
  Judges-run_files (f ∷ files) t =
      Judges-seq (Judges-run_file f t.failed)
        (Judges-run_files files (tally h (run_file h f t.failed) t.passed))

  -- The suite exits with 0 exactly if the directory can be read and each vector file can be read, parses to an object or to null, has
  -- an input, and each of its inputs can be marshalled and gives an error whose text holds the expected
  -- one, or, where no error is expected, an event with the entity key and the hash that the file
  -- expects, if it gives any.
  pub run_vectors_iff :
      (entries : Option (List VectorFile))
      → (run_vectors h entries ≡ 0)
        ↔ ((files : List VectorFile) × (entries ≡ some files) × All FilePasses (vector_files files))
  unfolding run_vectors
  run_vectors_iff none = (λ e. absurd (omega (arith, e)), λ k. absurd (cc k.1))
  run_vectors_iff (some entries) =
      let j = Judges-run_files (vector_files entries) (record { passed = 0; failed = 0 }) in
      (
        λ e. (entries, refl, j.exact.0 (ground (arith, e))),
        λ (files, same, k).
            rw
              (j.exact.1 (
                subst (λ fs. All FilePasses (vector_files fs))
                  (some-injective files entries (sym same)) k))
              refl,
      )
