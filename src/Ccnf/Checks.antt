-- ===== src/Ccnf/Checks.antt =====
-- The checks of ccnf/r2.go: `CollisionDetector` and `RoundTripChecker`. `json.Marshal` of an input is given.
pub mod Collisions
use nexus_go_ccnf_ref.Base.{
  ℕ, ◌+◌, Text, codes, ℤ, pos, Option, none, some, List, [], ◌∷◌, ◌++◌, if◌then◌else◌, ltb, length,
  map, ◌≡◌, refl, sym, ap, ◌∙◌,
}
use nexus_go_ccnf_ref.Base.Map.{or_nil, Map, lookup, set}
use nexus_go_ccnf_ref.Value.{Value, Fields, other, struct_pointer, null}
use nexus_go_ccnf_ref.Value.Platform.{Platform}
use nexus_go_ccnf_ref.Ccnf.Result.{Result, ok, err, structural_parse, ◌>>=◌}
use nexus_go_ccnf_ref.Ccnf.Serializer.{canonical_json, encode}
use nexus_go_ccnf_ref.Ccnf.Cer.{Cer, build_cer_map, compute_hash, current_ccnf_version}
use nexus_go_ccnf_ref.Ccnf.Pipeline.{root_object, structural_parse_raw, run}

pub data CollisionSeverity : Type 0 where
  collision_expected collision_ambiguity collision_divergence : CollisionSeverity

pub record CollisionRecord : Type 0 where
  pub hash : Text
  pub inputs : List Text
  pub count : ℕ
  pub severity : CollisionSeverity
  pub rationale : Text

pub record CollisionReport : Type 0 where
  pub ccnf_version : ℤ
  pub seed : ℤ
  pub iterations : ℕ
  pub expected : List CollisionRecord
  pub ambiguities : List CollisionRecord
  pub divergences : List CollisionRecord
  pub classified : Map CollisionRecord

-- `HashInputs`
abbrev pub CollisionDetector : Type 0
CollisionDetector = Map (List Fields)

unfoldable pub add : CollisionDetector → Fields → Text → CollisionDetector
add d input hash = set hash (or_nil (lookup hash d) ++ (input ∷ [])) d

unfoldable pub total_inputs : CollisionDetector → ℕ
total_inputs [] = 0
total_inputs ((hash, inputs) ∷ d) = length inputs + total_inputs d

module _ (marshal : Fields → Text) where
  unfoldable pub collision_record : Text → List Fields → CollisionRecord
  collision_record hash inputs = record {
    hash = hash;
    inputs = map marshal inputs;
    count = length inputs;
    severity = collision_expected;
    rationale = [];
  }

  -- the loop over the hashes, each of which a map has once
  unfoldable pub classify : CollisionDetector → Map CollisionRecord
  unfolding collision_record
  classify [] = []
  classify ((hash, inputs) ∷ d) =
      let rest = classify d in
      if ltb (length inputs) 2 then rest else (hash, collision_record hash inputs) ∷ rest

  unfoldable pub report : CollisionDetector → CollisionReport
  report d = record {
    ccnf_version = current_ccnf_version;
    seed = pos 42;
    iterations = total_inputs d;
    expected = map (λ (hash, record_of). record_of) (classify d);
    ambiguities = [];
    divergences = [];
    classified = classify d;
  }

-- `RoundTripChecker.Check`: `CanonicalJSON` is given a `*CER`, which is none of the types that it names. The fields
-- of the struct are listed as `build_cer_map` lists them.
abbrev pub hashes : Platform → Cer → Cer → Result (Text × Text)
hashes p cer1 cer2 = ok (compute_hash p cer1, compute_hash p cer2)

unfoldable pub check : Platform → Text → Result (Text × Text)
check p input_json = do
  cer1 ← run p input_json (pos 1)
  cer2 ←
      run p (canonical_json p (other (struct_pointer (codes "ccnf.CER") (build_cer_map cer1))))
        (pos 1)
  hashes p cer1 cer2

run-null :
    (p : Platform)
    → p.unmarshal (codes "null") ≡ some null
    → run p (codes "null") (pos 1) ≡ err structural_parse
unfolding run structural_parse_raw root_object
run-null p h = rw h refl

-- Where the text `null` parses to nil, the round trip gives the error of the first run if that fails,
-- and a parse error if it succeeds; it never compares two hashes.
pub check_lem :
    (p : Platform) (input_json : Text)
    → p.unmarshal (codes "null") ≡ some null
    → check p input_json ≡ (run p input_json (pos 1) >>= λ cer1. err structural_parse)
unfolding check canonical_json encode
check_lem p input_json h = after (run p input_json (pos 1))
  where
    after :
        (r : Result Cer)
        → (r >>= λ cer1. run p (codes "null") (pos 1) >>= λ cer2. hashes p cer1 cer2)
          ≡ (r >>= λ cer1. err structural_parse)
    after (err e) = refl
    after (ok cer1) = ap (λ r. r >>= λ cer2. hashes p cer1 cer2) (run-null p h)
