-- ===== src/Ccnf/Deltas.antt =====
-- ccnf/deltas.go: one state delta for each resolved artifact, and the scope check.
pub mod Loop
pub mod Scope
use nexus_go_ccnf_ref.Base.{
  Text, codes, text_eq, Bool, true, false, Option, none, some, List, [], ◌∷◌, if◌then◌else◌, ◌==◌,
}
use nexus_go_ccnf_ref.Value.{Value, Fields, obj, get, get_map, get_string, as_map}
use nexus_go_ccnf_ref.Value.Platform.{Platform}
use nexus_go_ccnf_ref.Ccnf.Numerals.{hex_encode}
use nexus_go_ccnf_ref.Ccnf.Serializer.{canonical_json}
use nexus_go_ccnf_ref.Ccnf.Artifacts.{is_valid_artifact_id}
use nexus_go_ccnf_ref.Ccnf.Result.{Result, ok, err, panic, delta_scope_violation, ◌>>=◌}

pub record StateDelta : Type 0 where
  pub artifact_id : Text
  pub before_hash : Option Text
  pub after_hash : Text
  pub patch : Option Fields

abbrev pub compute_before_hash : Fields → Option Text
compute_before_hash m = none

-- The assertion `artifacts[i]["patch"].(map[string]any)`, which panics where it fails.
unfoldable pub asserted_map : Option Fields → Result Fields
asserted_map none = err panic
asserted_map (some patch) = ok patch

module _ (p : Platform) where
  unfoldable pub compute_patch_hash : Fields → Text
  compute_patch_hash patch = hex_encode (p.sum256 (canonical_json p (obj patch)))

  -- the loop, over the references and the artifacts side by side
  unfoldable pub compute_state_deltas : Fields → List Text → List Fields → Result (List StateDelta)
  unfolding asserted_map
  compute_state_deltas m [] artifacts = ok []
  compute_state_deltas m (ref ∷ refs) [] = compute_state_deltas m refs []
  compute_state_deltas m (ref ∷ refs) (a ∷ artifacts) = do
    patch ← asserted_map (get_map (some a) (codes "patch"))
    deltas ← compute_state_deltas m refs artifacts
    ok (
        record {
          artifact_id = ref;
          before_hash = compute_before_hash m;
          after_hash = compute_patch_hash patch;
          patch = some patch;
        }
        ∷ deltas)

-- `extractArtifactPrefix`: the text in front of the first colon, or all of it
unfoldable pub extract_artifact_prefix : Text → Text
extract_artifact_prefix [] = []
extract_artifact_prefix (c ∷ s) = if c == b':' then [] else c ∷ extract_artifact_prefix s

-- the two loops of `ValidateDeltaScope`
unfoldable pub all_ids_valid : List StateDelta → Result (Unit {0})
all_ids_valid [] = ok tt
all_ids_valid (d ∷ ds) =
    if is_valid_artifact_id d.artifact_id then all_ids_valid ds else err delta_scope_violation

unfoldable pub all_in_scope : Text → List StateDelta → Result (Unit {0})
unfolding extract_artifact_prefix
all_in_scope prefix [] = ok tt
all_in_scope prefix (d ∷ ds) =
    if text_eq (extract_artifact_prefix d.artifact_id) prefix
    then all_in_scope prefix ds
    else err delta_scope_violation

unfoldable pub validate_delta_scope : List StateDelta → Fields → Result (Unit {0})
validate_delta_scope deltas m =
    let target_id = get_string (get_map (some m) (codes "intent")) (codes "target_id") in
    if text_eq target_id []
    then all_ids_valid deltas
    else all_in_scope (extract_artifact_prefix target_id) deltas
