-- ===== src/Ccnf/Pipeline/Artifacts.antt =====
-- The references and the deltas of an accepted event.
use mathlib.Core.List.{Perm}
use nexus_go_ccnf_ref.Base.{Text, codes, text_eq, ℤ, ◌≡◌, refl, ap, Option, none, some, List, ◌∙◌}
use nexus_go_ccnf_ref.Base.Sort.{sort_strings, IsSorted, sort_strings-IsSorted, sort_strings-perm}
use nexus_go_ccnf_ref.Value.{Fields, obj, get_map, or_empty, field_keys}
use nexus_go_ccnf_ref.Value.Get.{get_map-put_ne}
use nexus_go_ccnf_ref.Value.Platform.{Platform}
use nexus_go_ccnf_ref.Ccnf.Canonicalize.{canonicalize_fields}
use nexus_go_ccnf_ref.Ccnf.Result.{ok}
use nexus_go_ccnf_ref.Ccnf.Artifacts.{resolve_keys, resolve_data, resolve_artifacts}
use nexus_go_ccnf_ref.Ccnf.Artifacts.Loop.{Resolves, resolve_keys-eq-ok}
use nexus_go_ccnf_ref.Ccnf.Deltas.Loop.{AreDeltas, compute_state_deltas-Resolves}
use nexus_go_ccnf_ref.Ccnf.Cer.{Cer}
use nexus_go_ccnf_ref.Ccnf.Pipeline.{run, assemble}
use nexus_go_ccnf_ref.Ccnf.Pipeline.Steps.{
  Steps, with_intent, run_canonical-Steps, run-run_canonical,
}

-- `payload.data`; where there is none it holds nothing
abbrev pub data_map : Fields → Option Fields
data_map m = get_map (get_map (some m) (codes "payload")) (codes "data")

abbrev pub data_of : Fields → Fields
data_of m = or_empty (data_map m)

pub resolve_data-or_empty :
    (d : Option Fields)
    → resolve_data d ≡ resolve_keys (or_empty d) (sort_strings (field_keys (or_empty d)))
unfolding resolve_data sort_strings field_keys
resolve_data-or_empty none = refl
resolve_data-or_empty (some items) = refl

pub data_map-with_intent : (m intent : Fields) → data_map (with_intent m intent) ≡ data_map m
unfolding text_eq
data_map-with_intent m intent =
    ap (λ d. get_map d (codes "data"))
      (get_map-put_ne m (codes "intent") (codes "payload") (obj intent) refl)

-- What `c` says of the data of the canonical fields `m`.
pub record Refers (p : Platform) (m : Fields) (c : Cer) : Type 0 where
  pub sorted : IsSorted c.artifact_refs
  pub listed : Perm c.artifact_refs (field_keys (data_of m))
  pub deltas : AreDeltas p (data_of m) c.artifact_refs c.state_delta

resolves :
    (m : Fields) (r : List Text × List Fields)
    → resolve_artifacts m ≡ ok r
    → (r.0 ≡ sort_strings (field_keys (data_of m))) × Resolves (data_of m) r.0 r.1
unfolding resolve_artifacts
resolves m r h =
    let (same, each) =
      resolve_keys-eq-ok (data_of m) _ r (rw (resolve_data-or_empty (data_map m)) at h) in
    (same, rw same each)

module _ (p : Platform) where
  Steps-Refers : (v : ℤ) (m : Fields) (c : Cer) → Steps p v m c → Refers p m c
  unfolding assemble
  Steps-Refers v m c s =
      let (same, each) = resolves (with_intent m s.intent) (s.refs, s.artifacts) s.resolved in
      let (ds, computes, deltas) =
        compute_state_deltas-Resolves p _ (with_intent m s.intent) s.refs s.artifacts each in
      let refs : c.artifact_refs ≡ s.refs = ap (λ (e : Cer). e.artifact_refs) s.assembled in
      let here =
        ap (λ d. sort_strings (field_keys (or_empty d))) (data_map-with_intent m s.intent) in
      let whole : c.artifact_refs ≡ sort_strings (field_keys (data_of m)) = refs ∙ same ∙ here in
      let found : c.state_delta ≡ ds =
        ap (λ (e : Cer). e.state_delta) s.assembled ∙ cc (s.computed, computes) in
      record {
        sorted = rw whole (sort_strings-IsSorted (field_keys (data_of m)));
        listed = rw whole (sort_strings-perm (field_keys (data_of m)));
        deltas = rw (refs, found) (rw (data_map-with_intent m s.intent) at deltas);
      }

  -- The references of an accepted event are the keys of `payload.data`, sorted, and there is one
  -- delta for each, with the object at that key, its hash, and no hash before it.
  pub run-Refers :
      (raw : Text) (v : ℤ) (m : Fields) (c : Cer)
      → p.unmarshal raw ≡ some (obj m)
      → run p raw v ≡ ok c
      → Refers p (canonicalize_fields p m) c
  run-Refers raw v m c e h =
      Steps-Refers v _ c (run_canonical-Steps p v _ c (run-run_canonical p raw v m c e h).1)
