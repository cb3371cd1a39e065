-- ===== src/Ccnf/Pipeline/Accepts.antt =====
-- The events that the pipeline accepts.
use nexus_go_ccnf_ref.Base.{
  Text, codes, text_eq, ℤ, ◌≡◌, sym, ap, ◌∙◌, true, some, List, [], ◌∷◌, All, arith, ◌↔◌, ◌⊎◌, inl,
  inr, text_eq_iff, Bool-cases, [],
}
use nexus_go_ccnf_ref.Base.Sort.{insert, sort_strings}
use nexus_go_ccnf_ref.Value.{Fields, obj, get, get_string, field_keys}
use nexus_go_ccnf_ref.Value.Get.{get_map-put_self}
use nexus_go_ccnf_ref.Value.Platform.{Platform}
use nexus_go_ccnf_ref.Ccnf.Canonicalize.{canonicalize_fields}
use nexus_go_ccnf_ref.Ccnf.Result.{ok}
use nexus_go_ccnf_ref.Ccnf.Artifacts.{resolve_keys, resolve_data, resolve_artifacts}
use nexus_go_ccnf_ref.Ccnf.Artifacts.References.{IsReference, is_valid_artifact_id-IsReference}
use nexus_go_ccnf_ref.Ccnf.Artifacts.Loop.{Resolves, resolve_keys-eq-ok}
use nexus_go_ccnf_ref.Ccnf.Cer.{Cer, current_ccnf_version}
use nexus_go_ccnf_ref.Ccnf.Pipeline.{
  required, has_fields, root_object, structural_parse_raw, check_embedded_version, check_target_id,
  run,
}
use nexus_go_ccnf_ref.Ccnf.Pipeline.Artifacts.{
  data_of, data_map, data_map-with_intent, resolve_data-or_empty,
}
use nexus_go_ccnf_ref.Ccnf.Pipeline.Steps.{
  Steps, with_intent, run_canonical-Steps, run-run_canonical,
}
use nexus_go_ccnf_ref.Ccnf.Pipeline.Keys.{normalize_intent-IsIntent}
use nexus_go_ccnf_ref.Ccnf.Pipeline.Acceptable.{
  IsArtifact, IsAcceptable, IsEvent_iff, intent_of, target-intent_of, run-accepts,
}

All-insert_inv {κ} :
    (P : Text → Type κ) (x : Text) (l : List Text) → All P (insert x l) → P x × All P l
unfolding insert
All-insert_inv P x [] h = h
All-insert_inv P x (y ∷ l) h = ground (arith, All-insert_inv P x l)

All-sort_strings_inv {κ} : (P : Text → Type κ) (l : List Text) → All P (sort_strings l) → All P l
unfolding sort_strings
All-sort_strings_inv P [] h = h
All-sort_strings_inv P (x ∷ l) h =
    let (here, rest) = All-insert_inv P x (sort_strings l) h in
    (here, All-sort_strings_inv P l rest)

Resolves-All :
    (items : Fields) (ks : List Text) (arts : List Fields)
    → Resolves items ks arts
    → All (IsArtifact items) ks
Resolves-All items [] [] r = tt
Resolves-All items [] (a ∷ arts) r = absurd r
Resolves-All items (k ∷ ks) [] r = absurd r
Resolves-All items (k ∷ ks) (a ∷ arts) (patch, valid, at, is, tail) =
    ((is_valid_artifact_id-IsReference k valid, patch, at), Resolves-All items ks arts tail)

check_target_id-target :
    (m given : Fields)
    → check_target_id (with_intent m (intent_of given)) ≡ ok tt
    → (get_string (some given) (codes "target_id") ≡ [])
      ⊎ IsReference (get_string (some given) (codes "target_id"))
unfolding check_target_id
check_target_id-target m given h =
    let e =
      rw (get_map-put_self m (intent_of given) (codes "intent"), target-intent_of given) at h in
    elim (Bool-cases (text_eq (get_string (some given) (codes "target_id")) [])) [
      | inl none_given ↦ inl ((text_eq_iff _ []).0 none_given)
      | inr some_given ↦ inr (
          is_valid_artifact_id-IsReference (get_string (some given) (codes "target_id"))
            (ground (arith, e, some_given)))
    ]

module _ (p : Platform) where
  embedded_of :
      (raw : Text) (v : ℤ) (m : Fields) (c : Cer)
      → p.unmarshal raw ≡ some (obj m)
      → run p raw v ≡ ok c
      → (has_fields m required ≡ true)
        × (check_embedded_version p (get m (codes "ccnf_version")) v ≡ ok tt)
  unfolding run structural_parse_raw root_object
  embedded_of raw v m c e h = ground arith

  acceptable :
      (v : ℤ) (m : Fields) (c : Cer)
      → has_fields m required ≡ true
      → check_embedded_version p (get m (codes "ccnf_version")) current_ccnf_version ≡ ok tt
      → Steps p v (canonicalize_fields p m) c
      → IsAcceptable p m
  unfolding resolve_artifacts
  acceptable v m c present embedded s =
      let cm = canonicalize_fields p m in
      let ks = sort_strings (field_keys (data_of cm)) in
      let (given, at, is) = normalize_intent-IsIntent cm s.intent s.intended in
      let loop : resolve_keys (data_of cm) ks ≡ ok (s.refs, s.artifacts) =
        sym
          (ap resolve_data (data_map-with_intent cm s.intent) ∙ resolve_data-or_empty (data_map cm))
        ∙ s.resolved in
      let (_, each) = resolve_keys-eq-ok (data_of cm) ks (s.refs, s.artifacts) loop in
      record {
        event = (IsEvent_iff p m).1 (present, embedded);
        given = given;
        intent = at;
        intended = record {
          action = is.is_action;
          target = check_target_id-target cm given (rw is.shape at s.targeted);
        };
        artifacts =
            All-sort_strings_inv (IsArtifact (data_of cm)) _
              (Resolves-All (data_of cm) ks s.artifacts each);
      }

  -- For a text that parses to an object, `Run` accepts it exactly if the version asked for is 1 and:
  -- the object has an actor, an intent, a domain and an event_id, of any type; a ccnf_version that
  -- is a number converts to the integer 1 (one that is fractional may, and one that is no number is
  -- not looked at); the canonical fields hold an object as intent, with one of the actions create,
  -- update, delete, execute, validate and emit, and no target or a target that is a reference; and
  -- every key of the data is a reference and holds an object. A reference is two texts, not empty
  -- and without a colon, joined by a colon, and perhaps a colon and a text that is not empty behind
  -- them. No other step fails.
  pub run_iff :
      (raw : Text) (v : ℤ) (m : Fields)
      → p.unmarshal raw ≡ some (obj m)
      → ((c : Cer) × (run p raw v ≡ ok c)) ↔ ((v ≡ current_ccnf_version) × IsAcceptable p m)
  run_iff raw v m e = (
    λ a.
        let (version, canonical) = run-run_canonical p raw v m a.0 e a.1 in
        let (present, embedded) = embedded_of raw v m a.0 e a.1 in
        (
          version,
          acceptable v m a.0 present (rw version at embedded)
              (run_canonical-Steps p v _ a.0 canonical),
        ),
    λ a. rw a.0 (run-accepts p raw m e a.1),
  )
