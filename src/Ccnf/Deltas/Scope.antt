-- ===== src/Ccnf/Deltas/Scope.antt =====
-- What `ValidateDeltaScope` accepts.
use nexus_go_ccnf_ref.Base.{
  Text, codes, text_eq, text_eq_iff, ◌≡◌, ◌≢◌, refl, List, [], ◌∷◌, All, Bool-cases, inl, inr, some,
  ◌↔◌,
}
use nexus_go_ccnf_ref.Value.{Fields, get_string, get_map}
use nexus_go_ccnf_ref.Ccnf.Result.{ok}
use nexus_go_ccnf_ref.Ccnf.Deltas.{
  StateDelta, all_in_scope, extract_artifact_prefix, validate_delta_scope,
}

abbrev pub target_of : Fields → Text
target_of m = get_string (get_map (some m) (codes "intent")) (codes "target_id")

abbrev pub HasPrefixOf : Text → StateDelta → Type 0
HasPrefixOf target d = extract_artifact_prefix d.artifact_id ≡ extract_artifact_prefix target

all_in_scope_iff :
    (prefix : Text) (ds : List StateDelta)
    → (all_in_scope prefix ds ≡ ok tt)
      ↔ All (λ d. extract_artifact_prefix d.artifact_id ≡ prefix) ds
unfolding all_in_scope
all_in_scope_iff prefix [] = (λ h. tt, λ h. refl)
all_in_scope_iff prefix (d ∷ ds) =
    let ih = all_in_scope_iff prefix ds in
    let same = text_eq_iff (extract_artifact_prefix d.artifact_id) prefix in
    elim (Bool-cases (text_eq (extract_artifact_prefix d.artifact_id) prefix)) [
      | inl equal ↦ rw equal (λ h. (same.0 equal, ih.0 h), λ h. ih.1 h.1)
      | inr differ ↦ rw differ (λ h. absurd (cc h), λ h. absurd (cc (same.1 h.0, differ)))
    ]

-- With a target, the scope check accepts exactly the deltas whose artifacts share the target's
-- prefix, the text in front of the first colon.
validate_delta_scope_iff :
    (ds : List StateDelta) (m : Fields)
    → target_of m ≢ []
    → (validate_delta_scope ds m ≡ ok tt) ↔ All (HasPrefixOf (target_of m)) ds
unfolding validate_delta_scope
validate_delta_scope_iff ds m h = elim (Bool-cases (text_eq (target_of m) [])) [
  | inl empty ↦ absurd (h ((text_eq_iff (target_of m) []).0 empty))
  | inr target ↦ rw target (all_in_scope_iff (extract_artifact_prefix (target_of m)) ds)
]
