-- ===== src/Ccnf/Pipeline/Acceptable.antt =====
-- What the pipeline asks of an event, and that no step fails on such an event.
use nexus_go_ccnf_ref.Base.{
  Text, codes, text_eq, ◌≡◌, refl, ap, ◌∙◌, true, false, some, List, [], ◌∷◌, All, arith, ℕ, pos,
  int_eq→eq, Option, none, ◌||◌, ◌↔◌, ◌⊎◌, inl, inr, text_eq_iff,
}
use nexus_go_ccnf_ref.Base.Sort.{insert, sort_strings}
use nexus_go_ccnf_ref.Value.{Value, float, Fields, obj, get, get_string, get_map, field_keys}
use nexus_go_ccnf_ref.Value.Get.{get_map-put_self}
use nexus_go_ccnf_ref.Value.Platform.{Platform}
use nexus_go_ccnf_ref.Ccnf.Canonicalize.{canonicalize_fields}
use nexus_go_ccnf_ref.Ccnf.Result.{ok}
use nexus_go_ccnf_ref.Ccnf.Intents.{
  contains, controlled_vocab, normalized, normalize_object, normalize_raw, normalize_intent,
}
use nexus_go_ccnf_ref.Ccnf.Artifacts.{
  artifact, is_valid_artifact_id, patch_of, resolve_keys, resolve_data, resolve_artifacts,
}
use nexus_go_ccnf_ref.Ccnf.Artifacts.References.{IsReference, IsReference-is_valid_artifact_id}
use nexus_go_ccnf_ref.Ccnf.Artifacts.Loop.{Resolves}
use nexus_go_ccnf_ref.Ccnf.Identity.{
  derive_identity, hash_entity_signature, identity_fields, domain_to_scope,
}
use nexus_go_ccnf_ref.Ccnf.Deltas.Loop.{compute_state_deltas-Resolves}
use nexus_go_ccnf_ref.Ccnf.Cer.{Cer, current_ccnf_version}
use nexus_go_ccnf_ref.Ccnf.Pipeline.{
  is_some, required, has_fields, root_object, structural_parse_raw, check_embedded_version,
  check_target_id, assemble, sign, run,
}
use nexus_go_ccnf_ref.Ccnf.Pipeline.Keys.{IsAction, IsAction-contains}
use nexus_go_ccnf_ref.Ccnf.Pipeline.Artifacts.{
  data_of, data_map, data_map-with_intent, resolve_data-or_empty,
}
use nexus_go_ccnf_ref.Ccnf.Pipeline.Steps.{Steps, with_intent, Steps-run_canonical}

-- A key of the data is a reference, and holds an object.
abbrev pub IsArtifact : Fields → Text → Type 0
IsArtifact items k = IsReference k × (patch : Fields) × (get items k ≡ some (obj patch))

-- An intent with one of the six actions and no target or a target that is a reference.
pub record IsIntended (given : Fields) : Type 0 where
  pub action : IsAction (get_string (some given) (codes "action"))
  pub target :
      (get_string (some given) (codes "target_id") ≡ [])
      ⊎ IsReference (get_string (some given) (codes "target_id"))

-- Some value, of any type, stands at the key.
abbrev pub Holds : Fields → Text → Type 0
Holds m k = (v : Value) × (get m k ≡ some v)

-- The four fields that an event has, and what a number given as its version converts to.
pub record IsEvent (p : Platform) (m : Fields) : Type 0 where
  pub actor : Holds m (codes "actor")
  pub intent : Holds m (codes "intent")
  pub domain : Holds m (codes "domain")
  pub event_id : Holds m (codes "event_id")
  pub embedded :
      (f : ℕ) → get m (codes "ccnf_version") ≡ some (float f) → p.float_to_int64 f ≡ pos 1

-- What `Run` asks of the parsed object `m` and of its canonical fields.
pub record IsAcceptable (p : Platform) (m : Fields) : Type 0 where
  pub event : IsEvent p m
  pub given : Fields
  pub intent : get (canonicalize_fields p m) (codes "intent") ≡ some (obj given)
  pub intended : IsIntended given
  pub artifacts :
      All
        (IsArtifact (data_of (canonicalize_fields p m)))
        (field_keys (data_of (canonicalize_fields p m)))

is_some-Holds : (m : Fields) (k : Text) → is_some (get m k) ≡ true → Holds m k
is_some-Holds m k h = split (get m k) refl h
  where
    split : (o : Option Value) → get m k ≡ o → is_some o ≡ true → Holds m k
    split none e i = cc i
    split (some v) e i = (v, e)

Holds-is_some : (m : Fields) (k : Text) → Holds m k → is_some (get m k) ≡ true
Holds-is_some m k (v, e) = rw e refl

embedded_iff :
    (p : Platform) (o : Option Value)
    → ((f : ℕ) → o ≡ some (float f) → p.float_to_int64 f ≡ pos 1)
      ↔ (check_embedded_version p o current_ccnf_version ≡ ok tt)
unfolding check_embedded_version
embedded_iff p none = (λ h. refl, λ h f e. cc e)
embedded_iff p (some (float f)) = (
  λ h. rw (h f refl) refl,
  λ h g e. int_eq→eq (p.float_to_int64 g) (pos 1) (ground (arith, h, e)),
)
embedded_iff p (some _) = (λ h. refl, λ h f e. cc e)

-- The two tests on the parsed object, and what they ask.
pub IsEvent_iff :
    (p : Platform) (m : Fields)
    → IsEvent p m ↔ (
        (has_fields m required ≡ true)
        × (check_embedded_version p (get m (codes "ccnf_version")) current_ccnf_version ≡ ok tt))
unfolding has_fields
IsEvent_iff p m = (
  λ e. (
    rw
        (
          Holds-is_some m (codes "actor") e.actor,
          Holds-is_some m (codes "intent") e.intent,
          Holds-is_some m (codes "domain") e.domain,
          Holds-is_some m (codes "event_id") e.event_id,
        )
        refl,
    (embedded_iff p (get m (codes "ccnf_version"))).0 e.embedded,
  ),
  λ h. record {
    actor = is_some-Holds m (codes "actor") (ground (arith, h.0));
    intent = is_some-Holds m (codes "intent") (ground (arith, h.0));
    domain = is_some-Holds m (codes "domain") (ground (arith, h.0));
    event_id = is_some-Holds m (codes "event_id") (ground (arith, h.0));
    embedded = (embedded_iff p (get m (codes "ccnf_version"))).1 h.1;
  },
)

All-insert {κ} : (P : Text → Type κ) (x : Text) (l : List Text) → P x → All P l → All P (insert x l)
unfolding insert
All-insert P x [] h k = (h, k)
All-insert P x (y ∷ l) h k = ground (arith, All-insert P x l h k.1)

All-sort_strings {κ} : (P : Text → Type κ) (l : List Text) → All P l → All P (sort_strings l)
unfolding sort_strings
All-sort_strings P [] h = h
All-sort_strings P (x ∷ l) h = All-insert P x (sort_strings l) h.0 (All-sort_strings P l h.1)

-- Over artifacts the loop succeeds.
resolve_keys-total :
    (items : Fields) (ks : List Text)
    → All (IsArtifact items) ks
    → (arts : List Fields) × (resolve_keys items ks ≡ ok (ks, arts)) × Resolves items ks arts
unfolding resolve_keys patch_of
resolve_keys-total items [] h = ([], refl, tt)
resolve_keys-total items (k ∷ ks) h =
    let (reference, patch, at) = h.0 in
    let valid = IsReference-is_valid_artifact_id k reference in
    let (arts, rest, each) = resolve_keys-total items ks h.1 in
    (artifact k patch ∷ arts, rw (valid, at, rest) refl, (patch, valid, at, refl, each))

action-ne-nil : (a : Text) → contains controlled_vocab a ≡ true → text_eq a [] ≡ false
unfolding contains text_eq
action-ne-nil [] h = cc h
action-ne-nil (c ∷ a) h = refl

-- The intent that such an object is normalized to.
abbrev pub intent_of : Fields → Fields
intent_of given =
    normalized (get_string (some given) (codes "action"))
      (get_string (some given) (codes "target_type")) (get_string (some given) (codes "target_id"))

normalize_intent-total :
    (m given : Fields)
    → get m (codes "intent") ≡ some (obj given)
    → IsIntended given
    → normalize_intent m ≡ ok (intent_of given)
unfolding normalize_intent normalize_raw normalize_object
normalize_intent-total m given at h =
    let is = IsAction-contains (get_string (some given) (codes "action")) h.action in
    rw (at, action-ne-nil (get_string (some given) (codes "action")) is, is) refl

pub target-intent_of :
    (given : Fields)
    → get_string (some (intent_of given)) (codes "target_id")
      ≡ get_string (some given) (codes "target_id")
unfolding get_string get text_eq
target-intent_of given = refl

action-intent_of :
    (given : Fields)
    → get_string (some (intent_of given)) (codes "action")
      ≡ get_string (some given) (codes "action")
unfolding get_string get text_eq
action-intent_of given = refl

target_test :
    (target : Text)
    → (target ≡ []) ⊎ IsReference target
    → (text_eq target [] || is_valid_artifact_id target) ≡ true
target_test target (inl e) = rw ((text_eq_iff target []).1 e) refl
target_test target (inr r) = ground (arith, IsReference-is_valid_artifact_id target r)

check_target_id-total :
    (m given : Fields)
    → IsIntended given
    → check_target_id (with_intent m (intent_of given)) ≡ ok tt
unfolding check_target_id
check_target_id-total m given h =
    rw (get_map-put_self m (intent_of given) (codes "intent"), target-intent_of given)
      (ground (arith, target_test (get_string (some given) (codes "target_id")) h.target))

module _ (p : Platform) where
  derive_identity-total :
      (m given : Fields)
      → IsIntended given
      → (i : Text × Text × Text) × (derive_identity p (with_intent m (intent_of given)) ≡ ok i)
  unfolding derive_identity
  derive_identity-total m given h = (
    (
      hash_entity_signature p (
          identity_fields (get_string (some (with_intent m (intent_of given))) (codes "domain"))
            (some (intent_of given))
            (get_map (some (with_intent m (intent_of given))) (codes "actor"))),
      codes "event",
      domain_to_scope (get_string (some (with_intent m (intent_of given))) (codes "domain")),
    ),
    rw
        (
          get_map-put_self m (intent_of given) (codes "intent"),
          action-intent_of given,
          action-ne-nil (get_string (some given) (codes "action"))
              (IsAction-contains (get_string (some given) (codes "action")) h.action),
        )
        refl,
  )

  pub run-accepts :
      (raw : Text) (m : Fields)
      → p.unmarshal raw ≡ some (obj m)
      → IsAcceptable p m
      → (c : Cer) × (run p raw current_ccnf_version ≡ ok c)
  unfolding run structural_parse_raw root_object resolve_artifacts
  run-accepts raw m e h =
      let cm = canonicalize_fields p m in
      let wi = with_intent cm (intent_of h.given) in
      let ks = sort_strings (field_keys (data_of cm)) in
      let (arts, resolved, each) =
        resolve_keys-total (data_of cm) ks
          (All-sort_strings (IsArtifact (data_of cm)) _ h.artifacts) in
      let (i, identified) = derive_identity-total cm h.given h.intended in
      let (ds, computed, _) = compute_state_deltas-Resolves p (data_of cm) wi ks arts each in
      let c = sign p (assemble p current_ccnf_version wi (intent_of h.given) i ks ds) in
      let s : Steps p current_ccnf_version cm c = record {
        intent = intent_of h.given;
        refs = ks;
        artifacts = arts;
        identity = i;
        deltas = ds;
        intended = normalize_intent-total cm h.given h.intent h.intended;
        targeted = check_target_id-total cm h.given h.intended;
        resolved =
            ap resolve_data (data_map-with_intent cm (intent_of h.given))
            ∙ resolve_data-or_empty (data_map cm)
            ∙ resolved;
        identified = identified;
        computed = computed;
        assembled = refl;
      } in
      let (present, embedded) = (IsEvent_iff p m).0 h.event in
      (c, rw (e, present, embedded) (Steps-run_canonical p current_ccnf_version cm c s))
