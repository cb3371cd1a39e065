-- ===== src/Ccnf/Pipeline.antt =====
-- `StructuralParse` and `Run`, of ccnf/structural_parse.go and ccnf/ccnf.go.
pub mod Steps
pub mod Artifacts
pub mod Keys
pub mod Acceptable
pub mod Accepts
pub mod Payload
use nexus_go_ccnf_ref.Base.{
  Text, codes, text_eq, ℤ, pos, int_eq, Bool, true, false, not, ◌||◌, Option, none, some, List, [],
  ◌∷◌, if◌then◌else◌,
}
use nexus_go_ccnf_ref.Value.{
  Value, Items, Fields, null, bool, int, float, str, arr, obj, other, nil, end, field, get, put,
  get_string, get_map,
}
use nexus_go_ccnf_ref.Value.Platform.{Platform}
use nexus_go_ccnf_ref.Ccnf.Canonicalize.{canonicalize_fields, parse_timestamp}
use nexus_go_ccnf_ref.Ccnf.Result.{
  Result, ok, err, ccnf_version_mismatch, structural_parse, artifact_resolution, ◌>>=◌, ◌>>◌,
}
use nexus_go_ccnf_ref.Ccnf.Intents.{normalize_intent}
use nexus_go_ccnf_ref.Ccnf.Artifacts.{resolve_artifacts, is_valid_artifact_id}
use nexus_go_ccnf_ref.Ccnf.Identity.{derive_identity, derive_collapse_key, derive_alias_keys}
use nexus_go_ccnf_ref.Ccnf.Deltas.{StateDelta, compute_state_deltas}
use nexus_go_ccnf_ref.Ccnf.Cer.{
  Cer, Identity, current_ccnf_version, current_event_version, system_name, build_signature,
}

abbrev pub required : List Text
required = codes "actor" ∷ codes "intent" ∷ codes "domain" ∷ codes "event_id" ∷ []

abbrev pub is_some {ℓ} : {A : Type ℓ} → Option A → Bool
is_some none = false
is_some (some a) = true

unfoldable pub has_fields : Fields → List Text → Bool
has_fields m [] = true
has_fields m (k ∷ ks) = if is_some (get m k) then has_fields m ks else false

-- the root of the parsed JSON
unfoldable pub root_object : Option Value → Result Fields
unfolding has_fields
root_object (some (obj m)) = if has_fields m required then ok m else err structural_parse
root_object _ = err structural_parse

unfoldable pub structural_parse_raw : Platform → Text → ℤ → Result Fields
unfolding root_object
structural_parse_raw p raw ccnf_version =
    if not (int_eq ccnf_version current_ccnf_version)
    then err ccnf_version_mismatch
    else root_object (p.unmarshal raw)

-- `checkEmbeddedVersion`, on `m["ccnf_version"]`
unfoldable pub check_embedded_version : Platform → Option Value → ℤ → Result (Unit {0})
check_embedded_version p (some (float v)) expected =
    if int_eq (p.float_to_int64 v) expected then ok tt else err ccnf_version_mismatch
check_embedded_version p _ expected = ok tt

unfoldable pub check_target_id : Fields → Result (Unit {0})
check_target_id m =
    let target_id = get_string (get_map (some m) (codes "intent")) (codes "target_id") in
    if text_eq target_id []
    then ok tt
    else if is_valid_artifact_id target_id
    then ok tt
    else err artifact_resolution

abbrev pub put_if_absent : Fields → Text → Value → Fields
put_if_absent c k v = if is_some (get c k) then c else put c k v

unfoldable pub normalize_causality : Option Fields → Fields
normalize_causality none = field (codes "parent_event_ids") (arr nil) (
    field (codes "causal_chain_id") (str [])
      (field (codes "trace_depth") (int (pos 0)) (field (codes "ordered") (bool true) end)))
normalize_causality (some c) =
    put_if_absent (put_if_absent c (codes "ordered") (bool true)) (codes "parent_event_ids")
      (arr nil)

-- the entries of `payload.data` whose keys are no artifact ids
unfoldable pub filtered_data : Fields → Fields
filtered_data end = end
filtered_data (field k v fs) =
    let rest = filtered_data fs in if is_valid_artifact_id k then rest else field k v rest

unfoldable pub with_data : Fields → Option Value → Fields
unfolding filtered_data
with_data payload (some (obj items)) = put payload (codes "data") (obj (filtered_data items))
with_data payload _ = payload

-- the loop over the other keys of the raw payload
unfoldable pub with_others : Fields → Fields → Fields
with_others payload end = payload
with_others payload (field k v fs) =
    with_others
      (if text_eq k (codes "data") || text_eq k (codes "type") then payload else put payload k v) fs

abbrev pub empty_payload : Fields
empty_payload = field (codes "type") (str (codes "structured")) (field (codes "data") (obj end) end)

unfoldable pub payload_of : Option Fields → Fields
unfolding with_data with_others
payload_of none = empty_payload
payload_of (some raw) = with_others (with_data empty_payload (get raw (codes "data"))) raw

unfoldable pub build_payload : Fields → Fields
unfolding payload_of
build_payload m = payload_of (get_map (some m) (codes "payload"))

-- The clock stands in for a timestamp of 0.
abbrev pub timestamp_or_now : Platform → ℤ → ℤ
timestamp_or_now p t = if int_eq t (pos 0) then p.now else t

abbrev pub compression : Fields
compression =
    field (codes "strategy") (str (codes "full"))
      (field (codes "lossless") (bool true) (field (codes "compression_version") (int (pos 1)) end))

module _ (p : Platform) where
  abbrev pub sign : Cer → Cer
  sign c = record c { signature = some (build_signature p c) }

  -- the literal of `Run`, before it is signed
  unfoldable pub assemble :
      ℤ → Fields → Fields → Text × Text × Text → List Text → List StateDelta → Cer
  assemble ccnf_version m intent (entity_key, kind, scope) refs deltas = record {
    event_id = get_string (some m) (codes "event_id");
    event_version = current_event_version;
    ccnf_version = ccnf_version;
    system = system_name;
    domain = get_string (some m) (codes "domain");
    timestamp = timestamp_or_now p (parse_timestamp p (get m (codes "timestamp")));
    actor = get_map (some m) (codes "actor");
    intent = some intent;
    identity = record {
      entity_key = entity_key;
      kind = kind;
      scope = scope;
      collapse_key = derive_collapse_key m;
      alias_keys = derive_alias_keys m;
    };
    causality = some (normalize_causality (get_map (some m) (codes "causality")));
    artifact_refs = refs;
    state_delta = deltas;
    payload = some (build_payload m);
    compression = some compression;
    signature = none;
  }

  -- `Run` from the normalized intent on; `m` already holds it
  unfoldable pub run_normalized : ℤ → Fields → Fields → Result Cer
  unfolding assemble check_target_id
  run_normalized ccnf_version m intent = do
    check_target_id m
    (refs, artifacts) ← resolve_artifacts m
    identity ← derive_identity p m
    deltas ← compute_state_deltas p m refs artifacts
    ok (sign (assemble ccnf_version m intent identity refs deltas))

  -- `Run` from the canonical fields on
  unfoldable pub run_canonical : ℤ → Fields → Result Cer
  run_canonical ccnf_version m = do
    intent ← normalize_intent m
    run_normalized ccnf_version (put m (codes "intent") (obj intent)) intent

  -- The version test that `Run` makes first is made again by `StructuralParse`.
  unfoldable pub run : Text → ℤ → Result Cer
  unfolding structural_parse_raw check_embedded_version
  run raw ccnf_version =
      if not (int_eq ccnf_version current_ccnf_version) then err ccnf_version_mismatch else do
        m ← structural_parse_raw p raw ccnf_version
        check_embedded_version p (get m (codes "ccnf_version")) ccnf_version
        run_canonical ccnf_version (canonicalize_fields p m)
