-- ===== src/Ccnf/Pipeline/Steps.antt =====
-- The steps that a successful `Run` has gone through.
use nexus_go_ccnf_ref.Base.{Text, codes, ℤ, pos, int_eq→eq, ◌≡◌, refl, some, List, arith}
use nexus_go_ccnf_ref.Value.{Fields, obj, put}
use nexus_go_ccnf_ref.Value.Platform.{Platform}
use nexus_go_ccnf_ref.Ccnf.Canonicalize.{canonicalize_fields}
use nexus_go_ccnf_ref.Ccnf.Result.{ok, >>=-eq-ok, >>-eq-ok}
use nexus_go_ccnf_ref.Ccnf.Intents.{normalize_intent}
use nexus_go_ccnf_ref.Ccnf.Artifacts.{resolve_artifacts}
use nexus_go_ccnf_ref.Ccnf.Identity.{derive_identity}
use nexus_go_ccnf_ref.Ccnf.Deltas.{StateDelta, compute_state_deltas}
use nexus_go_ccnf_ref.Ccnf.Cer.{Cer, current_ccnf_version}
use nexus_go_ccnf_ref.Ccnf.Pipeline.{
  root_object, structural_parse_raw, check_target_id, assemble, sign, run_normalized, run_canonical,
  run,
}

abbrev pub with_intent : Fields → Fields → Fields
with_intent m intent = put m (codes "intent") (obj intent)

-- The results of the steps, and the event that they give.
pub record Steps (p : Platform) (v : ℤ) (m : Fields) (c : Cer) : Type 0 where
  pub intent : Fields
  pub refs : List Text
  pub artifacts : List Fields
  pub identity : Text × Text × Text
  pub deltas : List StateDelta
  pub intended : normalize_intent m ≡ ok intent
  pub targeted : check_target_id (with_intent m intent) ≡ ok tt
  pub resolved : resolve_artifacts (with_intent m intent) ≡ ok (refs, artifacts)
  pub identified : derive_identity p (with_intent m intent) ≡ ok identity
  pub computed : compute_state_deltas p (with_intent m intent) refs artifacts ≡ ok deltas
  pub assembled : c ≡ sign p (assemble p v (with_intent m intent) intent identity refs deltas)

module _ (p : Platform) where
  pub run_canonical-Steps :
      (v : ℤ) (m : Fields) (c : Cer) → run_canonical p v m ≡ ok c → Steps p v m c
  unfolding run_canonical run_normalized
  run_canonical-Steps v m c h =
      let (intent, h1, h2) = >>=-eq-ok (normalize_intent m) _ h in
      let (h3, h4) = >>-eq-ok (check_target_id (with_intent m intent)) _ h2 in
      let (ra, h5, h6) = >>=-eq-ok (resolve_artifacts (with_intent m intent)) _ h4 in
      let (i, h7, h8) = >>=-eq-ok (derive_identity p (with_intent m intent)) _ h6 in
      let (ds, h9, h10) =
        >>=-eq-ok (compute_state_deltas p (with_intent m intent) ra.0 ra.1) _ h8 in
      record {
        intent = intent;
        refs = ra.0;
        artifacts = ra.1;
        identity = i;
        deltas = ds;
        intended = h1;
        targeted = h3;
        resolved = h5;
        identified = h7;
        computed = h9;
        assembled = cc h10;
      }

  -- The steps make the run.
  pub Steps-run_canonical :
      (v : ℤ) (m : Fields) (c : Cer) → Steps p v m c → run_canonical p v m ≡ ok c
  unfolding run_canonical run_normalized
  Steps-run_canonical v m c s =
      rw (s.intended, s.targeted, s.resolved, s.identified, s.computed, s.assembled) refl

  -- A run that succeeds has version 1 and goes on from the canonical fields of the parsed object.
  pub run-run_canonical :
      (raw : Text) (v : ℤ) (m : Fields) (c : Cer)
      → p.unmarshal raw ≡ some (obj m)
      → run p raw v ≡ ok c
      → (v ≡ current_ccnf_version) × (run_canonical p v (canonicalize_fields p m) ≡ ok c)
  unfolding run structural_parse_raw root_object
  run-run_canonical raw v m c e h = ground (arith, int_eq→eq v (pos 1))
