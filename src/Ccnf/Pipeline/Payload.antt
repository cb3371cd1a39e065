-- ===== src/Ccnf/Pipeline/Payload.antt =====
-- What is left of `payload.data` in an accepted event.
use nexus_go_ccnf_ref.Base.{
  Text, codes, text_eq, ℤ, ◌≡◌, refl, ap, ◌∙◌, ◌||◌, Option, none, some, All, arith, Bool-cases,
  inl, inr,
}
use nexus_go_ccnf_ref.Value.{
  Value, Fields, obj, end, field, get, put, get_map, as_map, field_keys, or_empty,
}
use nexus_go_ccnf_ref.Value.Get.{get-put, get_map-put_ne}
use nexus_go_ccnf_ref.Value.Platform.{Platform}
use nexus_go_ccnf_ref.Ccnf.Canonicalize.{canonicalize_fields}
use nexus_go_ccnf_ref.Ccnf.Result.{ok}
use nexus_go_ccnf_ref.Ccnf.Cer.{Cer}
use nexus_go_ccnf_ref.Ccnf.Pipeline.{
  filtered_data, with_data, with_others, empty_payload, payload_of, build_payload, assemble, run,
}
use nexus_go_ccnf_ref.Ccnf.Pipeline.Steps.{
  Steps, with_intent, run_canonical-Steps, run-run_canonical,
}
use nexus_go_ccnf_ref.Ccnf.Pipeline.Acceptable.{IsArtifact}
use nexus_go_ccnf_ref.Ccnf.Pipeline.Accepts.{run_iff}
use nexus_go_ccnf_ref.Ccnf.Artifacts.References.{IsReference-is_valid_artifact_id}
use nexus_go_ccnf_ref.Ccnf.Pipeline.Artifacts.{data_of}

filtered_data-All :
    (items fs : Fields) → All (IsArtifact items) (field_keys fs) → filtered_data fs ≡ end
unfolding filtered_data field_keys
filtered_data-All items end h = refl
filtered_data-All items (field k v fs) h =
    rw (IsReference-is_valid_artifact_id k h.0.0) (filtered_data-All items fs h.1)

data-with_others :
    (payload fs : Fields) → get (with_others payload fs) (codes "data") ≡ get payload (codes "data")
unfolding with_others
data-with_others payload end = refl
data-with_others payload (field k v fs) =
    elim (Bool-cases (text_eq k (codes "data") || text_eq k (codes "type"))) [
      | inl passed ↦ rw passed (data-with_others payload fs)
      | inr kept ↦ rw kept (
          data-with_others (put payload k v) fs
          ∙ get-put payload k (codes "data") v
          ∙ ground (arith, kept))
    ]

data-with_data :
    (o : Option Value)
    → filtered_data (or_empty (as_map o)) ≡ end
    → get (with_data empty_payload o) (codes "data") ≡ some (obj end)
unfolding with_data get put text_eq
data-with_data (some (obj items)) h = ap (λ fs. some (obj fs)) h
data-with_data o h = refl

data-payload_of :
    (raw : Option Fields)
    → filtered_data (or_empty (get_map raw (codes "data"))) ≡ end
    → get (payload_of raw) (codes "data") ≡ some (obj end)
unfolding payload_of get_map
data-payload_of none h = unfold get text_eq in refl
data-payload_of (some raw) h =
    data-with_others (with_data empty_payload (get raw (codes "data"))) raw
    ∙ data-with_data (get raw (codes "data")) h

module _ (p : Platform) where
  payload-Steps :
      (v : ℤ) (m : Fields) (c : Cer)
      → Steps p v m c
      → filtered_data (data_of m) ≡ end
      → get_map c.payload (codes "data") ≡ some end
  unfolding assemble build_payload text_eq
  payload-Steps v m c s h =
      let raw : get_map (some (with_intent m s.intent)) (codes "payload")
          ≡ get_map (some m) (codes "payload") =
        get_map-put_ne m (codes "intent") (codes "payload") (obj s.intent) refl in
      let held : c.payload ≡ some (payload_of (get_map (some m) (codes "payload"))) =
        ap (λ (x : Cer). x.payload) s.assembled ∙ ap (λ o. some (payload_of o)) raw in
      rw held (unfold get_map in ap as_map (data-payload_of (get_map (some m) (codes "payload")) h))

  -- The payload of an accepted event has empty data, whatever its other keys: each key of the data is
  -- a reference, and those are what the filter takes out.
  pub run-payload :
      (raw : Text) (v : ℤ) (m : Fields) (c : Cer)
      → p.unmarshal raw ≡ some (obj m)
      → run p raw v ≡ ok c
      → get_map c.payload (codes "data") ≡ some end
  run-payload raw v m c e h =
      let cm = canonicalize_fields p m in
      let accepted = ((run_iff p raw v m e).0 (c, h)).1 in
      payload-Steps v cm c (run_canonical-Steps p v cm c (run-run_canonical p raw v m c e h).1)
        (filtered_data-All (data_of cm) (data_of cm) accepted.artifacts)
