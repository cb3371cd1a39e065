-- ===== src/Runtime/Receipt/Accepted.antt =====
-- Which of the receipts that `BuildReceipt` makes `ValidateReceipt` accepts.
use nexus_go_ccnf_ref.Base.{
  Text, text_eq, ℤ, is_neg, true, false, Option, some, [], ◌∷◌, ◌≡◌, refl, ◌↔◌, arith, ◌==◌, length,
}
use nexus_go_ccnf_ref.Value.Platform.{Platform}
use nexus_go_ccnf_ref.Ccnf.Numerals.{hex_encode, length-hex_encode}
use nexus_go_ccnf_ref.Runtime.Bytes.{IsSha256, decode_digest-sum256}
use nexus_go_ccnf_ref.Runtime.Trace.{TraceBuilder, root_hash, root_bytes, event_count}
use nexus_go_ccnf_ref.Runtime.Binding.{bind_raw, binding_bytes, compute_replay_binding}
use nexus_go_ccnf_ref.Runtime.Receipt.{
  ExecutionRequest, ExecutionStatus, ExecutionReceipt, FailureNode, Timing, success, failure,
  partial, unknown, accepted, is_nil, current_runtime_semantics_version, validate_receipt,
  validate_status, validate_hashes, receipt_binding, build_receipt, receipt_of,
}

-- What a status asks of the other arguments of `BuildReceipt`. A status that is none of the three is
-- asked nothing, as the `switch` of `ValidateReceipt` has no default.
abbrev pub Fits : ExecutionStatus → Text → TraceBuilder → Option FailureNode → Type 0
Fits success ccnf_hash trace fail =
    (is_nil fail ≡ true) × (text_eq ccnf_hash [] ≡ false) × ((event_count trace == 0) ≡ false)
Fits failure ccnf_hash trace fail = (is_nil fail ≡ false) × ((event_count trace == 0) ≡ true)
Fits partial ccnf_hash trace fail =
    (is_nil fail ≡ false) × (text_eq ccnf_hash [] ≡ false) × ((event_count trace == 0) ≡ false)
Fits (unknown s) ccnf_hash trace fail = Unit

not_empty : (s : Text) → length s ≡ 64 → text_eq s [] ≡ false
unfolding text_eq
not_empty [] h = absurd (omega arith)
not_empty (c ∷ s) h = refl

-- The binding that the status asks for.
abbrev Bound : ExecutionStatus → Text → Type 0
Bound success b = text_eq b [] ≡ false
Bound partial b = text_eq b [] ≡ false
Bound failure b = Unit
Bound (unknown s) b = Unit

receipt_of-accepted :
    (req : ExecutionRequest) (status : ExecutionStatus) (ccnf_hash root : Text)
    (trace : TraceBuilder) (fail : Option FailureNode) (timing : Timing) (v : ℤ) (b : Text)
    → text_eq req.request_id [] ≡ false
    → text_eq root [] ≡ false
    → Bound status b
    → (validate_receipt (receipt_of req status ccnf_hash root trace fail timing v b) ≡ accepted)
      ↔ ((is_neg timing.duration_ms ≡ false) × Fits status ccnf_hash trace fail)
unfolding validate_receipt validate_status validate_hashes
receipt_of-accepted req success ccnf_hash root trace fail timing v b h r k = ground arith
receipt_of-accepted req failure ccnf_hash root trace fail timing v b h r k = ground arith
receipt_of-accepted req partial ccnf_hash root trace fail timing v b h r k = ground arith
receipt_of-accepted req (unknown s) ccnf_hash root trace fail timing v b h r k = ground arith

module _ (p : Platform) (sha : IsSha256 p) where
  digest-ne-nil : (s : Text) → text_eq (hex_encode (p.sum256 s)) [] ≡ false
  digest-ne-nil s =
      not_empty (hex_encode (p.sum256 s))
        (omega (arith, length-hex_encode (p.sum256 s), sha.size s))

  -- The binding of a root hash with itself, which `BuildReceipt` asks for, never panics.
  pub binding-root_hash :
      (t : TraceBuilder) (s v : ℤ)
      → (h : Text) × (compute_replay_binding p (root_hash p t) (root_hash p t) s v ≡ some h)
        × (text_eq h [] ≡ false)
  unfolding compute_replay_binding bind_raw root_hash
  binding-root_hash t s v =
      let raw = p.sum256 (root_bytes p t) in
      (
        hex_encode (p.sum256 (binding_bytes p raw raw s v)),
        rw (decode_digest-sum256 p sha (root_bytes p t)),
        digest-ne-nil (binding_bytes p raw raw s v),
      )

  root_hash-ne-nil : (t : TraceBuilder) → text_eq (root_hash p t) [] ≡ false
  unfolding root_hash
  root_hash-ne-nil t = digest-ne-nil (root_bytes p t)

  -- Where digests have 32 bytes, `BuildReceipt` does not panic for a request with an id, and its
  -- receipt is accepted exactly if the duration is not negative and: for SUCCESS, there is no failure
  -- node, the CCNF hash is not empty and the trace has events; for PARTIAL, there is a failure node,
  -- the CCNF hash is not empty and the trace has events; for FAILURE, there is a failure node and the
  -- trace has no events, whatever the CCNF hash. For any other status nothing more is asked.
  pub build_receipt-accepted :
      (req : ExecutionRequest) (status : ExecutionStatus) (ccnf_hash : Text) (trace : TraceBuilder)
      (fail : Option FailureNode) (timing : Timing) (v : ℤ)
      → text_eq req.request_id [] ≡ false
      → (r : ExecutionReceipt) × (build_receipt p req status ccnf_hash trace fail timing v ≡ some r)
        × ((validate_receipt r ≡ accepted)
            ↔ ((is_neg timing.duration_ms ≡ false) × Fits status ccnf_hash trace fail))
  unfolding build_receipt receipt_binding
  build_receipt-accepted req success ccnf_hash trace fail timing v h =
      let (b, e, ne) = binding-root_hash trace current_runtime_semantics_version v in
      (
        receipt_of req success ccnf_hash (root_hash p trace) trace fail timing v b,
        rw e refl,
        receipt_of-accepted req success ccnf_hash _ trace fail timing v b h (root_hash-ne-nil trace)
            ne,
      )
  build_receipt-accepted req partial ccnf_hash trace fail timing v h =
      let (b, e, ne) = binding-root_hash trace current_runtime_semantics_version v in
      (
        receipt_of req partial ccnf_hash (root_hash p trace) trace fail timing v b,
        rw e refl,
        receipt_of-accepted req partial ccnf_hash _ trace fail timing v b h (root_hash-ne-nil trace)
            ne,
      )
  build_receipt-accepted req failure ccnf_hash trace fail timing v h = (
    receipt_of req failure ccnf_hash (root_hash p trace) trace fail timing v [],
    refl,
    receipt_of-accepted req failure ccnf_hash _ trace fail timing v [] h (root_hash-ne-nil trace)
        tt,
  )
  build_receipt-accepted req (unknown s) ccnf_hash trace fail timing v h = (
    receipt_of req (unknown s) ccnf_hash (root_hash p trace) trace fail timing v [],
    refl,
    receipt_of-accepted req (unknown s) ccnf_hash _ trace fail timing v [] h
        (root_hash-ne-nil trace) tt,
  )
