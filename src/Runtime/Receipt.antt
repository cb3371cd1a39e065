-- ===== src/Runtime/Receipt.antt =====
-- Requests and receipts: runtime/types.go and runtime/validator.go.
pub mod Accepted
pub mod Request
use nexus_go_ccnf_ref.Base.{
  ℕ, Text, text_eq, ℤ, pos, negsuc, is_neg, int_eq, Bool, true, false, ◌||◌, Option, none, some,
  List, [], ◌==◌, if◌then◌else◌,
}
use nexus_go_ccnf_ref.Value.{Fields}
use nexus_go_ccnf_ref.Value.Platform.{Platform}
use nexus_go_ccnf_ref.Runtime.Trace.{TraceBuilder, root_hash, event_count}
use nexus_go_ccnf_ref.Runtime.Binding.{compute_replay_binding}

pub record VersionTriple : Type 0 where
  pub ccnf : ℤ
  pub collapse_engine : ℤ
  pub rehydration : ℤ

pub record ExecutionRequest : Type 0 where
  pub request_id : Text
  pub version : VersionTriple
  pub timestamp : ℤ
  pub source : Text
  pub payload : Option Fields
  pub metadata : Option Fields

-- An `ExecutionStatus` is a string: the three constants, or another.
pub data ExecutionStatus : Type 0 where
  success failure partial : ExecutionStatus
  unknown : Text → ExecutionStatus

-- A code and a message, without a cause or with one.
pub data FailureNode : Type 0 where
  failed : Text → Text → FailureNode
  caused : Text → Text → FailureNode → FailureNode

pub record Timing : Type 0 where
  pub started_at : ℤ
  pub completed_at : ℤ
  pub duration_ms : ℤ

abbrev pub current_runtime_semantics_version : ℤ
current_runtime_semantics_version = pos 1

pub record ExecutionReceipt : Type 0 where
  pub request_id : Text
  pub ccnf_hash : Text
  pub cer_root_hash : Text
  pub trace_root_hash : Text
  pub trace_event_count : ℕ
  pub replay_binding_hash : Text
  pub status : ExecutionStatus
  pub failure : Option FailureNode
  pub timing : Timing
  pub ccnf_version : ℤ

pub data Check : Type 0 where
  accepted empty_request_id zero_timestamp invalid_version empty_ccnf_hash : Check
  nil_failure_node non_nil_failure_node negative_duration empty_trace_root_hash : Check
  zero_trace_event_count non_zero_trace_event_count empty_replay_binding_hash : Check

abbrev pub not_positive : ℤ → Bool
not_positive n = is_neg n || int_eq n (pos 0)

unfoldable pub validate_request : ExecutionRequest → Check
validate_request r =
    if text_eq r.request_id []
    then empty_request_id
    else if not_positive r.timestamp
    then zero_timestamp
    else if not_positive r.version.ccnf
        || (not_positive r.version.collapse_engine || not_positive r.version.rehydration)
    then invalid_version
    else accepted

abbrev pub is_nil : Option FailureNode → Bool
is_nil none = true
is_nil (some f) = false

-- the tests that a success and a partial result share, after those of the failure node
unfoldable pub validate_hashes : ExecutionReceipt → Check
validate_hashes r =
    if text_eq r.ccnf_hash []
    then empty_ccnf_hash
    else if text_eq r.trace_root_hash []
    then empty_trace_root_hash
    else if r.trace_event_count == 0
    then zero_trace_event_count
    else if text_eq r.replay_binding_hash []
    then empty_replay_binding_hash
    else accepted

-- the `switch` on the status
unfoldable pub validate_status : ExecutionStatus → ExecutionReceipt → Check
unfolding validate_hashes
validate_status success r = if is_nil r.failure then validate_hashes r else non_nil_failure_node
validate_status failure r =
    if is_nil r.failure
    then nil_failure_node
    else if r.trace_event_count == 0
    then accepted
    else non_zero_trace_event_count
validate_status partial r = if is_nil r.failure then nil_failure_node else validate_hashes r
validate_status (unknown s) r = accepted

unfoldable pub validate_receipt : ExecutionReceipt → Check
validate_receipt r =
    if text_eq r.request_id []
    then empty_request_id
    else if is_neg r.timing.duration_ms
    then negative_duration
    else validate_status r.status r

-- the literal of `BuildReceipt`
abbrev pub receipt_of :
    ExecutionRequest
    → ExecutionStatus
    → Text
    → Text
    → TraceBuilder
    → Option FailureNode
    → Timing
    → ℤ
    → Text
    → ExecutionReceipt
receipt_of req status ccnf_hash root trace fail timing ccnf_version binding = record {
  request_id = req.request_id;
  ccnf_hash = ccnf_hash;
  cer_root_hash = root;
  trace_root_hash = root;
  trace_event_count = event_count trace;
  replay_binding_hash = binding;
  status = status;
  failure = fail;
  timing = timing;
  ccnf_version = ccnf_version;
}

-- the receipt, once its binding is there
abbrev pub with_binding : (Text → ExecutionReceipt) → Option Text → Option ExecutionReceipt
with_binding receipt none = none
with_binding receipt (some binding) = some (receipt binding)

module _ (p : Platform) where
  -- the binding of `BuildReceipt`; `none` is the panic
  unfoldable pub receipt_binding : ExecutionStatus → Text → ℤ → Option Text
  receipt_binding success root_hash ccnf_version =
      compute_replay_binding p root_hash root_hash current_runtime_semantics_version ccnf_version
  receipt_binding partial root_hash ccnf_version =
      compute_replay_binding p root_hash root_hash current_runtime_semantics_version ccnf_version
  receipt_binding failure root_hash ccnf_version = some []
  receipt_binding (unknown s) root_hash ccnf_version = some []

  unfoldable pub build_receipt :
      ExecutionRequest
      → ExecutionStatus
      → Text
      → TraceBuilder
      → Option FailureNode
      → Timing
      → ℤ
      → Option ExecutionReceipt
  build_receipt req status ccnf_hash trace fail timing ccnf_version =
      let root = root_hash p trace in
      with_binding (receipt_of req status ccnf_hash root trace fail timing ccnf_version)
        (receipt_binding status root ccnf_version)
