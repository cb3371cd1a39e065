-- ===== src/Examples/Runtime.antt =====
-- A trace of two hashes, a request, and two replayed events.
use mathlib.Core.Option
use mathlib.Core.Option.{Option, some, none}
use nexus_go_ccnf_ref.Base.{
  map, ◌<◌, Text, codes, pos, is_neg, [], ◌∷◌, length, All, ◌≡◌, ◌↔◌, ◌⊎◌, refl, arith, text_eq,
  false,
}
use nexus_go_ccnf_ref.Base.Map.{lookup}
use nexus_go_ccnf_ref.Value.{Value}
use nexus_go_ccnf_ref.Replay as Replay
use nexus_go_ccnf_ref.Replay.View as View
use nexus_go_ccnf_ref.Runtime.Bytes.{Collision}
use nexus_go_ccnf_ref.Runtime.Trace.{TraceBuilder, new_trace_builder, root_hash, root_bytes}
use nexus_go_ccnf_ref.Ccnf.Numerals.{hex_encode}
use nexus_go_ccnf_ref.Runtime.Trace.Appends.{append_all, append_all_lem}
use nexus_go_ccnf_ref.Runtime.Receipt.Request.{IsPositive, validate_request_iff}
use nexus_go_ccnf_ref.Runtime.Trace.Root.{IsTrace, root_hash_injective_or}
use nexus_go_ccnf_ref.Runtime.Binding.{compute_replay_binding}
use nexus_go_ccnf_ref.Runtime.Binding.Commitment.{
  SameInputs, BindingCollision, compute_replay_binding_injective_or,
}
use nexus_go_ccnf_ref.Runtime.Receipt.{
  ExecutionRequest, ExecutionReceipt, Timing, success, accepted, build_receipt, validate_receipt,
  validate_request,
}
use nexus_go_ccnf_ref.Runtime.Receipt.Accepted.{Fits, build_receipt-accepted, binding-root_hash}
use nexus_go_ccnf_ref.Runtime.Engine.{
  ReplayEvent, ReplayInput, fold, validate_replay_input, to_state_value, cer_events_to_replay,
}
use nexus_go_ccnf_ref.Runtime.Engine.{accepted as input_accepted}
use nexus_go_ccnf_ref.Runtime.Engine.Input.{HasId, IsCounted, validate_replay_input_iff}
use nexus_go_ccnf_ref.Runtime.Engine.Writes.{HasMap, written, lookup-fold, fold-adapted}
use nexus_go_ccnf_ref.Examples.{sample_platform, sample_platform-IsSha256, toy_digest}
use nexus_go_ccnf_ref.Examples.Replay.{two_events, two_events-HasMap}

abbrev trace : TraceBuilder
trace = record { hashes = toy_digest (codes "a") ∷ toy_digest (codes "bc") ∷ [] }

trace-IsTrace : IsTrace trace
trace-IsTrace = record { sizes = (refl, (refl, tt)); fits = omega arith }

root_hash_injective_or_example :
    (trace ≡ trace)
    ⊎ Collision sample_platform
        (root_bytes sample_platform trace)
        (root_bytes sample_platform trace)
root_hash_injective_or_example =
    root_hash_injective_or sample_platform trace trace sample_platform-IsSha256 trace-IsTrace
      trace-IsTrace refl

abbrev request : ExecutionRequest
request = record {
  request_id = codes "r1";
  version = record { ccnf = pos 1; collapse_engine = pos 1; rehydration = pos 1 };
  timestamp = pos 7;
  source = codes "cli";
  payload = none;
  metadata = none;
}

abbrev timing : Timing
timing = record { started_at = pos 7; completed_at = pos 9; duration_ms = pos 2 }

request-named : text_eq request.request_id [] ≡ false
unfolding text_eq
request-named = refl

build_receipt-accepted_example :
    (r : ExecutionReceipt) × (build_receipt sample_platform request success
        (codes "h")
        trace
        none
        timing
        (pos 1)
      ≡ some r)
    × ((validate_receipt r ≡ accepted)
        ↔ ((is_neg timing.duration_ms ≡ false) × Fits success (codes "h") trace none))
build_receipt-accepted_example =
    build_receipt-accepted sample_platform sample_platform-IsSha256 request success (codes "h")
      trace none timing (pos 1) request-named

abbrev replay_event : ReplayEvent
replay_event = record {
  event_id = codes "e";
  prev_event_id = [];
  writes = (codes "acct:a", codes "12") ∷ [];
  delta_hash = [];
}

abbrev input : ReplayInput
input = record {
  events = replay_event ∷ [];
  cer_root_hash = codes "c";
  trace_root_hash = codes "t";
  replay_binding_hash = codes "b";
  ccnf_version = pos 1;
  semantics_version = pos 1;
  event_count = 1;
}

input-IsCounted : IsCounted input
input-IsCounted = record { count = omega arith; fits = omega arith }

validate_replay_input_iff_example : (validate_replay_input input ≡ input_accepted) ↔ (
    (0 < length input.events)
    × (input.event_count ≡ length input.events)
    × (text_eq input.cer_root_hash [] ≡ false)
    × (text_eq input.trace_root_hash [] ≡ false)
    × All HasId input.events)
validate_replay_input_iff_example = validate_replay_input_iff input input-IsCounted

one_event-HasMap : All HasMap (replay_event ∷ [])
unfolding lookup
one_event-HasMap = ((refl, tt), tt)

lookup-fold_example :
    lookup (codes "acct:a") (fold (replay_event ∷ [])).entries
    ≡ written (codes "acct:a") none (replay_event ∷ [])
lookup-fold_example = lookup-fold (replay_event ∷ []) (codes "acct:a") one_event-HasMap

-- the text of a value, `%v`
abbrev shown : Value → Text
shown v = codes "value"

fold-adapted_example :
    lookup (codes "status") (fold (cer_events_to_replay shown two_events)).entries
    ≡ Option.map
        (to_state_value shown)
        (View.read (Replay.fold two_events) (codes "k") (codes "status"))
fold-adapted_example =
    fold-adapted shown two_events (codes "k") (codes "status") (refl, (refl, tt)) two_events-HasMap

abbrev root : Text
root = root_hash sample_platform trace

abbrev binding : Text
binding = (binding-root_hash sample_platform sample_platform-IsSha256 trace (pos 1) (pos 1)).0

root-bound : compute_replay_binding sample_platform root root (pos 1) (pos 1) ≡ some binding
root-bound = (binding-root_hash sample_platform sample_platform-IsSha256 trace (pos 1) (pos 1)).1

compute_replay_binding_injective_or_example :
    SameInputs root root root root (pos 1) (pos 1) (pos 1) (pos 1)
    ⊎ BindingCollision sample_platform root root root root (pos 1) (pos 1) (pos 1) (pos 1)
compute_replay_binding_injective_or_example =
    compute_replay_binding_injective_or sample_platform root root root root binding (pos 1) (pos 1)
      (pos 1) (pos 1) sample_platform-IsSha256 (omega arith) (omega arith) (omega arith)
      (omega arith) root-bound root-bound

append_all_lem_example :
    append_all
      (some new_trace_builder)
      (map (λ s. hex_encode (toy_digest s)) (codes "a" ∷ codes "bc" ∷ []))
    ≡ some (record { hashes = map toy_digest (codes "a" ∷ codes "bc" ∷ []) })
append_all_lem_example =
    append_all_lem sample_platform sample_platform-IsSha256 (codes "a" ∷ codes "bc" ∷ [])

validate_request_iff_example : (validate_request request ≡ accepted) ↔ (
    (text_eq request.request_id [] ≡ false)
    × IsPositive request.timestamp
    × IsPositive request.version.ccnf
    × IsPositive request.version.collapse_engine
    × IsPositive request.version.rehydration)
validate_request_iff_example = validate_request_iff request
