-- ===== src/Runtime/Engine.antt =====
-- The replay engine of the runtime: runtime/replay/*.go, and runtime/replay/adapter/cer_adapter.go,
-- which turns CER events into its events.
pub mod Input
pub mod Writes
use nexus_go_ccnf_ref.Base.{
  ℕ, zero, suc, ◌+◌, ◌%◌, ◌^◌, ◌-◌, Text, text_eq, ℤ, pos, negsuc, Bool, true, false, ◌||◌, Option,
  none, some, List, [], ◌∷◌, length, get_elem?, if◌then◌else◌, ◌==◌, ltb, not, int_eq, inc64,
  is_neg,
}
use nexus_go_ccnf_ref.Base.Map.{Map, lookup, set, merge}
use nexus_go_ccnf_ref.Value.{Value, str, other, byte_slice, text_or_empty}
use nexus_go_ccnf_ref.Replay.{CerEvent}

-- A `StateValue` is a byte slice.
pub record ReplayEvent : Type 0 where
  pub event_id : Text
  pub prev_event_id : Text
  pub writes : Map Text
  pub delta_hash : Text

pub record ReplayInput : Type 0 where
  pub events : List ReplayEvent
  pub cer_root_hash : Text
  pub trace_root_hash : Text
  pub replay_binding_hash : Text
  pub ccnf_version : ℤ
  pub semantics_version : ℤ
  pub event_count : ℕ

pub record RuntimeState : Type 0 where
  pub entries : Map Text
  pub version : ℕ

unfoldable pub initial_state : RuntimeState
initial_state = record { entries = []; version = 0 }

-- `Apply`; the version is a uint64
unfoldable pub apply : RuntimeState → Map Text → RuntimeState
apply prev writes = record {
  entries = merge (merge [] prev.entries) writes;
  version = (prev.version + 1) % 2 ^ 64;
}

unfoldable pub fold_from : RuntimeState → List ReplayEvent → RuntimeState
fold_from state [] = state
fold_from state (e ∷ events) = fold_from (apply state e.writes) events

unfoldable pub fold : List ReplayEvent → RuntimeState
fold events = fold_from initial_state events

-- the tests of `ValidateReplayInput`
pub data InputCheck : Type 0 where
  accepted empty_event_list invalid_event_count event_count_mismatch : InputCheck
  empty_cer_root_hash empty_trace_root_hash : InputCheck
  event_id_empty : ℕ → InputCheck

-- the loop over the events, from index `i`
unfoldable pub check_event_ids : ℕ → List ReplayEvent → InputCheck
check_event_ids i [] = accepted
check_event_ids i (e ∷ events) =
    if text_eq e.event_id [] then event_id_empty i else check_event_ids (suc i) events

-- `int(n)` of a uint64
unfoldable pub to_int : ℕ → ℤ
to_int n = if ltb n (2 ^ 63) then pos n else negsuc (2 ^ 64 - 1 - n)

unfoldable pub validate_replay_input : ReplayInput → InputCheck
validate_replay_input input =
    if length input.events == 0
    then empty_event_list
    else if input.event_count == 0
    then invalid_event_count
    else if not (int_eq (to_int input.event_count) (pos (length input.events)))
    then event_count_mismatch
    else if text_eq input.cer_root_hash []
    then empty_cer_root_hash
    else if text_eq input.trace_root_hash []
    then empty_trace_root_hash
    else check_event_ids 0 input.events

pub record Cursor : Type 0 where
  pub index : ℤ

abbrev pub new_cursor : Cursor
new_cursor = record { index = pos 0 }

unfoldable pub step : Cursor → Cursor
step c = record { index = inc64 c.index }

unfoldable pub jump : Cursor → ℤ → Cursor
jump c i = if is_neg i then record { index = pos 0 } else record { index = i }

unfoldable pub index_valid : ℤ → ℕ → Bool
index_valid (negsuc i) n = false
index_valid (pos i) n = ltb i n

-- the method `Valid`
unfoldable pub valid : Cursor → ℕ → Bool
unfolding index_valid
valid c n = index_valid c.index n

abbrev pub at_index : List ReplayEvent → ℤ → Option ReplayEvent
at_index events (negsuc i) = none
at_index events (pos i) = get_elem? events i

-- the method `Event`
unfoldable pub event : Cursor → List ReplayEvent → Option ReplayEvent
unfolding valid
event c events = if valid c (length events) then at_index events c.index else none

-- The adapter. `show` is `fmt.Sprintf("%v", val)`, for values that are no string and no `[]byte`.
module _ (show : Value → Text) where
  unfoldable pub to_state_value : Value → Text
  to_state_value (str s) = s
  to_state_value (other (byte_slice b)) = text_or_empty b
  to_state_value v = show v

  -- the loop over the delta's entries
  unfoldable pub to_writes : Map Text → Map Value → Map Text
  to_writes writes [] = writes
  to_writes writes ((k, v) ∷ m) = to_writes (set k (to_state_value v) writes) m

  unfoldable pub to_replay_event : CerEvent → ReplayEvent
  to_replay_event e = record {
    event_id = e.event_id;
    prev_event_id = e.causal_chain_id;
    writes = to_writes [] e.state_delta;
    delta_hash = [];
  }

  unfoldable pub cer_events_to_replay : List CerEvent → List ReplayEvent
  cer_events_to_replay [] = []
  cer_events_to_replay (e ∷ events) = to_replay_event e ∷ cer_events_to_replay events

  unfoldable pub cer_events_to_replay_input :
      List CerEvent → Text → Text → Text → ℤ → ℤ → ReplayInput
  cer_events_to_replay_input events cer trace binding ccnf_version semantics_version = record {
    events = cer_events_to_replay events;
    cer_root_hash = cer;
    trace_root_hash = trace;
    replay_binding_hash = binding;
    ccnf_version = ccnf_version;
    semantics_version = semantics_version;
    event_count = length (cer_events_to_replay events) % 2 ^ 64;
  }
