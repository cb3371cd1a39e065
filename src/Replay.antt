-- ===== src/Replay.antt =====
-- The replay engine: replay/types.go, state.go, fold.go, cursor.go and replay.go.
pub mod View
pub mod Version
pub mod Range
use nexus_go_ccnf_ref.Base.{
  ℕ, ◌-◌, Text, ℤ, pos, negsuc, inc64, is_neg, Option, none, some, List, [], ◌∷◌, length, take,
  drop, get_elem?, leb, if◌then◌else◌, Bool,
}
use nexus_go_ccnf_ref.Base.Map.{Map, lookup, set, merge}
use nexus_go_ccnf_ref.Value.{Value}

pub record CerEvent : Type 0 where
  pub event_id : Text
  pub causal_chain_id : Text
  pub sequence : ℤ
  pub timestamp : ℤ
  pub entity_key : Text
  pub artifact_id : Text
  pub state_delta : Map Value

pub record EntityState : Type 0 where
  pub artifact_states : Map Value
  pub last_event_seq : ℤ

pub record RuntimeState : Type 0 where
  pub entities : Map EntityState
  pub version : ℤ

unfoldable pub initial_state : RuntimeState
initial_state = record { entities = []; version = pos 0 }

-- `applyDelta`: a fresh map, filled from the entity's and then from the delta. The artifact id is
-- not read.
unfoldable pub apply_delta : EntityState → Text → Map Value → ℤ → EntityState
apply_delta entity artifact_id delta seq = record {
  artifact_states = merge (merge [] entity.artifact_states) delta;
  last_event_seq = seq;
}

unfoldable pub update_entity : RuntimeState → Text → EntityState → RuntimeState
update_entity state entity_key updated = record {
  entities = set entity_key updated (merge [] state.entities);
  version = inc64 state.version;
}

-- `getEntity`, without its flag: a missing entity is the zero value.
unfoldable pub entity_or_zero : Option EntityState → EntityState
entity_or_zero none = record { artifact_states = []; last_event_seq = pos 0 }
entity_or_zero (some e) = e

unfoldable pub get_entity : RuntimeState → Text → EntityState
unfolding entity_or_zero
get_entity state key = entity_or_zero (lookup key state.entities)

unfoldable pub apply_event : RuntimeState → CerEvent → RuntimeState
apply_event state event = update_entity state event.entity_key (
    apply_delta (get_entity state event.entity_key) event.artifact_id event.state_delta
      event.sequence)

-- the loop of `Fold`
unfoldable pub fold_from : RuntimeState → List CerEvent → RuntimeState
fold_from state [] = state
fold_from state (e ∷ events) = fold_from (apply_event state e) events

unfoldable pub fold : List CerEvent → RuntimeState
fold events = fold_from initial_state events

unfoldable pub replay : List CerEvent → RuntimeState
replay events = fold events

pub record Cursor : Type 0 where
  pub index : ℤ

abbrev pub new_cursor : Cursor
new_cursor = record { index = pos 0 }

unfoldable pub step : Cursor → Cursor
step c = record { index = inc64 c.index }

unfoldable pub jump : Cursor → ℤ → Cursor
jump c i = if is_neg i then record { index = pos 0 } else record { index = i }

unfoldable pub event_at : ℤ → List CerEvent → Option CerEvent
event_at (negsuc n) events = none
event_at (pos n) events = if leb (length events) n then none else get_elem? events n

-- `Event`; `none` is the `false` of an index out of range
unfoldable pub event : Cursor → List CerEvent → Option CerEvent
event c events = event_at c.index events

unfoldable pub from_index : List CerEvent → ℤ → RuntimeState
from_index events (negsuc n) = fold events
from_index events (pos n) = if leb (length events) n then initial_state else fold (drop n events)

unfoldable pub replay_from_cursor : List CerEvent → Cursor → RuntimeState
replay_from_cursor events c = from_index events c.index

-- `if end > len(events) { end = len(events) }`
unfoldable pub clamp_end : ℕ → ℤ → ℤ
clamp_end n (negsuc k) = negsuc k
clamp_end n (pos k) = if leb k n then pos k else pos n

-- `Fold(events[start:end])`, behind the test that the range is not empty
unfoldable pub slice : List CerEvent → ℤ → ℤ → RuntimeState
slice events (pos start) (pos stop) =
    if leb stop start then initial_state else fold (take (stop - start) (drop start events))
slice events _ _ = initial_state

unfoldable pub replay_range : List CerEvent → ℤ → ℤ → RuntimeState
replay_range events start stop =
    slice events (if is_neg start then pos 0 else start) (clamp_end (length events) stop)
