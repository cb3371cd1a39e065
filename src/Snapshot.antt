-- ===== src/Snapshot.antt =====
-- The snapshot oracle: replay/snapshot/{types, builder, compare, lock, snapshot}.go.
pub mod RoundTrip
pub mod Lock
use nexus_go_ccnf_ref.Base.{
  ℕ, Text, ℤ, pos, int_eq, Bool, true, false, not, ◌&&◌, ◌||◌, Option, none, some, List, [], ◌∷◌,
  length, if◌then◌else◌, ◌==◌,
}
use nexus_go_ccnf_ref.Base.Map.{Map, set, merge, all_found}
use nexus_go_ccnf_ref.Value.{Value}
use nexus_go_ccnf_ref.Value.Equal.{deep_equal}
use nexus_go_ccnf_ref.Replay.{CerEvent, EntityState, RuntimeState, fold}

pub record Snapshot : Type 0 where
  pub state : RuntimeState
  pub ccnf_version : ℤ
  pub collapse_version : ℤ
  pub rehydration_version : ℤ
  pub timestamp : ℤ

-- `TRI_VERSION_LOCK_FAILURE` and `STATE_DIVERGENCE`
pub data Verdict : Type 0 where
  valid tri_version_lock state_divergence : Verdict

abbrev pub current_ccnf_version : ℤ
current_ccnf_version = pos 1

abbrev pub current_collapse_version : ℤ
current_collapse_version = pos 1

abbrev pub current_rehydration_version : ℤ
current_rehydration_version = pos 1

-- the timestamp of the last event, and 0 where there is none
unfoldable pub last_timestamp : List CerEvent → ℤ
last_timestamp [] = pos 0
last_timestamp (x ∷ []) = x.timestamp
last_timestamp (x ∷ y ∷ events) = last_timestamp (y ∷ events)

-- the body of the loop of `copyState`
unfoldable pub copy_entity : EntityState → EntityState
copy_entity e = record {
  artifact_states = merge [] e.artifact_states;
  last_event_seq = e.last_event_seq;
}

unfoldable pub copy_entities : Map EntityState → Map EntityState → Map EntityState
copy_entities out [] = out
copy_entities out ((k, e) ∷ m) = copy_entities (set k (copy_entity e) out) m

unfoldable pub copy_state : RuntimeState → RuntimeState
copy_state s = record { entities = copy_entities [] s.entities; version = s.version }

-- `Build`, at the clock `now`, which stands in for a timestamp of 0
unfoldable pub build : ℤ → RuntimeState → List CerEvent → Snapshot
build now state events = record {
  state = copy_state state;
  ccnf_version = current_ccnf_version;
  collapse_version = current_collapse_version;
  rehydration_version = current_rehydration_version;
  timestamp = if int_eq (last_timestamp events) (pos 0) then now else last_timestamp events;
}

unfoldable pub build_from_replay : ℤ → List CerEvent → Snapshot
build_from_replay now events = build now (fold events) events

unfoldable pub equal_entity_state : EntityState → EntityState → Bool
equal_entity_state a b =
    int_eq a.last_event_seq b.last_event_seq
    && (length a.artifact_states == length b.artifact_states
        && all_found deep_equal a.artifact_states b.artifact_states)

unfoldable pub equal_states : RuntimeState → RuntimeState → Bool
equal_states a b =
    int_eq a.version b.version
    && (length a.entities == length b.entities
        && all_found equal_entity_state a.entities b.entities)

unfoldable pub compare : Snapshot → Snapshot → Bool
compare a b =
    int_eq a.ccnf_version b.ccnf_version
    && (int_eq a.collapse_version b.collapse_version
        && (int_eq a.rehydration_version b.rehydration_version
            && (int_eq a.timestamp b.timestamp && equal_states a.state b.state)))

unfoldable pub validate_tri_version_lock : Snapshot → Verdict
validate_tri_version_lock s =
    if int_eq s.ccnf_version (pos 0)
      || (int_eq s.collapse_version (pos 0) || int_eq s.rehydration_version (pos 0))
    then tri_version_lock
    else if not (int_eq s.ccnf_version s.collapse_version)
    then tri_version_lock
    else if not (int_eq s.ccnf_version s.rehydration_version)
    then tri_version_lock
    else valid

abbrev pub is_valid_verdict : Verdict → Bool
is_valid_verdict valid = true
is_valid_verdict _ = false

unfoldable pub is_valid_lock : Snapshot → Bool
unfolding validate_tri_version_lock
is_valid_lock s = is_valid_verdict (validate_tri_version_lock s)

unfoldable pub validate_state_equivalence : Snapshot → List CerEvent → Verdict
validate_state_equivalence s events =
    if equal_states (fold events) s.state then valid else state_divergence

-- `if err := a; err != nil { return err }` in front of `b`
abbrev pub and_then : Verdict → Verdict → Verdict
and_then valid b = b
and_then a _ = a

-- `Validate`, which `Verify` calls
unfoldable pub validate : Snapshot → List CerEvent → Verdict
validate s events =
    and_then (validate_tri_version_lock s) (and_then (validate_state_equivalence s events) valid)

-- `RoundTrip`
unfoldable pub round_trip : ℤ → List CerEvent → Verdict
round_trip now events = validate (build_from_replay now events) events
