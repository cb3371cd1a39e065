-- ===== src/Examples/Replay.antt =====
-- Two events on one entity.
use nexus_go_ccnf_ref.Base.{
  Text, codes, ℤ, pos, some, none, List, [], ◌∷◌, length, take, drop, All, ◌≡◌, refl, arith,
}
use nexus_go_ccnf_ref.Base.Map.{lookup}
use nexus_go_ccnf_ref.Value.{str}
use nexus_go_ccnf_ref.Replay.{CerEvent, EntityState, fold, replay_range}
use nexus_go_ccnf_ref.Replay.View.{read, written, HasMap, read-fold}
use nexus_go_ccnf_ref.Replay.Version.{version-fold}
use nexus_go_ccnf_ref.Replay.Range.{clamp, replay_range_lem}
use nexus_go_ccnf_ref.Snapshot.{Snapshot, valid, validate, round_trip, build_from_replay}
use nexus_go_ccnf_ref.Snapshot.Lock.{IsLocked, Agrees, validate-Agrees}
use nexus_go_ccnf_ref.Snapshot.RoundTrip.{IsPlainEvent, round_trip-valid}

abbrev event_at_seq : ℤ → Text → CerEvent
event_at_seq n status = record {
  event_id = codes "e";
  causal_chain_id = [];
  sequence = n;
  timestamp = n;
  entity_key = codes "k";
  artifact_id = codes "acct:main";
  state_delta = (codes "status", str status) ∷ [];
}

abbrev pub two_events : List CerEvent
two_events = event_at_seq (pos 1) (codes "open") ∷ event_at_seq (pos 2) (codes "done") ∷ []

pub two_events-HasMap : All HasMap two_events
unfolding lookup
two_events-HasMap = ((refl, tt), ((refl, tt), tt))

read-fold_example :
    read (fold two_events) (codes "k") (codes "status")
    ≡ written (codes "k") (codes "status") none two_events
read-fold_example = read-fold two_events (codes "k") (codes "status") two_events-HasMap

version-fold_example : (fold two_events).version ≡ pos (length two_events)
version-fold_example = version-fold two_events (omega arith)

replay_range_lem_example :
    replay_range two_events (pos 1) (pos 5)
    ≡ fold (drop (clamp (pos 1)) (take (clamp (pos 5)) two_events))
replay_range_lem_example = replay_range_lem two_events (pos 1) (pos 5)

two_events-IsPlain : All IsPlainEvent two_events
unfolding lookup
two_events-IsPlain = (
  record { nodup = (refl, tt); plain = (tt, tt) },
  (record { nodup = (refl, tt); plain = (tt, tt) }, tt),
)

round_trip-valid_example : round_trip (pos 9) two_events ≡ valid
round_trip-valid_example = round_trip-valid (pos 9) two_events two_events-IsPlain

abbrev taken : Snapshot
taken = build_from_replay (pos 9) two_events

taken-valid : validate taken two_events ≡ valid
unfolding round_trip
taken-valid = round_trip-valid (pos 9) two_events two_events-IsPlain

validate-Agrees_example :
    IsLocked taken
    × ((fold two_events).version ≡ taken.state.version)
    × ((k : Text) (e : EntityState)
        → lookup k (fold two_events).entities ≡ some e
        → (e' : EntityState) × (lookup k taken.state.entities ≡ some e') × Agrees e e')
validate-Agrees_example = validate-Agrees taken two_events taken-valid
