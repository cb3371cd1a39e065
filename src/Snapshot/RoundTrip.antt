-- ===== src/Snapshot/RoundTrip.antt =====
-- A snapshot of a replay validates against the events that it was built from.
use nexus_go_ccnf_ref.Base.{
  Text, ℤ, int_eq_refl, ==-refl, ◌≡◌, refl, ap, ◌∙◌, true, Option, some, none, List, [], ◌∷◌, All,
  length,
}
use nexus_go_ccnf_ref.Base.Map.{
  Map, lookup, set, merge, NodupKeys, Each, set-Each, merge-Each, lookup-Each, merge-nil,
  all_found_refl, merge-NodupKeys, set-NodupKeys, copy-NodupKeys,
}
use nexus_go_ccnf_ref.Value.{Value}
use nexus_go_ccnf_ref.Value.Equal.{IsPlain, deep_equal, deep_equal_refl}
use nexus_go_ccnf_ref.Replay.{
  CerEvent, EntityState, RuntimeState, initial_state, entity_or_zero, get_entity, apply_delta,
  update_entity, apply_event, fold_from, fold,
}
use nexus_go_ccnf_ref.Snapshot.{
  valid, copy_entity, copy_entities, copy_state, build, build_from_replay, equal_entity_state,
  equal_states, validate, validate_tri_version_lock, validate_state_equivalence, round_trip,
}

-- An entity of plain values, in a map with no key twice.
pub record IsPlainEntity (e : EntityState) : Type 0 where
  pub nodup : NodupKeys e.artifact_states
  pub plain : Each IsPlain e.artifact_states

record IsPlainState (s : RuntimeState) : Type 0 where
  nodup : NodupKeys s.entities
  plain : Each IsPlainEntity s.entities

-- An event of plain values, in a map with no key twice.
pub record IsPlainEvent (x : CerEvent) : Type 0 where
  pub nodup : NodupKeys x.state_delta
  pub plain : Each IsPlain x.state_delta

entity_or_zero-IsPlain :
    (s : RuntimeState) (k : Text) → IsPlainState s → IsPlainEntity (get_entity s k)
unfolding get_entity
entity_or_zero-IsPlain s k h = go (lookup k s.entities) refl
  where
    go : (o : Option EntityState) → lookup k s.entities ≡ o → IsPlainEntity (entity_or_zero o)
    go none e = record { nodup = tt; plain = tt }
    go (some a) e = lookup-Each IsPlainEntity k s.entities h.plain e

apply_delta-IsPlain :
    (a : EntityState) (x : CerEvent)
    → IsPlainEntity a
    → IsPlainEvent x
    → IsPlainEntity (apply_delta a x.artifact_id x.state_delta x.sequence)
unfolding apply_delta
apply_delta-IsPlain a x h k = record {
  nodup = merge-NodupKeys _ x.state_delta (copy-NodupKeys a.artifact_states);
  plain =
      merge-Each IsPlain _ x.state_delta (merge-Each IsPlain [] a.artifact_states tt h.plain)
        k.plain;
}

apply_event-IsPlain :
    (s : RuntimeState) (x : CerEvent)
    → IsPlainState s
    → IsPlainEvent x
    → IsPlainState (apply_event s x)
unfolding apply_event update_entity
apply_event-IsPlain s x h k = record {
  nodup = set-NodupKeys x.entity_key _ _ (copy-NodupKeys s.entities);
  plain =
      set-Each IsPlainEntity x.entity_key _ _
        (apply_delta-IsPlain _ x (entity_or_zero-IsPlain s x.entity_key h) k)
        (merge-Each IsPlainEntity [] s.entities tt h.plain);
}

fold_from-IsPlain :
    (s : RuntimeState) (events : List CerEvent)
    → IsPlainState s
    → All IsPlainEvent events
    → IsPlainState (fold_from s events)
unfolding fold_from
fold_from-IsPlain s [] h k = h
fold_from-IsPlain s (x ∷ events) h k =
    fold_from-IsPlain (apply_event s x) events (apply_event-IsPlain s x h k.0) k.1

fold-IsPlain : (events : List CerEvent) → All IsPlainEvent events → IsPlainState (fold events)
unfolding fold initial_state
fold-IsPlain events k = fold_from-IsPlain initial_state events (record { nodup = tt; plain = tt }) k

copy_entities-merge :
    (out m : Map EntityState) → Each IsPlainEntity m → copy_entities out m ≡ merge out m
unfolding copy_entities copy_entity merge
copy_entities-merge out [] h = refl
copy_entities-merge out ((k, e) ∷ m) h =
    rw (merge-nil e.artifact_states h.0.nodup) (copy_entities-merge (set k e out) m h.1)

-- The copy of a state is the state.
copy_state-eq : (s : RuntimeState) → IsPlainState s → copy_state s ≡ s
unfolding copy_state
copy_state-eq s h =
    ap (λ m. record s { entities = m })
      (copy_entities-merge [] s.entities h.plain ∙ merge-nil s.entities h.nodup)

Each-refl : (m : Map Value) → Each IsPlain m → Each (λ v. deep_equal v v ≡ true) m
Each-refl [] h = tt
Each-refl ((k, v) ∷ m) h = (deep_equal_refl v h.0, Each-refl m h.1)

equal_entity_state_refl : (e : EntityState) → IsPlainEntity e → equal_entity_state e e ≡ true
unfolding equal_entity_state
equal_entity_state_refl e h = rw (
  int_eq_refl e.last_event_seq,
  ==-refl (length e.artifact_states),
  all_found_refl deep_equal e.artifact_states h.nodup (Each-refl e.artifact_states h.plain),
)

Each-entity_refl :
    (m : Map EntityState) → Each IsPlainEntity m → Each (λ e. equal_entity_state e e ≡ true) m
Each-entity_refl [] h = tt
Each-entity_refl ((k, e) ∷ m) h = (equal_entity_state_refl e h.0, Each-entity_refl m h.1)

equal_states_refl : (s : RuntimeState) → IsPlainState s → equal_states s s ≡ true
unfolding equal_states
equal_states_refl s h = rw (
  int_eq_refl s.version,
  ==-refl (length s.entities),
  all_found_refl equal_entity_state s.entities h.nodup (Each-entity_refl s.entities h.plain),
)

-- For events whose deltas have no key twice and hold plain values, without NaN, the round trip
-- validates, whatever the clock.
pub round_trip-valid :
    (now : ℤ) (events : List CerEvent) → All IsPlainEvent events → round_trip now events ≡ valid
unfolding round_trip validate build_from_replay build validate_tri_version_lock
    validate_state_equivalence
round_trip-valid now events h =
    let plain = fold-IsPlain events h in
    rw (copy_state-eq (fold events) plain, equal_states_refl (fold events) plain)
