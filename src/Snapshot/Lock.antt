-- ===== src/Snapshot/Lock.antt =====
-- What `Validate` accepts.
use nexus_go_ccnf_ref.Base.{
  Text, pos, int_eq, int_eq→eq, int_eq_refl, ◌≡◌, ◌≢◌, true, some, List, arith, ◌↔◌, &&→both,
  Bool-cases, inl, inr,
}
use nexus_go_ccnf_ref.Base.Map.{lookup, all_found-lookup}
use nexus_go_ccnf_ref.Value.{Value}
use nexus_go_ccnf_ref.Value.Equal.{deep_equal}
use nexus_go_ccnf_ref.Replay.{CerEvent, EntityState, RuntimeState, fold}
use nexus_go_ccnf_ref.Snapshot.{
  Snapshot, valid, validate, validate_tri_version_lock, validate_state_equivalence, equal_states,
  equal_entity_state,
}

-- The three versions of a snapshot are one, and it is not 0.
pub record IsLocked (s : Snapshot) : Type 0 where
  pub nonzero : s.ccnf_version ≢ pos 0
  pub collapse : s.ccnf_version ≡ s.collapse_version
  pub rehydration : s.ccnf_version ≡ s.rehydration_version

validate_tri_version_lock-IsLocked :
    (s : Snapshot) → validate_tri_version_lock s ≡ valid → IsLocked s
unfolding validate_tri_version_lock
validate_tri_version_lock-IsLocked s h = record {
  nonzero = λ e. ground arith;
  collapse = ground (arith, int_eq→eq s.ccnf_version s.collapse_version);
  rehydration = ground (arith, int_eq→eq s.ccnf_version s.rehydration_version);
}

IsLocked-validate_tri_version_lock :
    (s : Snapshot) → IsLocked s → validate_tri_version_lock s ≡ valid
unfolding validate_tri_version_lock
IsLocked-validate_tri_version_lock s h =
    rw (← h.collapse, ← h.rehydration, int_eq_refl s.ccnf_version)
      (elim (Bool-cases (int_eq s.ccnf_version (pos 0))) [
        | inl zero_version ↦ absurd (h.nonzero (int_eq→eq _ _ zero_version))
        | inr set ↦ rw set
      ])

-- The version lock accepts exactly the snapshots whose three versions are one that is not 0.
validate_tri_version_lock_iff : (s : Snapshot) → (validate_tri_version_lock s ≡ valid) ↔ IsLocked s
validate_tri_version_lock_iff s =
    (validate_tri_version_lock-IsLocked s, IsLocked-validate_tri_version_lock s)

-- Two states agree on an entity: the same last sequence, and an equal value at each key.
pub record Agrees (a b : EntityState) : Type 0 where
  pub seq : a.last_event_seq ≡ b.last_event_seq
  pub values :
      (k : Text) (v : Value)
      → lookup k a.artifact_states ≡ some v
      → (w : Value) × (lookup k b.artifact_states ≡ some w) × (deep_equal v w ≡ true)

equal_entity_state-Agrees : (a b : EntityState) → equal_entity_state a b ≡ true → Agrees a b
unfolding equal_entity_state
equal_entity_state-Agrees a b h =
    let (seq, rest) = &&→both (int_eq a.last_event_seq b.last_event_seq) _ h in
    let (count, found) = &&→both _ _ rest in
    record {
      seq = int_eq→eq _ _ seq;
      values = λ k v e. all_found-lookup deep_equal a.artifact_states b.artifact_states k v found e;
    }

equal_states-Agrees :
    (a b : RuntimeState)
    → equal_states a b ≡ true
    → (a.version ≡ b.version)
      × ((k : Text) (e : EntityState)
          → lookup k a.entities ≡ some e
          → (e' : EntityState) × (lookup k b.entities ≡ some e') × Agrees e e')
unfolding equal_states
equal_states-Agrees a b h =
    let (version, rest) = &&→both (int_eq a.version b.version) _ h in
    let (count, found) = &&→both _ _ rest in
    (
      int_eq→eq _ _ version,
      λ k e at.
          let (e', there, same) =
            all_found-lookup equal_entity_state a.entities b.entities k e found at in
          (e', there, equal_entity_state-Agrees e e' same),
    )

-- A snapshot that validates is locked, has the version of the replay, and agrees with the replay on
-- every entity that the replay has.
pub validate-Agrees :
    (s : Snapshot) (events : List CerEvent)
    → validate s events ≡ valid
    → IsLocked s
      × ((fold events).version ≡ s.state.version)
      × ((k : Text) (e : EntityState)
          → lookup k (fold events).entities ≡ some e
          → (e' : EntityState) × (lookup k s.state.entities ≡ some e') × Agrees e e')
unfolding validate validate_state_equivalence
validate-Agrees s events h =
    let locked : validate_tri_version_lock s ≡ valid = ground arith in
    let same : equal_states (fold events) s.state ≡ true = ground arith in
    let (version, entities) = equal_states-Agrees (fold events) s.state same in
    ((validate_tri_version_lock_iff s).0 locked, version, entities)
