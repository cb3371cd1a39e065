-- ===== src/Replay/View.antt =====
-- The state that a fold leaves, against a specification that keeps no state: each key of an entity
-- has the value that was written last.
use nexus_go_ccnf_ref.Base.{
  Text, text_eq, text_eq_iff, ℤ, ◌≡◌, refl, ◌∙◌, ap, Option, none, List, [], ◌∷◌, All,
  if◌then◌else◌, Bool-cases, inl, inr,
}
use nexus_go_ccnf_ref.Base.Map.{
  Map, lookup, or_else, NodupKeys, lookup-set, lookup-merge, merge-NodupKeys, set-NodupKeys,
  lookup-copy, copy-NodupKeys,
}
use nexus_go_ccnf_ref.Value.{Value}
use nexus_go_ccnf_ref.Replay.{
  CerEvent, EntityState, RuntimeState, initial_state, apply_delta, update_entity, get_entity,
  apply_event, fold_from, fold,
}

-- What the events write last at key `k` of entity `e`, from `before` on.
abbrev pub written : Text → Text → Option Value → List CerEvent → Option Value
written e k before [] = before
written e k before (x ∷ events) =
    written e k (if text_eq x.entity_key e then or_else (lookup k x.state_delta) before else before)
      events

abbrev pub read : RuntimeState → Text → Text → Option Value
read s e k = lookup k (get_entity s e).artifact_states

-- The maps of a state, and the delta of an event, have no key twice.
pub record IsMapped (s : RuntimeState) : Type 0 where
  pub entities : NodupKeys s.entities
  pub artifacts : (e : Text) → NodupKeys (get_entity s e).artifact_states

abbrev pub HasMap : CerEvent → Type 0
HasMap x = NodupKeys x.state_delta

pub get_entity-apply_event :
    (s : RuntimeState) (x : CerEvent) (e : Text)
    → IsMapped s
    → get_entity (apply_event s x) e ≡ (
        if text_eq x.entity_key e
        then apply_delta (get_entity s x.entity_key) x.artifact_id x.state_delta x.sequence
        else get_entity s e)
unfolding apply_event update_entity get_entity
get_entity-apply_event s x e h =
    rw (lookup-set, lookup-copy e s.entities h.entities)
      (elim (Bool-cases (text_eq x.entity_key e)) [ inl same ↦ rw same | inr other ↦ rw other ])

read-apply_delta :
    (a : EntityState) (id k : Text) (d : Map Value) (n : ℤ)
    → NodupKeys a.artifact_states
    → NodupKeys d
    → lookup k (apply_delta a id d n).artifact_states
      ≡ or_else (lookup k d) (lookup k a.artifact_states)
unfolding apply_delta
read-apply_delta a id k d n u w = rw (lookup-merge k _ d w, lookup-copy k a.artifact_states u)

-- One event changes the keys of its delta in its own entity, and nothing else.
pub read-apply_event :
    (s : RuntimeState) (x : CerEvent) (e k : Text)
    → IsMapped s
    → HasMap x
    → read (apply_event s x) e k ≡ (
        if text_eq x.entity_key e
        then or_else (lookup k x.state_delta) (read s e k)
        else read s e k)
read-apply_event s x e k h u =
    rw (get_entity-apply_event s x e h) (elim (Bool-cases (text_eq x.entity_key e)) [
      | inr other ↦ rw other
      | inl same ↦ rw (
        same,
        read-apply_delta (get_entity s x.entity_key) x.artifact_id k x.state_delta x.sequence
            (h.artifacts x.entity_key) u,
        (text_eq_iff x.entity_key e).0 same,
      )
    ])

apply_delta-NodupKeys :
    (a : EntityState) (id : Text) (d : Map Value) (n : ℤ)
    → NodupKeys (apply_delta a id d n).artifact_states
unfolding apply_delta
apply_delta-NodupKeys a id d n = merge-NodupKeys _ d (copy-NodupKeys a.artifact_states)

apply_event-entities : (s : RuntimeState) (x : CerEvent) → NodupKeys (apply_event s x).entities
unfolding apply_event update_entity
apply_event-entities s x = set-NodupKeys x.entity_key _ _ (copy-NodupKeys s.entities)

pub apply_event-IsMapped :
    (s : RuntimeState) (x : CerEvent) → IsMapped s → IsMapped (apply_event s x)
apply_event-IsMapped s x h = record {
  entities = apply_event-entities s x;
  artifacts = λ e. rw (get_entity-apply_event s x e h) (elim (Bool-cases (text_eq x.entity_key e)) [
    | inl same ↦ rw same (apply_delta-NodupKeys _ x.artifact_id x.state_delta x.sequence)
    | inr other ↦ rw other (h.artifacts e)
  ]);
}

pub initial_state-IsMapped : IsMapped initial_state
unfolding initial_state get_entity lookup
initial_state-IsMapped = record { entities = tt; artifacts = λ e. tt }

-- However the events go, no map of the state has a key twice.
pub fold_from-IsMapped :
    (s : RuntimeState) (events : List CerEvent) → IsMapped s → IsMapped (fold_from s events)
unfolding fold_from
fold_from-IsMapped s [] h = h
fold_from-IsMapped s (x ∷ events) h =
    fold_from-IsMapped (apply_event s x) events (apply_event-IsMapped s x h)

read_initial : (e k : Text) → read initial_state e k ≡ none
unfolding initial_state get_entity lookup
read_initial e k = refl

read-fold_from :
    (s : RuntimeState) (events : List CerEvent) (e k : Text)
    → IsMapped s
    → All HasMap events
    → read (fold_from s events) e k ≡ written e k (read s e k) events
unfolding fold_from
read-fold_from s [] e k h u = refl
read-fold_from s (x ∷ events) e k h u =
    read-fold_from (apply_event s x) events e k (apply_event-IsMapped s x h) u.1
    ∙ ap (λ o. written e k o events) (read-apply_event s x e k h u.0)

-- After a replay of events whose deltas have no key twice, a key of an entity has the value that
-- the last event of that entity with that key in its delta wrote, and is absent if there was none.
pub read-fold :
    (events : List CerEvent) (e k : Text)
    → All HasMap events
    → read (fold events) e k ≡ written e k none events
unfolding fold
read-fold events e k u =
    read-fold_from initial_state events e k initial_state-IsMapped u
    ∙ ap (λ o. written e k o events) (read_initial e k)
