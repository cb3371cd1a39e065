-- ===== src/Runtime/Engine/Writes.antt =====
-- What the fold of the runtime leaves, and what the adapter writes.
use nexus_go_ccnf_ref.Base.{
  ◌+◌, ◌^◌, ◌<◌, Text, text_eq, ◌≡◌, refl, ◌∙◌, ap, Option, none, some, List, [], ◌∷◌, length, All,
  arith, if◌then◌else◌, text_eq_iff,
}
use mathlib.Core.Option
use nexus_go_ccnf_ref.Base.Map.{
  Map, lookup, set, or_else, NodupKeys, lookup-set, lookup-merge, lookup-copy, merge-NodupKeys,
  set-NodupKeys, copy-NodupKeys, or_else-none,
}
use nexus_go_ccnf_ref.Value.{Value}
use nexus_go_ccnf_ref.Replay
use nexus_go_ccnf_ref.Replay.{CerEvent}
use nexus_go_ccnf_ref.Replay.View
use nexus_go_ccnf_ref.Runtime.Engine.{
  ReplayEvent, RuntimeState, initial_state, apply, fold_from, fold, to_state_value, to_writes,
  to_replay_event, cer_events_to_replay,
}

-- What the events write last at `k`, from `before` on.
abbrev pub written : Text → Option Text → List ReplayEvent → Option Text
written k before [] = before
written k before (x ∷ events) = written k (or_else (lookup k x.writes) before) events

abbrev pub HasMap : ReplayEvent → Type 0
HasMap x = NodupKeys x.writes

apply-NodupKeys : (s : RuntimeState) (w : Map Text) → NodupKeys (apply s w).entries
unfolding apply
apply-NodupKeys s w = merge-NodupKeys _ w (copy-NodupKeys s.entries)

lookup-apply :
    (s : RuntimeState) (w : Map Text) (k : Text)
    → NodupKeys s.entries
    → NodupKeys w
    → lookup k (apply s w).entries ≡ or_else (lookup k w) (lookup k s.entries)
unfolding apply
lookup-apply s w k u h = rw (lookup-merge k _ w h, lookup-copy k s.entries u)

lookup-fold_from :
    (s : RuntimeState) (events : List ReplayEvent) (k : Text)
    → NodupKeys s.entries
    → All HasMap events
    → lookup k (fold_from s events).entries ≡ written k (lookup k s.entries) events
unfolding fold_from
lookup-fold_from s [] k u h = refl
lookup-fold_from s (x ∷ events) k u h =
    lookup-fold_from (apply s x.writes) events k (apply-NodupKeys s x.writes) h.1
    ∙ ap (λ o. written k o events) (lookup-apply s x.writes k u h.0)

-- No key is twice in a folded state.
pub fold_from-NodupKeys :
    (s : RuntimeState) (events : List ReplayEvent)
    → NodupKeys s.entries
    → NodupKeys (fold_from s events).entries
unfolding fold_from
fold_from-NodupKeys s [] u = u
fold_from-NodupKeys s (x ∷ events) u =
    fold_from-NodupKeys (apply s x.writes) events (apply-NodupKeys s x.writes)

pub fold-NodupKeys : (events : List ReplayEvent) → NodupKeys (fold events).entries
unfolding fold initial_state
fold-NodupKeys events = fold_from-NodupKeys initial_state events tt

-- After a fold of events whose writes have no key twice, a key has the value that the last event
-- with that key wrote, and is absent if there was none.
pub lookup-fold :
    (events : List ReplayEvent) (k : Text)
    → All HasMap events
    → lookup k (fold events).entries ≡ written k none events
unfolding fold initial_state
lookup-fold events k h = lookup-fold_from initial_state events k tt h ∙ unfold lookup in refl

version-fold_from :
    (s : RuntimeState) (events : List ReplayEvent)
    → s.version + length events < 2 ^ 64
    → (fold_from s events).version ≡ s.version + length events
unfolding fold_from apply
version-fold_from s [] h = omega arith
version-fold_from s (x ∷ events) h =
    version-fold_from (apply s x.writes) events (omega arith) ∙ omega arith

-- The version of a folded state is the number of events, as long as that fits in a uint64.
version-fold_writes :
    (events : List ReplayEvent) → length events < 2 ^ 64 → (fold events).version ≡ length events
unfolding fold initial_state
version-fold_writes events h = version-fold_from initial_state events (omega arith) ∙ omega arith

module _ (show : Value → Text) where
  lookup-to_writes :
      (w : Map Text) (m : Map Value) (k : Text)
      → NodupKeys m
      → lookup k (to_writes show w m)
        ≡ or_else (Option.map (to_state_value show) (lookup k m)) (lookup k w)
  unfolding to_writes lookup
  lookup-to_writes w [] k u = refl
  lookup-to_writes w ((j, v) ∷ m) k u = ground (
    arith,
    lookup-to_writes (set j (to_state_value show v) w) m k u.1,
    lookup-set k j (to_state_value show v) w,
    text_eq_iff j k,
  )

  to_writes-NodupKeys :
      (w : Map Text) (m : Map Value) → NodupKeys w → NodupKeys (to_writes show w m)
  unfolding to_writes
  to_writes-NodupKeys w [] u = u
  to_writes-NodupKeys w ((j, v) ∷ m) u =
      to_writes-NodupKeys (set j (to_state_value show v) w) m (set-NodupKeys j _ w u)

  cer_events_to_replay-HasMap :
      (events : List CerEvent) → All HasMap (cer_events_to_replay show events)
  unfolding cer_events_to_replay to_replay_event
  cer_events_to_replay-HasMap [] = tt
  cer_events_to_replay-HasMap (e ∷ events) =
      (to_writes-NodupKeys [] e.state_delta tt, cer_events_to_replay-HasMap events)

  map-or_else :
      (a b : Option Value)
      → or_else (Option.map (to_state_value show) a) (Option.map (to_state_value show) b)
        ≡ Option.map (to_state_value show) (or_else a b)
  map-or_else none b = refl
  map-or_else (some v) b = refl

  written-head :
      (e k : Text) (before : Option Value) (x : CerEvent)
      → x.entity_key ≡ e
      → NodupKeys x.state_delta
      → or_else (lookup k (to_replay_event show x).writes) (Option.map (to_state_value show) before)
        ≡ Option.map
            (to_state_value show)
            (if text_eq x.entity_key e then or_else (lookup k x.state_delta) before else before)
  unfolding to_replay_event lookup
  written-head e k before x same u =
      rw
        (
          lookup-to_writes [] x.state_delta k u,
          (text_eq_iff x.entity_key e).1 same,
          or_else-none (Option.map (to_state_value show) (lookup k x.state_delta)),
        )
        (map-or_else (lookup k x.state_delta) before)

  -- The adapted events of one entity write what the entity's events write.
  written-adapted :
      (e k : Text) (before : Option Value) (events : List CerEvent)
      → All (λ x. x.entity_key ≡ e) events
      → All View.HasMap events
      → written k (Option.map (to_state_value show) before) (cer_events_to_replay show events)
        ≡ Option.map (to_state_value show) (View.written e k before events)
  unfolding cer_events_to_replay
  written-adapted e k before [] same u = refl
  written-adapted e k before (x ∷ events) same u =
      ap (λ o. written k o (cer_events_to_replay show events))
        (written-head e k before x same.0 u.0)
      ∙ written-adapted e k
          (if text_eq x.entity_key e then or_else (lookup k x.state_delta) before else before)
          events same.1 u.1

  -- On a log of one entity whose deltas have no key twice the two engines agree: through the
  -- adapter, the runtime's fold has at each key the text of the value that the replay engine has
  -- in that entity.
  pub fold-adapted :
      (events : List CerEvent) (e k : Text)
      → All (λ x. x.entity_key ≡ e) events
      → All View.HasMap events
      → lookup k (fold (cer_events_to_replay show events)).entries
        ≡ Option.map (to_state_value show) (View.read (Replay.fold events) e k)
  fold-adapted events e k same u =
      rw (lookup-fold _ k (cer_events_to_replay-HasMap events), View.read-fold events e k u)
        (written-adapted e k none events same u)
