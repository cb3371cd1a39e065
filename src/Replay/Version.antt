-- ===== src/Replay/Version.antt =====
-- The version counts the events, and each entity remembers the sequence of its last one.
use nexus_go_ccnf_ref.Base.{
  ℕ, suc, ◌+◌, ◌≤◌, Text, text_eq, ℤ, pos, inc64, inc64_lem, int64_max, ◌≡◌, refl, ◌∙◌, ap, List,
  [], ◌∷◌, length, arith, if◌then◌else◌, Bool-cases, inl, inr,
}
use nexus_go_ccnf_ref.Base.Map.{lookup}
use nexus_go_ccnf_ref.Replay.{
  CerEvent, RuntimeState, initial_state, apply_delta, update_entity, get_entity, apply_event,
  fold_from, fold,
}
use nexus_go_ccnf_ref.Replay.View.{
  IsMapped, get_entity-apply_event, apply_event-IsMapped, initial_state-IsMapped,
}

version-apply_event :
    (s : RuntimeState) (x : CerEvent) → (apply_event s x).version ≡ inc64 s.version
unfolding apply_event update_entity
version-apply_event s x = refl

version-fold_from :
    (n : ℕ) (s : RuntimeState) (events : List CerEvent)
    → s.version ≡ pos n
    → n + length events ≤ int64_max
    → (fold_from s events).version ≡ pos (n + length events)
unfolding fold_from
version-fold_from n s [] e h = e ∙ ap pos (omega arith)
version-fold_from n s (x ∷ events) e h =
    let here : (apply_event s x).version ≡ pos (suc n) =
      version-apply_event s x ∙ (ap inc64 e ∙ inc64_lem n (omega arith)) in
    version-fold_from (suc n) (apply_event s x) events here (omega arith) ∙ ap pos (omega arith)

-- The version of a replayed state is the number of events, as long as that fits in an int64.
pub version-fold :
    (events : List CerEvent)
    → length events ≤ int64_max
    → (fold events).version ≡ pos (length events)
unfolding fold initial_state
version-fold events h =
    version-fold_from 0 initial_state events refl (omega arith) ∙ ap pos (omega arith)

-- The sequence of the last event of entity `e`, from `before` on.
abbrev pub last_seq : Text → ℤ → List CerEvent → ℤ
last_seq e before [] = before
last_seq e before (x ∷ events) =
    last_seq e (if text_eq x.entity_key e then x.sequence else before) events

seq-apply_event :
    (s : RuntimeState) (x : CerEvent) (e : Text)
    → IsMapped s
    → (get_entity (apply_event s x) e).last_event_seq
      ≡ (if text_eq x.entity_key e then x.sequence else (get_entity s e).last_event_seq)
unfolding apply_delta
seq-apply_event s x e h =
    rw (get_entity-apply_event s x e h)
      (elim (Bool-cases (text_eq x.entity_key e)) [ inl same ↦ rw same | inr other ↦ rw other ])

seq-fold_from :
    (s : RuntimeState) (events : List CerEvent) (e : Text)
    → IsMapped s
    → (get_entity (fold_from s events) e).last_event_seq
      ≡ last_seq e (get_entity s e).last_event_seq events
unfolding fold_from
seq-fold_from s [] e h = refl
seq-fold_from s (x ∷ events) e h =
    seq-fold_from (apply_event s x) events e (apply_event-IsMapped s x h)
    ∙ ap (λ n. last_seq e n events) (seq-apply_event s x e h)

-- After a replay an entity holds the sequence of its last event, or 0 if it had none.
seq-fold :
    (events : List CerEvent) (e : Text)
    → (get_entity (fold events) e).last_event_seq ≡ last_seq e (pos 0) events
unfolding fold
seq-fold events e =
    seq-fold_from initial_state events e initial_state-IsMapped
    ∙ unfold initial_state get_entity lookup in refl
