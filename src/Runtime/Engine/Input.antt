-- ===== src/Runtime/Engine/Input.antt =====
-- Which inputs `ValidateReplayInput` accepts.
use nexus_go_ccnf_ref.Base.{
  ℕ, suc, ◌^◌, ◌<◌, text_eq, ◌≡◌, ◌↔◌, refl, false, List, [], ◌∷◌, length, All, arith, Bool-cases,
  inl, inr,
}
use nexus_go_ccnf_ref.Runtime.Engine.{
  ReplayEvent, ReplayInput, accepted, check_event_ids, to_int, validate_replay_input,
}

abbrev pub HasId : ReplayEvent → Type 0
HasId e = text_eq e.event_id [] ≡ false

check_event_ids_iff :
    (i : ℕ) (events : List ReplayEvent) → (check_event_ids i events ≡ accepted) ↔ All HasId events
unfolding check_event_ids
check_event_ids_iff i [] = (λ h. tt, λ h. refl)
check_event_ids_iff i (e ∷ events) =
    let ih = check_event_ids_iff (suc i) events in
    elim (Bool-cases (text_eq e.event_id [])) [
      | inl empty ↦ rw empty (λ h. absurd (cc h), λ h. absurd (cc h.0))
      | inr named ↦ rw named (λ h. (refl, ih.0 h), λ h. ih.1 h.1)
    ]

-- The count is a uint64, and the list has at least one event and fewer than 2^63.
pub record IsCounted (input : ReplayInput) : Type 0 where
  pub count : input.event_count < 2 ^ 64
  pub fits : length input.events < 2 ^ 63

-- An input of fewer than 2^63 events, whose count is a uint64, is accepted exactly if it has an
-- event, its count is the number of events, both root hashes are there, and each event has an id.
pub validate_replay_input_iff :
    (input : ReplayInput)
    → IsCounted input
    → (validate_replay_input input ≡ accepted) ↔ (
        (0 < length input.events)
        × (input.event_count ≡ length input.events)
        × (text_eq input.cer_root_hash [] ≡ false)
        × (text_eq input.trace_root_hash [] ≡ false)
        × All HasId input.events)
unfolding validate_replay_input to_int
validate_replay_input_iff input c =
    let ids = check_event_ids_iff 0 input.events in
    (λ h. ground (arith, ids.0), λ h. ground (arith, ids.1))
