-- ===== src/Replay/Range.antt =====
-- Replays of a part of the log.
use nexus_go_ccnf_ref.Base.{
  ℕ, zero, suc, ◌-◌, ◌≤◌, ℤ, pos, negsuc, ◌≡◌, refl, ◌∙◌, ap, List, [], ◌∷◌, ◌++◌, length, take,
  drop, arith, leb, Bool-cases, inl, inr,
}
use nexus_go_ccnf_ref.Replay.{
  CerEvent, Cursor, fold_from, fold, replay_from_cursor, replay_range, slice, clamp_end, from_index,
}

-- A negative bound counts as 0, which leaves nothing in front of an end.
abbrev pub clamp : ℤ → ℕ
clamp (pos n) = n
clamp (negsuc n) = 0

drop_all {ℓ} : {A : Type ℓ} (n : ℕ) (xs : List A) → length xs ≤ n → drop n xs ≡ []
drop_all zero [] h = refl
drop_all zero (x ∷ xs) h = absurd (omega arith)
drop_all (suc n) [] h = refl
drop_all (suc n) (x ∷ xs) h = drop_all n xs (omega arith)

take_all {ℓ} : {A : Type ℓ} (n : ℕ) (xs : List A) → length xs ≤ n → take n xs ≡ xs
take_all zero [] h = refl
take_all zero (x ∷ xs) h = absurd (omega arith)
take_all (suc n) [] h = refl
take_all (suc n) (x ∷ xs) h = ap (◌∷◌ x) (take_all n xs (omega arith))

take_nil {ℓ} : {A : Type ℓ} (n : ℕ) → take {A = A} n [] ≡ []
take_nil zero = refl
take_nil (suc n) = refl

length-take-le {ℓ} : {A : Type ℓ} (n : ℕ) (xs : List A) (m : ℕ) → n ≤ m → length (take n xs) ≤ m
length-take-le zero xs m h = omega arith
length-take-le (suc n) [] m h = omega arith
length-take-le (suc n) (x ∷ xs) zero h = absurd (omega arith)
length-take-le (suc n) (x ∷ xs) (suc m) h = omega (arith, length-take-le n xs m (omega arith))

take-drop {ℓ} :
    {A : Type ℓ} (s e : ℕ) (xs : List A) → s ≤ e → take (e - s) (drop s xs) ≡ drop s (take e xs)
take-drop zero e xs h = ap (λ n. take n xs) (omega arith)
take-drop (suc s) zero xs h = absurd (omega arith)
take-drop (suc s) (suc e) [] h = take_nil (suc e - suc s)
take-drop (suc s) (suc e) (x ∷ xs) h =
    ap (λ n. take n (drop s xs)) (omega arith) ∙ take-drop s e xs (omega arith)

drop-take_none {ℓ} : {A : Type ℓ} (s e : ℕ) (xs : List A) → e ≤ s → drop s (take e xs) ≡ []
drop-take_none s e xs h = drop_all s (take e xs) (length-take-le e xs s h)

take-append-drop {ℓ} : {A : Type ℓ} (n : ℕ) (xs : List A) → take n xs ++ drop n xs ≡ xs
take-append-drop zero xs = refl
take-append-drop (suc n) [] = refl
take-append-drop (suc n) (x ∷ xs) = ap (◌∷◌ x) (take-append-drop n xs)

slice-eq :
    (events : List CerEvent) (s e : ℕ)
    → slice events (pos s) (pos e) ≡ fold (drop s (take e events))
unfolding slice
slice-eq events s e = elim (Bool-cases (leb e s)) [
  | inl empty ↦ rw (empty, drop-take_none s e events (ground arith)) (unfold fold fold_from in refl)
  | inr rest ↦ rw (rest, take-drop s e events (ground arith))
]

slice-clamp_end :
    (events : List CerEvent) (s e : ℕ)
    → slice events (pos s) (clamp_end (length events) (pos e)) ≡ fold (drop s (take e events))
unfolding clamp_end
slice-clamp_end events s e = elim (Bool-cases (leb e (length events))) [
  | inl inside ↦ rw inside (slice-eq events s e)
  | inr past ↦ rw (
    past,
    slice-eq events s (length events),
    take_all (length events) events (omega arith),
    take_all e events (ground arith),
  )
]

slice-negsuc :
    (events : List CerEvent) (start : ℤ) (s e : ℕ)
    → slice events start (clamp_end (length events) (negsuc e)) ≡ fold (drop s [])
unfolding slice clamp_end fold fold_from
slice-negsuc events (pos n) s e = rw (drop_all {A = CerEvent} s [] (omega arith))
slice-negsuc events (negsuc n) s e = rw (drop_all {A = CerEvent} s [] (omega arith))

-- `ReplayRange` is the fold of the events from `start` up to `end`, for every pair of bounds:
-- negative ones, ones past the end and ones that cross included.
pub replay_range_lem :
    (events : List CerEvent) (start stop : ℤ)
    → replay_range events start stop ≡ fold (drop (clamp start) (take (clamp stop) events))
unfolding replay_range
replay_range_lem events (pos s) (pos e) = slice-clamp_end events s e
replay_range_lem events (pos s) (negsuc e) = slice-negsuc events (pos s) s e
replay_range_lem events (negsuc s) (pos e) = slice-clamp_end events 0 e
replay_range_lem events (negsuc s) (negsuc e) = slice-negsuc events (pos 0) 0 e

from_index_lem :
    (events : List CerEvent) (i : ℤ) → from_index events i ≡ fold (drop (clamp i) events)
unfolding from_index
from_index_lem events (negsuc n) = refl
from_index_lem events (pos n) = elim (Bool-cases (leb (length events) n)) [
  | inl past ↦ rw (past, drop_all n events (ground arith)) (unfold fold fold_from in refl)
  | inr inside ↦ rw inside
]

-- `ReplayFromCursor` is the fold of the events from the cursor on.
replay_from_cursor_lem :
    (events : List CerEvent) (c : Cursor)
    → replay_from_cursor events c ≡ fold (drop (clamp c.index) events)
unfolding replay_from_cursor
replay_from_cursor_lem events c = from_index_lem events c.index
