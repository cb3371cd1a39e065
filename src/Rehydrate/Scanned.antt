-- ===== src/Rehydrate/Scanned.antt =====
-- A scan visits the keys with the prefix, in order, each with its value.
use native.Mathlib.Numerals.{sub-one}
use nexus_go_ccnf_ref.Base.{
  ℕ, zero, suc, ◌+◌, ◌≤◌, ◌<◌, Text, ◌≡◌, refl, sym, ◌∙◌, ap, true, false, Option, none, some, List,
  [], ◌∷◌, ◌++◌, length, drop, arith, leb, Bool-cases, inl, inr, get_elem?, append-nil,
  append_assoc,
}
use nexus_go_ccnf_ref.Base.Map.{lookup, keys}
use nexus_go_ccnf_ref.Base.Sort.{sort_strings}
use nexus_go_ccnf_ref.Runtime.Engine.{RuntimeState}
use nexus_go_ccnf_ref.Rehydrate.{
  Iterator, filter_prefix, snapshot_scan, next, current, key, value, text_or_nil, for_next, Route,
  decode_view, push_view, reader_scan,
}

-- The body run on each key from a position on, with its value in the state.
abbrev pub run_on {ℓ} : {S : Type ℓ} → RuntimeState → (S → Text → Text → S) → S → List Text → S
run_on st body s [] = s
run_on st body s (k ∷ ks) = run_on st body (body s k (text_or_nil (lookup k st.entries))) ks

-- An open iterator over `ks` at position `i`.
abbrev at : List Text → RuntimeState → ℕ → Iterator
at ks st i = record { ks = ks; state = st; idx = i; closed = false }

drop-get_elem? {ℓ} :
    {A : Type ℓ} (xs : List A) (i : ℕ)
    → i < length xs
    → (x : A) × (get_elem? xs i ≡ some x) × (drop i xs ≡ x ∷ drop (suc i) xs)
drop-get_elem? [] i h = absurd (omega arith)
drop-get_elem? (x ∷ xs) zero h = (x, refl, refl)
drop-get_elem? (x ∷ xs) (suc i) h = drop-get_elem? xs i (omega arith)

drop_past {ℓ} : {A : Type ℓ} (xs : List A) (i : ℕ) → length xs ≤ i → drop i xs ≡ []
drop_past [] zero h = refl
drop_past [] (suc i) h = refl
drop_past (x ∷ xs) zero h = absurd (omega arith)
drop_past (x ∷ xs) (suc i) h = drop_past xs i (omega arith)

current-at :
    (ks : List Text) (st : RuntimeState) (i : ℕ)
    → i < length ks
    → current (at ks st (suc i)) ≡ get_elem? ks i
unfolding current
current-at ks st i h = ground (arith, sub-one i)

-- a view in front, if there is one
abbrev pub push_front {ℓ} : {V : Type ℓ} → Option V → List V → List V
push_front none vs = vs
push_front (some v) vs = v ∷ vs

push_view-append {ℓ} :
    {V : Type ℓ} (vs : List V) (o : Option V) (ws : List V)
    → push_view vs o ++ ws ≡ vs ++ push_front o ws
push_view-append vs none ws = refl
push_view-append vs (some v) ws = append_assoc vs (v ∷ []) ws

module _ {ℓ} {S : Type ℓ} (ks : List Text) (st : RuntimeState) (body : S → Text → Text → S) where
  -- What a round does at a key.
  round :
      (i : ℕ) (s : S)
      → i < length ks
      → run_on st body s (drop i ks)
        ≡ run_on st body
            (body s (key (at ks st (suc i))) (value (at ks st (suc i))))
            (drop (suc i) ks)
  unfolding key value
  round i s h =
      let (k, found, split) = drop-get_elem? ks i h in rw (split, current-at ks st i h, found)

  test_past : (i : ℕ) → length ks ≤ zero + i → leb (suc i) (length ks) ≡ false
  test_past i h = ground arith

  -- With a round for each key left and one more, the loop runs the body on each of them and ends.
  pub for_next-at :
      (fuel i : ℕ) (s : S)
      → length ks ≤ fuel + i
      → for_next (suc fuel) body s (at ks st i) ≡ (run_on st body s (drop i ks), true)
  unfolding for_next next
  for_next-at zero i s h = rw (test_past i h, drop_past ks i (omega arith))
  for_next-at (suc fuel) i s h = elim (Bool-cases (leb (suc i) (length ks))) [
    | inr past ↦ rw (past, drop_past ks i (ground arith))
    | inl more ↦ rw (more, round i s (ground arith)) (for_next-at fuel (suc i) _ (omega arith))
  ]

-- The views that the keys decode to, in their order.
abbrev pub views {ℓ} : {V : Type ℓ} → RuntimeState → List (Route V) → List Text → List V
views st routes [] = []
views st routes (k ∷ ks) =
    push_front (decode_view routes k (text_or_nil (lookup k st.entries))) (views st routes ks)

module _ {ℓ} {V : Type ℓ} (st : RuntimeState) (routes : List (Route V)) where
  run_on-push_view :
      (vs : List V) (ks : List Text)
      → run_on st (λ us k v. push_view us (decode_view routes k v)) vs ks ≡ vs ++ views st routes ks
  run_on-push_view vs [] = sym (append-nil vs)
  run_on-push_view vs (k ∷ ks) =
      run_on-push_view (push_view vs (decode_view routes k (text_or_nil (lookup k st.entries)))) ks
      ∙ push_view-append vs (decode_view routes k (text_or_nil (lookup k st.entries)))
          (views st routes ks)

  -- The loop of the reader's scan comes to the views of the keys that the filter keeps.
  pub reader_scan-views :
      (prefix : Text)
      → reader_scan st routes prefix
        ≡ (views st routes (filter_prefix prefix (sort_strings (keys st.entries))), true)
  unfolding reader_scan snapshot_scan
  reader_scan-views prefix =
      let ks = filter_prefix prefix (sort_strings (keys st.entries)) in
      for_next-at ks st (λ us k v. push_view us (decode_view routes k v)) (length ks) 0 []
        (omega arith)
      ∙ ap (λ vs. (vs, true)) (run_on-push_view [] ks)
