-- ===== src/Base/Map.antt =====
-- Go's maps with string keys, as lists of entries in the order in which a `range` visits them. The
-- language leaves that order open, so what holds of every list holds of every order.
use nexus_go_ccnf_ref.Base.Tests.{if◌then◌else◌, Bool-cases, &&→both}
use nexus_go_ccnf_ref.Base.Texts.{Text, text_eq, text_eq_iff, text_eq_refl}
use mathlib.Core.Path.{◌≡◌, refl}
use mathlib.Core.Option.{Option, none, some}
use mathlib.Core.List.{List, [], ◌∷◌}
use mathlib.Core.Path.{sym, subst}
use mathlib.Core.Bool.{Bool, true, false, ◌&&◌}
use mathlib.Core.Logic.{inl, inr}
use mathlib.Core.Option.{some-injective}
use mathlib.Core.List.{◌++◌, append-nil, append_assoc}
use native.Mathlib.Omega.{arith}

-- A missing key reads as the nil slice.
abbrev pub or_nil {ℓ} : {A : Type ℓ} → Option (List A) → List A
or_nil none = []
or_nil (some xs) = xs

abbrev pub Map {ℓ} : Type ℓ → Type ℓ
Map V = List (Text × V)

-- the body of a loop that compares the entries of two maps
abbrev pub matches {ℓ} : {V : Type ℓ} → (V → V → Bool) → V → Option V → Bool
matches eq v none = false
matches eq v (some w) = eq v w

matched {ℓ} :
    {V : Type ℓ} (eq : V → V → Bool) (v : V) (o : Option V)
    → matches eq v o ≡ true
    → (w : V) × (o ≡ some w) × (eq v w ≡ true)
matched eq v none h = absurd (cc h)
matched eq v (some w) h = (w, refl, h)

module _ {ℓ} {V : Type ℓ} where
  -- `v, ok := m[k]`
  unfoldable pub lookup : Text → Map V → Option V
  lookup k [] = none
  lookup k ((j, v) ∷ m) = if text_eq j k then some v else lookup k m

  -- `m[k] = v`
  unfoldable pub set : Text → V → Map V → Map V
  set k v [] = (k, v) ∷ []
  set k v ((j, w) ∷ m) = if text_eq j k then (j, v) ∷ m else (j, w) ∷ set k v m

  -- `for k, v := range n { m[k] = v }`
  unfoldable pub merge : Map V → Map V → Map V
  unfolding set
  merge m [] = m
  merge m ((k, v) ∷ n) = merge (set k v m) n

  unfoldable pub keys : Map V → List Text
  keys [] = []
  keys ((k, v) ∷ m) = k ∷ keys m

  -- A map has an entry for a key at most once.
  abbrev pub NodupKeys : Map V → Type ℓ
  NodupKeys [] = Unit
  NodupKeys ((k, v) ∷ m) = (lookup k m ≡ none) × NodupKeys m

  pub lookup-set :
      (j k : Text) (v : V) (m : Map V)
      → lookup j (set k v m) ≡ (if text_eq k j then some v else lookup j m)
  unfolding lookup set
  lookup-set j k v [] = refl
  lookup-set j k v ((i, w) ∷ m) =
      ground (arith, lookup-set j k v m, text_eq_iff i k, text_eq_iff i j, text_eq_iff k j)

  pub set-NodupKeys : (k : Text) (v : V) (m : Map V) → NodupKeys m → NodupKeys (set k v m)
  unfolding set lookup
  set-NodupKeys k v [] u = (refl, tt)
  set-NodupKeys k v ((j, w) ∷ m) u =
      ground (arith, set-NodupKeys k v m u.1, lookup-set j k v m, text_eq_iff j k, text_eq_iff k j)

  pub merge-NodupKeys : (m n : Map V) → NodupKeys m → NodupKeys (merge m n)
  unfolding merge
  merge-NodupKeys m [] u = u
  merge-NodupKeys m ((k, v) ∷ n) u = merge-NodupKeys (set k v m) n (set-NodupKeys k v m u)

  abbrev pub or_else : Option V → Option V → Option V
  or_else none b = b
  or_else (some v) b = some v

  pub lookup-merge :
      (j : Text) (m n : Map V)
      → NodupKeys n
      → lookup j (merge m n) ≡ or_else (lookup j n) (lookup j m)
  unfolding merge lookup
  lookup-merge j m [] u = refl
  lookup-merge j m ((k, v) ∷ n) u =
      ground (arith, lookup-merge j (set k v m) n u.1, lookup-set j k v m, text_eq_iff k j)

  pub or_else-none : (o : Option V) → or_else o none ≡ o
  or_else-none none = refl
  or_else-none (some v) = refl

  -- A copy reads like the map.
  pub lookup-copy : (j : Text) (m : Map V) → NodupKeys m → lookup j (merge [] m) ≡ lookup j m
  lookup-copy j m u = rw (lookup-merge j [] m u) (unfold lookup in or_else-none (lookup j m))

  pub copy-NodupKeys : (m : Map V) → NodupKeys (merge [] m)
  copy-NodupKeys m = merge-NodupKeys [] m tt

  -- A copy of a map lists its entries in the order in which they were visited.
  set-append : (k : Text) (v : V) (m : Map V) → lookup k m ≡ none → set k v m ≡ m ++ ((k, v) ∷ [])
  unfolding lookup set
  set-append k v [] h = refl
  set-append k v ((j, w) ∷ m) h = ground (arith, set-append k v m)

  abbrev Absent : Map V → Map V → Type ℓ
  Absent [] acc = Unit
  Absent ((k, v) ∷ m) acc = (lookup k acc ≡ none) × Absent m acc

  lookup-append_none :
      (j k : Text) (v : V) (acc : Map V)
      → lookup j acc ≡ none
      → text_eq k j ≡ false
      → lookup j (acc ++ ((k, v) ∷ [])) ≡ none
  unfolding lookup
  lookup-append_none j k v [] h d = rw d
  lookup-append_none j k v ((i, w) ∷ acc) h d = ground (arith, lookup-append_none j k v acc)

  Absent-append :
      (k : Text) (v : V) (m acc : Map V)
      → lookup k m ≡ none
      → Absent m acc
      → Absent m (acc ++ ((k, v) ∷ []))
  unfolding lookup
  Absent-append k v [] acc h a = tt
  Absent-append k v ((j, w) ∷ m) acc h a = (
    lookup-append_none j k v acc a.0 (ground (arith, text_eq_iff j k, text_eq_iff k j)),
    Absent-append k v m acc (ground arith) a.1,
  )

  merge-append : (m acc : Map V) → NodupKeys m → Absent m acc → merge acc m ≡ acc ++ m
  unfolding merge
  merge-append [] acc u a = sym (append-nil acc)
  merge-append ((k, v) ∷ m) acc u a =
      rw (set-append k v acc a.0, merge-append m _ u.1 (Absent-append k v m acc u.0 a.1))
        (append_assoc acc ((k, v) ∷ []) m)

  Absent-nil : (m : Map V) → Absent m []
  unfolding lookup
  Absent-nil [] = tt
  Absent-nil ((k, v) ∷ m) = (refl, Absent-nil m)

  pub merge-nil : (m : Map V) → NodupKeys m → merge [] m ≡ m
  merge-nil m u = merge-append m [] u (Absent-nil m)

  -- What holds of every value of a map.
  abbrev pub Each {κ} : (V → Type κ) → Map V → Type κ
  Each P [] = Unit
  Each P ((k, v) ∷ m) = P v × Each P m

  pub set-Each {κ} :
      (P : V → Type κ) (k : Text) (v : V) (m : Map V) → P v → Each P m → Each P (set k v m)
  unfolding set
  set-Each P k v [] h e = (h, tt)
  set-Each P k v ((j, w) ∷ m) h e = elim (Bool-cases (text_eq j k)) [
    | inl same ↦ rw same (h, e.1)
    | inr other ↦ rw other (e.0, set-Each P k v m h e.1)
  ]

  pub merge-Each {κ} : (P : V → Type κ) (m n : Map V) → Each P m → Each P n → Each P (merge m n)
  unfolding merge
  merge-Each P m [] h e = h
  merge-Each P m ((k, v) ∷ n) h e = merge-Each P (set k v m) n (set-Each P k v m e.0 h) e.1

  pub lookup-Each {κ} :
      (P : V → Type κ) (k : Text) (m : Map V) {v : V} → Each P m → lookup k m ≡ some v → P v
  unfolding lookup
  lookup-Each P k [] e h = absurd (cc h)
  lookup-Each P k ((j, w) ∷ m) e h = elim (Bool-cases (text_eq j k)) [
    | inl same ↦ subst P (some-injective w _ (rw same at h)) e.0
    | inr other ↦ lookup-Each P k m e.1 (rw other at h)
  ]

  -- The loop that looks for each entry of one map in another.
  unfoldable pub all_found : (V → V → Bool) → Map V → Map V → Bool
  all_found eq [] n = true
  all_found eq ((k, v) ∷ m) n = matches eq v (lookup k n) && all_found eq m n

  abbrev Found : Map V → Map V → Type ℓ
  Found [] n = Unit
  Found ((k, v) ∷ m) n = (lookup k n ≡ some v) × Found m n

  Found-cons :
      (k : Text) (v : V) (m n : Map V) → lookup k m ≡ none → Found m n → Found m ((k, v) ∷ n)
  unfolding lookup
  Found-cons k v [] n h f = tt
  Found-cons k v ((j, w) ∷ m) n h f =
      (ground (arith, text_eq_iff j k, text_eq_iff k j), Found-cons k v m n (ground arith) f.1)

  Found-refl : (m : Map V) → NodupKeys m → Found m m
  unfolding lookup
  Found-refl [] u = tt
  Found-refl ((k, v) ∷ m) u = (rw (text_eq_refl k), Found-cons k v m m u.0 (Found-refl m u.1))

  all_found-Found :
      (eq : V → V → Bool) (m n : Map V)
      → Found m n
      → Each (λ v. eq v v ≡ true) m
      → all_found eq m n ≡ true
  unfolding all_found
  all_found-Found eq [] n f e = refl
  all_found-Found eq ((k, v) ∷ m) n f e = rw (f.0, e.0) (all_found-Found eq m n f.1 e.1)

  -- A map is found in itself.
  pub all_found_refl :
      (eq : V → V → Bool) (m : Map V)
      → NodupKeys m
      → Each (λ v. eq v v ≡ true) m
      → all_found eq m m ≡ true
  all_found_refl eq m u e = all_found-Found eq m m (Found-refl m u) e

  -- What the loop has found.
  pub all_found-lookup :
      (eq : V → V → Bool) (m n : Map V) (k : Text) (v : V)
      → all_found eq m n ≡ true
      → lookup k m ≡ some v
      → (w : V) × (lookup k n ≡ some w) × (eq v w ≡ true)
  unfolding all_found lookup
  all_found-lookup eq [] n k v h e = absurd (cc e)
  all_found-lookup eq ((j, x) ∷ m) n k v h e =
      let (here, rest) = &&→both (matches eq x (lookup j n)) (all_found eq m n) h in
      elim (Bool-cases (text_eq j k)) [
        | inr other ↦ all_found-lookup eq m n k v rest (rw other at e)
        | inl same ↦
            rw (← (text_eq_iff j k).0 same, ← some-injective x v (rw same at e))
              (matched eq x (lookup j n) here)
      ]
