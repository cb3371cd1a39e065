-- ===== src/Pgv/Search/Depth.antt =====
-- `bfsMaxDepth` returns the length of the longest walk, and never returns where a cycle is in reach.
pub mod Ends
use nexus_go_ccnf_ref.Base.{
  ℕ, zero, suc, ◌+◌, ◌≤◌, ◌<◌, Text, text_eq, text_eq_iff, text_eq_refl, Bool, true, false, ltb,
  Bool-cases, Option, none, some, List, [], ◌∷◌, if◌then◌else◌, ◌≡◌, ◌≢◌, refl, sym, ap, ◌∙◌, arith,
  inl, inr, ◌||◌, ◌⊎◌,
}
use mathlib.Core.Path.{subst}
use mathlib.Core.Option.{some-injective}
use nexus_go_ccnf_ref.Base.Map.{Map, lookup, set, lookup-set}
use nexus_go_ccnf_ref.Base.Sets.{member}
use nexus_go_ccnf_ref.Pgv.Search.{
  neighbors, Measured, with_depth, larger, deepest, memoized, bfs_max_depth,
}
use nexus_go_ccnf_ref.Pgv.Search.Walks.{IsNext, Walk, here, then_to, Cycle, Walk-append, first_step}

module _ (adj : Map (List Text)) where
  -- The longest walk from a node has `d` steps.
  pub record IsDepth (x : Text) (d : ℕ) : Type 0 where
    pub last : Text
    pub walk : Walk adj x d last
    pub longest : (n : ℕ) (y : Text) → Walk adj x n y → n ≤ d

  -- What the memo holds are depths.
  abbrev IsMemo : Map ℕ → Type 0
  IsMemo memo = (k : Text) (d : ℕ) → lookup k memo ≡ some d → IsDepth k d

  abbrev Returns : (ℕ → Map ℕ → Type 0) → Measured → Type 0
  Returns P none = Unit
  Returns P (some (d, memo)) = P d memo

  Returns-with_depth :
      (P Q : ℕ → Map ℕ → Type 0) (m : Measured) (rest : ℕ → Map ℕ → Measured)
      → Returns P m
      → ((d : ℕ) (memo : Map ℕ) → P d memo → Returns Q (rest d memo))
      → Returns Q (with_depth m rest)
  Returns-with_depth P Q none rest h f = tt
  Returns-with_depth P Q (some (d, memo)) rest h f = f d memo h

  Returns-map :
      (P Q : ℕ → Map ℕ → Type 0) (m : Measured)
      → ((d : ℕ) (memo : Map ℕ) → P d memo → Q d memo)
      → Returns P m
      → Returns Q m
  Returns-map P Q none f h = tt
  Returns-map P Q (some (d, memo)) f h = f d memo h

  -- A depth over some of the successors: one step and the longest walk from one of them, or none.
  record IsDepthOver (x : Text) (nodes : List Text) (before d : ℕ) : Type 0 where
    attained : (d ≡ before) ⊎ ((last : Text) × Walk adj x d last)
    above : before ≤ d
    longest : (y : Text) → member y nodes ≡ true → (n : ℕ) (z : Text) → Walk adj y n z → suc n ≤ d

  -- One step in front of a walk.
  ahead : {x y z : Text} {n : ℕ} → IsNext adj x y → Walk adj y n z → Walk adj x (suc n) z
  ahead e here = then_to here e
  ahead e (then_to w d) = then_to (ahead e w) d

  IsDepthOver-cons :
      (x y : Text) (nodes : List Text) (before d0 d : ℕ)
      → IsNext adj x y
      → IsDepth y d0
      → IsDepthOver x nodes (larger before (suc d0)) d
      → IsDepthOver x (y ∷ nodes) before d
  unfolding member
  IsDepthOver-cons x y nodes before d0 d e h k = record {
    attained = elim (Bool-cases (ltb before (suc d0))) [
      | inl less ↦ elim (k.attained) [
        | inl same ↦
            inr (h.last, subst (λ n. Walk adj x n h.last) (sym (rw less at same)) (ahead e h.walk))
        | inr found ↦ inr found
      ]
      | inr more ↦ elim (k.attained) [ inl same ↦ inl (rw more at same) | inr found ↦ inr found ]
    ];
    above = ground (arith, k.above);
    longest = λ z m n last w. elim (Bool-cases (text_eq y z)) [
      | inl same ↦ ground (
        arith,
        k.above,
        h.longest n last (subst (λ t. Walk adj t n last) (sym ((text_eq_iff y z).0 same)) w),
      )
      | inr other ↦ k.longest z (rw other at m) n last w
    ];
  }

  head : (y : Text) (nodes : List Text) → member y (y ∷ nodes) ≡ true
  unfolding member
  head y nodes = rw (text_eq_refl y) refl

  tail : (y x : Text) (nodes : List Text) → member y nodes ≡ true → member y (x ∷ nodes) ≡ true
  unfolding member
  tail y x nodes h = ground arith

  module _ (depth : Text → Map ℕ → Measured)
      (depths : (next : Text) (memo : Map ℕ)
        → IsMemo memo
        → Returns (λ d memo'. IsDepth next d × IsMemo memo') (depth next memo)) where
    Returns-deepest :
        (x : Text) (nodes : List Text) (before : ℕ) (memo : Map ℕ)
        → ((y : Text) → member y nodes ≡ true → IsNext adj x y)
        → IsMemo memo
        → Returns
            (λ d memo'. IsDepthOver x nodes before d × IsMemo memo')
            (deepest depth nodes before memo)
    unfolding deepest member
    Returns-deepest x [] before memo e h =
        (record { attained = inl refl; above = omega arith; longest = λ y m n z w. cc m }, h)
    Returns-deepest x (next ∷ nodes) before memo e h =
        Returns-with_depth (λ d memo'. IsDepth next d × IsMemo memo')
          (λ d memo'. IsDepthOver x (next ∷ nodes) before d × IsMemo memo') (depth next memo)
          (λ d memo'. deepest depth nodes (larger before (suc d)) memo') (depths next memo h)
          (λ d memo' found.
            Returns-map (λ n memo''. IsDepthOver x nodes (larger before (suc d)) n × IsMemo memo'')
              (λ n memo''. IsDepthOver x (next ∷ nodes) before n × IsMemo memo'')
              (deepest depth nodes (larger before (suc d)) memo')
              (λ n memo'' over. (
                IsDepthOver-cons x next nodes before d n (e next (head next nodes)) found.0 over.0,
                over.1,
              ))
              (Returns-deepest x nodes (larger before (suc d)) memo'
                (λ y m. e y (tail y next nodes m)) found.1))

  IsDepth-all : (x : Text) (d : ℕ) → IsDepthOver x (neighbors adj x) 0 d → IsDepth x d
  IsDepth-all x d h = elim (h.attained) [
    | inl none_found ↦ record {
      last = x;
      walk = subst (λ n. Walk adj x n x) (sym none_found) here;
      longest = λ n y w. bounded w;
    }
    | inr (last, w) ↦ record { last = last; walk = w; longest = λ n y v. bounded v }
  ]
    where
      bounded : {y : Text} {n : ℕ} → Walk adj x n y → n ≤ d
      bounded here = omega arith
      bounded (then_to w e) =
          let (y, first, rest) = first_step (then_to w e) in h.longest y first _ _ rest

  IsMemo-set : (x : Text) (d : ℕ) (memo : Map ℕ) → IsDepth x d → IsMemo memo → IsMemo (set x d memo)
  IsMemo-set x d memo h m k n e = elim (Bool-cases (text_eq x k)) [
    | inl same ↦
        subst (λ z. IsDepth z n) ((text_eq_iff x k).0 same)
          (subst (IsDepth x) (some-injective d n (rw (lookup-set k x d memo, same) at e)) h)
    | inr other ↦ m k n (rw (lookup-set k x d memo, other) at e)
  ]

  Returns-memoized :
      (x : Text) (memo : Map ℕ) (o : Option ℕ) (m : Measured)
      → lookup x memo ≡ o
      → IsMemo memo
      → Returns (λ d memo'. IsDepth x d × IsMemo memo') m
      → Returns (λ d memo'. IsDepth x d × IsMemo memo') (memoized o memo m)
  Returns-memoized x memo none m e h r = r
  Returns-memoized x memo (some d) m e h r = (h x d e, h)

  -- A call that returns, returns the length of the longest walk.
  Returns-bfs_max_depth :
      (fuel : ℕ) (x : Text) (memo : Map ℕ)
      → IsMemo memo
      → Returns (λ d memo'. IsDepth x d × IsMemo memo') (bfs_max_depth fuel adj x memo)
  unfolding bfs_max_depth
  Returns-bfs_max_depth zero x memo h = tt
  Returns-bfs_max_depth (suc fuel) x memo h = Returns-memoized x memo (lookup x memo) _ refl h (
      Returns-with_depth (λ d memo'. IsDepthOver x (neighbors adj x) 0 d × IsMemo memo')
        (λ d memo'. IsDepth x d × IsMemo memo')
        (deepest (bfs_max_depth fuel adj) (neighbors adj x) 0 memo)
        (λ d memo'. some (d, set x d memo'))
        (Returns-deepest (bfs_max_depth fuel adj)
          (λ next memo' m. Returns-bfs_max_depth fuel next memo' m) x (neighbors adj x) 0 memo
          (λ y m. m) h)
        (λ d memo' found.
          let deep = IsDepth-all x d found.0 in (deep, IsMemo-set x d memo' deep found.1)))

  IsDepth-eq_some :
      (m : Measured) (x : Text) (d : ℕ) (memo : Map ℕ)
      → Returns (λ d' memo'. IsDepth x d' × IsMemo memo') m
      → m ≡ some (d, memo)
      → IsDepth x d
  IsDepth-eq_some m x d memo r e = (subst (Returns (λ d' memo'. IsDepth x d' × IsMemo memo')) e r).0

  pub bfs_max_depth-IsDepth :
      (fuel : ℕ) (x : Text) (d : ℕ) (memo : Map ℕ)
      → bfs_max_depth fuel adj x [] ≡ some (d, memo)
      → IsDepth x d
  bfs_max_depth-IsDepth fuel x d memo e =
      IsDepth-eq_some (bfs_max_depth fuel adj x []) x d memo
        (Returns-bfs_max_depth fuel x [] (λ k n h. unfold lookup in cc h)) e

  -- Around a cycle there are walks of every length, so no depth bounds them.
  around : (c : Cycle adj) (n : ℕ) → (l : ℕ) × (n ≤ l) × Walk adj c.node l c.node
  around c zero = (zero, omega arith, here)
  around c (suc n) =
      let (l, more, w) = around c n in
      let (k, size, v) = Walk-append w c.walk in (k, omega (arith, more, size), v)

  -- A node of a cycle has no depth, so the search from it does not end.
  pub bfs_max_depth-Cycle : (fuel : ℕ) (c : Cycle adj) → bfs_max_depth fuel adj c.node [] ≡ none
  bfs_max_depth-Cycle fuel c = go (bfs_max_depth fuel adj c.node []) refl
    where
      go : (m : Measured) → bfs_max_depth fuel adj c.node [] ≡ m → m ≡ none
      go none e = refl
      go (some (d, memo)) e =
          let deep = bfs_max_depth-IsDepth fuel c.node d memo e in
          let (l, more, w) = around c (suc d) in
          absurd (omega (arith, deep.longest l c.node w, more))
