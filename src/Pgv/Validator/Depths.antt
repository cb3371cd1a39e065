-- ===== src/Pgv/Validator/Depths.antt =====
-- `checkDepth` on the projection graph: the depth it answers, and where it never ends.
use mathlib.Core.Path.{subst}
use nexus_go_ccnf_ref.Base.{
  ℕ, ◌≤◌, ◌<◌, Text, text_eq, text_eq_iff, text_eq_refl, true, Bool-cases, none, some, List, [],
  ◌∷◌, ◌++◌, ltb, ◌≡◌, refl, sym, ap, arith, ◌⊎◌, inl, inr, ◌↔◌, length,
}
use nexus_go_ccnf_ref.Base.Map.{Map, lookup}
use nexus_go_ccnf_ref.Base.Sets.{member}
use nexus_go_ccnf_ref.Pgv.{Node, Edge}
use nexus_go_ccnf_ref.Pgv.Search.{
  adjacency, add_edges, bfs_max_depth, larger, Measured, neighbors, add_edges,
}
use nexus_go_ccnf_ref.Pgv.Search.Walks.{IsNext, Walk, here, then_to, Cycle, first_step}
use nexus_go_ccnf_ref.Pgv.Search.Cycles.{IsOrdered, last_node}
use nexus_go_ccnf_ref.Pgv.Search.Depth.{IsDepth, bfs_max_depth-IsDepth, bfs_max_depth-Cycle}
use nexus_go_ccnf_ref.Pgv.Search.Depth.Ends.{Ends, Ends-bfs_max_depth}
use nexus_go_ccnf_ref.Pgv.Validator.{
  Violation, paths, projection_edges, depth_violations, Depths, and_depth, depths_of, check_depth,
}
use nexus_go_ccnf_ref.Pgv.Validator.Reported.{depth_at, depth_at-append, depth_at-depth_violations}
use nexus_go_ccnf_ref.Pgv.Validator.Searches.{closed, ProjectionCycle}

module _ (adj : Map (List Text)) where
  -- A walk of more than one step from one of the nodes.
  abbrev pub IsDeep : List Node → Text → Type 0
  IsDeep nodes x = (member x (paths nodes) ≡ true) × (n : ℕ) × (y : Text) × (1 < n) × Walk adj x n y

  -- The depth over some nodes and over what was there before, and the violations of it.
  pub record DepthOver (nodes : List Node) (before d : ℕ) (vs violations : List Violation)
      : Type 0 where
    pub above : before ≤ d
    pub longest : (x y : Text) (n : ℕ) → member x (paths nodes) ≡ true → Walk adj x n y → n ≤ d
    pub attained :
        (d ≡ before) ⊎ ((x : Text) × (y : Text) × (member x (paths nodes) ≡ true) × Walk adj x d y)
    pub reported :
        (x : Text) → (depth_at x violations ≡ true) ↔ ((depth_at x vs ≡ true) ⊎ IsDeep nodes x)

  -- The violation of one node is that of the walks from it.
  reported-cons :
      (m : Node) (nodes : List Node) (d0 : ℕ) (vs violations : List Violation) (x : Text)
      → IsDepth adj m.import_path d0
      → ((depth_at x violations ≡ true)
          ↔ ((depth_at x (vs ++ depth_violations m.import_path d0) ≡ true) ⊎ IsDeep nodes x))
      → (depth_at x violations ≡ true) ↔ ((depth_at x vs ≡ true) ⊎ IsDeep (m ∷ nodes) x)
  unfolding member
  reported-cons m nodes d0 vs violations x h k =
      let e = depth_at-append x vs (depth_violations m.import_path d0) in
      let own = depth_at-depth_violations x m.import_path d0 in
      (
        λ r. elim (k.0 r) [
          | inr (listed, n, y, deep, w) ↦ inr (ground (arith, listed), n, y, deep, w)
          | inl seen ↦ elim (Bool-cases (depth_at x vs)) [
            | inl earlier ↦ inl earlier
            | inr first ↦
                let at : text_eq m.import_path x ≡ true = ground (arith, seen, e, own, first) in
                inr (
                  rw at refl,
                  d0,
                  h.last,
                  ground (arith, seen, e, own, first),
                  subst (λ z. Walk adj z d0 h.last) ((text_eq_iff m.import_path x).0 at) h.walk,
                )
          ]
        ],
        λ r. elim r [
          | inl earlier ↦ k.1 (inl (ground (arith, e, earlier)))
          | inr (listed, n, y, deep, w) ↦ elim (Bool-cases (text_eq m.import_path x)) [
            | inr other ↦ k.1 (inr (rw other at listed, n, y, deep, w))
            | inl same ↦
                let le : n ≤ d0 =
                  h.longest n y
                    (subst (λ z. Walk adj z n y) (sym ((text_eq_iff m.import_path x).0 same)) w) in
                k.1 (inl (ground (arith, e, own, same, le, deep)))
          ]
        ],
      )

  DepthOver-cons :
      (m : Node) (nodes : List Node) (before d0 d : ℕ) (vs violations : List Violation)
      → IsDepth adj m.import_path d0
      → DepthOver nodes (larger before d0) d (vs ++ depth_violations m.import_path d0) violations
      → DepthOver (m ∷ nodes) before d vs violations
  unfolding member
  DepthOver-cons m nodes before d0 d vs violations h k = record {
    above = ground (arith, k.above);
    longest = λ x y n e w. elim (Bool-cases (text_eq m.import_path x)) [
      | inl same ↦ ground (
        arith,
        k.above,
        h.longest n y (subst (λ z. Walk adj z n y) (sym ((text_eq_iff m.import_path x).0 same)) w),
      )
      | inr other ↦ k.longest x y n (rw other at e) w
    ];
    attained = elim (k.attained) [
      | inr (x, y, e, w) ↦ inr (x, y, ground (arith, e), w)
      | inl same ↦ elim (Bool-cases (ltb before d0)) [
        | inr less ↦ inl (rw less at same)
        | inl more ↦ inr (
          m.import_path,
          h.last,
          rw (text_eq_refl m.import_path) refl,
          subst (λ n. Walk adj m.import_path n h.last) (sym (rw more at same)) h.walk,
        )
      ]
    ];
    reported = λ x. reported-cons m nodes d0 vs violations x h (k.reported x);
  }

  DepthOver-depths_of :
      (fuel : ℕ) (nodes : List Node) (before : ℕ) (vs : List Violation)
      → ((x : Text) → member x (paths nodes) ≡ true → Ends (bfs_max_depth fuel adj x []))
      → (d : ℕ) × (violations : List Violation) × (depths_of fuel adj nodes before vs
          ≡ some (d, violations))
        × DepthOver nodes before d vs violations
  unfolding depths_of member
  DepthOver-depths_of fuel [] before vs ends = (
    before,
    vs,
    refl,
    record {
      above = omega arith;
      longest = λ x y n e w. cc e;
      attained = inl refl;
      reported = λ x. (λ r. inl r, λ r. elim r [ inl h ↦ h | inr h ↦ absurd (cc h.0) ]);
    },
  )
  DepthOver-depths_of fuel (m ∷ nodes) before vs ends =
      let (d0, memo, e) = ends m.import_path (rw (text_eq_refl m.import_path) refl) in
      let (d, violations, found, over) =
        DepthOver-depths_of fuel nodes (larger before d0) (vs ++ depth_violations m.import_path d0)
          (λ x h. ends x (ground arith)) in
      (
        d,
        violations,
        rw e found,
        DepthOver-cons m nodes before d0 d vs violations
            (bfs_max_depth-IsDepth adj fuel m.import_path d0 memo e) over,
      )

  and_depth-none :
      (path : Text) (m : Measured) (rest : ℕ → List Violation → Depths)
      → ((d : ℕ) (more : List Violation) → rest d more ≡ none)
      → and_depth path m rest ≡ none
  and_depth-none path none rest h = refl
  and_depth-none path (some (d, memo)) rest h = h d (depth_violations path d)

  -- One node from which the search does not end is enough.
  depths_of-none :
      (fuel : ℕ) (x : Text) (nodes : List Node) (before : ℕ) (vs : List Violation)
      → bfs_max_depth fuel adj x [] ≡ none
      → member x (paths nodes) ≡ true
      → depths_of fuel adj nodes before vs ≡ none
  unfolding depths_of member
  depths_of-none fuel x [] before vs e h = cc h
  depths_of-none fuel x (m ∷ nodes) before vs e h = elim (Bool-cases (text_eq m.import_path x)) [
    | inl same ↦
        ap
          (λ o.
            and_depth m.import_path o
              (λ d more. depths_of fuel adj nodes (larger before d) (vs ++ more)))
          (subst (λ z. bfs_max_depth fuel adj z [] ≡ none)
            (sym ((text_eq_iff m.import_path x).0 same)) e)
    | inr other ↦
        and_depth-none m.import_path (bfs_max_depth fuel adj m.import_path []) _
          (λ d more. depths_of-none fuel x nodes (larger before d) (vs ++ more) e (rw other at h))
  ]

-- Without edges no walk leaves its node.
pub no_next : (x y : Text) → IsNext (adjacency []) x y → ⊥
unfolding adjacency add_edges neighbors member lookup
no_next x y h = cc h

flat : {x y : Text} {n : ℕ} → Walk (adjacency []) x n y → n ≤ 0
flat here = omega arith
flat (then_to w e) = absurd (no_next _ _ e)

short : (nodes : List Node) (x : Text) → ¬ IsDeep (adjacency []) nodes x
short nodes x (listed, n, y, deep, w) = let le = flat w in omega (arith, deep, le)

module _ (edges : List Edge) (nodes : List Node) where
  -- Around a cycle the depths do not end, whatever the fuel.
  pub check_depth-ProjectionCycle :
      (fuel : ℕ)
      → ProjectionCycle edges nodes
      → check_depth fuel (projection_edges edges nodes) nodes ≡ none
  unfolding check_depth
  check_depth-ProjectionCycle fuel c =
      split (projection_edges edges nodes) c
        (last_node (adjacency (projection_edges edges nodes)) (paths nodes) (closed edges nodes) c)
    where
      split :
          (es : List Edge) (c' : Cycle (adjacency es))
          → member c'.node (paths nodes) ≡ true
          → check_depth fuel es nodes ≡ none
      split [] c' m = let (y, e, rest) = first_step c'.walk in absurd (no_next _ _ e)
      split (e ∷ es) c' m =
          depths_of-none (adjacency (e ∷ es)) fuel c'.node nodes 0 []
            (bfs_max_depth-Cycle (adjacency (e ∷ es)) fuel c') m

  -- What `checkDepth` answers without one.
  abbrev pub DepthAnswer : ℕ → Type 0
  DepthAnswer fuel =
      (d : ℕ) × (violations : List Violation) × (check_depth fuel (projection_edges edges nodes)
          nodes
        ≡ some (d, violations))
      × DepthOver (adjacency (projection_edges edges nodes)) nodes 0 d [] violations

  pub check_depth-IsOrdered :
      (fuel : ℕ) (o : IsOrdered (adjacency (projection_edges edges nodes)) (paths nodes))
      → length o.order ≤ fuel
      → DepthAnswer fuel
  unfolding check_depth
  check_depth-IsOrdered fuel o enough = split (projection_edges edges nodes) o enough
    where
      split :
          (es : List Edge) (o' : IsOrdered (adjacency es) (paths nodes))
          → length o'.order ≤ fuel
          → (d : ℕ) × (violations : List Violation) × (check_depth fuel es nodes
              ≡ some (d, violations))
            × DepthOver (adjacency es) nodes 0 d [] violations
      split [] o' le = (
        0,
        [],
        refl,
        record {
          above = omega arith;
          longest = λ x y n m w. flat w;
          attained = inl refl;
          reported =
              λ x. (λ r. inl r, λ r. elim r [ inl h ↦ h | inr h ↦ absurd (short nodes x h) ]);
        },
      )
      split (e ∷ es) o' le = DepthOver-depths_of (adjacency (e ∷ es)) fuel nodes 0 [] (λ x m.
          Ends-bfs_max_depth (adjacency (e ∷ es)) o'.order fuel x [] o'.topological (o'.covers x m)
            le)
