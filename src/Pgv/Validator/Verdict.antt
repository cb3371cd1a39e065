-- ===== src/Pgv/Validator/Verdict.antt =====
-- `ValidateWithDeclared` as a whole: when it ends, and what it measures.
use nexus_go_ccnf_ref.Base.{
  sym, ◌++◌, ℕ, ◌+◌, ◌≤◌, Text, text_eq_iff, Bool, true, false, Option, none, some, List, [], ◌≡◌,
  refl, ap, ap₂, ◌∙◌, arith, ◌⊎◌, inl, inr, length, ◌↔◌,
}
use nexus_go_ccnf_ref.Pgv.{Edge, Graph, ir_schema_version}
use nexus_go_ccnf_ref.Pgv.Search.{adjacency}
use nexus_go_ccnf_ref.Pgv.Search.Cycles.{IsOrdered, Decides, first_cycle_lem}
use nexus_go_ccnf_ref.Pgv.Validator.{
  check_cross_import, check_backflow, backflow_edges, check_p10a_forbidden, check_p10b_allowlist,
  declared_violations, Violation, Config, ValidationResult, DeclaredDeps, projection_nodes, paths,
  projection_edges, check_depth, check_cycles, result_of, both_searches, validate_with_declared,
}
use nexus_go_ccnf_ref.Base.Sets.{member}
use nexus_go_ccnf_ref.Pgv.Search.Walks.{Walk}
use nexus_go_ccnf_ref.Pgv.Validator.Reported.{
  depth_at, depth_at-append, depth_at-check_cross_import, depth_at-check_backflow,
  depth_at-check_p10a_forbidden, depth_at-check_p10b_allowlist, depth_at-declared_violations,
}
use nexus_go_ccnf_ref.Pgv.Validator.Searches.{closed, ProjectionCycle, check_cycles_lem}
use nexus_go_ccnf_ref.Pgv.Validator.Depths.{
  DepthOver, IsDeep, check_depth-ProjectionCycle, check_depth-IsOrdered,
}

-- The configuration asks for no schema version or for this one.
abbrev pub SameSchema : Config → Type 0
SameSchema cfg = (cfg.schema_version ≡ []) ⊎ (cfg.schema_version ≡ ir_schema_version)

abbrev pub proj_edges_of : Graph → List Edge
proj_edges_of g = projection_edges g.edges (projection_nodes g.nodes)

-- A cycle of edges among the projections of a graph.
abbrev pub HasCycle : Graph → Type 0
HasCycle g = ProjectionCycle g.edges (projection_nodes g.nodes)

pub validate-searches :
    (fuel : ℕ) (g : Graph) (cfg : Config) (declared : Option (List DeclaredDeps))
    → SameSchema cfg
    → validate_with_declared fuel g cfg declared
      ≡ both_searches
          (check_cycles fuel (proj_edges_of g) (projection_nodes g.nodes))
          (check_depth fuel (proj_edges_of g) (projection_nodes g.nodes))
          (result_of g cfg declared)
unfolding validate_with_declared
validate-searches fuel g cfg declared (inl e) = rw ((text_eq_iff cfg.schema_version []).1 e) refl
validate-searches fuel g cfg declared (inr e) =
    rw ((text_eq_iff cfg.schema_version ir_schema_version).1 e) (ground arith)

both_searches-none {ℓ} :
    {R : Type ℓ}
    → (c : Option (Bool × List Violation)) (f : Bool × List Violation → ℕ × List Violation → R)
    → both_searches c none f ≡ none
both_searches-none none f = refl
both_searches-none (some c) f = refl

-- Where imports among the projections form a cycle, and the schema version is accepted, the validator
-- does not end, whatever the fuel.
pub validate-HasCycle :
    (fuel : ℕ) (g : Graph) (cfg : Config) (declared : Option (List DeclaredDeps))
    → SameSchema cfg
    → HasCycle g
    → validate_with_declared fuel g cfg declared ≡ none
validate-HasCycle fuel g cfg declared s c =
    validate-searches fuel g cfg declared s
    ∙ ap
        (λ d.
          both_searches (check_cycles fuel (proj_edges_of g) (projection_nodes g.nodes)) d
            (result_of g cfg declared))
        (check_depth-ProjectionCycle g.edges (projection_nodes g.nodes) fuel c)
    ∙ both_searches-none (check_cycles fuel (proj_edges_of g) (projection_nodes g.nodes))
        (result_of g cfg declared)

acyclic_order :
    (g : Graph)
    → ¬ HasCycle g
    → IsOrdered (adjacency (proj_edges_of g)) (paths (projection_nodes g.nodes))
acyclic_order g acyclic = decide _ (
    first_cycle_lem (adjacency (proj_edges_of g)) (paths (projection_nodes g.nodes))
      (length (paths (projection_nodes g.nodes))) (closed g.edges (projection_nodes g.nodes))
      (omega arith))
  where
    decide :
        (o : Option (Option Text))
        → Decides (adjacency (proj_edges_of g)) (paths (projection_nodes g.nodes)) o
        → IsOrdered (adjacency (proj_edges_of g)) (paths (projection_nodes g.nodes))
    decide none d = absurd d
    decide (some (some node)) d = absurd (acyclic d)
    decide (some none) d = d

pub not_true : (b : Bool) → ¬ (b ≡ true) → b ≡ false
not_true true h = absurd (h refl)
not_true false h = refl

-- What the result says of the searches.
pub record Measures (g : Graph) (r : ValidationResult) : Type 0 where
  pub acyclic : r.has_cycles ≡ false
  pub longest :
      (x y : Text) (n : ℕ)
      → member x (paths (projection_nodes g.nodes)) ≡ true
      → Walk (adjacency (proj_edges_of g)) x n y
      → n ≤ r.depth
  pub attained :
      (r.depth ≡ 0)
      ⊎ ((x : Text) × (y : Text) × (member x (paths (projection_nodes g.nodes)) ≡ true)
          × Walk (adjacency (proj_edges_of g)) x r.depth y)
  pub reported :
      (x : Text)
      → (depth_at x r.violations ≡ true)
        ↔ IsDeep (adjacency (proj_edges_of g)) (projection_nodes g.nodes) x

-- Of all violations that are listed, only those of `checkDepth` have the code of the depth.
depth_at-result_of :
    (x : Text) (g : Graph) (cfg : Config) (declared : Option (List DeclaredDeps)) (d : ℕ)
    (vs : List Violation)
    → depth_at x (result_of g cfg declared (false, []) (d, vs)).violations ≡ depth_at x vs
depth_at-result_of x g cfg declared d vs =
    let nodes = projection_nodes g.nodes in
    let back = check_backflow (backflow_edges g.edges cfg.kernel_roots nodes) in
    let forbidden = check_p10a_forbidden g.edges cfg.kernel_roots nodes in
    let allow = check_p10b_allowlist nodes cfg in
    let decl = declared_violations nodes declared in
    ground (
      arith,
      depth_at-append x (check_cross_import (projection_edges g.edges nodes))
          (vs ++ (back ++ (forbidden ++ (allow ++ decl)))),
      depth_at-append x vs (back ++ (forbidden ++ (allow ++ decl))),
      depth_at-append x back (forbidden ++ (allow ++ decl)),
      depth_at-append x forbidden (allow ++ decl),
      depth_at-append x allow decl,
      depth_at-check_cross_import x (projection_edges g.edges nodes),
      depth_at-check_backflow x (backflow_edges g.edges cfg.kernel_roots nodes),
      depth_at-check_p10a_forbidden x g.edges cfg.kernel_roots nodes,
      depth_at-check_p10b_allowlist x nodes cfg,
      depth_at-declared_violations x nodes declared,
    )

Measures-result_of :
    (g : Graph) (cfg : Config) (declared : Option (List DeclaredDeps)) (found : Bool)
    (cs : List Violation) (d : ℕ) (vs : List Violation)
    → found ≡ false
    → cs ≡ []
    → DepthOver (adjacency (proj_edges_of g)) (projection_nodes g.nodes) 0 d [] vs
    → Measures g (result_of g cfg declared (found, cs) (d, vs))
unfolding depth_at
Measures-result_of g cfg declared found cs d vs none_found quiet over = record {
  acyclic = none_found;
  longest = over.longest;
  attained = over.attained;
  reported = λ x.
      let same : depth_at x (result_of g cfg declared (found, cs) (d, vs)).violations
          ≡ depth_at x vs =
        ap (λ c. depth_at x (result_of g cfg declared (found, c) (d, vs)).violations) quiet
        ∙ depth_at-result_of x g cfg declared d vs in
      (
        λ h. elim ((over.reported x).0 (sym same ∙ h)) [ inl e ↦ absurd (cc e) | inr deep ↦ deep ],
        λ deep. same ∙ (over.reported x).1 (inr deep),
      );
}

-- Where imports among the projections form no cycle, and the schema version is accepted, there is a
-- fuel from which on the validator ends. Its result has no cycle, its depth bounds every walk from a
-- projection and is 0 or the length of one, and among all the violations listed there is one with the
-- code of the depth and a node x exactly if a walk of more than one step starts at the projection x.
pub validate-acyclic :
    (g : Graph) (cfg : Config) (declared : Option (List DeclaredDeps))
    → SameSchema cfg
    → ¬ HasCycle g
    → (bound : ℕ) × ((fuel : ℕ)
        → bound ≤ fuel
        → (r : ValidationResult) × (validate_with_declared fuel g cfg declared ≡ some r)
          × Measures g r)
validate-acyclic g cfg declared s acyclic =
    let o = acyclic_order g acyclic in
    let size = length (projection_nodes g.nodes) in
    (
      size + length o.order,
      λ fuel enough.
          let c =
            check_cycles_lem g.edges (projection_nodes g.nodes) fuel (omega (arith, enough)) in
          let (d, vs, found, over) =
            check_depth-IsOrdered g.edges (projection_nodes g.nodes) fuel o
              (omega (arith, enough)) in
          let quiet = not_true (c.found) (λ f. acyclic (c.exact.0 f)) in
          (
            result_of g cfg declared (c.found, c.violations) (d, vs),
            validate-searches fuel g cfg declared s
                ∙ ap₂ (λ p q. both_searches p q (result_of g cfg declared)) c.ends found,
            Measures-result_of g cfg declared c.found c.violations d vs quiet (c.reported.1 quiet)
                over,
          ),
    )
