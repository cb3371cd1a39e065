-- ===== src/Pgv/Validator/Conforming.antt =====
-- The graphs that `ValidateWithDeclared` passes.
use mathlib.Core.Path.{subst}
use mathlib.Core.Option.{some-injective}
use nexus_go_ccnf_ref.Base.{
  ℕ, ◌≤◌, Text, codes, has_prefix, Bool, true, false, Option, none, some, List, [], ◌∷◌, ◌≡◌, refl,
  sym, ap, ap₂, ◌∙◌, arith, ◌↔◌, length, All,
}
use nexus_go_ccnf_ref.Base.Sets.{member}
use nexus_go_ccnf_ref.Pgv.{Node, Edge, Graph}
use nexus_go_ccnf_ref.Pgv.Search.Walks.{Cycle, first_step}
use nexus_go_ccnf_ref.Pgv.Search.{adjacency}
use nexus_go_ccnf_ref.Pgv.Validator.{
  Violation, Config, ValidationResult, DeclaredDeps, is_projection, is_kernel, projection_nodes,
  paths, projection_edges, backflow_edges, check_depth, Depths, check_cross_import, check_cycles,
  check_backflow, check_p10a_forbidden, check_p10b_allowlist, check_p10b_declared, declared_map,
  declared_violations, result_of, both_searches, validate_with_declared,
}
use nexus_go_ccnf_ref.Pgv.Validator.Searches.{check_cycles_lem}
use nexus_go_ccnf_ref.Pgv.Validator.Depths.{no_next}
use nexus_go_ccnf_ref.Pgv.Validator.Passes.{
  append-Nil, cross_import-Nil, backflow-Nil, Apart, edges_within-Nil, edges_from_kernel-Nil,
  forbidden_among-Nil, IsAllowedDep, p10b_allowlist-Nil, IsDeclared, declared_loop-Nil,
}
use nexus_go_ccnf_ref.Pgv.Validator.Verdict.{SameSchema, proj_edges_of, validate-searches, not_true}

-- What the checks ask of a graph.
pub record Conforms (g : Graph) (cfg : Config) (declared : Option (List DeclaredDeps))
    : Type 0 where
  pub no_cross_import :
      All
        (Apart
          (λ x. member x (paths (projection_nodes g.nodes)))
          (paths (projection_nodes g.nodes)))
        g.edges
  pub no_backflow :
      All (Apart (λ x. is_kernel x cfg.kernel_roots) (paths (projection_nodes g.nodes))) g.edges
  pub allowed : All (λ n. All (IsAllowedDep cfg) n.direct_deps) (projection_nodes g.nodes)
  pub as_declared :
      (ds : List DeclaredDeps)
      → declared ≡ some ds
      → All (IsDeclared (declared_map [] ds)) (projection_nodes g.nodes)

abbrev pub Passes : ℕ → Graph → Config → Option (List DeclaredDeps) → Type 0
Passes fuel g cfg declared =
    (r : ValidationResult) × (validate_with_declared fuel g cfg declared ≡ some r)
    × (r.violations ≡ [])

declared_violations-Nil :
    (nodes : List Node) (declared : Option (List DeclaredDeps))
    → (declared_violations nodes declared ≡ []) ↔ (
        (ds : List DeclaredDeps) → declared ≡ some ds → All (IsDeclared (declared_map [] ds)) nodes)
unfolding check_p10b_declared
declared_violations-Nil nodes none = (λ h ds e. cc e, λ h. refl)
declared_violations-Nil nodes (some ds) = (
  λ h ds' e.
      subst (λ z. All (IsDeclared (declared_map [] z)) nodes) (some-injective ds ds' e)
        ((declared_loop-Nil (declared_map [] ds) nodes).0 h),
  λ h. (declared_loop-Nil (declared_map [] ds) nodes).1 (h ds refl),
)

both_searches-some {ℓ} :
    {R : Type ℓ} (c : Option (Bool × List Violation)) (d : Depths)
    (f : Bool × List Violation → ℕ × List Violation → R) (r : R)
    → both_searches c d f ≡ some r
    → (c' : Bool × List Violation) × (d' : ℕ × List Violation) × (f c' d' ≡ r)
both_searches-some none d f r e = absurd (cc e)
both_searches-some (some c) none f r e = absurd (cc e)
both_searches-some (some c) (some d) f r e = (c, d, some-injective (f c d) r e)

Conforms-violations :
    (g : Graph) (cfg : Config) (declared : Option (List DeclaredDeps)) (c : Bool × List Violation)
    (d : ℕ × List Violation)
    → (result_of g cfg declared c d).violations ≡ []
    → Conforms g cfg declared
unfolding projection_edges check_p10a_forbidden
Conforms-violations g cfg declared (f, p8) (d, p6) e =
    let nodes = projection_nodes g.nodes in
    let (p7, e1) = (append-Nil (check_cross_import (projection_edges g.edges nodes)) _).0 e in
    let (e8, e2) = (append-Nil p8 _).0 e1 in
    let (e6, e3) = (append-Nil p6 _).0 e2 in
    let (e9, e4) =
      (append-Nil (check_backflow (backflow_edges g.edges cfg.kernel_roots nodes)) _).0 e3 in
    let (e10, e5) = (append-Nil (check_p10a_forbidden g.edges cfg.kernel_roots nodes) _).0 e4 in
    let (e10b, e11) = (append-Nil (check_p10b_allowlist nodes cfg) _).0 e5 in
    record {
      no_cross_import =
          (edges_within-Nil (paths nodes) g.edges).0
            ((cross_import-Nil (projection_edges g.edges nodes)).0 p7);
      no_backflow = (forbidden_among-Nil cfg.kernel_roots (paths nodes) g.edges).0 e10;
      allowed = (p10b_allowlist-Nil nodes cfg).0 e10b;
      as_declared = (declared_violations-Nil nodes declared).0 e11;
    }

violations-Conforms :
    (g : Graph) (cfg : Config) (declared : Option (List DeclaredDeps)) (f : Bool) (d : ℕ)
    → Conforms g cfg declared
    → (result_of g cfg declared (f, []) (d, [])).violations ≡ []
unfolding projection_edges check_p10a_forbidden backflow_edges
violations-Conforms g cfg declared f d h =
    let nodes = projection_nodes g.nodes in
    (append-Nil (check_cross_import (projection_edges g.edges nodes)) _).1 (
      (cross_import-Nil (projection_edges g.edges nodes)).1
          ((edges_within-Nil (paths nodes) g.edges).1 h.no_cross_import),
      (append-Nil (check_backflow (backflow_edges g.edges cfg.kernel_roots nodes)) _).1 (
        (backflow-Nil (backflow_edges g.edges cfg.kernel_roots nodes)).1
            ((edges_from_kernel-Nil cfg.kernel_roots (paths nodes) g.edges).1 h.no_backflow),
        (append-Nil (check_p10a_forbidden g.edges cfg.kernel_roots nodes) _).1 (
          (forbidden_among-Nil cfg.kernel_roots (paths nodes) g.edges).1 h.no_backflow,
          (append-Nil (check_p10b_allowlist nodes cfg) _).1 (
            (p10b_allowlist-Nil nodes cfg).1 h.allowed,
            (declared_violations-Nil nodes declared).1 h.as_declared,
          ),
        ),
      ),
    )

no_edges :
    (g : Graph) (cfg : Config) (declared : Option (List DeclaredDeps))
    → Conforms g cfg declared
    → proj_edges_of g ≡ []
unfolding projection_edges
no_edges g cfg declared h =
    (edges_within-Nil (paths (projection_nodes g.nodes)) g.edges).1 h.no_cross_import

edgeless : (edges : List Edge) → edges ≡ [] → ¬ Cycle (adjacency edges)
edgeless [] e c = let (y, next, rest) = first_step c.walk in no_next c.node y next
edgeless (x ∷ edges) e c = cc e

check_depth-Nil :
    (fuel : ℕ) (edges : List Edge) (nodes : List Node)
    → edges ≡ []
    → check_depth fuel edges nodes ≡ some (0, [])
unfolding check_depth
check_depth-Nil fuel [] nodes e = refl
check_depth-Nil fuel (x ∷ edges) nodes e = cc e

-- A graph that conforms is accepted, with depth 0 and without a cycle.
accepted :
    (fuel : ℕ) (g : Graph) (cfg : Config) (declared : Option (List DeclaredDeps))
    → SameSchema cfg
    → length (projection_nodes g.nodes) ≤ fuel
    → Conforms g cfg declared
    → validate_with_declared fuel g cfg declared
      ≡ some (record { violations = []; depth = 0; has_cycles = false; hash = g.metadata.hash })
accepted fuel g cfg declared s enough h =
    let nodes = projection_nodes g.nodes in
    let c = check_cycles_lem g.edges nodes fuel enough in
    let quiet =
      not_true (c.found)
        (λ f. edgeless (proj_edges_of g) (no_edges g cfg declared h) (c.exact.0 f)) in
    validate-searches fuel g cfg declared s
    ∙ ap₂ (λ p q. both_searches p q (result_of g cfg declared))
        (c.ends ∙ ap₂ (λ f vs. some (f, vs)) quiet (c.reported.1 quiet))
        (check_depth-Nil fuel (proj_edges_of g) nodes (no_edges g cfg declared h))
    ∙ ap
        (λ vs.
          some (record { violations = vs; depth = 0; has_cycles = false; hash = g.metadata.hash }))
        (violations-Conforms g cfg declared false 0 h)

-- With the schema version accepted and fuel for every projection node, the validator ends without a
-- violation exactly if no projection and no kernel package imports a projection, each dependency of a
-- projection is allowed, and each Go projection has the dependencies that are declared for it, where
-- declarations are given.
pub validate-Passes :
    (fuel : ℕ) (g : Graph) (cfg : Config) (declared : Option (List DeclaredDeps))
    → SameSchema cfg
    → length (projection_nodes g.nodes) ≤ fuel
    → Passes fuel g cfg declared ↔ Conforms g cfg declared
validate-Passes fuel g cfg declared s enough = (
  λ (r, e, none_reported).
      let (c, d, same) =
        both_searches-some (check_cycles fuel (proj_edges_of g) (projection_nodes g.nodes))
          (check_depth fuel (proj_edges_of g) (projection_nodes g.nodes)) (result_of g cfg declared)
          r (sym (validate-searches fuel g cfg declared s) ∙ e) in
      Conforms-violations g cfg declared c d (ap (λ z. z.violations) same ∙ none_reported),
  λ h. (_, accepted fuel g cfg declared s enough h, refl),
)

projection-github :
    (path : Text) → has_prefix path (codes "github.com/") ≡ true → is_projection path ≡ false
unfolding is_projection has_prefix
projection-github [] h = refl
projection-github (c ∷ path) h = ground (arith, h)

projection_nodes-github :
    (nodes : List Node)
    → All (λ n. has_prefix n.import_path (codes "github.com/") ≡ true) nodes
    → projection_nodes nodes ≡ []
unfolding projection_nodes
projection_nodes-github [] h = refl
projection_nodes-github (n ∷ nodes) h =
    rw (projection-github n.import_path h.0) (projection_nodes-github nodes h.1)

Apart-Nil : (from : Text → Bool) (edges : List Edge) → All (Apart from []) edges
unfolding member
Apart-Nil from [] = tt
Apart-Nil from (e ∷ edges) = (ground arith, Apart-Nil from edges)

Conforms-Nil :
    (g : Graph) (cfg : Config) (declared : Option (List DeclaredDeps))
    → projection_nodes g.nodes ≡ []
    → Conforms g cfg declared
Conforms-Nil g cfg declared e = record {
  no_cross_import =
      subst (λ ns. All (Apart (λ x. member x (paths ns)) (paths ns)) g.edges) (sym e)
        (Apart-Nil (λ x. member x []) g.edges);
  no_backflow =
      subst (λ ns. All (Apart (λ x. is_kernel x cfg.kernel_roots) (paths ns)) g.edges) (sym e)
        (Apart-Nil (λ x. is_kernel x cfg.kernel_roots) g.edges);
  allowed = subst (λ ns. All (λ n. All (IsAllowedDep cfg) n.direct_deps) ns) (sym e) tt;
  as_declared = λ ds k. subst (λ ns. All (IsDeclared (declared_map [] ds)) ns) (sym e) tt;
}

-- A graph whose packages all have an import path of github.com passes, whatever its edges, the
-- configuration's roots and the declarations.
pub validate-github :
    (fuel : ℕ) (g : Graph) (cfg : Config) (declared : Option (List DeclaredDeps))
    → SameSchema cfg
    → All (λ n. has_prefix n.import_path (codes "github.com/") ≡ true) g.nodes
    → validate_with_declared fuel g cfg declared
      ≡ some (record { violations = []; depth = 0; has_cycles = false; hash = g.metadata.hash })
validate-github fuel g cfg declared s h =
    let e = projection_nodes-github g.nodes h in
    accepted fuel g cfg declared s (subst (λ ns. length ns ≤ fuel) (sym e) (omega arith))
      (Conforms-Nil g cfg declared e)
