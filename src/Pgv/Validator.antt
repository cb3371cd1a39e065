-- ===== src/Pgv/Validator.antt =====
-- tools/pgv/validator.go: the checks of a graph. The two searches run on fuel, and `none` is the
-- fuel's end.
pub mod Searches
pub mod Reported
pub mod Depths
pub mod Passes
pub mod Verdict
pub mod Conforming
use nexus_go_ccnf_ref.Base.{
  ℕ, zero, suc, ◌+◌, Text, codes, text_eq, has_prefix, Bool, true, false, not, ◌&&◌, ◌||◌, Option,
  none, some, List, [], ◌∷◌, ◌++◌, if◌then◌else◌, ltb, map,
}
use nexus_go_ccnf_ref.Base.Map.{Map, lookup, set}
use nexus_go_ccnf_ref.Base.Sets.{member}
use nexus_go_ccnf_ref.Ccnf.Numerals.{decimal}
use nexus_go_ccnf_ref.Pgv.{Node, Edge, Graph, ir_schema_version}
use nexus_go_ccnf_ref.Pgv.Search.{adjacency, first_cycle, bfs_max_depth, larger, Measured}

pub data ViolationCode : Type 0 where
  depth_exceeded cross_import cycle backflow forbidden_import undeclared_dep declared_vs_actual :
      ViolationCode
  schema_mismatch : ViolationCode

pub data Severity : Type 0 where
  severity_error : Severity

pub record Violation : Type 0 where
  pub code : ViolationCode
  pub node : Text
  pub edge : Text
  pub message : Text
  pub severity : Severity

pub record Config : Type 0 where
  pub kernel_roots : List Text
  pub allowlist : List Text
  pub schema_version : Text

pub record ValidationResult : Type 0 where
  pub violations : List Violation
  pub depth : ℕ
  pub has_cycles : Bool
  pub hash : Text

pub record DeclaredDeps : Type 0 where
  pub node : Text
  pub expected : List Text

unfoldable pub is_projection : Text → Bool
is_projection path =
    has_prefix path (codes "projection/") || has_prefix path (codes "rust/projection/")

-- the loops of `isKernel` and of `isAllowed`
unfoldable pub has_any_prefix : Text → List Text → Bool
has_any_prefix path [] = false
has_any_prefix path (r ∷ roots) = has_prefix path r || has_any_prefix path roots

abbrev pub is_kernel : Text → List Text → Bool
is_kernel path roots = has_any_prefix path roots

abbrev pub is_allowed : Config → Text → Bool
is_allowed c path = has_any_prefix path c.allowlist

unfoldable pub projection_nodes : List Node → List Node
projection_nodes [] = []
projection_nodes (n ∷ nodes) =
    let rest = projection_nodes nodes in if is_projection n.import_path then n ∷ rest else rest

-- `projSet`
abbrev pub paths : List Node → List Text
paths nodes = map (λ n. n.import_path) nodes

unfoldable pub edges_within : List Text → List Edge → List Edge
edges_within proj_set [] = []
edges_within proj_set (e ∷ edges) =
    let rest = edges_within proj_set edges in
    if member e.source proj_set && member e.target proj_set then e ∷ rest else rest

unfoldable pub projection_edges : List Edge → List Node → List Edge
unfolding edges_within
projection_edges edges nodes = edges_within (paths nodes) edges

unfoldable pub edges_from_kernel : List Text → List Text → List Edge → List Edge
edges_from_kernel roots proj_set [] = []
edges_from_kernel roots proj_set (e ∷ edges) =
    let rest = edges_from_kernel roots proj_set edges in
    if is_kernel e.source roots && member e.target proj_set then e ∷ rest else rest

unfoldable pub backflow_edges : List Edge → List Text → List Node → List Edge
unfolding edges_from_kernel
backflow_edges edges roots nodes = edges_from_kernel roots (paths nodes) edges

-- a and b with an arrow between them
abbrev pub arrow : Text → Text → Text
arrow a b = a ++ (32 ∷ 226 ∷ 134 ∷ 146 ∷ 32 ∷ b)

abbrev pub violation : ViolationCode → Text → Text → Text → Violation
violation code node edge message = record {
  code = code;
  node = node;
  edge = edge;
  message = message;
  severity = severity_error;
}

-- A depth and violations so far; `itoa` is the decimal of a number.
unfoldable pub depth_violations : Text → ℕ → List Violation
depth_violations path depth =
    if ltb 1 depth
    then violation depth_exceeded path []
        (codes "depth " ++ (decimal depth ++ codes " exceeds limit of 1"))
      ∷ []
    else []

abbrev pub Depths : Type 0
Depths = Option (ℕ × List Violation)

abbrev pub and_depth : Text → Measured → (ℕ → List Violation → Depths) → Depths
and_depth path none rest = none
and_depth path (some (d, memo)) rest = rest d (depth_violations path d)

-- the loop over the nodes, each with a fresh memo
unfoldable pub depths_of : ℕ → Map (List Text) → List Node → ℕ → List Violation → Depths
depths_of fuel adj [] max_depth violations = some (max_depth, violations)
depths_of fuel adj (n ∷ nodes) max_depth violations =
    and_depth n.import_path (bfs_max_depth fuel adj n.import_path [])
      (λ d more. depths_of fuel adj nodes (larger max_depth d) (violations ++ more))

unfoldable pub check_depth : ℕ → List Edge → List Node → Depths
unfolding depths_of
check_depth fuel [] nodes = some (0, [])
check_depth fuel (e ∷ edges) nodes = depths_of fuel (adjacency (e ∷ edges)) nodes 0 []

unfoldable pub check_cross_import : List Edge → List Violation
check_cross_import [] = []
check_cross_import (e ∷ edges) =
    violation cross_import e.source (arrow e.source e.target)
      (codes "projection imports another projection: " ++ arrow e.source e.target)
    ∷ check_cross_import edges

abbrev pub cycle_violations : Option Text → Bool × List Violation
cycle_violations none = (false, [])
cycle_violations (some n) =
    (true, violation cycle n [] (codes "cycle detected in projection dependency graph") ∷ [])

abbrev pub cycle_outcome : Option (Option Text) → Option (Bool × List Violation)
cycle_outcome none = none
cycle_outcome (some o) = some (cycle_violations o)

-- The `range` over the white nodes visits them in an order that the language leaves open; here it is
-- the order of the nodes.
unfoldable pub check_cycles : ℕ → List Edge → List Node → Option (Bool × List Violation)
check_cycles fuel edges nodes = cycle_outcome (
    first_cycle fuel (adjacency edges) (paths nodes)
      (record { white = paths nodes; gray = []; black = [] }))

unfoldable pub check_backflow : List Edge → List Violation
check_backflow [] = []
check_backflow (e ∷ edges) =
    violation backflow e.source (arrow e.source e.target)
      (codes "kernel package imports projection: " ++ arrow e.source e.target)
    ∷ check_backflow edges

unfoldable pub forbidden_among : List Text → List Text → List Edge → List Violation
forbidden_among roots proj_set [] = []
forbidden_among roots proj_set (e ∷ edges) =
    let rest = forbidden_among roots proj_set edges in
    if is_kernel e.source roots && member e.target proj_set
    then violation forbidden_import e.source (arrow e.source e.target)
        (codes "architectural law: kernel must not import projection: " ++ arrow e.source e.target)
      ∷ rest
    else rest

unfoldable pub check_p10a_forbidden : List Edge → List Text → List Node → List Violation
unfolding forbidden_among
check_p10a_forbidden edges roots nodes = forbidden_among roots (paths nodes) edges

-- the inner loop, over the dependencies of a node
unfoldable pub undeclared_of : Config → Text → List Text → List Violation
undeclared_of cfg path [] = []
undeclared_of cfg path (dep ∷ deps) =
    let rest = undeclared_of cfg path deps in
    if is_kernel dep cfg.kernel_roots || (is_projection dep || is_allowed cfg dep)
    then rest
    else violation undeclared_dep path (arrow path dep)
        (codes "projection depends on non-allowlisted target: " ++ dep)
      ∷ rest

unfoldable pub check_p10b_allowlist : List Node → Config → List Violation
unfolding undeclared_of
check_p10b_allowlist [] cfg = []
check_p10b_allowlist (n ∷ nodes) cfg =
    undeclared_of cfg n.import_path n.direct_deps ++ check_p10b_allowlist nodes cfg

unfoldable pub string_slices_equal : List Text → List Text → Bool
string_slices_equal [] [] = true
string_slices_equal (x ∷ xs) (y ∷ ys) = text_eq x y && string_slices_equal xs ys
string_slices_equal _ _ = false

unfoldable pub join_spaces : List Text → Text
join_spaces [] = []
join_spaces (s ∷ []) = s
join_spaces (s ∷ t ∷ ss) = s ++ (b' ' ∷ join_spaces (t ∷ ss))

unfoldable pub join_strings : List Text → Text
unfolding join_spaces
join_strings ss = b'[' ∷ (join_spaces ss ++ (b']' ∷ []))

-- `declared[d.Node] = d.Expected`
unfoldable pub declared_map : Map (List Text) → List DeclaredDeps → Map (List Text)
declared_map declared [] = declared
declared_map declared (d ∷ ds) = declared_map (set d.node d.expected declared) ds

unfoldable pub declared_of : Node → Option (List Text) → List Violation
declared_of n none =
    violation declared_vs_actual n.import_path []
      (codes "projection package has no // DependsOn: annotation")
    ∷ []
declared_of n (some expected) =
    if string_slices_equal n.direct_deps expected
    then []
    else violation declared_vs_actual n.import_path [] (
        codes "declared deps mismatch: actual="
        ++ (join_strings n.direct_deps ++ (codes " expected=" ++ join_strings expected)))
      ∷ []

unfoldable pub declared_loop : Map (List Text) → List Node → List Violation
unfolding declared_of
declared_loop declared [] = []
declared_loop declared (n ∷ nodes) =
    (if has_prefix n.import_path (codes "rust/")
      then []
      else declared_of n (lookup n.import_path declared))
    ++ declared_loop declared nodes

unfoldable pub check_p10b_declared : List Node → List DeclaredDeps → List Violation
unfolding declared_map declared_loop
check_p10b_declared nodes ds = declared_loop (declared_map [] ds) nodes

-- a nil list of declarations is not checked
abbrev pub declared_violations : List Node → Option (List DeclaredDeps) → List Violation
declared_violations nodes none = []
declared_violations nodes (some ds) = check_p10b_declared nodes ds

abbrev pub schema_result : Config → ValidationResult
schema_result cfg = record {
  violations =
      violation schema_mismatch [] [] (
        codes "IR schema version mismatch: config="
        ++ (cfg.schema_version ++ (codes " expected=" ++ ir_schema_version)))
      ∷ [];
  depth = 0;
  has_cycles = false;
  hash = [];
}

-- the result, behind the two searches
abbrev pub result_of :
    Graph
    → Config
    → Option (List DeclaredDeps)
    → Bool × List Violation
    → ℕ × List Violation
    → ValidationResult
result_of g cfg declared (has_cycle, p8) (max_depth, p6) =
    let proj_nodes = projection_nodes g.nodes in
    record {
      violations =
          check_cross_import (projection_edges g.edges proj_nodes)
          ++ (p8
              ++ (p6
                  ++ (check_backflow (backflow_edges g.edges cfg.kernel_roots proj_nodes)
                      ++ (check_p10a_forbidden g.edges cfg.kernel_roots proj_nodes
                          ++ (check_p10b_allowlist proj_nodes cfg
                              ++ declared_violations proj_nodes declared)))));
      depth = max_depth;
      has_cycles = has_cycle;
      hash = g.metadata.hash;
    }

abbrev pub both_searches {ℓ} :
    {R : Type ℓ}
    → Option (Bool × List Violation)
    → Depths
    → (Bool × List Violation → ℕ × List Violation → R)
    → Option R
both_searches none d f = none
both_searches (some c) none f = none
both_searches (some c) (some d) f = some (f c d)

unfoldable pub validate_with_declared :
    ℕ → Graph → Config → Option (List DeclaredDeps) → Option ValidationResult
validate_with_declared fuel g cfg declared =
    let proj_nodes = projection_nodes g.nodes in
    let proj_edges = projection_edges g.edges proj_nodes in
    if not (text_eq cfg.schema_version []) && not (text_eq cfg.schema_version ir_schema_version)
    then some (schema_result cfg)
    else both_searches (check_cycles fuel proj_edges proj_nodes)
        (check_depth fuel proj_edges proj_nodes) (result_of g cfg declared)

unfoldable pub validate : ℕ → Graph → Config → Option ValidationResult
validate fuel g cfg = validate_with_declared fuel g cfg none
