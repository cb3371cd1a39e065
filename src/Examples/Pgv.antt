-- ===== src/Examples/Pgv.antt =====
-- Small graphs of projections, and the files behind them.
use nexus_go_ccnf_ref.Base.{
  text_leb, ◌⊎◌, ℕ, ◌≤◌, Text, codes, text_eq, ◌==◌, false, none, some, List, [], ◌∷◌, ◌++◌,
  if◌then◌else◌, has_prefix, length, ◌≡◌, refl, arith, ◌↔◌, inr,
}
use nexus_go_ccnf_ref.Base.Map.{lookup, set}
use nexus_go_ccnf_ref.Base.Sets.{member, delete}
use nexus_go_ccnf_ref.Base.Sort.{sort_strings, insert}
use nexus_go_ccnf_ref.Pgv.{Node, Edge, Graph, ir_schema_version}
use nexus_go_ccnf_ref.Pgv.Search.{
  adjacency, add_edges, neighbors, first_cycle, search_from, has_cycle_dfs, look_all, look, enter,
  leave,
}
use nexus_go_ccnf_ref.Pgv.Search.Walks.{here, then_to}
use nexus_go_ccnf_ref.Pgv.Validator.{
  paths, ValidationResult, is_projection, projection_nodes, edges_within, projection_edges,
  check_cycles, validate_with_declared,
}
use nexus_go_ccnf_ref.Pgv.Validator.Searches.{check_cycles_lem}
use nexus_go_ccnf_ref.Pgv.Validator.Verdict.{
  HasCycle, Measures, validate-HasCycle, validate-acyclic,
}
use nexus_go_ccnf_ref.Pgv.Validator.Conforming.{Conforms, Passes, validate-Passes}
use nexus_go_ccnf_ref.Pgv.Diff.{diff_graphs}
use nexus_go_ccnf_ref.Pgv.Diff.Partition.{Partitions, diff_graphs-Partitions}
use nexus_go_ccnf_ref.Pgv.Build.{
  build_graph, graph_of, sorted_nodes, sort_deps, edge_keys, add_deps, add_key, split_keys,
  split_key,
}
use nexus_go_ccnf_ref.Pgv.Build.Identified.{DistinctPaths, NulFreeNodes, build_graph_injective_or}
use nexus_go_ccnf_ref.Runtime.Bytes.{Collision}
use nexus_go_ccnf_ref.Pgv.Diff.{nul_terminated}
use nexus_go_ccnf_ref.Pgv.Build.{edge_bytes}
use nexus_go_ccnf_ref.Base.SortBy.{sort_slice, insert_by}
use nexus_go_ccnf_ref.Pgv.Build.Built.{IsGraphOf, build_graph-IsGraphOf}
use nexus_go_ccnf_ref.Pgv.Extract.{
  RawPackage, extract_graph, run_config, run_validate, scan_depends_on, declaration,
}
use nexus_go_ccnf_ref.Pgv.Extract.Declared.{IsName, scan_depends_on-written}
use nexus_go_ccnf_ref.Pgv.Extract.Vacuous.{run_validate-vacuous}
use nexus_go_ccnf_ref.Examples.{sample_platform, sample_platform-IsSha256}

abbrev a : Text
a = codes "projection/a"

abbrev b : Text
b = codes "projection/b"

abbrev node : Text → List Text → Node
node path deps = record { import_path = path; name = path; direct_deps = deps }

abbrev edge : Text → Text → Edge
edge f t = record { source = f; target = t }

abbrev graph : List Node → List Edge → Graph
graph nodes edges = record {
  nodes = nodes;
  edges = edges;
  metadata = record { schema_version = ir_schema_version; hash = [] };
  extractor_versions = [];
}

abbrev quiet : Graph
quiet = graph (node a (codes "runtime/x" ∷ []) ∷ []) (edge a (codes "runtime/x") ∷ [])

abbrev chained : Graph
chained = graph (node a (b ∷ []) ∷ node b [] ∷ []) (edge a b ∷ [])

abbrev looped : Graph
looped = graph (node a (b ∷ []) ∷ node b (a ∷ []) ∷ []) (edge a b ∷ edge b a ∷ [])

quiet-small : length (projection_nodes quiet.nodes) ≤ 1
unfolding projection_nodes is_projection has_prefix
quiet-small = omega arith

validate-Passes_example : Passes 1 quiet run_config none ↔ Conforms quiet run_config none
validate-Passes_example = validate-Passes 1 quiet run_config none (inr refl) quiet-small

looped-HasCycle : HasCycle looped
unfolding projection_edges edges_within projection_nodes is_projection has_prefix adjacency
    add_edges neighbors lookup set member text_eq
looped-HasCycle = record {
  node = a;
  size = 1;
  walk = then_to {y = b} (then_to {y = a} here refl) refl;
}

validate-HasCycle_example : validate_with_declared 9 looped run_config none ≡ none
validate-HasCycle_example = validate-HasCycle 9 looped run_config none (inr refl) looped-HasCycle

chained-small : length (projection_nodes chained.nodes) ≤ 2
unfolding projection_nodes is_projection has_prefix
chained-small = omega arith

chained-search :
    check_cycles 2
      (projection_edges chained.edges (projection_nodes chained.nodes))
      (projection_nodes chained.nodes)
    ≡ some (false, [])
unfolding check_cycles first_cycle search_from has_cycle_dfs look_all look enter leave delete
    projection_edges edges_within projection_nodes is_projection has_prefix adjacency add_edges
    neighbors lookup set member text_eq
chained-search = refl

chained-acyclic : ¬ HasCycle chained
chained-acyclic c =
    let answer = check_cycles_lem chained.edges (projection_nodes chained.nodes) 2 chained-small in
    absurd (cc (chained-search, answer.ends, answer.exact.1 c))

validate-acyclic_example :
    (bound : ℕ) × ((fuel : ℕ)
      → bound ≤ fuel
      → (r : ValidationResult) × (validate_with_declared fuel chained run_config none ≡ some r)
        × Measures chained r)
validate-acyclic_example = validate-acyclic chained run_config none (inr refl) chained-acyclic

diff_graphs-Partitions_example :
    Partitions quiet.nodes chained.nodes (diff_graphs sample_platform quiet chained)
diff_graphs-Partitions_example = diff_graphs-Partitions sample_platform quiet chained

build_graph-IsGraphOf_example :
    (g : Graph) × (build_graph sample_platform chained.nodes ≡ some g) × IsGraphOf chained.nodes g
build_graph-IsGraphOf_example = build_graph-IsGraphOf sample_platform chained.nodes (ground arith)

abbrev built : Graph
built = graph_of sample_platform chained.nodes chained.edges

-- The order of the nodes does not show.
chained-built : build_graph sample_platform chained.nodes ≡ some built
unfolding build_graph sorted_nodes sort_deps sort_slice insert_by sort_strings insert edge_keys
    add_deps add_key split_keys split_key member text_eq text_leb
chained-built = refl

abbrev swapped : List Node
swapped = node b [] ∷ node a (b ∷ []) ∷ []

swapped-built : build_graph sample_platform swapped ≡ some built
unfolding build_graph sorted_nodes sort_deps sort_slice insert_by sort_strings insert edge_keys
    add_deps add_key split_keys split_key member text_eq text_leb
swapped-built = refl

chained-nodes : DistinctPaths chained.nodes × NulFreeNodes chained.nodes
unfolding member text_eq
chained-nodes = ground arith

swapped-nodes : DistinctPaths swapped × NulFreeNodes swapped
unfolding member text_eq
swapped-nodes = ground arith

build_graph_injective_or_example :
    ((paths built.nodes ≡ paths built.nodes) × (built.edges ≡ built.edges))
    ⊎ Collision sample_platform
        (nul_terminated (paths built.nodes) ++ edge_bytes built.edges)
        (nul_terminated (paths built.nodes) ++ edge_bytes built.edges)
build_graph_injective_or_example =
    build_graph_injective_or sample_platform chained.nodes swapped built built
      sample_platform-IsSha256 chained-nodes swapped-nodes chained-built swapped-built refl

abbrev packages : List RawPackage
packages =
    record {
      import_path = codes "github.com/o/r/projection/a";
      name = codes "a";
      imports = codes "fmt" ∷ [];
      for_test = [];
    }
    ∷ []

run_validate-vacuous_example :
    run_validate 1
      (extract_graph sample_platform (λ s. s) (codes "fmt" ∷ []) (some packages) none)
      []
    ≡ some 0
run_validate-vacuous_example =
    run_validate-vacuous sample_platform (λ s. s) 1 (codes "fmt" ∷ []) packages []
      (unfold has_prefix in ground arith)

-- Trims spaces in front.
abbrev trim_front : Text → Text
trim_front [] = []
trim_front (c ∷ s) = if c == 32 then trim_front s else c ∷ s

abbrev line : Text
line = codes "// DependsOn: x, y"

line-declares : declaration trim_front line ≡ some (codes "x, y")
unfolding declaration has_prefix
line-declares = refl

x-IsName : IsName trim_front (codes "x")
unfolding text_eq
x-IsName = record { comma_free = (refl, tt); trimmed = refl; after_space = refl; not_empty = refl }

y-IsName : IsName trim_front (codes "y")
unfolding text_eq
y-IsName = record { comma_free = (refl, tt); trimmed = refl; after_space = refl; not_empty = refl }

not_none : text_eq (codes "x, y") (codes "(no external deps)") ≡ false
unfolding text_eq
not_none = refl

scan_depends_on-written_example :
    scan_depends_on trim_front (some ([] ++ (line ∷ [])))
    ≡ some (sort_strings (codes "x" ∷ codes "y" ∷ []))
scan_depends_on-written_example =
    scan_depends_on-written trim_front [] [] line (codes "x") (codes "y" ∷ []) tt tt line-declares
      not_none x-IsName (y-IsName, tt)
