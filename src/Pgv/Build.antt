-- ===== src/Pgv/Build.antt =====
-- `BuildGraph` and `computeIRHash` of tools/pgv/ir.go.
pub mod Edges
pub mod Order
pub mod Built
pub mod Commitment
pub mod Identified
use nexus_go_ccnf_ref.Base.{
  ℕ, Text, text_eq, Bool, ◌==◌, Option, none, some, List, [], ◌∷◌, ◌++◌, if◌then◌else◌, map,
}
use nexus_go_ccnf_ref.Base.Sort.{sort_strings}
use nexus_go_ccnf_ref.Base.SortBy.{sort_slice, text_less, pair_less}
use nexus_go_ccnf_ref.Base.Sets.{member}
use nexus_go_ccnf_ref.Ccnf.Numerals.{hex_encode}
use nexus_go_ccnf_ref.Value.Platform.{Platform}
use nexus_go_ccnf_ref.Pgv.{Node, Edge, Graph, ir_schema_version}
use nexus_go_ccnf_ref.Pgv.Diff.{nul_terminated}

abbrev pub path_less : Node → Node → Bool
path_less m n = text_less m.import_path n.import_path

unfoldable pub sort_deps : Node → Node
sort_deps n = record {
  import_path = n.import_path;
  name = n.name;
  direct_deps = sort_strings n.direct_deps;
}

-- `sorted`
unfoldable pub sorted_nodes : List Node → List Node
sorted_nodes nodes = map sort_deps (sort_slice path_less nodes)

abbrev pub edge_key : Text → Text → Text
edge_key path dep = path ++ (0 ∷ dep)

-- `edgeSet[key] = struct{}{}`
unfoldable pub add_key : Text → List Text → List Text
add_key key edge_set = if member key edge_set then edge_set else key ∷ edge_set

unfoldable pub add_deps : Text → List Text → List Text → List Text
unfolding add_key
add_deps path [] edge_set = edge_set
add_deps path (dep ∷ deps) edge_set = add_deps path deps (add_key (edge_key path dep) edge_set)

unfoldable pub edge_keys : List Node → List Text → List Text
unfolding add_deps
edge_keys [] edge_set = edge_set
edge_keys (n ∷ nodes) edge_set = edge_keys nodes (add_deps n.import_path n.direct_deps edge_set)

abbrev pub push_front : ℕ → Option Edge → Option Edge
push_front c none = none
push_front c (some e) = some (record { source = c ∷ e.source; target = e.target })

-- `strings.SplitN(k, "\x00", 2)` and its two parts; `none` is the panic where there is one part.
unfoldable pub split_key : Text → Option Edge
split_key [] = none
split_key (c ∷ k) =
    let rest = split_key k in
    if c == 0 then some (record { source = []; target = k }) else push_front c rest

abbrev pub and_edges : Option Edge → Option (List Edge) → Option (List Edge)
and_edges none edges = none
and_edges (some e) none = none
and_edges (some e) (some edges) = some (e ∷ edges)

unfoldable pub split_keys : List Text → Option (List Edge)
unfolding split_key
split_keys [] = some []
split_keys (k ∷ ks) = and_edges (split_key k) (split_keys ks)

abbrev pub edge_less : Edge → Edge → Bool
edge_less e f = pair_less e.source e.target f.source f.target

unfoldable pub edge_bytes : List Edge → Text
edge_bytes [] = []
edge_bytes (e ∷ edges) = e.source ++ (0 ∷ (e.target ++ (0 ∷ edge_bytes edges)))

module _ (p : Platform) where
  unfoldable pub compute_ir_hash : List Node → List Edge → Text
  compute_ir_hash nodes edges =
      hex_encode (p.sum256 (nul_terminated (map (λ n. n.import_path) nodes) ++ edge_bytes edges))

  abbrev pub graph_of : List Node → List Edge → Graph
  graph_of nodes edges = record {
    nodes = nodes;
    edges = edges;
    metadata = record { schema_version = ir_schema_version; hash = compute_ir_hash nodes edges };
    extractor_versions = [];
  }

  abbrev pub with_edges : List Node → Option (List Edge) → Option Graph
  with_edges nodes none = none
  with_edges nodes (some edges) = some (graph_of nodes (sort_slice edge_less edges))

  unfoldable pub build_graph : List Node → Option Graph
  unfolding edge_keys split_keys
  build_graph nodes =
      let sorted = sorted_nodes nodes in with_edges sorted (split_keys (edge_keys sorted []))
