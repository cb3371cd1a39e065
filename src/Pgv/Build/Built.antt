-- ===== src/Pgv/Build/Built.antt =====
-- `BuildGraph` as a whole.
use mathlib.Core.Option.{some-injective}
use mathlib.Core.List.{Perm}
use mathlib.Core.List.Perm
use nexus_go_ccnf_ref.Base.{
  Text, false, ◌||◌, Option, none, some, List, [], ◌∷◌, map, ◌≡◌, refl, sym, ap, ◌∙◌, arith, All,
}
use nexus_go_ccnf_ref.Base.SortBy.{
  sort_slice, All-sort_slice, sort_slice-perm, IsSortedBy, sort_slice-IsSortedBy,
  text_less-IsWeakOrder, pair_less-IsWeakOrder,
}
use nexus_go_ccnf_ref.Value.Platform.{Platform}
use nexus_go_ccnf_ref.Pgv.{Node, Edge, Graph}
use nexus_go_ccnf_ref.Pgv.Build.{
  sort_deps, sorted_nodes, edge_keys, split_keys, edge_less, with_edges, graph_of, build_graph,
}
use nexus_go_ccnf_ref.Pgv.Build.{path_less}
use nexus_go_ccnf_ref.Pgv.Build.Edges.{
  NulFree, NulFreePaths, has_edge, depends, IsEdgeSet, IsEdgeSet-edge_keys, split_keys-key,
}
use nexus_go_ccnf_ref.Pgv.Build.Order.{
  has_edge-sort_slice, sort_slice-Distinct, IsStrict, IsStrict-Distinct, depends-sort_slice,
  depends-sort_deps,
}

-- A graph of the nodes: each with its dependencies in order, and an edge for each dependency.
pub record IsGraphOf (nodes : List Node) (g : Graph) : Type 0 where
  pub listed : Perm g.nodes (map sort_deps nodes)
  pub paths_sorted : IsSortedBy path_less g.nodes
  pub exact : (f t : Text) → has_edge f t g.edges ≡ depends nodes f t
  pub edges_sorted : IsStrict g.edges

sorted-NulFree : (nodes : List Node) → NulFreePaths nodes → NulFreePaths (map sort_deps nodes)
unfolding sort_deps
sorted-NulFree [] h = tt
sorted-NulFree (n ∷ nodes) h = (h.0, sorted-NulFree nodes h.1)

All-sort_deps :
    (n : Node) (nodes : List Node)
    → All (λ m. path_less m n ≡ false) nodes
    → All (λ m. path_less m (sort_deps n) ≡ false) (map sort_deps nodes)
unfolding sort_deps
All-sort_deps n [] h = tt
All-sort_deps n (m ∷ nodes) h = (h.0, All-sort_deps n nodes h.1)

map-IsSortedBy :
    (nodes : List Node) → IsSortedBy path_less nodes → IsSortedBy path_less (map sort_deps nodes)
map-IsSortedBy [] h = tt
map-IsSortedBy (n ∷ nodes) h = (All-sort_deps n nodes h.0, map-IsSortedBy nodes h.1)

empty_set : IsEdgeSet [] (λ f t. false)
unfolding has_edge
empty_set = record { edges = []; keyed = refl; sources = tt; distinct = tt; exact = λ f t. refl }

module _ (p : Platform) where
  -- On nodes whose paths hold no NUL, `BuildGraph` does not panic. The graph has these nodes, ordered by
  -- path and with their dependencies ordered, and exactly one edge for each dependency, in strict order.
  pub build_graph-IsGraphOf :
      (nodes : List Node)
      → NulFreePaths nodes
      → (g : Graph) × (build_graph p nodes ≡ some g) × IsGraphOf nodes g
  unfolding build_graph sorted_nodes
  build_graph-IsGraphOf nodes h =
      let set =
        IsEdgeSet-edge_keys (sorted_nodes nodes) [] (λ f t. false)
          (sorted-NulFree (sort_slice path_less nodes)
            (All-sort_slice path_less (λ n. NulFree n.import_path) nodes h))
          empty_set in
      (
        graph_of p (sorted_nodes nodes) (sort_slice edge_less set.edges),
        ap (with_edges p (sorted_nodes nodes))
            (ap split_keys set.keyed ∙ split_keys-key set.edges set.sources),
        record {
          listed = Perm.map sort_deps (sort_slice-perm path_less nodes);
          paths_sorted =
              map-IsSortedBy (sort_slice path_less nodes) (
                sort_slice-IsSortedBy path_less (text_less-IsWeakOrder (λ n. n.import_path)) nodes);
          exact = λ f t.
              has_edge-sort_slice f t set.edges
              ∙ set.exact f t
              ∙ ap (λ b. b || false)
                  (depends-sort_deps f t (sort_slice path_less nodes)
                    ∙ depends-sort_slice f t path_less nodes)
              ∙ ground arith;
          edges_sorted =
              IsStrict-Distinct (sort_slice edge_less set.edges)
                (sort_slice-IsSortedBy edge_less
                  (pair_less-IsWeakOrder (λ e. e.source) (λ e. e.target)) set.edges)
                (sort_slice-Distinct set.edges set.distinct);
        },
      )

  pub build_graph-nodes :
      (nodes : List Node) (g : Graph) → build_graph p nodes ≡ some g → g.nodes ≡ sorted_nodes nodes
  unfolding build_graph
  build_graph-nodes nodes g e = made (split_keys (edge_keys (sorted_nodes nodes) [])) e
    where
      made :
          (o : Option (List Edge))
          → with_edges p (sorted_nodes nodes) o ≡ some g
          → g.nodes ≡ sorted_nodes nodes
      made none h = cc h
      made (some edges) h = ap (λ z. z.nodes) (sym (some-injective _ g h))
