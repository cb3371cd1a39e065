-- ===== src/Pgv/Diff.antt =====
-- tools/pgv/graph_to_ir.go, diff.go and delta.go: a graph as a map of nodes, and the difference of two.
pub mod Partition
use nexus_go_ccnf_ref.Base.{
  ℕ, Text, codes, text_eq, Bool, not, ◌==◌, Option, none, some, List, [], ◌∷◌, ◌++◌, if◌then◌else◌,
  length,
}
use nexus_go_ccnf_ref.Base.Map.{Map, lookup, set}
use nexus_go_ccnf_ref.Base.SortBy.{sort_slice, pair_less}
use nexus_go_ccnf_ref.Ccnf.Numerals.{hex_encode}
use nexus_go_ccnf_ref.Value.Platform.{Platform}
use nexus_go_ccnf_ref.Pgv.{Node, Graph, ir_schema_version}

pub record IrNode : Type 0 where
  pub id : Text
  pub path : Text
  pub kind : Text
  pub parent_id : Text
  pub hash : Text

pub record Ir : Type 0 where
  pub nodes : Map IrNode

pub record Summary : Type 0 where
  pub added_count : ℕ
  pub removed_count : ℕ
  pub moved_count : ℕ
  pub unchanged_count : ℕ

pub record Move : Type 0 where
  pub node_id : Text
  pub from_path : Text
  pub to_path : Text

pub record IrDelta : Type 0 where
  pub schema_version : Text
  pub ir_schema_version : Text
  pub base_hash : Text
  pub head_hash : Text
  pub status : Text
  pub summary : Summary
  pub added : List IrNode
  pub removed : List IrNode
  pub moved : List Move
  pub unchanged : List IrNode

-- What the loop from the end has found: the text before the last slash.
unfoldable pub before_last_slash : Text → Option Text
before_last_slash [] = none
before_last_slash (c ∷ path) = shorter c (before_last_slash path)
  where
    shorter : ℕ → Option Text → Option Text
    shorter c (some parent) = some (c ∷ parent)
    shorter c none = if c == b'/' then some [] else none

abbrev pub or_empty : Option Text → Text
or_empty none = []
or_empty (some parent) = parent

unfoldable pub derive_parent : Text → Text
unfolding before_last_slash
derive_parent path = or_empty (before_last_slash path)

-- each followed by a NUL
unfoldable pub nul_terminated : List Text → Text
nul_terminated [] = []
nul_terminated (d ∷ ds) = d ++ (0 ∷ nul_terminated ds)

module _ (p : Platform) where
  unfoldable pub hash_node : Node → Text
  hash_node n = hex_encode (p.sum256 (nul_terminated (n.import_path ∷ n.direct_deps)))

  abbrev pub ir_node : Node → IrNode
  ir_node n = record {
    id = n.import_path;
    path = n.import_path;
    kind = codes "module";
    parent_id = derive_parent n.import_path;
    hash = hash_node n;
  }

  unfoldable pub add_ir_nodes : Map IrNode → List Node → Map IrNode
  add_ir_nodes nodes [] = nodes
  add_ir_nodes nodes (n ∷ ns) = add_ir_nodes (set n.import_path (ir_node n) nodes) ns

  unfoldable pub to_ir : Graph → Ir
  to_ir g = record { nodes = add_ir_nodes [] g.nodes }

abbrev pub node_less : IrNode → IrNode → Bool
node_less m n = pair_less m.id m.path n.id n.path

unfoldable pub sort_ir_nodes : List IrNode → List IrNode
sort_ir_nodes nodes = sort_slice node_less nodes

abbrev pub move_less : Move → Move → Bool
move_less m n = pair_less m.node_id m.from_path n.node_id n.from_path

unfoldable pub sort_moves : List Move → List Move
sort_moves moves = sort_slice move_less moves

-- What the loop over the base's nodes has collected.
pub record Split : Type 0 where
  pub removed : List IrNode
  pub moved : List Move
  pub unchanged : List IrNode

abbrev pub file_node : Text → IrNode → Option IrNode → Split → Split
file_node id old_node none s = record {
  removed = old_node ∷ s.removed;
  moved = s.moved;
  unchanged = s.unchanged;
}
file_node id old_node (some new_node) s =
    if not (text_eq old_node.path new_node.path)
    then record {
      removed = s.removed;
      moved = record { node_id = id; from_path = old_node.path; to_path = new_node.path } ∷ s.moved;
      unchanged = s.unchanged;
    }
    else record { removed = s.removed; moved = s.moved; unchanged = new_node ∷ s.unchanged }

unfoldable pub split_base : Map IrNode → Map IrNode → Split
split_base [] head = record { removed = []; moved = []; unchanged = [] }
split_base ((id, old_node) ∷ base) head =
    file_node id old_node (lookup id head) (split_base base head)

abbrev pub unless_known : Option IrNode → IrNode → List IrNode → List IrNode
unless_known none new_node nodes = new_node ∷ nodes
unless_known (some old_node) new_node nodes = nodes

unfoldable pub added_nodes : Map IrNode → Map IrNode → List IrNode
added_nodes base [] = []
added_nodes base ((id, new_node) ∷ head) =
    unless_known (lookup id base) new_node (added_nodes base head)

unfoldable pub compute_diff : Ir → Ir → Text → Text → IrDelta
compute_diff base head base_hash head_hash =
    let s = split_base base.nodes head.nodes in
    let added = sort_ir_nodes (added_nodes base.nodes head.nodes) in
    let removed = sort_ir_nodes s.removed in
    let unchanged = sort_ir_nodes s.unchanged in
    let moved = sort_moves s.moved in
    record {
      schema_version = codes "pgv.ir.delta.v1";
      ir_schema_version = ir_schema_version;
      base_hash = base_hash;
      head_hash = head_hash;
      status = codes "PASS";
      summary = record {
        added_count = length added;
        removed_count = length removed;
        moved_count = length moved;
        unchanged_count = length unchanged;
      };
      added = added;
      removed = removed;
      moved = moved;
      unchanged = unchanged;
    }

unfoldable pub diff_graphs : Platform → Graph → Graph → IrDelta
diff_graphs p base head =
    compute_diff (to_ir p base) (to_ir p head) base.metadata.hash head.metadata.hash

unfoldable pub compute_diff_pair : Platform → Graph → Graph → IrDelta
unfolding diff_graphs
compute_diff_pair p base head = diff_graphs p base head
