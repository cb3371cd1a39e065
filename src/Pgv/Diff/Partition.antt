-- ===== src/Pgv/Diff/Partition.antt =====
-- The difference of two graphs: which nodes it lists where.
use nexus_go_ccnf_ref.Base.{
  Text, text_eq, text_eq_iff, Bool, true, false, not, ◌&&◌, ◌||◌, Bool-cases, Option, none, some,
  List, [], ◌∷◌, if◌then◌else◌, map, ◌≡◌, refl, sym, ap, ap₂, ◌∙◌, arith, inl, inr,
}
use nexus_go_ccnf_ref.Base.Map.{Map, lookup, set, lookup-set}
use nexus_go_ccnf_ref.Base.Sets.{member}
use nexus_go_ccnf_ref.Base.SortBy.{
  sort_slice, member-sort_slice, IsSortedBy, sort_slice-IsSortedBy, pair_less-IsWeakOrder,
}
use nexus_go_ccnf_ref.Value.Platform.{Platform}
use nexus_go_ccnf_ref.Pgv.{Node, Graph}
use nexus_go_ccnf_ref.Pgv.Validator.{paths}
use nexus_go_ccnf_ref.Pgv.Diff.{
  IrNode, IrDelta, ir_node, add_ir_nodes, to_ir, node_less, sort_ir_nodes, move_less, sort_moves,
  Split, file_node, split_base, unless_known, added_nodes, compute_diff, diff_graphs,
}

abbrev known : Option IrNode → Bool
known none = false
known (some n) = true

-- Each node has its key for its id and for its path.
abbrev Keyed : Map IrNode → Type 0
Keyed [] = Unit
Keyed ((k, n) ∷ m) = (n.id ≡ k) × (n.path ≡ k) × Keyed m

set-Keyed :
    (k : Text) (n : IrNode) (m : Map IrNode) → n.id ≡ k → n.path ≡ k → Keyed m → Keyed (set k n m)
unfolding set
set-Keyed k n [] i e h = (i, e, tt)
set-Keyed k n ((j, w) ∷ m) i e h = elim (Bool-cases (text_eq j k)) [
  | inl same ↦ rw same (i ∙ sym ((text_eq_iff j k).0 same), e ∙ sym ((text_eq_iff j k).0 same), h.2)
  | inr other ↦ rw other (h.0, h.1, set-Keyed k n m i e h.2)
]

add_ir_nodes-Keyed :
    (p : Platform) (m : Map IrNode) (ns : List Node) → Keyed m → Keyed (add_ir_nodes p m ns)
unfolding add_ir_nodes
add_ir_nodes-Keyed p m [] h = h
add_ir_nodes-Keyed p m (n ∷ ns) h =
    add_ir_nodes-Keyed p (set n.import_path (ir_node p n) m) ns
      (set-Keyed n.import_path (ir_node p n) m refl refl h)

known-set :
    (k j : Text) (n : IrNode) (m : Map IrNode)
    → known (lookup k (set j n m)) ≡ (text_eq j k || known (lookup k m))
known-set k j n m = ap known (lookup-set k j n m) ∙ ground arith

-- The map holds the paths of the graph's nodes.
known-add_ir_nodes :
    (p : Platform) (k : Text) (m : Map IrNode) (ns : List Node)
    → known (lookup k (add_ir_nodes p m ns)) ≡ (known (lookup k m) || member k (paths ns))
unfolding add_ir_nodes member
known-add_ir_nodes p k m [] = ground arith
known-add_ir_nodes p k m (n ∷ ns) =
    known-add_ir_nodes p k (set n.import_path (ir_node p n) m) ns
    ∙ ap (λ b. b || member k (paths ns)) (known-set k n.import_path (ir_node p n) m)
    ∙ ground arith

abbrev pub ids : List IrNode → List Text
ids nodes = map (λ n. n.id) nodes

lookup-Keyed :
    (k : Text) (n : IrNode) (m : Map IrNode)
    → Keyed m
    → lookup k m ≡ some n
    → (n.id ≡ k) × (n.path ≡ k)
unfolding lookup
lookup-Keyed k n [] h e = absurd (cc e)
lookup-Keyed k n ((j, w) ∷ m) h e = elim (Bool-cases (text_eq j k)) [
  | inl same ↦
      let eq = some_eq w n (rw same at e) in
      let key = (text_eq_iff j k).0 same in
      (ap (λ z. z.id) (sym eq) ∙ h.0 ∙ key, ap (λ z. z.path) (sym eq) ∙ h.1 ∙ key)
  | inr other ↦ lookup-Keyed k n m h.2 (rw other at e)
]
  where
    some_eq : (v w : IrNode) → some v ≡ some w → v ≡ w
    some_eq v w e = cc e

-- What the loop over the base's entries collects, where the head's nodes have their keys.
record IsSplit (base head : Map IrNode) (s : Split) : Type 0 where
  moved : s.moved ≡ []
  removed :
      (x : Text) → member x (ids s.removed) ≡ (known (lookup x base) && not (known (lookup x head)))
  unchanged :
      (x : Text) → member x (ids s.unchanged) ≡ (known (lookup x base) && known (lookup x head))

file_node-IsSplit :
    (id : Text) (old_node : IrNode) (o : Option IrNode) (base head : Map IrNode) (s : Split)
    → lookup id head ≡ o
    → (old_node.id ≡ id) × (old_node.path ≡ id)
    → Keyed head
    → IsSplit base head s
    → IsSplit ((id, old_node) ∷ base) head (file_node id old_node o s)
unfolding lookup member
file_node-IsSplit id old_node none base head s e k h i = record {
  moved = i.moved;
  removed = λ x. ground (arith, k.0, i.removed x, e, text_eq_iff id x);
  unchanged = λ x. ground (arith, i.unchanged x, e, text_eq_iff id x);
}
file_node-IsSplit id old_node (some new_node) base head s e k h i =
    let (same_id, same_path) = lookup-Keyed id new_node head h e in
    let same = (text_eq_iff old_node.path new_node.path).1 (k.1 ∙ sym same_path) in
    rw same (record {
      moved = i.moved;
      removed = λ x. ground (arith, i.removed x, e, text_eq_iff id x);
      unchanged = λ x. ground (arith, same_id, i.unchanged x, e, text_eq_iff id x);
    })

split_base-IsSplit :
    (base head : Map IrNode) → Keyed base → Keyed head → IsSplit base head (split_base base head)
unfolding split_base
split_base-IsSplit [] head b h =
    unfold lookup member in record { moved = refl; removed = λ x. refl; unchanged = λ x. refl }
split_base-IsSplit ((id, old_node) ∷ base) head b h =
    file_node-IsSplit id old_node (lookup id head) base head (split_base base head) refl (b.0, b.1)
      h (split_base-IsSplit base head b.2 h)

member-added_nodes :
    (x : Text) (base head : Map IrNode)
    → Keyed head
    → member x (ids (added_nodes base head))
      ≡ (known (lookup x head) && not (known (lookup x base)))
unfolding added_nodes member lookup
member-added_nodes x base [] h = refl
member-added_nodes x base ((id, n) ∷ head) h =
    place (lookup id base) refl (member-added_nodes x base head h.2)
  where
    place :
        (o : Option IrNode)
        → lookup id base ≡ o
        → member x (ids (added_nodes base head))
          ≡ (known (lookup x head) && not (known (lookup x base)))
        → member x (ids (unless_known o n (added_nodes base head)))
          ≡ (known (if text_eq id x then some n else lookup x head) && not (known (lookup x base)))
    place none e i = ground (arith, h.0, i, e, text_eq_iff id x)
    place (some old) e i = ground (arith, i, e, text_eq_iff id x)

-- A difference that sorts the paths of two lists of nodes by where they are, and moves none.
pub record Partitions (base head : List Node) (d : IrDelta) : Type 0 where
  pub moved : d.moved ≡ []
  pub removed :
      (x : Text) → member x (ids d.removed) ≡ (member x (paths base) && not (member x (paths head)))
  pub unchanged :
      (x : Text) → member x (ids d.unchanged) ≡ (member x (paths base) && member x (paths head))
  pub added :
      (x : Text) → member x (ids d.added) ≡ (member x (paths head) && not (member x (paths base)))
  pub removed_sorted : IsSortedBy node_less d.removed
  pub unchanged_sorted : IsSortedBy node_less d.unchanged
  pub added_sorted : IsSortedBy node_less d.added

module _ (p : Platform) where
  keyed : (g : Graph) → Keyed (to_ir p g).nodes
  unfolding to_ir
  keyed g = add_ir_nodes-Keyed p [] g.nodes tt

  known-to_ir :
      (x : Text) (g : Graph) → known (lookup x (to_ir p g).nodes) ≡ member x (paths g.nodes)
  unfolding to_ir lookup
  known-to_ir x g = known-add_ir_nodes p x [] g.nodes

  IsSplit-graphs :
      (base head : Graph)
      → IsSplit
          (to_ir p base).nodes
          (to_ir p head).nodes
          (split_base (to_ir p base).nodes (to_ir p head).nodes)
  IsSplit-graphs base head =
      split_base-IsSplit (to_ir p base).nodes (to_ir p head).nodes (keyed base) (keyed head)

  sorted : (nodes : List IrNode) → IsSortedBy node_less (sort_ir_nodes nodes)
  unfolding sort_ir_nodes
  sorted nodes =
      sort_slice-IsSortedBy node_less (pair_less-IsWeakOrder (λ n. n.id) (λ n. n.path)) nodes

  kept :
      (x : Text) (nodes : List IrNode) → member x (ids (sort_ir_nodes nodes)) ≡ member x (ids nodes)
  unfolding sort_ir_nodes
  kept x nodes = member-sort_slice node_less (λ n. n.id) x nodes

  -- The difference of two graphs lists the paths of the head alone as added, of the base alone as
  -- removed and of both as unchanged, each list in order, and lists no move.
  pub diff_graphs-Partitions :
      (base head : Graph) → Partitions base.nodes head.nodes (diff_graphs p base head)
  unfolding diff_graphs compute_diff sort_moves sort_slice
  diff_graphs-Partitions base head =
      let s = IsSplit-graphs base head in
      record {
        moved = ap (λ moves. sort_slice move_less moves) s.moved;
        removed = λ x.
            kept x _
            ∙ s.removed x
            ∙ ap₂ (λ a b. a && not b) (known-to_ir x base) (known-to_ir x head);
        unchanged = λ x.
            kept x _
            ∙ s.unchanged x
            ∙ ap₂ (λ a b. a && b) (known-to_ir x base) (known-to_ir x head);
        added = λ x.
            kept x _
            ∙ member-added_nodes x (to_ir p base).nodes (to_ir p head).nodes (keyed head)
            ∙ ap₂ (λ a b. a && not b) (known-to_ir x head) (known-to_ir x base);
        removed_sorted = sorted _;
        unchanged_sorted = sorted _;
        added_sorted = sorted _;
      }
