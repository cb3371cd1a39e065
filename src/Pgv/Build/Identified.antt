-- ===== src/Pgv/Build/Identified.antt =====
-- The graphs that `BuildGraph` makes are told apart by their hash.
use mathlib.Core.Path.{subst}
use mathlib.Core.Option.{some-injective}
use nexus_go_ccnf_ref.Base.{
  Text, text_eq, text_eq_iff, text_eq_refl, text_leb_total, text_leb_antisymm, true, false, ◌&&◌,
  Bool-cases, Option, none, some, List, [], ◌∷◌, ◌++◌, map, ◌≡◌, refl, sym, ap, ◌∙◌, arith, ◌⊎◌,
  inl, inr, All,
}
use nexus_go_ccnf_ref.Base.Sets.{member}
use nexus_go_ccnf_ref.Base.SortBy.{
  insert_by, sort_slice, member-sort_slice, member-insert_by, IsSortedBy, text_less,
}
use nexus_go_ccnf_ref.Value.Platform.{Platform}
use nexus_go_ccnf_ref.Runtime.Bytes.{IsSha256, Collision}
use nexus_go_ccnf_ref.Pgv.{Node, Edge, Graph}
use nexus_go_ccnf_ref.Pgv.Validator.{paths}
use nexus_go_ccnf_ref.Pgv.Build.{
  sort_deps, sorted_nodes, path_less, build_graph, with_edges, edge_keys, split_keys,
  compute_ir_hash, edge_bytes,
}
use nexus_go_ccnf_ref.Pgv.Diff.{nul_terminated}
use nexus_go_ccnf_ref.Pgv.Build.Edges.{NulFree, NulFreePaths, has_edge, depends}
use nexus_go_ccnf_ref.Pgv.Build.Built.{IsGraphOf, build_graph-IsGraphOf, build_graph-nodes}
use nexus_go_ccnf_ref.Pgv.Build.Commitment.{
  IsAscending, IsIdentified, ends, compute_ir_hash_injective_or,
}

-- No path stands twice.
abbrev pub DistinctPaths : List Node → Type 0
DistinctPaths [] = Unit
DistinctPaths (n ∷ nodes) = (member n.import_path (paths nodes) ≡ false) × DistinctPaths nodes

insert_by-DistinctPaths :
    (n : Node) (l : List Node)
    → member n.import_path (paths l) ≡ false
    → DistinctPaths l
    → DistinctPaths (insert_by path_less n l)
unfolding insert_by member
insert_by-DistinctPaths n [] h k = (refl, tt)
insert_by-DistinctPaths n (m ∷ l) h k = elim (Bool-cases (path_less m n)) [
  | inr behind ↦ rw behind (h, k)
  | inl before ↦ rw before (
    ground (
      arith,
      member-insert_by path_less (λ z. z.import_path) m.import_path n l,
      k.0,
      h,
      text_eq_iff m.import_path n.import_path,
      text_eq_iff n.import_path m.import_path,
    ),
    insert_by-DistinctPaths n l (ground (arith, h)) k.1,
  )
]

sort_slice-DistinctPaths :
    (l : List Node) → DistinctPaths l → DistinctPaths (sort_slice path_less l)
unfolding sort_slice
sort_slice-DistinctPaths [] h = tt
sort_slice-DistinctPaths (n ∷ l) h =
    insert_by-DistinctPaths n (sort_slice path_less l)
      (member-sort_slice path_less (λ z. z.import_path) n.import_path l ∙ h.0)
      (sort_slice-DistinctPaths l h.1)

paths-sort_deps : (l : List Node) → paths (map sort_deps l) ≡ paths l
unfolding sort_deps
paths-sort_deps [] = refl
paths-sort_deps (n ∷ l) = ap (λ ps. n.import_path ∷ ps) (paths-sort_deps l)

sort_deps-DistinctPaths : (l : List Node) → DistinctPaths l → DistinctPaths (map sort_deps l)
unfolding sort_deps
sort_deps-DistinctPaths [] h = tt
sort_deps-DistinctPaths (n ∷ l) h =
    (ap (member n.import_path) (paths-sort_deps l) ∙ h.0, sort_deps-DistinctPaths l h.1)

less_paths :
    (n : Node) (l : List Node)
    → All (λ m. path_less m n ≡ false) l
    → member n.import_path (paths l) ≡ false
    → All (λ y. text_less n.import_path y ≡ true) (paths l)
unfolding member
less_paths n [] a h = tt
less_paths n (m ∷ l) a h = (
  ground (
    arith,
    a.0,
    h,
    text_leb_antisymm n.import_path m.import_path,
    text_eq_iff m.import_path n.import_path,
    text_leb_total n.import_path m.import_path,
  ),
  less_paths n l a.1 (ground (arith, h)),
)

paths-IsAscending :
    (l : List Node) → IsSortedBy path_less l → DistinctPaths l → IsAscending (paths l)
paths-IsAscending [] s d = tt
paths-IsAscending (n ∷ l) s d = (less_paths n l s.0 d.0, paths-IsAscending l s.1 d.1)

-- What holds of the ends of each edge that is found, holds of all edges.
All-has_edge {κ} :
    (P : Text → Text → Type κ) (edges : List Edge)
    → ((f t : Text) → has_edge f t edges ≡ true → P f t)
    → All (λ e. P e.source e.target) edges
unfolding has_edge
All-has_edge P [] h = tt
All-has_edge P (e ∷ edges) h = (
  h e.source e.target (rw (text_eq_refl e.source, text_eq_refl e.target) refl),
  All-has_edge P edges (λ f t k. h f t (ground (arith, k))),
)

All-member {κ} : (P : Text → Type κ) (x : Text) (l : List Text) → All P l → member x l ≡ true → P x
unfolding member
All-member P x [] a h = absurd (cc h)
All-member P x (y ∷ l) a h = elim (Bool-cases (text_eq y x)) [
  | inl same ↦ subst P ((text_eq_iff y x).0 same) a.0
  | inr other ↦ All-member P x l a.1 (rw other at h)
]

-- Paths and dependencies without a NUL.
abbrev pub NulFreeNodes : List Node → Type 0
NulFreeNodes nodes = All (λ n. NulFree n.import_path × All NulFree n.direct_deps) nodes

depends-NulFree :
    (nodes : List Node) (f t : Text)
    → NulFreeNodes nodes
    → depends nodes f t ≡ true
    → NulFree f × NulFree t × (member f (paths nodes) ≡ true)
unfolding depends member
depends-NulFree [] f t a h = absurd (cc h)
depends-NulFree (n ∷ nodes) f t a h =
    elim (Bool-cases (text_eq n.import_path f && member t n.direct_deps)) [
      | inl here ↦ (
        subst NulFree ((text_eq_iff n.import_path f).0 (ground (arith, here))) a.0.0,
        All-member NulFree t n.direct_deps a.0.1 (ground (arith, here)),
        ground (arith, here),
      )
      | inr later ↦
          let (free_f, free_t, m) = depends-NulFree nodes f t a.1 (rw later at h) in
          (free_f, free_t, ground (arith, m))
    ]

All-paths :
    (nodes : List Node) → NulFreeNodes nodes → NulFreePaths nodes × All NulFree (paths nodes)
All-paths [] h = (tt, tt)
All-paths (n ∷ nodes) h = let (a, b) = All-paths nodes h.1 in ((h.0.0, a), (h.0.0, b))

from_member {κ} :
    (P : Text → Type κ) (l : List Text) → ((x : Text) → member x l ≡ true → P x) → All P l
unfolding member
from_member P [] h = tt
from_member P (x ∷ l) h =
    (h x (rw (text_eq_refl x) refl), from_member P l (λ y m. h y (ground arith)))

-- What is known of the ends of an edge.
abbrev IsEdgeOf : List Node → Text → Text → Type 0
IsEdgeOf nodes f t = NulFree f × NulFree t × (member f (paths nodes) ≡ true)

ends_free :
    (nodes : List Node) (edges : List Edge)
    → All (λ e. IsEdgeOf nodes e.source e.target) edges
    → All NulFree (ends edges)
ends_free nodes [] h = tt
ends_free nodes (e ∷ edges) h = (h.0.0, (h.0.1, ends_free nodes edges h.1))

starts :
    (listed : List Text) (nodes : List Node) (edges : List Edge)
    → ((x : Text) → member x listed ≡ member x (paths nodes))
    → All (λ e. IsEdgeOf nodes e.source e.target) edges
    → All (λ e. member e.source listed ≡ true) edges
starts listed nodes [] same h = tt
starts listed nodes (e ∷ edges) same h = (same e.source ∙ h.0.2, starts listed nodes edges same h.1)

module _ (p : Platform) where
  member-sorted_nodes :
      (nodes : List Node) (x : Text)
      → member x (paths (sorted_nodes nodes)) ≡ member x (paths nodes)
  unfolding sorted_nodes
  member-sorted_nodes nodes x =
      ap (member x) (paths-sort_deps (sort_slice path_less nodes))
      ∙ member-sort_slice path_less (λ n. n.import_path) x nodes

  sorted_nodes-DistinctPaths :
      (nodes : List Node) → DistinctPaths nodes → DistinctPaths (sorted_nodes nodes)
  unfolding sorted_nodes
  sorted_nodes-DistinctPaths nodes h =
      sort_deps-DistinctPaths (sort_slice path_less nodes) (sort_slice-DistinctPaths nodes h)

  build_graph-hash :
      (nodes : List Node) (g : Graph)
      → build_graph p nodes ≡ some g
      → g.metadata.hash ≡ compute_ir_hash p g.nodes g.edges
  unfolding build_graph
  build_graph-hash nodes g e = made (split_keys (edge_keys (sorted_nodes nodes) [])) e
    where
      made :
          (o : Option (List Edge))
          → with_edges p (sorted_nodes nodes) o ≡ some g
          → g.metadata.hash ≡ compute_ir_hash p g.nodes g.edges
      made none h = cc h
      made (some edges) h =
          subst (λ z. z.metadata.hash ≡ compute_ir_hash p z.nodes z.edges) (some-injective _ g h)
            refl

  build_graph-IsIdentified :
      (nodes : List Node) (g : Graph)
      → DistinctPaths nodes
      → NulFreeNodes nodes
      → build_graph p nodes ≡ some g
      → IsIdentified g.nodes g.edges
  build_graph-IsIdentified nodes g d a e =
      let (g', e', made) = build_graph-IsGraphOf p nodes (All-paths nodes a).0 in
      let graph : IsGraphOf nodes g =
        subst (IsGraphOf nodes) (some-injective g' g (sym e' ∙ e)) made in
      let same : g.nodes ≡ sorted_nodes nodes = build_graph-nodes p nodes g e in
      let listed : (x : Text) → member x (paths g.nodes) ≡ member x (paths nodes) =
        λ x. ap (λ ns. member x (paths ns)) same ∙ member-sorted_nodes nodes x in
      let found : All (λ e. IsEdgeOf nodes e.source e.target) g.edges =
        All-has_edge (IsEdgeOf nodes) g.edges
          (λ f t h. depends-NulFree nodes f t a (sym (graph.exact f t) ∙ h)) in
      record {
        ascending =
            paths-IsAscending g.nodes graph.paths_sorted
              (subst DistinctPaths (sym same) (sorted_nodes-DistinctPaths nodes d));
        paths_free =
            from_member NulFree (paths g.nodes) (λ x m.
              All-member NulFree x (paths nodes) (All-paths nodes a).1 (sym (listed x) ∙ m));
        ends_free = ends_free nodes g.edges found;
        starts = starts (paths g.nodes) nodes g.edges listed found;
      }

  -- Where digests have 32 bytes, two graphs with one hash that `BuildGraph` makes of nodes with
  -- different paths, and without a NUL in paths and dependencies, have the same paths and the same
  -- edges, or the bytes hashed for them, the NUL-terminated paths followed by the NUL-terminated
  -- ends of the edges, are different and have the same SHA-256 digest.
  pub build_graph_injective_or :
      (ms ns : List Node) (g h : Graph)
      → IsSha256 p
      → DistinctPaths ms × NulFreeNodes ms
      → DistinctPaths ns × NulFreeNodes ns
      → build_graph p ms ≡ some g
      → build_graph p ns ≡ some h
      → g.metadata.hash ≡ h.metadata.hash
      → ((paths g.nodes ≡ paths h.nodes) × (g.edges ≡ h.edges))
        ⊎ Collision p
            (nul_terminated (paths g.nodes) ++ edge_bytes g.edges)
            (nul_terminated (paths h.nodes) ++ edge_bytes h.edges)
  build_graph_injective_or ms ns g h sha a b eg eh same =
      compute_ir_hash_injective_or p sha g.nodes h.nodes g.edges h.edges
        (build_graph-IsIdentified ms g a.0 a.1 eg) (build_graph-IsIdentified ns h b.0 b.1 eh)
        (sym (build_graph-hash ms g eg) ∙ same ∙ build_graph-hash ns h eh)
