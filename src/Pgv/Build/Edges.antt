-- ===== src/Pgv/Build/Edges.antt =====
-- The keys that `BuildGraph` collects: one for each dependency of a node.
use nexus_go_ccnf_ref.Base.{
  Text, text_eq, text_eq_iff, Bool, false, ◌&&◌, ◌||◌, ◌==◌, Bool-cases, some, List, [], ◌∷◌, map,
  ◌≡◌, refl, ap, ◌∙◌, arith, inl, inr, All,
}
use nexus_go_ccnf_ref.Base.Sets.{member}
use nexus_go_ccnf_ref.Pgv.{Node, Edge}
use nexus_go_ccnf_ref.Pgv.Build.{
  edge_key, add_key, add_deps, edge_keys, push_front, split_key, split_keys,
}

-- A text without a NUL.
abbrev pub NulFree : Text → Type 0
NulFree [] = Unit
NulFree (c ∷ s) = ((c == 0) ≡ false) × NulFree s

unfoldable pub has_edge : Text → Text → List Edge → Bool
has_edge f t [] = false
has_edge f t (e ∷ edges) = text_eq e.source f && text_eq e.target t || has_edge f t edges

abbrev pub key : Edge → Text
key e = edge_key e.source e.target

text_eq-edge_key :
    (f g t u : Text)
    → NulFree f
    → NulFree g
    → text_eq (edge_key f t) (edge_key g u) ≡ (text_eq f g && text_eq t u)
unfolding text_eq
text_eq-edge_key [] [] t u a b = ground arith
text_eq-edge_key [] (d ∷ g) t u a b = ground (arith, b.0)
text_eq-edge_key (c ∷ f) [] t u a b = ground (arith, a.0)
text_eq-edge_key (c ∷ f) (d ∷ g) t u a b = ground (arith, text_eq-edge_key f g t u a.1 b.1)

split_key-edge_key :
    (f t : Text) → NulFree f → split_key (edge_key f t) ≡ some (record { source = f; target = t })
unfolding split_key
split_key-edge_key [] t a = refl
split_key-edge_key (c ∷ f) t a = rw a.0 (ap (push_front c) (split_key-edge_key f t a.1))

abbrev pub Sources : List Edge → Type 0
Sources edges = All (λ e. NulFree e.source) edges

member-key :
    (f t : Text) (edges : List Edge)
    → NulFree f
    → Sources edges
    → member (edge_key f t) (map key edges) ≡ has_edge f t edges
unfolding member has_edge
member-key f t [] a h = refl
member-key f t (e ∷ edges) a h =
    rw (text_eq-edge_key e.source f e.target t h.0 a, member-key f t edges a h.1) refl

pub split_keys-key : (edges : List Edge) → Sources edges → split_keys (map key edges) ≡ some edges
unfolding split_keys
split_keys-key [] h = refl
split_keys-key (e ∷ edges) h =
    rw (split_key-edge_key e.source e.target h.0, split_keys-key edges h.1) refl

-- No edge stands twice.
abbrev pub Distinct : List Edge → Type 0
Distinct [] = Unit
Distinct (e ∷ edges) = (has_edge e.source e.target edges ≡ false) × Distinct edges

-- The set of keys, as edges.
pub record IsEdgeSet (keys : List Text) (is_edge : Text → Text → Bool) : Type 0 where
  pub edges : List Edge
  pub keyed : keys ≡ map key edges
  pub sources : Sources edges
  pub distinct : Distinct edges
  pub exact : (f t : Text) → has_edge f t edges ≡ is_edge f t

IsEdgeSet-add_key :
    (f t : Text) (keys : List Text) (is_edge : Text → Text → Bool)
    → NulFree f
    → IsEdgeSet keys is_edge
    → IsEdgeSet (add_key (edge_key f t) keys) (λ g u. text_eq f g && text_eq t u || is_edge g u)
unfolding add_key has_edge
IsEdgeSet-add_key f t keys is_edge a h =
    let there = ap (member (edge_key f t)) h.keyed ∙ member-key f t h.edges a h.sources in
    elim (Bool-cases (has_edge f t h.edges)) [
      | inl old ↦
          rw (there, old)
            (record {
              edges = h.edges;
              keyed = h.keyed;
              sources = h.sources;
              distinct = h.distinct;
              exact = λ g u.
                  ground (arith, h.exact g u, h.exact f t, old, text_eq_iff f g, text_eq_iff t u);
            })
      | inr new ↦
          rw (there, new)
            (record {
              edges = record { source = f; target = t } ∷ h.edges;
              keyed = ap (λ ks. edge_key f t ∷ ks) h.keyed;
              sources = (a, h.sources);
              distinct = (new, h.distinct);
              exact = λ g u. ground (arith, h.exact g u);
            })
    ]

IsEdgeSet-same :
    (keys : List Text) (is_edge is_edge' : Text → Text → Bool)
    → ((f t : Text) → is_edge f t ≡ is_edge' f t)
    → IsEdgeSet keys is_edge
    → IsEdgeSet keys is_edge'
IsEdgeSet-same keys is_edge is_edge' same h = record {
  edges = h.edges;
  keyed = h.keyed;
  sources = h.sources;
  distinct = h.distinct;
  exact = λ f t. h.exact f t ∙ same f t;
}

IsEdgeSet-add_deps :
    (path : Text) (deps : List Text) (keys : List Text) (is_edge : Text → Text → Bool)
    → NulFree path
    → IsEdgeSet keys is_edge
    → IsEdgeSet (add_deps path deps keys) (λ f t. text_eq path f && member t deps || is_edge f t)
unfolding add_deps member
IsEdgeSet-add_deps path [] keys is_edge a h = IsEdgeSet-same keys is_edge _ (λ f t. ground arith) h
IsEdgeSet-add_deps path (dep ∷ deps) keys is_edge a h =
    IsEdgeSet-same (add_deps path deps (add_key (edge_key path dep) keys)) _ _ (λ f t. ground arith)
      (IsEdgeSet-add_deps path deps (add_key (edge_key path dep) keys) _ a
        (IsEdgeSet-add_key path dep keys is_edge a h))

-- A node of the path depends on the target.
unfoldable pub depends : List Node → Text → Text → Bool
depends [] f t = false
depends (n ∷ nodes) f t = text_eq n.import_path f && member t n.direct_deps || depends nodes f t

abbrev pub NulFreePaths : List Node → Type 0
NulFreePaths nodes = All (λ n. NulFree n.import_path) nodes

pub IsEdgeSet-edge_keys :
    (nodes : List Node) (keys : List Text) (is_edge : Text → Text → Bool)
    → NulFreePaths nodes
    → IsEdgeSet keys is_edge
    → IsEdgeSet (edge_keys nodes keys) (λ f t. depends nodes f t || is_edge f t)
unfolding edge_keys depends
IsEdgeSet-edge_keys [] keys is_edge a h = IsEdgeSet-same keys is_edge _ (λ f t. refl) h
IsEdgeSet-edge_keys (n ∷ nodes) keys is_edge a h =
    IsEdgeSet-same (edge_keys nodes (add_deps n.import_path n.direct_deps keys)) _ _
      (λ f t. ground arith)
      (IsEdgeSet-edge_keys nodes (add_deps n.import_path n.direct_deps keys) _ a.1
        (IsEdgeSet-add_deps n.import_path n.direct_deps keys is_edge a.0 h))
