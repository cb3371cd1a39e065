-- ===== src/Pgv/Search/Walks.antt =====
-- Walks in an adjacency map, and the edges that the map is made of.
use nexus_go_ccnf_ref.Base.{
  ℕ, zero, suc, ◌+◌, Text, text_eq, text_eq_iff, true, List, [], ◌∷◌, ◌++◌, if◌then◌else◌, ◌≡◌, ap,
  ◌∙◌, sym, append-nil, append_assoc, arith,
}
use nexus_go_ccnf_ref.Base.Map.{Map, lookup, set, lookup-set}
use nexus_go_ccnf_ref.Base.Sets.{member}
use nexus_go_ccnf_ref.Pgv.{Edge}
use nexus_go_ccnf_ref.Pgv.Search.{neighbors, add_edges, adjacency}

abbrev pub IsNext : Map (List Text) → Text → Text → Type 0
IsNext adj x y = member y (neighbors adj x) ≡ true

-- The walks of a length.
pub data Walk (adj : Map (List Text)) (x : Text) : ℕ → Text → Type 0 where
  here : Walk adj x zero x
  then_to : {n : ℕ} {y z : Text} → Walk adj x n y → IsNext adj y z → Walk adj x (suc n) z

-- A walk of one step or more from a node back to it.
pub record Cycle (adj : Map (List Text)) : Type 0 where
  pub node : Text
  pub size : ℕ
  pub walk : Walk adj node (suc size) node

pub Walk-append :
    {adj : Map (List Text)} {x y z : Text} {m n : ℕ}
    → Walk adj x m y
    → Walk adj y n z
    → (l : ℕ) × (l ≡ m + n) × Walk adj x l z
Walk-append {m = m} w here = (m, omega arith, w)
Walk-append w (then_to v e) =
    let (l, size, u) = Walk-append w v in (suc l, omega (arith, size), then_to u e)

pub first_step :
    {adj : Map (List Text)} {x z : Text} {n : ℕ}
    → Walk adj x (suc n) z
    → (y : Text) × IsNext adj x y × Walk adj y n z
first_step (then_to here e) = (_, e, here)
first_step (then_to (then_to w d) e) =
    let (y, first, rest) = first_step (then_to w d) in (y, first, then_to rest e)

-- The targets of the edges from a node, in the order of the edges.
abbrev pub targets : List Edge → Text → List Text
targets [] k = []
targets (e ∷ edges) k =
    let rest = targets edges k in if text_eq e.source k then e.target ∷ rest else rest

neighbors-set :
    (f k : Text) (xs : List Text) (adj : Map (List Text))
    → neighbors (set f xs adj) k ≡ (if text_eq f k then xs else neighbors adj k)
unfolding neighbors
neighbors-set f k xs adj = rw (lookup-set k f xs adj) (ground arith)

neighbors-add_edges :
    (edges : List Edge) (adj : Map (List Text)) (k : Text)
    → neighbors (add_edges adj edges) k ≡ neighbors adj k ++ targets edges k
unfolding add_edges
neighbors-add_edges [] adj k = sym (append-nil (neighbors adj k))
neighbors-add_edges (e ∷ edges) adj k =
    neighbors-add_edges edges (set e.source (neighbors adj e.source ++ (e.target ∷ [])) adj) k
    ∙ ap (λ xs. xs ++ targets edges k)
        (neighbors-set e.source k (neighbors adj e.source ++ (e.target ∷ [])) adj)
    ∙ ground (
      arith,
      text_eq_iff e.source k,
      append_assoc (neighbors adj k) (e.target ∷ []) (targets edges k),
    )

pub neighbors-adjacency :
    (edges : List Edge) (k : Text) → neighbors (adjacency edges) k ≡ targets edges k
unfolding adjacency neighbors lookup
neighbors-adjacency edges k = neighbors-add_edges edges [] k
