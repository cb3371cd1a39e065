-- ===== src/Pgv/Search.antt =====
-- The two searches of tools/pgv/validator.go: `hasCycleDFS` and `bfsMaxDepth`. Both run on fuel, and
-- `none` is the fuel's end.
pub mod Walks
pub mod Topological
pub mod Dfs
pub mod Cycles
pub mod Depth
use nexus_go_ccnf_ref.Base.{
  ℕ, zero, suc, ◌+◌, Text, Bool, true, false, Option, none, some, List, [], ◌∷◌, ◌++◌,
  if◌then◌else◌, ltb,
}
use nexus_go_ccnf_ref.Base.Map.{or_nil, Map, lookup, set}
use nexus_go_ccnf_ref.Base.Sets.{member, delete}
use nexus_go_ccnf_ref.Pgv.{Edge}

-- `adj[k]`
unfoldable pub neighbors : Map (List Text) → Text → List Text
neighbors adj k = or_nil (lookup k adj)

-- `for _, e := range edges { adj[e.From] = append(adj[e.From], e.To) }`
unfoldable pub add_edges : Map (List Text) → List Edge → Map (List Text)
unfolding neighbors
add_edges adj [] = adj
add_edges adj (e ∷ edges) =
    add_edges (set e.source (neighbors adj e.source ++ (e.target ∷ [])) adj) edges

unfoldable pub adjacency : List Edge → Map (List Text)
adjacency edges = add_edges [] edges

-- The three sets of the search.
pub record Colors : Type 0 where
  pub white : List Text
  pub gray : List Text
  pub black : List Text

-- What a call has found, and the sets behind it.
abbrev pub Found : Type 0
Found = Option (Bool × Colors)

unfoldable pub enter : Text → Colors → Colors
enter node c = record { white = delete node c.white; gray = node ∷ c.gray; black = c.black }

unfoldable pub leave : Text → Colors → Colors
leave node c = record { white = c.white; gray = delete node c.gray; black = node ∷ c.black }

-- the body of the loop: a black neighbour is passed over, a gray one closes a cycle
unfoldable pub look : (Text → Colors → Found) → Text → Colors → Found
look visit next c =
    if member next c.black
    then some (false, c)
    else if member next c.gray
    then some (true, c)
    else visit next c

abbrev pub continue : Found → (Colors → Found) → Found
continue none rest = none
continue (some (true, c)) rest = some (true, c)
continue (some (false, c)) rest = rest c

unfoldable pub look_all : (Text → Colors → Found) → List Text → Colors → Found
unfolding look
look_all visit [] c = some (false, c)
look_all visit (next ∷ rest) c = continue (look visit next c) (look_all visit rest)

unfoldable pub has_cycle_dfs : ℕ → Map (List Text) → Text → Colors → Found
unfolding look_all neighbors enter leave
has_cycle_dfs zero adj node c = none
has_cycle_dfs (suc fuel) adj node c =
    continue (look_all (has_cycle_dfs fuel adj) (neighbors adj node) (enter node c))
      (λ d. some (false, leave node d))

-- A key that the loop over the white nodes comes to: `range` does not produce one that is deleted.
unfoldable pub search_from : ℕ → Map (List Text) → Text → Colors → Found
search_from fuel adj node c =
    if member node c.white then has_cycle_dfs fuel adj node c else some (false, c)

abbrev pub unless_found : Text → Found → (Colors → Option (Option Text)) → Option (Option Text)
unless_found node none rest = none
unless_found node (some (true, c)) rest = some (some node)
unless_found node (some (false, c)) rest = rest c

-- `for n := range white { … break }`: the node at which the search finds a cycle
unfoldable pub first_cycle : ℕ → Map (List Text) → List Text → Colors → Option (Option Text)
unfolding search_from
first_cycle fuel adj [] c = some none
first_cycle fuel adj (node ∷ nodes) c =
    unless_found node (search_from fuel adj node c) (first_cycle fuel adj nodes)

-- A depth, and the memo behind it.
abbrev pub Measured : Type 0
Measured = Option (ℕ × Map ℕ)

abbrev pub with_depth : Measured → (ℕ → Map ℕ → Measured) → Measured
with_depth none rest = none
with_depth (some (d, memo)) rest = rest d memo

abbrev pub larger : ℕ → ℕ → ℕ
larger max_d d = if ltb max_d d then d else max_d

-- the loop over the neighbours
unfoldable pub deepest : (Text → Map ℕ → Measured) → List Text → ℕ → Map ℕ → Measured
deepest depth [] max_d memo = some (max_d, memo)
deepest depth (next ∷ rest) max_d memo =
    with_depth (depth next memo) (λ d memo'. deepest depth rest (larger max_d (suc d)) memo')

abbrev pub memoized : Option ℕ → Map ℕ → Measured → Measured
memoized none memo m = m
memoized (some d) memo m = some (d, memo)

unfoldable pub bfs_max_depth : ℕ → Map (List Text) → Text → Map ℕ → Measured
unfolding deepest neighbors
bfs_max_depth zero adj start memo = none
bfs_max_depth (suc fuel) adj start memo = memoized (lookup start memo) memo (
    with_depth (deepest (bfs_max_depth fuel adj) (neighbors adj start) 0 memo)
      (λ max_d memo'. some (max_d, set start max_d memo')))
