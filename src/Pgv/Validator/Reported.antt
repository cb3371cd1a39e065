-- ===== src/Pgv/Validator/Reported.antt =====
-- Which nodes have a depth violation in a list of violations, and that only `checkDepth` lists one.
use nexus_go_ccnf_ref.Base.{
  ℕ, Text, text_eq, Bool, true, false, ◌&&◌, ◌||◌, Option, none, some, List, [], ◌∷◌, ◌++◌, ltb,
  ◌≡◌, refl, arith,
}
use nexus_go_ccnf_ref.Base.Map.{Map, lookup}
use nexus_go_ccnf_ref.Pgv.{Node, Edge}
use nexus_go_ccnf_ref.Pgv.Validator.{
  ViolationCode, depth_exceeded, Violation, Config, DeclaredDeps, depth_violations,
  check_cross_import, check_backflow, forbidden_among, check_p10a_forbidden, undeclared_of,
  check_p10b_allowlist, declared_of, declared_loop, declared_map, check_p10b_declared,
  declared_violations,
}

abbrev is_depth : ViolationCode → Bool
is_depth depth_exceeded = true
is_depth _ = false

-- Some violation has the code of the depth and this node.
unfoldable pub depth_at : Text → List Violation → Bool
depth_at x [] = false
depth_at x (v ∷ vs) = (is_depth v.code && text_eq v.node x) || depth_at x vs

pub depth_at-append :
    (x : Text) (vs ws : List Violation) → depth_at x (vs ++ ws) ≡ (depth_at x vs || depth_at x ws)
unfolding depth_at
depth_at-append x [] ws = refl
depth_at-append x (v ∷ vs) ws = ground (arith, depth_at-append x vs ws)

pub depth_at-depth_violations :
    (x path : Text) (d : ℕ) → depth_at x (depth_violations path d) ≡ (ltb 1 d && text_eq path x)
unfolding depth_at depth_violations
depth_at-depth_violations x path d = ground arith

pub depth_at-check_cross_import :
    (x : Text) (edges : List Edge) → depth_at x (check_cross_import edges) ≡ false
unfolding depth_at check_cross_import
depth_at-check_cross_import x [] = refl
depth_at-check_cross_import x (e ∷ edges) = depth_at-check_cross_import x edges

pub depth_at-check_backflow :
    (x : Text) (edges : List Edge) → depth_at x (check_backflow edges) ≡ false
unfolding depth_at check_backflow
depth_at-check_backflow x [] = refl
depth_at-check_backflow x (e ∷ edges) = depth_at-check_backflow x edges

depth_at-forbidden_among :
    (x : Text) (roots proj_set : List Text) (edges : List Edge)
    → depth_at x (forbidden_among roots proj_set edges) ≡ false
unfolding depth_at forbidden_among
depth_at-forbidden_among x roots proj_set [] = refl
depth_at-forbidden_among x roots proj_set (e ∷ edges) =
    ground (arith, depth_at-forbidden_among x roots proj_set edges)

pub depth_at-check_p10a_forbidden :
    (x : Text) (edges : List Edge) (roots : List Text) (nodes : List Node)
    → depth_at x (check_p10a_forbidden edges roots nodes) ≡ false
unfolding check_p10a_forbidden
depth_at-check_p10a_forbidden x edges roots nodes = depth_at-forbidden_among x roots _ edges

depth_at-undeclared_of :
    (x : Text) (cfg : Config) (path : Text) (deps : List Text)
    → depth_at x (undeclared_of cfg path deps) ≡ false
unfolding depth_at undeclared_of
depth_at-undeclared_of x cfg path [] = refl
depth_at-undeclared_of x cfg path (dep ∷ deps) =
    ground (arith, depth_at-undeclared_of x cfg path deps)

pub depth_at-check_p10b_allowlist :
    (x : Text) (nodes : List Node) (cfg : Config)
    → depth_at x (check_p10b_allowlist nodes cfg) ≡ false
unfolding depth_at check_p10b_allowlist
depth_at-check_p10b_allowlist x [] cfg = refl
depth_at-check_p10b_allowlist x (n ∷ nodes) cfg =
    rw
      (
        depth_at-append x (undeclared_of cfg n.import_path n.direct_deps)
            (check_p10b_allowlist nodes cfg),
        depth_at-undeclared_of x cfg n.import_path n.direct_deps,
      )
      (depth_at-check_p10b_allowlist x nodes cfg)

depth_at-declared_of :
    (x : Text) (n : Node) (expected : Option (List Text))
    → depth_at x (declared_of n expected) ≡ false
unfolding depth_at declared_of
depth_at-declared_of x n none = refl
depth_at-declared_of x n (some expected) = ground arith

depth_at-declared_loop :
    (x : Text) (declared : Map (List Text)) (nodes : List Node)
    → depth_at x (declared_loop declared nodes) ≡ false
unfolding depth_at declared_loop
depth_at-declared_loop x declared [] = refl
depth_at-declared_loop x declared (n ∷ nodes) = ground (
  arith,
  depth_at-append x (declared_of n (lookup n.import_path declared)) (declared_loop declared nodes),
  depth_at-declared_of x n (lookup n.import_path declared),
  depth_at-declared_loop x declared nodes,
)

pub depth_at-declared_violations :
    (x : Text) (nodes : List Node) (declared : Option (List DeclaredDeps))
    → depth_at x (declared_violations nodes declared) ≡ false
unfolding depth_at check_p10b_declared
depth_at-declared_violations x nodes none = refl
depth_at-declared_violations x nodes (some ds) = depth_at-declared_loop x (declared_map [] ds) nodes
