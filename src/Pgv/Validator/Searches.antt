-- ===== src/Pgv/Validator/Searches.antt =====
-- `checkCycles` and `checkDepth` on the projection graph: what they answer, and when they end.
use nexus_go_ccnf_ref.Base.{
  ℕ, ◌≤◌, Text, text_eq_iff, Bool, true, false, Option, none, some, List, [], ◌∷◌, ◌≡◌, refl, ap,
  arith, ◌↔◌, length, length-map,
}
use nexus_go_ccnf_ref.Base.Sets.{member}
use nexus_go_ccnf_ref.Pgv.{Node, Edge}
use nexus_go_ccnf_ref.Pgv.Search.{adjacency, first_cycle}
use nexus_go_ccnf_ref.Pgv.Search.Walks.{IsNext, Cycle, targets, neighbors-adjacency}
use nexus_go_ccnf_ref.Pgv.Search.Cycles.{Decides, first_cycle_lem, not-Cycle}
use nexus_go_ccnf_ref.Pgv.Validator.{
  Violation, paths, edges_within, projection_edges, cycle_violations, cycle_outcome, check_cycles,
}

targets-edges_within :
    (s : List Text) (edges : List Edge) (x y : Text)
    → member y (targets (edges_within s edges) x) ≡ true
    → member y s ≡ true
unfolding edges_within member
targets-edges_within s [] x y h = cc
targets-edges_within s (e ∷ edges) x y h =
    ground (arith, targets-edges_within s edges x y, text_eq_iff e.target y)

module _ (edges : List Edge) (nodes : List Node) where
  abbrev pub ProjectionCycle : Type 0
  ProjectionCycle = Cycle (adjacency (projection_edges edges nodes))

  -- An edge of the projection graph ends at one of its nodes.
  pub closed :
      (x y : Text)
      → IsNext (adjacency (projection_edges edges nodes)) x y
      → member y (paths nodes) ≡ true
  unfolding projection_edges
  closed x y h =
      targets-edges_within (paths nodes) edges x y
        (rw (neighbors-adjacency (edges_within (paths nodes) edges) x) at h)

  -- What `checkCycles` answers.
  pub record CycleAnswer (fuel : ℕ) : Type 0 where
    pub found : Bool
    pub violations : List Violation
    pub ends : check_cycles fuel (projection_edges edges nodes) nodes ≡ some (found, violations)
    pub exact : (found ≡ true) ↔ ProjectionCycle
    pub reported : (violations ≡ []) ↔ (found ≡ false)

  CycleAnswer-Decides :
      (fuel : ℕ) (o : Option (Option Text))
      → first_cycle fuel
          (adjacency (projection_edges edges nodes))
          (paths nodes)
          (record { white = paths nodes; gray = []; black = [] })
        ≡ o
      → Decides (adjacency (projection_edges edges nodes)) (paths nodes) o
      → CycleAnswer fuel
  unfolding check_cycles
  CycleAnswer-Decides fuel none e d = absurd d
  CycleAnswer-Decides fuel (some (some node)) e d = record {
    found = true;
    violations = (cycle_violations (some node)).1;
    ends = ap cycle_outcome e;
    exact = (λ h. d, λ c. refl);
    reported = (λ h. cc h, λ h. cc h);
  }
  CycleAnswer-Decides fuel (some none) e d = record {
    found = false;
    violations = [];
    ends = ap cycle_outcome e;
    exact = (
      λ h. absurd (cc h),
      λ c. absurd (not-Cycle (adjacency (projection_edges edges nodes)) (paths nodes) closed d c),
    );
    reported = (λ h. refl, λ h. refl);
  }

  -- With fuel for every node `checkCycles` ends, and finds a cycle exactly if there is one.
  pub check_cycles_lem : (fuel : ℕ) → length nodes ≤ fuel → CycleAnswer fuel
  check_cycles_lem fuel enough = CycleAnswer-Decides fuel _ refl (
      first_cycle_lem (adjacency (projection_edges edges nodes)) (paths nodes) fuel closed
        (omega (arith, enough, length-map (λ n. n.import_path) nodes)))
