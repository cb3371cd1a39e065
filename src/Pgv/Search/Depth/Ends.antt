-- ===== src/Pgv/Search/Depth/Ends.antt =====
-- `bfsMaxDepth` ends on nodes that have an order.
use mathlib.Core.Path.{subst}
use nexus_go_ccnf_ref.Base.{
  ℕ, zero, suc, ◌≤◌, Text, text_eq, text_eq_iff, text_eq_refl, true, Bool-cases, Option, none, some,
  List, [], ◌∷◌, ◌≡◌, refl, sym, arith, inl, inr, length,
}
use nexus_go_ccnf_ref.Base.Map.{Map, lookup, set}
use nexus_go_ccnf_ref.Base.Sets.{member}
use nexus_go_ccnf_ref.Pgv.Search.{
  neighbors, Measured, with_depth, larger, deepest, memoized, bfs_max_depth,
}
use nexus_go_ccnf_ref.Pgv.Search.Walks.{IsNext}
use nexus_go_ccnf_ref.Pgv.Search.Topological.{IsTopological}

abbrev pub Ends : Measured → Type 0
Ends m = (d : ℕ) × (memo : Map ℕ) × (m ≡ some (d, memo))

Ends-deepest :
    (depth : Text → Map ℕ → Measured) (nodes : List Text) (max_d : ℕ) (memo : Map ℕ)
    → ((y : Text) → member y nodes ≡ true → (memo' : Map ℕ) → Ends (depth y memo'))
    → Ends (deepest depth nodes max_d memo)
unfolding deepest member
Ends-deepest depth [] max_d memo h = (max_d, memo, refl)
Ends-deepest depth (next ∷ nodes) max_d memo h =
    let (d, memo', e) = h next (rw (text_eq_refl next) refl) memo in
    rw e (Ends-deepest depth nodes (larger max_d (suc d)) memo' (λ y m. h y (ground arith)))

Ends-memoized : (o : Option ℕ) (memo : Map ℕ) (m : Measured) → Ends m → Ends (memoized o memo m)
Ends-memoized none memo m h = h
Ends-memoized (some d) memo m h = (d, memo, refl)

Ends-with_depth :
    (m : Measured) (rest : ℕ → Map ℕ → Measured)
    → Ends m
    → ((d : ℕ) (memo : Map ℕ) → Ends (rest d memo))
    → Ends (with_depth m rest)
Ends-with_depth m rest (d, memo, e) h = rw e (h d memo)

module _ (adj : Map (List Text)) where
  -- Fuel for the nodes in their order is enough.
  pub Ends-bfs_max_depth :
      (order : List Text) (fuel : ℕ) (x : Text) (memo : Map ℕ)
      → IsTopological adj order
      → member x order ≡ true
      → length order ≤ fuel
      → Ends (bfs_max_depth fuel adj x memo)
  unfolding bfs_max_depth member
  Ends-bfs_max_depth [] fuel x memo t m h = cc m
  Ends-bfs_max_depth (b ∷ bs) zero x memo t m h = absurd (omega (arith, h))
  Ends-bfs_max_depth (b ∷ bs) (suc fuel) x memo t m h = elim (Bool-cases (text_eq b x)) [
    | inr other ↦ Ends-bfs_max_depth bs (suc fuel) x memo t.1 (rw other at m) (omega (arith, h))
    | inl same ↦ Ends-memoized (lookup x memo) memo _ (
        Ends-with_depth (deepest (bfs_max_depth fuel adj) (neighbors adj x) 0 memo) _
          (Ends-deepest (bfs_max_depth fuel adj) (neighbors adj x) 0 memo (λ y e memo'.
            Ends-bfs_max_depth bs fuel y memo' t.1
              (t.0 y (subst (λ z. IsNext adj z y) (sym ((text_eq_iff b x).0 same)) e))
              (omega (arith, h))))
          (λ d memo'. (d, set x d memo', refl)))
  ]
