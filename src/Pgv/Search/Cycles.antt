-- ===== src/Pgv/Search/Cycles.antt =====
-- The search over the nodes finds a cycle exactly if there is one.
use mathlib.Core.Path.{subst}
use nexus_go_ccnf_ref.Base.{
  ℕ, suc, ◌≤◌, Text, text_eq, text_eq_iff, true, false, Bool-cases, Option, none, some, List, [],
  ◌∷◌, ◌≡◌, refl, ◌∙◌, arith, ◌⊎◌, inl, inr, length,
}
use nexus_go_ccnf_ref.Base.Map.{Map}
use nexus_go_ccnf_ref.Base.Sets.{member, missing, missing-le, missing-nil}
use nexus_go_ccnf_ref.Pgv.Search.{
  Colors, Found, has_cycle_dfs, search_from, unless_found, first_cycle,
}
use nexus_go_ccnf_ref.Pgv.Search.Walks.{IsNext, Walk, then_to, Cycle}
use nexus_go_ccnf_ref.Pgv.Search.Topological.{
  IsTopological, acyclic-IsTopological, member-head, member-tail,
}
use nexus_go_ccnf_ref.Pgv.Search.Dfs.{Answers, IsReady, Passed, Answers-has_cycle_dfs}

module _ (adj : Map (List Text)) where
  -- Between two calls no node is gray.
  record IsIdle (u : List Text) (nodes : List Text) (c : Colors) : Type 0 where
    gray : (k : Text) → member k c.gray ≡ false
    seen :
        (k : Text)
        → member k u ≡ true
        → (member k nodes ≡ true) × (member k c.white ≡ true) ⊎ (member k c.black ≡ true)
    ordered : IsTopological adj c.black

  -- An order of the nodes in which each has its successors behind it.
  pub record IsOrdered (u : List Text) : Type 0 where
    pub order : List Text
    pub topological : IsTopological adj order
    pub covers : (k : Text) → member k u ≡ true → member k order ≡ true

  -- What the loop answers: a node where there is a cycle, and nothing where the nodes have an order.
  abbrev pub Decides : List Text → Option (Option Text) → Type 0
  Decides u none = ⊥
  Decides u (some (some node)) = Cycle adj
  Decides u (some none) = IsOrdered u

  Decides-unless_found :
      (u : List Text) (P : Colors → Type 0) (node : Text) (m : Found)
      (rest : Colors → Option (Option Text))
      → Answers adj P m
      → ((d : Colors) → P d → Decides u (rest d))
      → Decides u (unless_found node m rest)
  Decides-unless_found u P node none rest h f = h
  Decides-unless_found u P node (some (true, d)) rest h f = h
  Decides-unless_found u P node (some (false, d)) rest h f = f d h

  IsIdle-Passed :
      (u : List Text) (node : Text) (nodes : List Text) (c d : Colors)
      → IsIdle u (node ∷ nodes) c
      → Passed adj node c d
      → IsIdle u nodes d
  unfolding member
  IsIdle-Passed u node nodes c d h p = record {
    gray = λ k. p.kept.gray k ∙ h.gray k;
    seen = λ k m. elim (h.seen k m) [
      | inr done ↦ inr (p.kept.black k done)
      | inl (listed, white) ↦ elim (Bool-cases (text_eq node k)) [
        | inl same ↦
            inr (subst (λ z. member z d.black ≡ true) ((text_eq_iff node k).0 same) p.reached)
        | inr other ↦ elim (p.kept.white k white) [
          | inl still ↦ inl (rw other at listed, still)
          | inr done ↦ inr done
        ]
      ]
    ];
    ordered = p.kept.ordered;
  }

  IsIdle-skip :
      (u : List Text) (node : Text) (nodes : List Text) (c : Colors)
      → member node c.white ≡ false
      → IsIdle u (node ∷ nodes) c
      → IsIdle u nodes c
  unfolding member
  IsIdle-skip u node nodes c e h = record {
    gray = h.gray;
    seen = λ k m. ground (arith, h.seen k m, text_eq_iff node k, e);
    ordered = h.ordered;
  }

  module _ (u : List Text) (closed : (x y : Text) → IsNext adj x y → member y u ≡ true) (fuel : ℕ)
      (enough : missing u [] ≤ fuel) where
    IsReady-IsIdle :
        (node : Text) (nodes : List Text) (c : Colors)
        → member node u ≡ true
        → IsIdle u nodes c
        → IsReady adj u fuel node c
    IsReady-IsIdle node nodes c m h = record {
      path = record {
        leads = λ g gray. absurd (cc (gray, h.gray g));
        ordered = h.ordered;
        fuelled = omega (arith, missing-le u [] c.gray (λ k e. unfold member in cc e), enough);
      };
      listed = m;
      fresh = h.gray node;
    }

    Decides-first_cycle :
        (nodes : List Text) (c : Colors)
        → ((k : Text) → member k nodes ≡ true → member k u ≡ true)
        → IsIdle u nodes c
        → Decides u (first_cycle fuel adj nodes c)
    unfolding first_cycle search_from
    Decides-first_cycle [] c i h = record {
      order = c.black;
      topological = h.ordered;
      covers = λ k m. elim (h.seen k m) [
        | inl (none_left, w) ↦ unfold member in cc none_left
        | inr b ↦ b
      ];
    }
    Decides-first_cycle (node ∷ nodes) c i h = elim (Bool-cases (member node c.white)) [
      | inl white ↦ rw white (
          Decides-unless_found u (Passed adj node c) node (has_cycle_dfs fuel adj node c)
            (first_cycle fuel adj nodes)
            (Answers-has_cycle_dfs adj u closed fuel node c
              (IsReady-IsIdle node (node ∷ nodes) c (i node (member-head node nodes)) h))
            (λ d p.
              Decides-first_cycle nodes d (λ k m. i k (member-tail k node nodes m))
                (IsIdle-Passed u node nodes c d h p)))
      | inr passed ↦ rw passed (
          Decides-first_cycle nodes c (λ k m. i k (member-tail k node nodes m))
            (IsIdle-skip u node nodes c passed h))
    ]

  pub last_node :
      (u : List Text)
      → ((x y : Text) → IsNext adj x y → member y u ≡ true)
      → (c : Cycle adj) → member c.node u ≡ true
  last_node u closed c = last c.walk
    where
      last : {x z : Text} {n : ℕ} → Walk adj x (suc n) z → member z u ≡ true
      last (then_to w e) = closed _ _ e

  -- Where the nodes have an order there is no cycle.
  pub not-Cycle :
      (u : List Text)
      → ((x y : Text) → IsNext adj x y → member y u ≡ true)
      → IsOrdered u
      → ¬ Cycle adj
  not-Cycle u closed o c =
      acyclic-IsTopological adj o.order c o.topological (o.covers c.node (last_node u closed c))

  -- The search over nodes that hold every target ends within one call for each, and finds a cycle
  -- exactly if there is one.
  pub first_cycle_lem :
      (u : List Text) (fuel : ℕ)
      → ((x y : Text) → IsNext adj x y → member y u ≡ true)
      → length u ≤ fuel
      → Decides u (first_cycle fuel adj u (record { white = u; gray = []; black = [] }))
  first_cycle_lem u fuel closed enough =
      Decides-first_cycle u closed fuel (omega (arith, missing-nil u, enough)) u _ (λ k m. m)
        (unfold member in record { gray = λ k. refl; seen = λ k m. inl (m, m); ordered = tt })
