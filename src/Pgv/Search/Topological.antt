-- ===== src/Pgv/Search/Topological.antt =====
-- Orders of nodes in which each has its successors behind it.
use mathlib.Core.Path.{subst}
use nexus_go_ccnf_ref.Base.{
  ℕ, Text, text_eq, text_eq_iff, text_eq_refl, true, Bool-cases, List, [], ◌∷◌, ◌≡◌, refl, sym,
  arith, inl, inr,
}
use nexus_go_ccnf_ref.Base.Map.{Map}
use nexus_go_ccnf_ref.Base.Sets.{member}
use nexus_go_ccnf_ref.Pgv.Search.Walks.{IsNext, Walk, here, then_to, Cycle, first_step}

pub member-head : (b : Text) (bs : List Text) → member b (b ∷ bs) ≡ true
unfolding member
member-head b bs = rw (text_eq_refl b) refl

pub member-tail : (k b : Text) (bs : List Text) → member k bs ≡ true → member k (b ∷ bs) ≡ true
unfolding member
member-tail k b bs h = ground arith

module _ (adj : Map (List Text)) where
  -- Each node of the list has its successors behind it.
  abbrev pub IsTopological : List Text → Type 0
  IsTopological [] = Unit
  IsTopological (b ∷ bs) = ((y : Text) → IsNext adj b y → member y bs ≡ true) × IsTopological bs

  pub next-IsTopological :
      (l : List Text) (x y : Text)
      → IsTopological l
      → member x l ≡ true
      → IsNext adj x y
      → member y l ≡ true
  unfolding member
  next-IsTopological [] x y t h e = cc
  next-IsTopological (b ∷ bs) x y t h e = elim (Bool-cases (text_eq b x)) [
    | inl same ↦
        member-tail y b bs (t.0 y (subst (λ z. IsNext adj z y) (sym ((text_eq_iff b x).0 same)) e))
    | inr other ↦ member-tail y b bs (next-IsTopological bs x y t.1 (rw other at h) e)
  ]

  pub Walk-IsTopological :
      (l : List Text) {x y : Text} {n : ℕ}
      → IsTopological l
      → member x l ≡ true
      → Walk adj x n y
      → member y l ≡ true
  Walk-IsTopological l t h here = h
  Walk-IsTopological l t h (then_to w e) = next-IsTopological l _ _ t (Walk-IsTopological l t h w) e

  -- Such a list holds no node of a cycle.
  pub acyclic-IsTopological :
      (l : List Text) (c : Cycle adj) → IsTopological l → member c.node l ≡ true → ⊥
  unfolding member
  acyclic-IsTopological [] c t h = cc
  acyclic-IsTopological (b ∷ bs) c t h = elim (Bool-cases (text_eq b c.node)) [
    | inr other ↦ acyclic-IsTopological bs c t.1 (rw other at h)
    | inl same ↦
        let (y, e, rest) = first_step c.walk in
        acyclic-IsTopological bs c t.1 (
          Walk-IsTopological bs t.1
            (t.0 y (subst (λ z. IsNext adj z y) (sym ((text_eq_iff b c.node).0 same)) e)) rest)
  ]
