-- ===== src/Pgv/Build/Order.antt =====
-- The order of the edges that `BuildGraph` makes.
use nexus_go_ccnf_ref.Base.{
  Text, text_eq, text_eq_iff, text_leb_total, text_leb_antisymm, Bool, true, false, ◌&&◌, ◌||◌,
  Bool-cases, List, [], ◌∷◌, map, ◌≡◌, refl, ap₂, ◌∙◌, arith, inl, inr, All,
}
use nexus_go_ccnf_ref.Base.Sets.{member}
use nexus_go_ccnf_ref.Base.SortBy.{insert_by, sort_slice, member-sort_strings, IsSortedBy}
use nexus_go_ccnf_ref.Pgv.{Node, Edge}
use nexus_go_ccnf_ref.Pgv.Build.{sort_deps, edge_less}
use nexus_go_ccnf_ref.Pgv.Build.Edges.{has_edge, depends, Distinct}

has_edge-insert_by :
    (f t : Text) (e : Edge) (l : List Edge)
    → has_edge f t (insert_by edge_less e l)
      ≡ (text_eq e.source f && text_eq e.target t || has_edge f t l)
unfolding insert_by has_edge
has_edge-insert_by f t e [] = refl
has_edge-insert_by f t e (d ∷ l) = ground (arith, has_edge-insert_by f t e l)

pub has_edge-sort_slice :
    (f t : Text) (l : List Edge) → has_edge f t (sort_slice edge_less l) ≡ has_edge f t l
unfolding sort_slice has_edge
has_edge-sort_slice f t [] = refl
has_edge-sort_slice f t (e ∷ l) =
    ground (arith, has_edge-insert_by f t e (sort_slice edge_less l), has_edge-sort_slice f t l)

-- Each edge is less than those behind it.
abbrev pub IsStrict : List Edge → Type 0
IsStrict [] = Unit
IsStrict (e ∷ edges) = All (λ d. edge_less e d ≡ true) edges × IsStrict edges

insert_by-Distinct :
    (e : Edge) (l : List Edge)
    → has_edge e.source e.target l ≡ false
    → Distinct l
    → Distinct (insert_by edge_less e l)
unfolding insert_by has_edge
insert_by-Distinct e [] h k = (refl, tt)
insert_by-Distinct e (d ∷ l) h k = elim (Bool-cases (edge_less d e)) [
  | inr behind ↦ rw behind (h, k)
  | inl before ↦ rw before (
    ground (
      arith,
      has_edge-insert_by d.source d.target e l,
      k.0,
      h,
      text_eq_iff d.source e.source,
      text_eq_iff d.target e.target,
      text_eq_iff e.source d.source,
      text_eq_iff e.target d.target,
    ),
    insert_by-Distinct e l (ground (arith, h)) k.1,
  )
]

pub sort_slice-Distinct : (l : List Edge) → Distinct l → Distinct (sort_slice edge_less l)
unfolding sort_slice
sort_slice-Distinct [] h = tt
sort_slice-Distinct (e ∷ l) h =
    insert_by-Distinct e (sort_slice edge_less l) (has_edge-sort_slice e.source e.target l ∙ h.0)
      (sort_slice-Distinct l h.1)

-- Of two different edges one is less.
edge_less-total :
    (e d : Edge)
    → edge_less d e ≡ false
    → (text_eq d.source e.source && text_eq d.target e.target) ≡ false
    → edge_less e d ≡ true
edge_less-total e d h k = ground (
  arith,
  text_leb_total e.source d.source,
  text_leb_antisymm e.source d.source,
  text_leb_total e.target d.target,
  text_leb_antisymm e.target d.target,
  text_eq_iff d.source e.source,
  text_eq_iff e.source d.source,
  text_eq_iff d.target e.target,
  h,
  k,
)

All-less :
    (e : Edge) (l : List Edge)
    → All (λ d. edge_less d e ≡ false) l
    → has_edge e.source e.target l ≡ false
    → All (λ d. edge_less e d ≡ true) l
unfolding has_edge
All-less e [] h k = tt
All-less e (d ∷ l) h k =
    (edge_less-total e d h.0 (ground (arith, k)), All-less e l h.1 (ground (arith, k)))

pub IsStrict-Distinct : (l : List Edge) → IsSortedBy edge_less l → Distinct l → IsStrict l
IsStrict-Distinct [] h k = tt
IsStrict-Distinct (e ∷ l) h k = (All-less e l h.0 k.0, IsStrict-Distinct l h.1 k.1)

depends-insert_by :
    (f t : Text) (less : Node → Node → Bool) (n : Node) (l : List Node)
    → depends (insert_by less n l) f t
      ≡ (text_eq n.import_path f && member t n.direct_deps || depends l f t)
unfolding insert_by depends
depends-insert_by f t less n [] = refl
depends-insert_by f t less n (m ∷ l) = ground (arith, depends-insert_by f t less n l)

pub depends-sort_slice :
    (f t : Text) (less : Node → Node → Bool) (l : List Node)
    → depends (sort_slice less l) f t ≡ depends l f t
unfolding sort_slice depends
depends-sort_slice f t less [] = refl
depends-sort_slice f t less (n ∷ l) =
    ground (arith, depends-insert_by f t less n (sort_slice less l), depends-sort_slice f t less l)

pub depends-sort_deps : (f t : Text) (l : List Node) → depends (map sort_deps l) f t ≡ depends l f t
unfolding depends sort_deps
depends-sort_deps f t [] = refl
depends-sort_deps f t (n ∷ l) =
    ap₂ (λ a b. text_eq n.import_path f && a || b) (member-sort_strings t n.direct_deps)
      (depends-sort_deps f t l)
