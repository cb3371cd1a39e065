-- ===== src/Pgv/Validator/Passes.antt =====
-- When each check reports nothing.
use nexus_go_ccnf_ref.Base.{
  Text, codes, text_eq_iff, has_prefix, Bool, true, false, ◌||◌, ◌&&◌, Option, none, some, List, [],
  ◌∷◌, ◌++◌, if◌then◌else◌, ◌≡◌, refl, arith, ◌↔◌, All,
}
use nexus_go_ccnf_ref.Base.Map.{Map, lookup}
use nexus_go_ccnf_ref.Base.Sets.{member}
use nexus_go_ccnf_ref.Pgv.{Node, Edge}
use nexus_go_ccnf_ref.Pgv.Validator.{
  Config, is_projection, is_kernel, is_allowed, edges_within, edges_from_kernel, check_cross_import,
  check_backflow, forbidden_among, undeclared_of, check_p10b_allowlist, string_slices_equal,
  declared_of, declared_loop,
}

pub append-Nil {ℓ} : {A : Type ℓ} → (xs ys : List A) → ((xs ++ ys) ≡ []) ↔ ((xs ≡ []) × (ys ≡ []))
append-Nil [] ys = (λ h. (refl, h), λ h. h.1)
append-Nil (x ∷ xs) ys = (λ h. cc h, λ h. cc (h.0))

pub cross_import-Nil : (edges : List Edge) → (check_cross_import edges ≡ []) ↔ (edges ≡ [])
unfolding check_cross_import
cross_import-Nil [] = (λ h. refl, λ h. refl)
cross_import-Nil (e ∷ edges) = (λ h. cc h, λ h. cc h)

pub backflow-Nil : (edges : List Edge) → (check_backflow edges ≡ []) ↔ (edges ≡ [])
unfolding check_backflow
backflow-Nil [] = (λ h. refl, λ h. refl)
backflow-Nil (e ∷ edges) = (λ h. cc h, λ h. cc h)

-- An edge does not lead from one set of nodes into another.
abbrev pub Apart : (Text → Bool) → List Text → Edge → Type 0
Apart from into e = (from e.source && member e.target into) ≡ false

pub edges_within-Nil :
    (s : List Text) (edges : List Edge)
    → (edges_within s edges ≡ []) ↔ All (Apart (λ x. member x s) s) edges
unfolding edges_within
edges_within-Nil s [] = (λ h. tt, λ h. refl)
edges_within-Nil s (e ∷ edges) = ground (arith, edges_within-Nil s edges)

pub edges_from_kernel-Nil :
    (roots s : List Text) (edges : List Edge)
    → (edges_from_kernel roots s edges ≡ []) ↔ All (Apart (λ x. is_kernel x roots) s) edges
unfolding edges_from_kernel
edges_from_kernel-Nil roots s [] = (λ h. tt, λ h. refl)
edges_from_kernel-Nil roots s (e ∷ edges) = ground (arith, edges_from_kernel-Nil roots s edges)

pub forbidden_among-Nil :
    (roots s : List Text) (edges : List Edge)
    → (forbidden_among roots s edges ≡ []) ↔ All (Apart (λ x. is_kernel x roots) s) edges
unfolding forbidden_among
forbidden_among-Nil roots s [] = (λ h. tt, λ h. refl)
forbidden_among-Nil roots s (e ∷ edges) = ground (arith, forbidden_among-Nil roots s edges)

-- A dependency that a projection may have.
abbrev pub IsAllowedDep : Config → Text → Type 0
IsAllowedDep cfg dep =
    (is_kernel dep cfg.kernel_roots || (is_projection dep || is_allowed cfg dep)) ≡ true

undeclared_of-Nil :
    (cfg : Config) (path : Text) (deps : List Text)
    → (undeclared_of cfg path deps ≡ []) ↔ All (IsAllowedDep cfg) deps
unfolding undeclared_of
undeclared_of-Nil cfg path [] = (λ h. tt, λ h. refl)
undeclared_of-Nil cfg path (d ∷ deps) = ground (arith, undeclared_of-Nil cfg path deps)

pub p10b_allowlist-Nil :
    (nodes : List Node) (cfg : Config)
    → (check_p10b_allowlist nodes cfg ≡ []) ↔ All (λ n. All (IsAllowedDep cfg) n.direct_deps) nodes
unfolding check_p10b_allowlist
p10b_allowlist-Nil [] cfg = (λ h. tt, λ h. refl)
p10b_allowlist-Nil (n ∷ nodes) cfg =
    let both =
      append-Nil (undeclared_of cfg n.import_path n.direct_deps) (check_p10b_allowlist nodes cfg) in
    let here = undeclared_of-Nil cfg n.import_path n.direct_deps in
    let rest = p10b_allowlist-Nil nodes cfg in
    (λ h. (here.0 ((both.0 h).0), rest.0 ((both.0 h).1)), λ h. both.1 (here.1 h.0, rest.1 h.1))

string_slices_equal_iff : (xs ys : List Text) → (string_slices_equal xs ys ≡ true) ↔ (xs ≡ ys)
unfolding string_slices_equal
string_slices_equal_iff [] [] = (λ h. refl, λ h. refl)
string_slices_equal_iff [] (y ∷ ys) = (λ h. cc h, λ h. cc h)
string_slices_equal_iff (x ∷ xs) [] = (λ h. cc h, λ h. cc h)
string_slices_equal_iff (x ∷ xs) (y ∷ ys) =
    ground (arith, text_eq_iff x y, string_slices_equal_iff xs ys)

-- A Go projection's dependencies are the ones that its comments declare.
abbrev pub IsDeclared : Map (List Text) → Node → Type 0
IsDeclared declared n =
    (has_prefix n.import_path (codes "rust/") ≡ false)
    → (lookup n.import_path declared ≡ some n.direct_deps)

declared_of-Nil :
    (n : Node) (o : Option (List Text)) → (declared_of n o ≡ []) ↔ (o ≡ some n.direct_deps)
unfolding declared_of
declared_of-Nil n none = (λ h. cc h, λ h. cc h)
declared_of-Nil n (some expected) = ground (arith, string_slices_equal_iff n.direct_deps expected)

-- the part of the loop's body that a node has
abbrev unless {ℓ} : {A : Type ℓ} → Bool → List A → List A
unless b xs = if b then [] else xs

unless-Nil {ℓ} :
    {A : Type ℓ} → (b : Bool) (xs : List A) → (unless b xs ≡ []) ↔ ((b ≡ false) → (xs ≡ []))
unless-Nil true xs = (λ h. λ e. cc e, λ h. refl)
unless-Nil false xs = (λ h. λ e. h, λ h. h refl)

pub declared_loop-Nil :
    (declared : Map (List Text)) (nodes : List Node)
    → (declared_loop declared nodes ≡ []) ↔ All (IsDeclared declared) nodes
unfolding declared_loop
declared_loop-Nil declared [] = (λ h. tt, λ h. refl)
declared_loop-Nil declared (n ∷ nodes) =
    let found = declared_of n (lookup n.import_path declared) in
    let both =
      append-Nil (unless (has_prefix n.import_path (codes "rust/")) found)
        (declared_loop declared nodes) in
    let here = unless-Nil (has_prefix n.import_path (codes "rust/")) found in
    let same = declared_of-Nil n (lookup n.import_path declared) in
    let rest = declared_loop-Nil declared nodes in
    (
      λ h. (λ e. same.0 ((here.0 ((both.0 h).0)) e), rest.0 ((both.0 h).1)),
      λ h. both.1 (here.1 (λ e. same.1 (h.0 e)), rest.1 h.1),
    )
