-- ===== src/Pgv/Extract/Vacuous.antt =====
-- What the command reports on the packages of the repository's own module.
use nexus_go_ccnf_ref.Base.{
  ℕ, Text, codes, text_eq, has_prefix, true, Bool-cases, none, some, List, [], ◌∷◌, append-nil, map,
  ◌≡◌, refl, sym, ap, ◌∙◌, inl, inr, All,
}
use mathlib.Core.Path.{subst}
use nexus_go_ccnf_ref.Base.SortBy.{sort_slice, All-sort_slice}
use nexus_go_ccnf_ref.Value.Platform.{Platform}
use nexus_go_ccnf_ref.Pgv.{Node}
use nexus_go_ccnf_ref.Pgv.Build.{path_less, sort_deps, sorted_nodes}
use nexus_go_ccnf_ref.Pgv.Build.Edges.{NulFree}
use nexus_go_ccnf_ref.Pgv.Build.Built.{build_graph-IsGraphOf, build_graph-nodes}
use nexus_go_ccnf_ref.Pgv.Validator.{DeclaredDeps}
use nexus_go_ccnf_ref.Pgv.Validator.Conforming.{validate-github}
use nexus_go_ccnf_ref.Pgv.Extract.{
  RawPackage, go_nodes, rust_nodes, versioned, from_nodes, extract_graph, run_config, exit_of,
  nil_if_empty, run_validate,
}

-- An import path of a module on github.com, without a NUL.
abbrev pub IsGithub : Text → Type 0
IsGithub path = (has_prefix path (codes "github.com/") ≡ true) × NulFree path

go_nodes-IsGithub :
    (stdlib_set : List Text) (pkgs : List RawPackage)
    → All (λ q. IsGithub q.import_path) pkgs
    → All (λ n. IsGithub n.import_path) (go_nodes stdlib_set pkgs)
unfolding go_nodes
go_nodes-IsGithub stdlib_set [] h = tt
go_nodes-IsGithub stdlib_set (q ∷ pkgs) h = elim (Bool-cases (text_eq q.for_test [])) [
  | inl kept ↦ rw kept (h.0, go_nodes-IsGithub stdlib_set pkgs h.1)
  | inr tested ↦ rw tested (go_nodes-IsGithub stdlib_set pkgs h.1)
]

sort_deps-IsGithub :
    (nodes : List Node)
    → All (λ n. IsGithub n.import_path) nodes
    → All (λ n. IsGithub n.import_path) (map sort_deps nodes)
unfolding sort_deps
sort_deps-IsGithub [] h = tt
sort_deps-IsGithub (n ∷ nodes) h = (h.0, sort_deps-IsGithub nodes h.1)

All-map-to {ℓ κ κ'} :
    {A : Type ℓ} {P : A → Type κ} {Q : A → Type κ'}
    → (l : List A) → ((x : A) → P x → Q x)
    → All P l
    → All Q l
All-map-to [] f h = tt
All-map-to (x ∷ l) f h = (f x h.0, All-map-to l f h.1)

passes_nodes :
    (p : Platform) (fuel : ℕ) (nodes : List Node) (declared : List DeclaredDeps)
    → All (λ n. IsGithub n.import_path) nodes
    → run_validate fuel (from_nodes p nodes) declared ≡ some 0
unfolding run_validate
passes_nodes p fuel [] declared h = refl
passes_nodes p fuel (n ∷ nodes) declared h =
    let (g, e, graph) =
      build_graph-IsGraphOf p (n ∷ nodes) (All-map-to (n ∷ nodes) (λ m k. k.1) h) in
    let same = build_graph-nodes p (n ∷ nodes) g e in
    let in_order =
      subst (λ ns. All (λ m. IsGithub m.import_path) ns) (sym same)
        (unfold sorted_nodes in
          sort_deps-IsGithub (sort_slice path_less (n ∷ nodes))
            (All-sort_slice path_less (λ m. IsGithub m.import_path) (n ∷ nodes) h)) in
    ap (λ o. run_validate fuel (versioned o) declared) e
    ∙ ap exit_of (
        validate-github fuel _ run_config (nil_if_empty declared) (inr refl)
          (All-map-to g.nodes (λ m k. k.0) in_order))

-- Where the Rust sources are missing and each package has an import path of github.com without a NUL,
-- the command exits with 0, whatever the packages import and their comments declare, and whatever the
-- fuel.
pub run_validate-vacuous :
    (p : Platform) (trim_space : Text → Text) (fuel : ℕ) (stdlib_set : List Text)
    (pkgs : List RawPackage) (declared : List DeclaredDeps)
    → All (λ q. IsGithub q.import_path) pkgs
    → run_validate fuel (extract_graph p trim_space stdlib_set (some pkgs) none) declared ≡ some 0
unfolding extract_graph rust_nodes
run_validate-vacuous p trim_space fuel stdlib_set pkgs declared h =
    ap (λ nodes. run_validate fuel (from_nodes p nodes) declared)
      (append-nil (go_nodes stdlib_set pkgs))
    ∙ passes_nodes p fuel (go_nodes stdlib_set pkgs) declared (go_nodes-IsGithub stdlib_set pkgs h)
