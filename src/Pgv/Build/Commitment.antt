-- ===== src/Pgv/Build/Commitment.antt =====
-- What the hash of a graph commits to.
use mathlib.Core.Path.{subst}
use nexus_go_ccnf_ref.Base.{
  Text, text_eq, text_eq_iff, text_leb_refl, Bool, true, false, ◌||◌, List, [], ◌∷◌, ◌++◌,
  append_assoc, ◌≡◌, refl, sym, ap, ap₂, ◌∙◌, arith, ◌⊎◌, inl, inr, All,
}
use nexus_go_ccnf_ref.Base.Sets.{member}
use nexus_go_ccnf_ref.Base.SortBy.{text_less}
use nexus_go_ccnf_ref.Value.Platform.{Platform}
use nexus_go_ccnf_ref.Runtime.Bytes.{IsSha256, Collision, sum256_injective_or}
use nexus_go_ccnf_ref.Pgv.{Node, Edge}
use nexus_go_ccnf_ref.Pgv.Diff.{nul_terminated}
use nexus_go_ccnf_ref.Pgv.Validator.{paths}
use nexus_go_ccnf_ref.Pgv.Build.{edge_bytes, compute_ir_hash}
use nexus_go_ccnf_ref.Pgv.Build.Edges.{NulFree}

-- A NUL ends a text without one.
nul_injective :
    (s t u v : Text) → NulFree s → NulFree t → s ++ (0 ∷ u) ≡ t ++ (0 ∷ v) → (s ≡ t) × (u ≡ v)
nul_injective [] [] u v a b e = (refl, cc e)
nul_injective [] (d ∷ t) u v a b e = absurd (ground (arith, b.0, e))
nul_injective (c ∷ s) [] u v a b e = absurd (ground (arith, a.0, e))
nul_injective (c ∷ s) (d ∷ t) u v a b e =
    let (same, rest) = nul_injective s t u v a.1 b.1 (cc e) in (cc (e, same), rest)

nul_terminated_injective :
    (ss ts : List Text)
    → All NulFree ss
    → All NulFree ts
    → nul_terminated ss ≡ nul_terminated ts
    → ss ≡ ts
unfolding nul_terminated
nul_terminated_injective [] [] a b e = refl
nul_terminated_injective [] ([] ∷ ts) a b e = cc e
nul_terminated_injective [] ((c ∷ t) ∷ ts) a b e = cc e
nul_terminated_injective ([] ∷ ss) [] a b e = cc e
nul_terminated_injective ((c ∷ s) ∷ ss) [] a b e = cc e
nul_terminated_injective (s ∷ ss) (t ∷ ts) a b e =
    let (same, rest) = nul_injective s t (nul_terminated ss) (nul_terminated ts) a.0 b.0 e in
    ap₂ ◌∷◌ same (nul_terminated_injective ss ts a.1 b.1 rest)

nul_terminated-append :
    (ss ts : List Text) → nul_terminated (ss ++ ts) ≡ nul_terminated ss ++ nul_terminated ts
unfolding nul_terminated
nul_terminated-append [] ts = refl
nul_terminated-append (s ∷ ss) ts =
    ap (λ r. s ++ (0 ∷ r)) (nul_terminated-append ss ts)
    ∙ sym (append_assoc s (0 ∷ nul_terminated ss) (nul_terminated ts))

-- The two ends of each edge, in a row.
abbrev pub ends : List Edge → List Text
ends [] = []
ends (e ∷ edges) = e.source ∷ e.target ∷ ends edges

edge_bytes_lem : (edges : List Edge) → edge_bytes edges ≡ nul_terminated (ends edges)
unfolding edge_bytes nul_terminated
edge_bytes_lem [] = refl
edge_bytes_lem (e ∷ edges) =
    ap (λ r. e.source ++ (0 ∷ (e.target ++ (0 ∷ r)))) (edge_bytes_lem edges)

ends_injective : (es fs : List Edge) → ends es ≡ ends fs → es ≡ fs
ends_injective [] [] h = refl
ends_injective [] (f ∷ fs) h = cc h
ends_injective (e ∷ es) [] h = cc h
ends_injective (e ∷ es) (f ∷ fs) h = ap₂ ◌∷◌ (cc h) (ends_injective es fs (cc h))

-- Each text is less than those behind it.
abbrev pub IsAscending : List Text → Type 0
IsAscending [] = Unit
IsAscending (x ∷ xs) = All (λ y. text_less x y ≡ true) xs × IsAscending xs

-- The ends of edges start with a listed path.
abbrev StartsIn : (Text → Bool) → List Text → Type 0
StartsIn listed [] = Unit
StartsIn listed (x ∷ xs) = listed x ≡ true

StartsIn-same :
    (f g : Text → Bool) (xs : List Text) → ((x : Text) → f x ≡ g x) → StartsIn f xs → StartsIn g xs
StartsIn-same f g [] same h = tt
StartsIn-same f g (x ∷ xs) same h = sym (same x) ∙ h

less-ne : (x y : Text) → text_less x y ≡ true → text_eq x y ≡ false
less-ne x y h = ground (arith, h, text_eq_iff x y, text_leb_refl x)

All-later :
    (before : Text → Bool) (p : Text) (ps : List Text)
    → All (λ x. before x ≡ false) ps
    → All (λ y. text_less p y ≡ true) ps
    → All (λ x. (before x || text_eq p x) ≡ false) ps
All-later before p [] a h = tt
All-later before p (x ∷ ps) a h =
    (ground (arith, a.0, less-ne p x h.0), All-later before p ps a.1 h.1)

clash :
    (before : Text → Bool) (x q : Text) → x ≡ q → (before x || false) ≡ true → before q ≡ false → ⊥
clash before x q same l m = ground (arith, ap before same, l, m)

-- Behind the same paths, ascending paths and the ends of edges from listed ones are told apart.
split_injective :
    (before : Text → Bool) (ps qs xs ys : List Text)
    → IsAscending ps
    → IsAscending qs
    → All (λ x. before x ≡ false) ps
    → All (λ x. before x ≡ false) qs
    → StartsIn (λ x. before x || member x ps) xs
    → StartsIn (λ x. before x || member x qs) ys
    → ps ++ xs ≡ qs ++ ys
    → (ps ≡ qs) × (xs ≡ ys)
unfolding member
split_injective before [] [] xs ys a b c d f g e = (refl, e)
split_injective before [] (q ∷ qs) [] ys a b c d f g e = cc e
split_injective before [] (q ∷ qs) (x ∷ xs) ys a b c d f g e =
    absurd (clash before x q (cc e) f d.0)
split_injective before (p ∷ ps) [] xs [] a b c d f g e = cc e
split_injective before (p ∷ ps) [] xs (y ∷ ys) a b c d f g e =
    absurd (clash before y p (cc e) g c.0)
split_injective before (p ∷ ps) (q ∷ qs) xs ys a b c d f g e =
    let same : p ≡ q = cc e in
    let (paths_same, ends_same) =
      split_injective (λ x. before x || text_eq p x) ps qs xs ys a.1 b.1
        (All-later before p ps c.1 a.0)
        (All-later before p qs d.1 (subst (λ z. All (λ y. text_less z y ≡ true) qs) (sym same) b.0))
        (StartsIn-same (λ x. before x || member x (p ∷ ps))
          (λ x. (before x || text_eq p x) || member x ps) xs (λ x. unfold member in ground arith) f)
        (StartsIn-same (λ x. before x || member x (q ∷ qs))
          (λ x. (before x || text_eq p x) || member x qs) ys
          (λ x. unfold member in ground (arith, ap (λ z. text_eq z x) same)) g)
        (cc e) in
    (ap₂ ◌∷◌ same paths_same, ends_same)

-- A graph's paths, ascending, and edges that start at them, all without NUL.
pub record IsIdentified (nodes : List Node) (edges : List Edge) : Type 0 where
  pub ascending : IsAscending (paths nodes)
  pub paths_free : All NulFree (paths nodes)
  pub ends_free : All NulFree (ends edges)
  pub starts : All (λ e. member e.source (paths nodes) ≡ true) edges

StartsIn-ends :
    (listed : List Text) (edges : List Edge)
    → All (λ e. member e.source listed ≡ true) edges
    → StartsIn (λ x. false || member x listed) (ends edges)
StartsIn-ends listed [] h = tt
StartsIn-ends listed (e ∷ edges) h = ground (arith, h.0)

All-false : (l : List Text) → All (λ x. false ≡ false) l
All-false [] = tt
All-false (x ∷ l) = (refl, All-false l)

All-append_lem {κ} :
    (P : Text → Type κ) (ss ts : List Text) → All P ss → All P ts → All P (ss ++ ts)
All-append_lem P [] ts a b = b
All-append_lem P (s ∷ ss) ts a b = (a.0, All-append_lem P ss ts a.1 b)

module _ (p : Platform) (sha : IsSha256 p) where
  -- Two such graphs with one hash have the same paths and the same edges, or the bytes hashed for them are a collision.
  pub compute_ir_hash_injective_or :
      (ms ns : List Node) (es fs : List Edge)
      → IsIdentified ms es
      → IsIdentified ns fs
      → compute_ir_hash p ms es ≡ compute_ir_hash p ns fs
      → ((paths ms ≡ paths ns) × (es ≡ fs))
        ⊎ Collision p
            (nul_terminated (paths ms) ++ edge_bytes es)
            (nul_terminated (paths ns) ++ edge_bytes fs)
  unfolding compute_ir_hash
  compute_ir_hash_injective_or ms ns es fs a b e =
      elim (sum256_injective_or p sha (nul_terminated (paths ms) ++ edge_bytes es)
        (nul_terminated (paths ns) ++ edge_bytes fs) e) [
          | inr c ↦ inr c
          | inl same ↦ inl (told same)
        ]
    where
      bytes :
          (nodes : List Node) (edges : List Edge)
          → nul_terminated (paths nodes ++ ends edges)
            ≡ nul_terminated (paths nodes) ++ edge_bytes edges
      bytes nodes edges =
          nul_terminated-append (paths nodes) (ends edges)
          ∙ ap (λ r. nul_terminated (paths nodes) ++ r) (sym (edge_bytes_lem edges))

      told :
          nul_terminated (paths ms) ++ edge_bytes es ≡ nul_terminated (paths ns) ++ edge_bytes fs
          → (paths ms ≡ paths ns) × (es ≡ fs)
      told same =
          let tokens =
            nul_terminated_injective (paths ms ++ ends es) (paths ns ++ ends fs)
              (All-append_lem NulFree (paths ms) (ends es) a.paths_free a.ends_free)
              (All-append_lem NulFree (paths ns) (ends fs) b.paths_free b.ends_free)
              (bytes ms es ∙ same ∙ sym (bytes ns fs)) in
          let (ps, ends_same) =
            split_injective (λ x. false) (paths ms) (paths ns) (ends es) (ends fs) a.ascending
              b.ascending (All-false (paths ms)) (All-false (paths ns))
              (StartsIn-ends (paths ms) es a.starts) (StartsIn-ends (paths ns) fs b.starts)
              tokens in
          (ps, ends_injective es fs ends_same)
