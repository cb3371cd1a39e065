-- ===== src/Ccnf/Artifacts/References.antt =====
-- Which texts `isValidArtifactID` accepts, described without splitting them.
use mathlib.Core.Path.{subst}
use nexus_go_ccnf_ref.Base.{
  ℕ, suc, List, Bool, ◌&&◌, leb, length, Text, text_eq, text_eq_iff, true, false, Option, none,
  some, [], ◌∷◌, ◌++◌, ◌≡◌, ◌≢◌, refl, sym, ap, ◌∙◌, ◌==◌, All, arith, Bool-cases, inl, inr,
}
use nexus_go_ccnf_ref.Ccnf.Artifacts.{cut, split_n, all_nonempty, is_valid_artifact_id}

-- No colon is in the text.
abbrev pub NoColon : Text → Type 0
NoColon s = All (λ c. c ≢ 58) s

-- A type and an id, neither of them empty and both without a colon, joined by a colon, and perhaps
-- another colon with a text that is not empty behind them.
pub data IsReference : Text → Type 0 where
  two_parts :
      (kind id : Text)
      → NoColon kind
      → NoColon id
      → kind ≢ []
      → id ≢ []
      → IsReference (kind ++ (58 ∷ id))
  three_parts :
      (kind id rest : Text)
      → NoColon kind
      → NoColon id
      → kind ≢ []
      → id ≢ []
      → rest ≢ []
      → IsReference (kind ++ (58 ∷ (id ++ (58 ∷ rest))))

-- What a cut yields: the text without a colon, or what is in front of the first and behind it.
abbrev Cuts : Text → Text → Option Text → Type 0
Cuts s a none = (s ≡ a) × NoColon a
Cuts s a (some b) = (s ≡ a ++ (58 ∷ b)) × NoColon a

Cuts-cons : (c : ℕ) (s a : Text) (o : Option Text) → c ≢ 58 → Cuts s a o → Cuts (c ∷ s) (c ∷ a) o
Cuts-cons c s a none h k = (ap (◌∷◌ c) k.0, (h, k.1))
Cuts-cons c s a (some b) h k = (ap (◌∷◌ c) k.0, (h, k.1))

cut-Cuts : (s : Text) → Cuts s (cut s).0 (cut s).1
unfolding cut
cut-Cuts [] = (refl, tt)
cut-Cuts (c ∷ s) = elim (Bool-cases (c == 58)) [
  | inl colon ↦ rw colon (ap (λ z. z ∷ s) (ground (arith, colon)), tt)
  | inr other ↦
      rw other (Cuts-cons c s (cut s).0 (cut s).1 (λ e. ground (arith, other, e)) (cut-Cuts s))
]

cut-NoColon : (a : Text) → NoColon a → cut a ≡ (a, none)
unfolding cut
cut-NoColon [] h = refl
cut-NoColon (c ∷ a) h = ground (arith, h.0, cut-NoColon a h.1)

cut-append : (a b : Text) → NoColon a → cut (a ++ (58 ∷ b)) ≡ (a, some b)
unfolding cut
cut-append [] b h = refl
cut-append (c ∷ a) b h = ground (arith, h.0, cut-append a b h.1)

ne_of_test : (s : Text) → text_eq s [] ≡ false → s ≢ []
ne_of_test s h e = cc (h, (text_eq_iff s []).1 e)

test_of_ne : (s : Text) → s ≢ [] → text_eq s [] ≡ false
test_of_ne s h = elim (Bool-cases (text_eq s [])) [
  | inl same ↦ absurd (h ((text_eq_iff s []).0 same))
  | inr other ↦ other
]

split_n-none : (n : ℕ) (s a : Text) → cut s ≡ (a, none) → split_n (suc (suc n)) s ≡ a ∷ []
unfolding split_n
split_n-none n s a e =
    ap
      (λ c. elim c.1 as (λ o. List Text) [
        | none ↦ c.0 ∷ []
        | some rest ↦ c.0 ∷ split_n (suc n) rest
      ])
      e

split_n-some :
    (n : ℕ) (s a b : Text) → cut s ≡ (a, some b) → split_n (suc (suc n)) s ≡ a ∷ split_n (suc n) b
unfolding split_n
split_n-some n s a b e =
    ap
      (λ c. elim c.1 as (λ o. List Text) [
        | none ↦ c.0 ∷ []
        | some rest ↦ c.0 ∷ split_n (suc n) rest
      ])
      e

-- Two or more parts, none of them empty.
abbrev has_parts : List Text → Bool
has_parts parts = leb 2 (length parts) && all_nonempty parts

is_valid-parts :
    (s : Text) (parts : List Text) → split_n 3 s ≡ parts → is_valid_artifact_id s ≡ has_parts parts
unfolding is_valid_artifact_id
is_valid-parts s parts e = ap has_parts e

two : (s a b : Text) → cut s ≡ (a, some b) → cut b ≡ (b, none) → split_n 3 s ≡ a ∷ b ∷ []
two s a b e d = split_n-some 1 s a b e ∙ ap (λ r. a ∷ r) (split_n-none 0 b b d)

three :
    (s a b c d : Text) → cut s ≡ (a, some b) → cut b ≡ (c, some d) → split_n 3 s ≡ a ∷ c ∷ d ∷ []
unfolding split_n
three s a b c d e f = split_n-some 1 s a b e ∙ ap (λ r. a ∷ r) (split_n-some 0 b c d f)

pub IsReference-is_valid_artifact_id : (s : Text) → IsReference s → is_valid_artifact_id s ≡ true
unfolding all_nonempty
IsReference-is_valid_artifact_id _ (two_parts kind id k i ke ie) =
    is_valid-parts _ (kind ∷ id ∷ [])
      (two (kind ++ (58 ∷ id)) kind id (cut-append kind id k) (cut-NoColon id i))
    ∙ rw (test_of_ne kind ke, test_of_ne id ie) refl
IsReference-is_valid_artifact_id _ (three_parts kind id rest k i ke ie re) =
    is_valid-parts _ (kind ∷ id ∷ rest ∷ []) (
      three (kind ++ (58 ∷ (id ++ (58 ∷ rest)))) kind (id ++ (58 ∷ rest)) id rest
        (cut-append kind (id ++ (58 ∷ rest)) k) (cut-append id rest i))
    ∙ rw (test_of_ne kind ke, test_of_ne id ie, test_of_ne rest re) refl

by_second :
    (s a b c : Text) (o : Option Text)
    → cut s ≡ (a, some b)
    → (s ≡ a ++ (58 ∷ b)) × NoColon a
    → cut b ≡ (c, o)
    → Cuts b c o
    → is_valid_artifact_id s ≡ true
    → IsReference s
unfolding all_nonempty
by_second s a b c none e k f l h =
    let parts =
      sym (
        is_valid-parts s (a ∷ c ∷ [])
          (split_n-some 1 s a b e ∙ ap (λ r. a ∷ r) (split_n-none 0 b c f)))
      ∙ h in
    subst IsReference (sym (k.0 ∙ ap (λ z. a ++ (58 ∷ z)) l.0)) (
      two_parts a c k.1 l.1 (ne_of_test a (ground (arith, parts)))
        (ne_of_test c (ground (arith, parts))))
by_second s a b c (some d) e k f l h =
    let parts = sym (is_valid-parts s (a ∷ c ∷ d ∷ []) (three s a b c d e f)) ∙ h in
    subst IsReference (sym (k.0 ∙ ap (λ z. a ++ (58 ∷ z)) l.0)) (
      three_parts a c d k.1 l.1 (ne_of_test a (ground (arith, parts)))
        (ne_of_test c (ground (arith, parts))) (ne_of_test d (ground (arith, parts))))

by_first :
    (s a : Text) (o : Option Text)
    → cut s ≡ (a, o)
    → Cuts s a o
    → is_valid_artifact_id s ≡ true
    → IsReference s
by_first s a none e k h = absurd (cc (is_valid-parts s (a ∷ []) (split_n-none 1 s a e), h))
by_first s a (some b) e k h = by_second s a b (cut b).0 (cut b).1 e k refl (cut-Cuts b) h

pub is_valid_artifact_id-IsReference : (s : Text) → is_valid_artifact_id s ≡ true → IsReference s
is_valid_artifact_id-IsReference s h = by_first s (cut s).0 (cut s).1 refl (cut-Cuts s) h
