-- ===== src/Conformance/Contains.antt =====
-- `strings.Contains`, which conformance/runner.go applies to the text of an error: a text holds
-- another exactly if it is that one with something in front and behind.
use nexus_go_ccnf_ref.Base.{
  Text, text_eq, true, [], ◌∷◌, ◌++◌, ◌≡◌, refl, sym, ◌∙◌, arith, ◌↔◌, ap, ap₂, has_prefix,
  text_eq_iff, Bool-cases, inl, inr,
}
use nexus_go_ccnf_ref.Conformance.{contains_text}

-- The second text stands somewhere in the first.
abbrev pub Holds : Text → Text → Type 0
Holds s t = (before : Text) × (after : Text) × (s ≡ before ++ (t ++ after))

has_prefix-rest : (s t : Text) → has_prefix s t ≡ true → (after : Text) × (s ≡ t ++ after)
unfolding has_prefix
has_prefix-rest s [] h = (s, refl)
has_prefix-rest [] (b ∷ t) h = cc h
has_prefix-rest (a ∷ s) (b ∷ t) h =
    let (after, e) = has_prefix-rest s t (ground (arith, h)) in
    (after, ap₂ ◌∷◌ (ground (arith, h)) e)

has_prefix-append : (t after : Text) → has_prefix (t ++ after) t ≡ true
unfolding has_prefix
has_prefix-append [] after = refl
has_prefix-append (b ∷ t) after = ground (arith, has_prefix-append t after)

contains_text-Holds : (s t : Text) → contains_text s t ≡ true → Holds s t
unfolding contains_text
contains_text-Holds [] t h = ([], [], sym (ap (λ z. z ++ []) ((text_eq_iff t []).0 h)))
contains_text-Holds (c ∷ s) t h = elim (Bool-cases (has_prefix (c ∷ s) t)) [
  | inl here ↦ let (after, e) = has_prefix-rest (c ∷ s) t here in ([], after, e)
  | inr later ↦
      let (before, after, e) = contains_text-Holds s t (rw later at h) in
      (c ∷ before, after, ap (λ z. c ∷ z) e)
]

contains_text-front : (t after : Text) → contains_text (t ++ after) t ≡ true
unfolding contains_text text_eq has_prefix
contains_text-front [] [] = refl
contains_text-front [] (c ∷ after) = refl
contains_text-front (b ∷ t) after = rw (has_prefix-append (b ∷ t) after) refl

contains_text-behind : (before t after : Text) → contains_text (before ++ (t ++ after)) t ≡ true
unfolding contains_text
contains_text-behind [] t after = contains_text-front t after
contains_text-behind (c ∷ before) t after = ground (arith, contains_text-behind before t after)

pub contains_text_iff : (s t : Text) → (contains_text s t ≡ true) ↔ Holds s t
contains_text_iff s t = (
  contains_text-Holds s t,
  λ (before, after, e). ap (λ z. contains_text z t) e ∙ contains_text-behind before t after,
)
