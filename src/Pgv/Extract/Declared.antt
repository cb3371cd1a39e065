-- ===== src/Pgv/Extract/Declared.antt =====
-- What `scanDependsOn` reads back from a comment that lists dependencies.
use nexus_go_ccnf_ref.Base.{
  Text, codes, text_eq, false, not, ◌==◌, none, some, List, [], ◌∷◌, ◌++◌, if◌then◌else◌,
  append-nil, append_assoc, map, ◌≡◌, refl, sym, ap, ◌∙◌, All,
}
use nexus_go_ccnf_ref.Base.Sort.{sort_strings}
use nexus_go_ccnf_ref.Pgv.Extract.{
  split_commas, add_parts, declaration, on_declaration, scan_lines, scan_depends_on,
}

abbrev CommaFree : Text → Type 0
CommaFree [] = Unit
CommaFree (c ∷ s) = ((c == 44) ≡ false) × CommaFree s

split_commas-front :
    (d rest : Text) → CommaFree d → split_commas (d ++ (44 ∷ rest)) ≡ d ∷ split_commas rest
unfolding split_commas
split_commas-front [] rest h = refl
split_commas-front (c ∷ d) rest h = rw (h.0, split_commas-front d rest h.1) refl

split_commas-last : (d : Text) → CommaFree d → split_commas d ≡ d ∷ []
unfolding split_commas
split_commas-last [] h = refl
split_commas-last (c ∷ d) h = rw (h.0, split_commas-last d h.1) refl

-- Names with a comma and a space between them.
abbrev pub written : Text → List Text → Text
written d [] = d
written d (e ∷ ds) = d ++ (44 ∷ 32 ∷ written e ds)

abbrev spaced : List Text → List Text
spaced ds = map (λ d. 32 ∷ d) ds

split_commas-spaced :
    (d : Text) (ds : List Text)
    → CommaFree d
    → All CommaFree ds
    → split_commas (32 ∷ written d ds) ≡ (32 ∷ d) ∷ spaced ds
unfolding split_commas
split_commas-spaced d [] h k = rw (split_commas-last d h) refl
split_commas-spaced d (e ∷ ds) h k =
    rw (split_commas-front d (32 ∷ written e ds) h, split_commas-spaced e ds k.0 k.1) refl

split_commas-written :
    (d : Text) (ds : List Text)
    → CommaFree d
    → All CommaFree ds
    → split_commas (written d ds) ≡ d ∷ spaced ds
split_commas-written d [] h k = split_commas-last d h
split_commas-written d (e ∷ ds) h k =
    split_commas-front d (32 ∷ written e ds) h
    ∙ ap (λ parts. d ∷ parts) (split_commas-spaced e ds k.0 k.1)

module _ (trim_space : Text → Text) where
  -- A name without commas, which trimming leaves alone and frees of a space before it.
  pub record IsName (d : Text) : Type 0 where
    pub comma_free : CommaFree d
    pub trimmed : trim_space d ≡ d
    pub after_space : trim_space (32 ∷ d) ≡ d
    pub not_empty : text_eq d [] ≡ false

  CommaFree-names : (ds : List Text) → All IsName ds → All CommaFree ds
  CommaFree-names [] h = tt
  CommaFree-names (d ∷ ds) h = (h.0.comma_free, CommaFree-names ds h.1)

  -- A part that is a name when it is trimmed joins the names.
  add_parts-name :
      (deps : List Text) (part d : Text) (parts : List Text)
      → trim_space part ≡ d
      → text_eq d [] ≡ false
      → add_parts trim_space deps (part ∷ parts) ≡ add_parts trim_space (deps ++ (d ∷ [])) parts
  unfolding add_parts
  add_parts-name deps part d parts e h =
      ap
        (λ name.
          add_parts trim_space (if not (text_eq name []) then deps ++ (name ∷ []) else deps) parts)
        e
      ∙ ap (λ b. add_parts trim_space (if not b then deps ++ (d ∷ []) else deps) parts) h

  add_parts-spaced :
      (deps ds : List Text) → All IsName ds → add_parts trim_space deps (spaced ds) ≡ deps ++ ds
  unfolding add_parts
  add_parts-spaced deps [] h = sym (append-nil deps)
  add_parts-spaced deps (d ∷ ds) h =
      add_parts-name deps (32 ∷ d) d (spaced ds) h.0.after_space h.0.not_empty
      ∙ add_parts-spaced (deps ++ (d ∷ [])) ds h.1
      ∙ append_assoc deps (d ∷ []) ds

  add_parts-written :
      (d : Text) (ds : List Text)
      → IsName d
      → All IsName ds
      → add_parts trim_space [] (split_commas (written d ds)) ≡ d ∷ ds
  add_parts-written d ds h k =
      ap (add_parts trim_space []) (split_commas-written d ds h.comma_free (CommaFree-names ds k))
      ∙ add_parts-name [] d d (spaced ds) h.trimmed h.not_empty
      ∙ add_parts-spaced (d ∷ []) ds k

  -- Lines without a declaration change nothing.
  scan_lines-other :
      (before lines : List Text) (deps : List Text)
      → All (λ raw. declaration trim_space raw ≡ none) before
      → scan_lines trim_space (before ++ lines) deps ≡ scan_lines trim_space lines deps
  unfolding scan_lines
  scan_lines-other [] lines deps h = refl
  scan_lines-other (raw ∷ before) lines deps h = rw h.0 (scan_lines-other before lines deps h.1)

  -- Of a file with one line that declares names, the scan gives these names in order. The names are not
  -- empty, have no comma, and trimming leaves them alone and takes off a space in front; the list of
  -- them is not the text for none.
  pub scan_depends_on-written :
      (before after : List Text) (raw d : Text) (ds : List Text)
      → All (λ line. declaration trim_space line ≡ none) before
      → All (λ line. declaration trim_space line ≡ none) after
      → declaration trim_space raw ≡ some (written d ds)
      → text_eq (written d ds) (codes "(no external deps)") ≡ false
      → IsName d
      → All IsName ds
      → scan_depends_on trim_space (some (before ++ (raw ∷ after))) ≡ some (sort_strings (d ∷ ds))
  unfolding scan_depends_on scan_lines
  scan_depends_on-written before after raw d ds hb ha e other h k =
      scan_lines-other before (raw ∷ after) [] hb
      ∙ ap (λ o. on_declaration trim_space o [] (scan_lines trim_space after)) e
      ∙ rw other (
          ap (scan_lines trim_space after) (add_parts-written d ds h k)
          ∙ ap (λ lines. scan_lines trim_space lines (d ∷ ds)) (sym (append-nil after))
          ∙ scan_lines-other after [] (d ∷ ds) ha)
