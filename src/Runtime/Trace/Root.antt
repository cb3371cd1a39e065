-- ===== src/Runtime/Trace/Root.antt =====
-- The root hash commits to the hashes and their order.
use nexus_go_ccnf_ref.Base.{
  ℕ, ◌^◌, ◌%◌, ◌<◌, ◌≡◌, refl, sym, ◌∙◌, ap, ap₂, Text, List, [], ◌∷◌, ◌++◌, length, All, arith,
  ◌⊎◌, inl, inr,
}
use nexus_go_ccnf_ref.Value.Platform.{Platform}
use nexus_go_ccnf_ref.Runtime.Bytes.{put_uint64_injective, Collision, IsSha256, sum256_injective_or}
use nexus_go_ccnf_ref.Runtime.Trace.{TraceBuilder, concat, event_count, root_bytes, root_hash}

-- Every hash of a builder has 32 bytes, and their number fits in a uint64.
pub record IsTrace (t : TraceBuilder) : Type 0 where
  pub sizes : All (λ h. length h ≡ 32) t.hashes
  pub fits : length t.hashes < 2 ^ 64

pub append_injective {ℓ} :
    {A : Type ℓ} (a b s t : List A) → length a ≡ length b → a ++ s ≡ b ++ t → (a ≡ b) × (s ≡ t)
append_injective [] [] s t h e = (refl, e)
append_injective [] (y ∷ b) s t h e = absurd (omega arith)
append_injective (x ∷ a) [] s t h e = absurd (omega arith)
append_injective (x ∷ a) (y ∷ b) s t h e =
    let (same, rest) = append_injective a b s t (omega arith) (ground arith) in (cc same, rest)

-- Texts of one size, one after the other, can be told apart.
concat_injective :
    (n : ℕ) (xs ys : List Text)
    → All (λ h. length h ≡ n) xs
    → All (λ h. length h ≡ n) ys
    → length xs ≡ length ys
    → concat xs ≡ concat ys
    → xs ≡ ys
unfolding concat
concat_injective n [] [] hx hy l e = refl
concat_injective n [] (y ∷ ys) hx hy l e = absurd (omega arith)
concat_injective n (x ∷ xs) [] hx hy l e = absurd (omega arith)
concat_injective n (x ∷ xs) (y ∷ ys) hx hy l e =
    let (same, rest) = append_injective x y (concat xs) (concat ys) (omega arith) e in
    ap₂ ◌∷◌ same (concat_injective n xs ys hx.1 hy.1 (omega arith) rest)

module _ (p : Platform) where
  root_bytes_injective :
      (t u : TraceBuilder) → IsTrace t → IsTrace u → root_bytes p t ≡ root_bytes p u → t ≡ u
  unfolding root_bytes event_count
  root_bytes_injective t u ht hu e =
      let counted : event_count t < 2 ^ 64 = omega arith in
      let counted' : event_count u < 2 ^ 64 = omega arith in
      let sizes : length t.hashes % 2 ^ 64 ≡ length t.hashes = omega (arith, ht.fits) in
      let sizes' : length u.hashes % 2 ^ 64 ≡ length u.hashes = omega (arith, hu.fits) in
      let (_, rest) = append_injective _ _ _ _ refl e in
      let (count, hashes) =
        put_uint64_injective (event_count t) (event_count u) (concat t.hashes) (concat u.hashes)
          counted counted' rest in
      ap (λ hs. record { hashes = hs })
        (concat_injective 32 t.hashes u.hashes ht.sizes hu.sizes (sym sizes ∙ (count ∙ sizes'))
          hashes)

  -- Where digests have 32 bytes, two traces of fewer than 2^64 hashes of 32 bytes with one root
  -- hash hold the same hashes in the same order, or the bytes that the two calls hash are
  -- different and have the same SHA-256 digest.
  pub root_hash_injective_or :
      (t u : TraceBuilder)
      → IsSha256 p
      → IsTrace t
      → IsTrace u
      → root_hash p t ≡ root_hash p u
      → (t ≡ u) ⊎ Collision p (root_bytes p t) (root_bytes p u)
  unfolding root_hash
  root_hash_injective_or t u sha ht hu e =
      elim (sum256_injective_or p sha (root_bytes p t) (root_bytes p u) e) [
        | inl same ↦ inl (root_bytes_injective t u ht hu same)
        | inr c ↦ inr c
      ]
