-- ===== src/Runtime/Binding/Commitment.antt =====
-- The replay binding commits to both root hashes and both versions.
use nexus_go_ccnf_ref.Base.{
  ◌^◌, ◌<◌, Text, ℤ, pos, negsuc, Option, none, some, [], length, ◌≡◌, refl, ap, arith, ◌⊎◌, inl,
  inr, append-nil,
}
use nexus_go_ccnf_ref.Value.Platform.{Platform}
use nexus_go_ccnf_ref.Ccnf.Numerals.{hex_encode, hex_decode}
use nexus_go_ccnf_ref.Runtime.Bytes.{
  to_uint64, checked, decode_digest, put_uint64_injective, IsSha256, Collision, sum256_injective_or,
}
use nexus_go_ccnf_ref.Runtime.Trace.Root.{append_injective}
use nexus_go_ccnf_ref.Runtime.Binding.{
  replay_domain_hash, binding_bytes, bind_raw, compute_replay_binding,
}

to_uint64-lt : (n : ℤ) → to_uint64 n < 2 ^ 64
unfolding to_uint64
to_uint64-lt (pos n) = omega arith
to_uint64-lt (negsuc n) = omega arith

-- The conversion of an `int` loses nothing.
abbrev pub IsInt : ℤ → Type 0
IsInt (pos n) = n < 2 ^ 63
IsInt (negsuc n) = n < 2 ^ 63

to_uint64_injective : (a b : ℤ) → IsInt a → IsInt b → to_uint64 a ≡ to_uint64 b → a ≡ b
unfolding to_uint64
to_uint64_injective (pos a) (pos b) ha hb e = ap pos (omega arith)
to_uint64_injective (pos a) (negsuc b) ha hb e = absurd (omega arith)
to_uint64_injective (negsuc a) (pos b) ha hb e = absurd (omega arith)
to_uint64_injective (negsuc a) (negsuc b) ha hb e = ap negsuc (omega arith)

checked-size : (o : Option Text) (raw : Text) → checked o ≡ some raw → length raw ≡ 32
unfolding checked
checked-size none raw h = cc
checked-size (some s) raw h = ground arith

decode_digest-size : (s raw : Text) → decode_digest s ≡ some raw → length raw ≡ 32
unfolding decode_digest
decode_digest-size s raw h = checked-size (hex_decode s) raw h

-- What a binding is made of: the two digests, decoded, and the two versions.
pub record SameInputs (c t c' t' : Text) (s v s' v' : ℤ) : Type 0 where
  pub cer : decode_digest c ≡ decode_digest c'
  pub trace : decode_digest t ≡ decode_digest t'
  pub semantics : s ≡ s'
  pub ccnf : v ≡ v'

-- The bytes hashed for two bindings are a collision: the domain hash, then the digests decoded
-- from the two root hashes and the two versions, for one binding and for the other.
pub record BindingCollision (p : Platform) (c t c' t' : Text) (s v s' v' : ℤ) : Type 0 where
  pub cer_digest : Text
  pub trace_digest : Text
  pub cer_digest' : Text
  pub trace_digest' : Text
  pub cer_decoded : decode_digest c ≡ some cer_digest
  pub trace_decoded : decode_digest t ≡ some trace_digest
  pub cer_decoded' : decode_digest c' ≡ some cer_digest'
  pub trace_decoded' : decode_digest t' ≡ some trace_digest'
  pub collision :
      Collision p
        (binding_bytes p cer_digest trace_digest s v)
        (binding_bytes p cer_digest' trace_digest' s' v')

module _ (p : Platform) where
  binding_bytes_injective :
      (c t c' t' : Text) (s v s' v' : ℤ)
      → length c ≡ 32
      → length c' ≡ 32
      → length t ≡ 32
      → length t' ≡ 32
      → binding_bytes p c t s v ≡ binding_bytes p c' t' s' v'
      → (c ≡ c') × (t ≡ t') × (to_uint64 s ≡ to_uint64 s') × (to_uint64 v ≡ to_uint64 v')
  unfolding binding_bytes
  binding_bytes_injective c t c' t' s v s' v' hc hc' ht ht' e =
      let (_, e1) = append_injective (replay_domain_hash p) (replay_domain_hash p) _ _ refl e in
      let (_, e2) = put_uint64_injective _ _ _ _ (omega arith) (omega arith) e1 in
      let (cer, e3) = append_injective c c' _ _ (omega arith) e2 in
      let (_, e4) = put_uint64_injective _ _ _ _ (omega arith) (omega arith) e3 in
      let (trace, e5) = append_injective t t' _ _ (omega arith) e4 in
      let (semantics, e6) =
        put_uint64_injective (to_uint64 s) (to_uint64 s') _ _ (to_uint64-lt s) (to_uint64-lt s')
          e5 in
      let (ccnf, _) =
        put_uint64_injective (to_uint64 v) (to_uint64 v') [] [] (to_uint64-lt v) (to_uint64-lt v')
          (simp append-nil e6) in
      (cer, trace, semantics, ccnf)

  -- The digest and the two decodings behind a binding.
  bind_raw-some :
      (c t : Option Text) (s v : ℤ) (h : Text)
      → bind_raw p c t s v ≡ some h
      → (a b : Text) × (c ≡ some a)
        × (t ≡ some b)
        × (h ≡ hex_encode (p.sum256 (binding_bytes p a b s v)))
  unfolding bind_raw
  bind_raw-some (some a) (some b) s v h e = (a, b, refl, refl, ground arith)
  bind_raw-some _ _ s v h e = cc

  -- Where digests have 32 bytes, two bindings computed without a panic, of versions that are
  -- int64s, that are equal bind the same root hashes and the same versions, or the bytes that the
  -- two calls hash are different and have the same SHA-256 digest.
  pub compute_replay_binding_injective_or :
      (c t c' t' h : Text) (s v s' v' : ℤ)
      → IsSha256 p
      → IsInt s
      → IsInt s'
      → IsInt v
      → IsInt v'
      → compute_replay_binding p c t s v ≡ some h
      → compute_replay_binding p c' t' s' v' ≡ some h
      → SameInputs c t c' t' s v s' v' ⊎ BindingCollision p c t c' t' s v s' v'
  unfolding compute_replay_binding
  compute_replay_binding_injective_or c t c' t' h s v s' v' sha is is' iv iv' e e' =
      let (a, b, ha, hb, hh) = bind_raw-some (decode_digest c) (decode_digest t) s v h e in
      let (a', b', ha', hb', hh') =
        bind_raw-some (decode_digest c') (decode_digest t') s' v' h e' in
      elim (sum256_injective_or p sha (binding_bytes p a b s v) (binding_bytes p a' b' s' v')
        (cc (hh, hh'))) [
          | inr collision ↦ inr (record {
            cer_digest = a;
            trace_digest = b;
            cer_digest' = a';
            trace_digest' = b';
            cer_decoded = ha;
            trace_decoded = hb;
            cer_decoded' = ha';
            trace_decoded' = hb';
            collision = collision;
          })
          | inl same ↦
              let (cer, trace, semantics, ccnf) =
                binding_bytes_injective a b a' b' s v s' v' (decode_digest-size c a ha)
                  (decode_digest-size c' a' ha') (decode_digest-size t b hb)
                  (decode_digest-size t' b' hb') same in
              inl (record {
                cer = cc (ha, ha', cer);
                trace = cc (hb, hb', trace);
                semantics = to_uint64_injective s s' is is' semantics;
                ccnf = to_uint64_injective v v' iv iv' ccnf;
              })
        ]
