-- ===== src/Ccnf/Artifacts/Loop.antt =====
-- What the loop over the keys returns.
use nexus_go_ccnf_ref.Base.{
  Text, ◌≡◌, refl, ap, true, Bool-cases, inl, inr, Option, some, List, [], ◌∷◌, arith,
}
use nexus_go_ccnf_ref.Value.{Value, Fields, obj, get}
use nexus_go_ccnf_ref.Ccnf.Result.{ok, >>=-eq-ok}
use nexus_go_ccnf_ref.Ccnf.Artifacts.{artifact, is_valid_artifact_id, patch_of, resolve_keys}

-- The artifacts of the keys, one for one: each key is a valid reference and holds an object.
abbrev pub Resolves : Fields → List Text → List Fields → Type 0
Resolves items [] [] = Unit
Resolves items (k ∷ ks) (a ∷ arts) =
    (patch : Fields) × (is_valid_artifact_id k ≡ true)
    × (get items k ≡ some (obj patch))
    × (a ≡ artifact k patch)
    × Resolves items ks arts
Resolves items _ _ = ⊥

patch_of-eq-ok : (o : Option Value) (patch : Fields) → patch_of o ≡ ok patch → o ≡ some (obj patch)
unfolding patch_of
patch_of-eq-ok o patch h = ground arith

ok-injective {ℓ} : {A : Type ℓ} (a b : A) → ok a ≡ ok b → a ≡ b
ok-injective a b h = cc

pub resolve_keys-eq-ok :
    (items : Fields) (ks : List Text) (r : List Text × List Fields)
    → resolve_keys items ks ≡ ok r
    → (r.0 ≡ ks) × Resolves items ks r.1
unfolding resolve_keys
resolve_keys-eq-ok items [] r h = rw (← ok-injective _ r h) (refl, tt)
resolve_keys-eq-ok items (k ∷ ks) r h = elim (Bool-cases (is_valid_artifact_id k)) [
  | inr bad ↦ absurd (cc (rw bad at h))
  | inl valid ↦
      let (patch, h1, h2) = >>=-eq-ok (patch_of (get items k)) _ (rw valid at h) in
      let (ra, h3, h4) = >>=-eq-ok (resolve_keys items ks) _ h2 in
      let (same, tail) = resolve_keys-eq-ok items ks ra h3 in
      rw (← ok-injective _ r h4)
        (ap (◌∷◌ k) same, (patch, valid, patch_of-eq-ok (get items k) patch h1, refl, tail))
]
