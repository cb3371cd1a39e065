-- ===== src/Ccnf/Checks/Collisions.antt =====
-- What the collision detector reports of the inputs that were added to it.
use nexus_go_ccnf_ref.Base.{
  suc, ◌+◌, Text, text_eq, text_eq_iff, Bool-cases, Option, none, some, List, [], ◌∷◌, ◌++◌,
  if◌then◌else◌, ltb, length, length-append, append-nil, append_assoc, map, ◌≡◌, refl, sym, ap, ◌∙◌,
  arith, inl, inr,
}
use nexus_go_ccnf_ref.Base.Map.{or_nil, lookup, set, lookup-set, NodupKeys, set-NodupKeys}
use nexus_go_ccnf_ref.Value.{Fields}
use nexus_go_ccnf_ref.Ccnf.Checks.{
  CollisionRecord, CollisionReport, CollisionDetector, add, total_inputs, collision_record,
  classify, report,
}

-- The inputs of a hash, in the order in which they were added.
abbrev pub inputs_of : Text → List (Fields × Text) → List Fields
inputs_of h [] = []
inputs_of h ((input, hash) ∷ rest) =
    let more = inputs_of h rest in if text_eq hash h then input ∷ more else more

unfoldable pub add_all : CollisionDetector → List (Fields × Text) → CollisionDetector
add_all d [] = d
add_all d ((input, hash) ∷ rest) = add_all (add d input hash) rest

total-set :
    (d : CollisionDetector) (inputs : List Fields) (hash : Text)
    → total_inputs (set hash inputs d) + length (or_nil (lookup hash d))
      ≡ total_inputs d + length inputs
unfolding total_inputs set lookup
total-set [] inputs hash = omega arith
total-set ((h, old) ∷ d) inputs hash = ground (arith, total-set d inputs hash)

total-add :
    (d : CollisionDetector) (input : Fields) (hash : Text)
    → total_inputs (add d input hash) ≡ suc (total_inputs d)
unfolding add
total-add d input hash = omega (
  arith,
  total-set d (or_nil (lookup hash d) ++ (input ∷ [])) hash,
  length-append (or_nil (lookup hash d)) (input ∷ []),
)

total-add_all :
    (d : CollisionDetector) (adds : List (Fields × Text))
    → total_inputs (add_all d adds) ≡ total_inputs d + length adds
unfolding add_all
total-add_all d [] = omega arith
total-add_all d ((input, hash) ∷ rest) =
    omega (arith, total-add_all (add d input hash) rest, total-add d input hash)

abbrev pub inputs_at : Text → CollisionDetector → List Fields
inputs_at h d = or_nil (lookup h d)

inputs_at-add :
    (d : CollisionDetector) (input : Fields) (hash h : Text)
    → inputs_at h (add d input hash) ≡ inputs_at h d ++ (if text_eq hash h then input ∷ [] else [])
unfolding add
inputs_at-add d input hash h = elim (Bool-cases (text_eq hash h)) [
  | inl same ↦
      ap or_nil (lookup-set h hash (inputs_at hash d ++ (input ∷ [])) d)
      ∙ rw (same, (text_eq_iff hash h).0 same) refl
  | inr other ↦
      ap or_nil (lookup-set h hash (inputs_at hash d ++ (input ∷ [])) d)
      ∙ rw (other, append-nil (inputs_at h d)) refl
]

inputs_at-add_all :
    (d : CollisionDetector) (adds : List (Fields × Text)) (h : Text)
    → inputs_at h (add_all d adds) ≡ inputs_at h d ++ inputs_of h adds
unfolding add_all
inputs_at-add_all d [] h = sym (append-nil (inputs_at h d))
inputs_at-add_all d ((input, hash) ∷ rest) h =
    inputs_at-add_all (add d input hash) rest h
    ∙ ap (λ xs. xs ++ inputs_of h rest) (inputs_at-add d input hash h)
    ∙ append_assoc (inputs_at h d) (if text_eq hash h then input ∷ [] else []) (inputs_of h rest)
    ∙ ap (λ xs. inputs_at h d ++ xs) (ground arith)

add_all-NodupKeys :
    (d : CollisionDetector) (adds : List (Fields × Text)) → NodupKeys d → NodupKeys (add_all d adds)
unfolding add_all add
add_all-NodupKeys d [] h = h
add_all-NodupKeys d ((input, hash) ∷ rest) h =
    add_all-NodupKeys (add d input hash) rest
      (set-NodupKeys hash (inputs_at hash d ++ (input ∷ [])) d h)

module _ (marshal : Fields → Text) where
  -- A record for a hash that two inputs or more have.
  abbrev pub record_for : Text → List Fields → Option CollisionRecord
  record_for h inputs =
      if ltb (length inputs) 2 then none else some (collision_record marshal h inputs)

  lookup-classify :
      (h : Text) (d : CollisionDetector)
      → NodupKeys d
      → lookup h (classify marshal d) ≡ record_for h (inputs_at h d)
  unfolding classify lookup
  lookup-classify h [] u = refl
  lookup-classify h ((k, inputs) ∷ d) u =
      ground (arith, lookup-classify h d u.1, text_eq_iff k h, u.0)

  -- What a report says of the inputs with their hashes.
  pub record Reports (adds : List (Fields × Text)) (r : CollisionReport) : Type 0 where
    pub iterations : r.iterations ≡ length adds
    pub classified : (h : Text) → lookup h r.classified ≡ record_for h (inputs_of h adds)
    pub expected : r.expected ≡ map (λ (hash, record_of). record_of) r.classified
    pub no_ambiguities : r.ambiguities ≡ []
    pub no_divergences : r.divergences ≡ []

  -- The report counts the added inputs, and lists a hash exactly if two inputs or more have it, with
  -- these in the order in which they were added. It never lists an ambiguity or a divergence.
  pub report-Reports :
      (adds : List (Fields × Text)) → Reports adds (report marshal (add_all [] adds))
  unfolding report total_inputs lookup
  report-Reports adds = record {
    iterations = omega (arith, total-add_all [] adds);
    classified = λ h.
        lookup-classify h (add_all [] adds) (add_all-NodupKeys [] adds tt)
        ∙ ap (record_for h) (inputs_at-add_all [] adds h);
    expected = refl;
    no_ambiguities = refl;
    no_divergences = refl;
  }
