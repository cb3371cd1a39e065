-- ===== src/Ccnf/Fuzz/Events.antt =====
-- The generated events hold what the first steps of `Run` ask for.
use nexus_go_ccnf_ref.Base.{
  ℕ, zero, suc, ◌%◌, ◌<◌, codes, text_eq, text_leb, ◌==◌, Bool, true, false, some, if◌then◌else◌,
  ◌≡◌, refl, arith,
}
use nexus_go_ccnf_ref.Base.Sort.{sort_strings}
use nexus_go_ccnf_ref.Value.{Fields, null, get, put, remove, get_map, get_string, field_keys}
use nexus_go_ccnf_ref.Value.Platform.{Platform}
use nexus_go_ccnf_ref.Ccnf.Intents.{contains, controlled_vocab}
use nexus_go_ccnf_ref.Ccnf.Pipeline.{required, has_fields}
use nexus_go_ccnf_ref.Ccnf.Mutate.{permute_map_keys, permute_values, reorder}
use nexus_go_ccnf_ref.Ccnf.Fuzz.{
  pick, fuzz_actions, Draws, draw, standard_of, gen_standard_input, null_vs_omission,
  unicode_variant, timestamp_boundary, float_boundary, multi_artifact, alias_chain,
  nested_structure, generate_in, generate,
}

-- The required fields are there, and the action is one of the vocabulary.
abbrev pub IsFuzzed : Fields → Type 0
IsFuzzed m =
    (has_fields m required ≡ true)
    × (contains controlled_vocab (get_string (get_map (some m) (codes "intent")) (codes "action"))
        ≡ true)

module _ {S : Type 0} (p : Platform) (intn : ℕ → S → ℕ × S) where
  contains-pick : (n : ℕ) → n < 6 → contains controlled_vocab (pick fuzz_actions n) ≡ true
  unfolding contains text_eq
  contains-pick zero h = refl
  contains-pick (suc zero) h = refl
  contains-pick (suc (suc zero)) h = refl
  contains-pick (suc (suc (suc zero))) h = refl
  contains-pick (suc (suc (suc (suc zero)))) h = refl
  contains-pick (suc (suc (suc (suc (suc zero))))) h = refl
  contains-pick (suc (suc (suc (suc (suc (suc n)))))) h = absurd (omega (arith, h))

  unicode_variant-IsFuzzed :
      (i : ℕ) (d : Draws)
      → d.action < 6
      → IsFuzzed (unicode_variant p intn i (standard_of p intn i d))
  unfolding unicode_variant standard_of has_fields put remove get get_map get_string text_eq
  unicode_variant-IsFuzzed i d h = (refl, contains-pick d.action h)

  timestamp_boundary-IsFuzzed :
      (i : ℕ) (d : Draws)
      → d.action < 6
      → IsFuzzed (timestamp_boundary p intn i (standard_of p intn i d))
  unfolding timestamp_boundary standard_of has_fields put remove get get_map get_string text_eq
  timestamp_boundary-IsFuzzed i d h = (refl, contains-pick d.action h)

  float_boundary-IsFuzzed :
      (i : ℕ) (d : Draws)
      → d.action < 6
      → IsFuzzed (float_boundary p intn i (standard_of p intn i d))
  unfolding float_boundary standard_of has_fields put remove get get_map get_string text_eq
  float_boundary-IsFuzzed i d h = (refl, contains-pick d.action h)

  multi_artifact-IsFuzzed :
      (i : ℕ) (d : Draws)
      → d.action < 6
      → IsFuzzed (multi_artifact p intn i (standard_of p intn i d))
  unfolding multi_artifact standard_of has_fields put remove get get_map get_string text_eq
  multi_artifact-IsFuzzed i d h = (refl, contains-pick d.action h)

  alias_chain-IsFuzzed :
      (i : ℕ) (d : Draws) → d.action < 6 → IsFuzzed (alias_chain p intn i (standard_of p intn i d))
  unfolding alias_chain standard_of has_fields put remove get get_map get_string text_eq
  alias_chain-IsFuzzed i d h = (refl, contains-pick d.action h)

  nested_structure-IsFuzzed :
      (i : ℕ) (d : Draws) (s : S)
      → d.action < 6
      → IsFuzzed (nested_structure p intn i (standard_of p intn i d, s)).0
  unfolding nested_structure standard_of has_fields put remove get get_map get_string text_eq
  nested_structure-IsFuzzed i d s h = (refl, contains-pick d.action h)

  standard_of-IsFuzzed : (i : ℕ) (d : Draws) → d.action < 6 → IsFuzzed (standard_of p intn i d)
  unfolding standard_of has_fields put remove get get_map get_string text_eq
  standard_of-IsFuzzed i d h = (refl, contains-pick d.action h)

  permute_map_keys-IsFuzzed :
      (i : ℕ) (d : Draws) → d.action < 6 → IsFuzzed (permute_map_keys (standard_of p intn i d))
  unfolding permute_map_keys reorder sort_strings field_keys permute_values text_leb standard_of
      has_fields put remove get get_map get_string text_eq
  permute_map_keys-IsFuzzed i d h = (refl, contains-pick d.action h)

  null_vs_omission-IsFuzzed :
      (i : ℕ) (d : Draws)
      → d.action < 6
      → IsFuzzed (null_vs_omission p intn i (standard_of p intn i d))
  unfolding null_vs_omission standard_of has_fields put remove get get_map get_string text_eq
  null_vs_omission-IsFuzzed i d h = split (i % 2 == 0) (i % 3 == 0)
    where
      split :
          (even by_three : Bool)
          → IsFuzzed (
              let base = standard_of p intn i d in
              let context =
                if even then put base (codes "context") null else remove base (codes "context") in
              if by_three then put context (codes "signature") null else context)
      split true true = (refl, contains-pick d.action h)
      split true false = (refl, contains-pick d.action h)
      split false true = (refl, contains-pick d.action h)
      split false false = (refl, contains-pick d.action h)

  generate_in-IsFuzzed :
      (n i : ℕ) (d : Draws) (s : S)
      → d.action < 6
      → IsFuzzed (generate_in p intn n i (standard_of p intn i d, s)).0
  unfolding generate_in
  generate_in-IsFuzzed zero i d s h = permute_map_keys-IsFuzzed i d h
  generate_in-IsFuzzed (suc zero) i d s h = null_vs_omission-IsFuzzed i d h
  generate_in-IsFuzzed (suc (suc zero)) i d s h = unicode_variant-IsFuzzed i d h
  generate_in-IsFuzzed (suc (suc (suc zero))) i d s h = timestamp_boundary-IsFuzzed i d h
  generate_in-IsFuzzed (suc (suc (suc (suc zero)))) i d s h = float_boundary-IsFuzzed i d h
  generate_in-IsFuzzed (suc (suc (suc (suc (suc zero))))) i d s h = multi_artifact-IsFuzzed i d h
  generate_in-IsFuzzed (suc (suc (suc (suc (suc (suc zero)))))) i d s h = alias_chain-IsFuzzed i d h
  generate_in-IsFuzzed (suc (suc (suc (suc (suc (suc (suc zero))))))) i d s h =
      nested_structure-IsFuzzed i d s h
  generate_in-IsFuzzed (suc (suc (suc (suc (suc (suc (suc (suc n)))))))) i d s h =
      standard_of-IsFuzzed i d h

  -- Where `Intn` keeps to its bound, each generated event has the fields that `Run` requires and an
  -- action of the vocabulary, in every dimension.
  pub generate-IsFuzzed :
      (i : ℕ) (s : S)
      → ((n : ℕ) (t : S) → zero < n → (intn n t).0 < n)
      → IsFuzzed (generate p intn i s).0
  unfolding generate gen_standard_input
  generate-IsFuzzed i s bounded =
      let (d, t) = draw p intn s in generate_in-IsFuzzed (i % 8) i d t (bounded 6 s (omega arith))
