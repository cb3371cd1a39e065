-- ===== src/Ccnf/CrossOrder.antt =====
-- `CrossOrderTester` of ccnf/r2.go. `json.Marshal` of an event is given.
pub mod Keys
use nexus_go_ccnf_ref.Base.{
  ℕ, zero, suc, ◌+◌, ◌%◌, Text, text_eq, ℤ, pos, Bool, true, false, not, ◌&&◌, ltb, Option, none,
  some, List, [], ◌∷◌, ◌++◌, if◌then◌else◌, length, drop, take, All, All-append, ◌≡◌, refl, ap, ◌∙◌,
  arith,
}
use nexus_go_ccnf_ref.Value.{Value, Fields, null, obj, end, field, get, put, field_keys, as_map}
use nexus_go_ccnf_ref.Value.Platform.{Platform}
use nexus_go_ccnf_ref.Ccnf.Result.{Result, ok, err, ◌>>=◌}
use nexus_go_ccnf_ref.Ccnf.Cer.{Cer, compute_hash}
use nexus_go_ccnf_ref.Ccnf.Pipeline.{run}
use nexus_go_ccnf_ref.Ccnf.Mutate.{or_null_value, permute_map_keys, deep_clone_map}
use nexus_go_ccnf_ref.Ccnf.Mutate.Order.{deep_clone_map_lem}

-- `keys[(ki+j)%n]`, for j up to n
unfoldable pub shifted : ℕ → List Text → List Text
shifted j keys = drop j keys ++ take j keys

-- `perm[k] = m[keys[(ki+j)%n]]`
unfoldable pub assign : Fields → List Text → List Text → Fields
assign m [] others = end
assign m (k ∷ keys) [] = end
assign m (k ∷ keys) (other ∷ others) = field k (or_null_value (get m other)) (assign m keys others)

abbrev pub with_permuted : Fields → Text → Option Fields → List Fields → List Fields
with_permuted perm pk none rest = rest
with_permuted perm pk (some vm) rest =
    put (deep_clone_map perm) pk (obj (permute_map_keys vm)) ∷ rest

-- the loop over the entries of the permuted map
unfoldable pub nested_permutations : Fields → Fields → List Fields
nested_permutations perm end = []
nested_permutations perm (field pk pv entries) =
    with_permuted perm pk (as_map (some pv)) (nested_permutations perm entries)

-- the rounds from i on, of which `left` are left
unfoldable pub permutations_from : Fields → ℕ → ℕ → List Fields
unfolding assign shifted nested_permutations
permutations_from m zero i = []
permutations_from m (suc left) i =
    let keys = field_keys m in
    let perm = assign m keys (shifted (suc i % length keys) keys) in
    nested_permutations perm perm ++ (perm ∷ permutations_from m left (suc i))

abbrev pub smaller : ℕ → ℕ → ℕ
smaller m n = if ltb m n then m else n

-- What `genKeyPermutations` yields, in its order.
unfoldable pub gen_key_permutations : Fields → List Fields
unfolding permutations_from
gen_key_permutations m =
    let n = length (field_keys m) in if ltb n 2 then [] else permutations_from m (smaller n 8) 0

unfoldable pub all_equal : Text → List Text → Bool
all_equal h [] = true
all_equal h (other ∷ others) = text_eq other h && all_equal h others

module _ (p : Platform) (marshal : Fields → Text) where
  abbrev pub add_hash : Result Cer → List Text → List Text
  add_hash (err e) others = others
  add_hash (ok cer) others = compute_hash p cer ∷ others

  unfoldable pub other_hashes : List Fields → List Text
  other_hashes [] = []
  other_hashes (m ∷ yields) = add_hash (run p (marshal m) (pos 1)) (other_hashes yields)

  -- `Test`: the hash, the other hashes, and whether they agree
  unfoldable pub cross_order_test : Fields → Result (Text × List Text × Bool)
  unfolding other_hashes gen_key_permutations all_equal
  cross_order_test input = do
    cer0 ← run p (marshal input) (pos 1)
    (let others = other_hashes (gen_key_permutations input) in
        ok (compute_hash p cer0, others, all_equal (compute_hash p cer0) others))
