-- ===== src/Ccnf/CrossOrder/Keys.antt =====
-- What `genKeyPermutations` yields has the keys of the event, in one order.
use mathlib.Core.Path.{subst}
use nexus_go_ccnf_ref.Base.{
  ℕ, zero, suc, ◌+◌, ◌%◌, Text, text_eq, text_eq_refl, true, Bool-cases, ltb, Option, none, some,
  List, [], ◌∷◌, length, length-append, drop, take, All, All-append, ◌≡◌, refl, ap, ◌∙◌, arith, inl,
  inr,
}
use nexus_go_ccnf_ref.Base.Sets.{member}
use nexus_go_ccnf_ref.Value.{Value, Fields, obj, end, field, put, field_keys, as_map}
use nexus_go_ccnf_ref.Ccnf.Mutate.{permute_map_keys}
use nexus_go_ccnf_ref.Ccnf.Mutate.Order.{deep_clone_map_lem}
use nexus_go_ccnf_ref.Ccnf.CrossOrder.{
  shifted, assign, with_permuted, nested_permutations, permutations_from, smaller,
  gen_key_permutations,
}

length-drop : (n : ℕ) (l : List Text) → length (drop n l) + length (take n l) ≡ length l
length-drop zero l = omega arith
length-drop (suc n) [] = refl
length-drop (suc n) (x ∷ l) = omega (arith, length-drop n l)

length-shifted : (j : ℕ) (keys : List Text) → length (shifted j keys) ≡ length keys
unfolding shifted
length-shifted j keys = length-append (drop j keys) (take j keys) ∙ length-drop j keys

field_keys-assign :
    (m : Fields) (keys others : List Text)
    → length others ≡ length keys
    → field_keys (assign m keys others) ≡ keys
unfolding assign field_keys
field_keys-assign m [] others h = refl
field_keys-assign m (k ∷ keys) [] h = absurd (omega (arith, h))
field_keys-assign m (k ∷ keys) (o ∷ others) h =
    ap (λ ks. k ∷ ks) (field_keys-assign m keys others (omega (arith, h)))

field_keys-put :
    (m : Fields) (k : Text) (v : Value)
    → member k (field_keys m) ≡ true
    → field_keys (put m k v) ≡ field_keys m
unfolding put field_keys member
field_keys-put end k v h = cc h
field_keys-put (field j w m) k v h = elim (Bool-cases (text_eq j k)) [
  | inl same ↦ rw same refl
  | inr other ↦ rw other (ap (λ ks. j ∷ ks) (field_keys-put m k v (rw other at h)))
]

abbrev HasKeys : List Text → Fields → Type 0
HasKeys keys y = field_keys y ≡ keys

with_permuted-HasKeys :
    (perm : Fields) (pk : Text) (o : Option Fields) (rest : List Fields)
    → member pk (field_keys perm) ≡ true
    → All (HasKeys (field_keys perm)) rest
    → All (HasKeys (field_keys perm)) (with_permuted perm pk o rest)
with_permuted-HasKeys perm pk none rest h k = k
with_permuted-HasKeys perm pk (some vm) rest h k = (
  ap (λ n. field_keys (put n pk (obj (permute_map_keys vm)))) (deep_clone_map_lem perm)
      ∙ field_keys-put perm pk (obj (permute_map_keys vm)) h,
  k,
)

nested_permutations-HasKeys :
    (perm entries : Fields)
    → ((k : Text) → member k (field_keys entries) ≡ true → member k (field_keys perm) ≡ true)
    → All (HasKeys (field_keys perm)) (nested_permutations perm entries)
unfolding nested_permutations field_keys member
nested_permutations-HasKeys perm end h = tt
nested_permutations-HasKeys perm (field pk pv entries) h =
    with_permuted-HasKeys perm pk (as_map (some pv)) (nested_permutations perm entries)
      (h pk (rw (text_eq_refl pk) refl))
      (nested_permutations-HasKeys perm entries (λ k m. h k (ground arith)))

permutations_from-HasKeys :
    (m : Fields) (left i : ℕ) → All (HasKeys (field_keys m)) (permutations_from m left i)
unfolding permutations_from
permutations_from-HasKeys m zero i = tt
permutations_from-HasKeys m (suc left) i =
    let keys = field_keys m in
    let others = shifted (suc i % length keys) keys in
    let same = field_keys-assign m keys others (length-shifted (suc i % length keys) keys) in
    All-append (HasKeys keys) (nested_permutations (assign m keys others) (assign m keys others)) _
      (subst
        (λ ks. All (HasKeys ks) (nested_permutations (assign m keys others) (assign m keys others)))
        same (nested_permutations-HasKeys (assign m keys others) (assign m keys others) (λ k h. h)))
      (same, permutations_from-HasKeys m left (suc i))

-- Every event that is yielded has the keys of the given one, in the same order of the map.
gen_key_permutations-HasKeys : (m : Fields) → All (HasKeys (field_keys m)) (gen_key_permutations m)
unfolding gen_key_permutations
gen_key_permutations-HasKeys m = elim (Bool-cases (ltb (length (field_keys m)) 2)) [
  | inl few ↦ rw few tt
  | inr more ↦ rw more (permutations_from-HasKeys m (smaller (length (field_keys m)) 8) 0)
]
