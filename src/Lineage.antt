-- ===== src/Lineage.antt =====
-- runtime/identity: seeds of identity that are written once, stable ids, and semantic signatures.
use mathlib.Core.List.{Perm, foldr}
use mathlib.Core.List.Perm
use nexus_go_ccnf_ref.Base.{
  ℕ, suc, Text, text_eq, text_eq_iff, List, [], ◌∷◌, ◌++◌, Option, none, some, ◌≡◌, ◌≢◌, refl, sym,
  ap, ap₂, ◌∙◌, Bool, true, false, if◌then◌else◌, arith, All, Bool-cases, inl, inr, ◌⊎◌, ◌↔◌,
}
use nexus_go_ccnf_ref.Base.Map.{Map, lookup, set, lookup-set, or_else, or_else-none}
use nexus_go_ccnf_ref.Base.Sort.{insert, sort_strings, insert_comm}
use nexus_go_ccnf_ref.Value.Platform.{Platform}
use nexus_go_ccnf_ref.Ccnf.Numerals.{hex_encode}
use nexus_go_ccnf_ref.Ccnf.Serializer.{join_commas}
use nexus_go_ccnf_ref.Runtime.Bytes.{Collision, IsSha256, sum256_injective_or}

-- The memory store; its mutex makes each operation one step.
pub record MemoryStore : Type 0 where
  pub seeds : Map Text

abbrev pub new_memory_store : MemoryStore
new_memory_store = record { seeds = [] }

unfoldable pub get_seed : MemoryStore → Text → Option Text
get_seed s sig = lookup sig s.seeds

-- An insertion: the store after it, and whether it was accepted; `false` is `ErrAlreadyExists`.
abbrev inserted : MemoryStore → Text → Text → Option Text → MemoryStore × Bool
inserted s sig seed (some old) = (s, false)
inserted s sig seed none = (record { seeds = set sig seed s.seeds }, true)

unfoldable pub insert_seed : MemoryStore → Text → Text → MemoryStore × Bool
insert_seed s sig seed = inserted s sig seed (lookup sig s.seeds)

-- A sequence of insertions, as any interleaving of the callers makes it.
unfoldable pub insert_all : MemoryStore → List (Text × Text) → MemoryStore
unfolding insert_seed
insert_all s [] = s
insert_all s ((sig, seed) ∷ calls) = insert_all (insert_seed s sig seed).0 calls

-- `Assemble`, and `HashStableID`
unfoldable pub assemble : Platform → Text → Text → Text
assemble p seed sig = hex_encode (p.sum256 (seed ++ (0 ∷ sig)))

unfoldable pub canonical_semantic_signature : Text → List Text → Text
canonical_semantic_signature name deps = name ++ (b'|' ∷ join_commas (sort_strings deps))

unfoldable pub hash_semantic_signature : Platform → Text → List Text → Text
unfolding canonical_semantic_signature
hash_semantic_signature p name deps = hex_encode (p.sum256 (canonical_semantic_signature name deps))

-- `Replay`: the position of the first empty event is its error.
unfoldable pub first_empty : ℕ → List Text → Option ℕ
first_empty i [] = none
first_empty i (event ∷ events) = if text_eq event [] then some i else first_empty (suc i) events

get_seed-insert_seed :
    (s : MemoryStore) (sig seed k : Text) (o : Option Text)
    → lookup sig s.seeds ≡ o
    → lookup k (inserted s sig seed o).0.seeds
      ≡ or_else (lookup k s.seeds) (if text_eq sig k then some seed else none)
get_seed-insert_seed s sig seed k (some old) h = elim (Bool-cases (text_eq sig k)) [
  | inl same ↦ rw (← (text_eq_iff sig k).0 same, h) refl
  | inr other ↦ rw (other, or_else-none (lookup k s.seeds)) refl
]
get_seed-insert_seed s sig seed k none h = elim (Bool-cases (text_eq sig k)) [
  | inl same ↦ rw (lookup-set k sig seed s.seeds, same, ← (text_eq_iff sig k).0 same, h) refl
  | inr other ↦ rw (lookup-set k sig seed s.seeds, other, or_else-none (lookup k s.seeds)) refl
]

or_else_test :
    (o : Option Text) (b : Bool) (seed : Text) (r : Option Text)
    → or_else (or_else o (if b then some seed else none)) r ≡ or_else o (if b then some seed else r)
or_else_test (some x) b seed r = refl
or_else_test none true seed r = refl
or_else_test none false seed r = refl

-- The seed of a signature is the one that it had, or else the one of the first insertion for it: no
-- sequence of insertions changes a seed.
pub get_seed-insert_all :
    (s : MemoryStore) (calls : List (Text × Text)) (k : Text)
    → get_seed (insert_all s calls) k ≡ or_else (get_seed s k) (lookup k calls)
unfolding get_seed insert_all insert_seed lookup
get_seed-insert_all s [] k = ground (arith, or_else-none (lookup k s.seeds))
get_seed-insert_all s ((sig, seed) ∷ calls) k =
    get_seed-insert_all (insert_seed s sig seed).0 calls k
    ∙ ap (λ o. or_else o (lookup k calls))
        (get_seed-insert_seed s sig seed k (lookup sig s.seeds) refl)
    ∙ or_else_test (lookup k s.seeds) (text_eq sig k) seed (lookup k calls)

texts_set : IsSet (List Text)
texts_set = hlevel

sort_strings-eq-foldr : (xs : List Text) → sort_strings xs ≡ foldr insert [] xs
unfolding sort_strings
sort_strings-eq-foldr [] = refl
sort_strings-eq-foldr (x ∷ xs) = ap (insert x) (sort_strings-eq-foldr xs)

sort_strings-Perm : (xs ys : List Text) → Perm xs ys → sort_strings xs ≡ sort_strings ys
sort_strings-Perm xs ys h =
    sort_strings-eq-foldr xs
    ∙ Perm.foldr-eq texts_set insert insert_comm h []
    ∙ sym (sort_strings-eq-foldr ys)

-- The signature does not depend on the order in which the dependencies are given.
canonical_semantic_signature-Perm :
    (name : Text) (xs ys : List Text)
    → Perm xs ys
    → canonical_semantic_signature name xs ≡ canonical_semantic_signature name ys
unfolding canonical_semantic_signature
canonical_semantic_signature-Perm name xs ys h =
    ap (λ deps. name ++ (b'|' ∷ join_commas deps)) (sort_strings-Perm xs ys h)

-- What stands before the first zero byte, and after it, can be read back.
split_at_zero :
    (a b s t : Text)
    → All (λ c. c ≢ 0) a
    → All (λ c. c ≢ 0) b
    → a ++ (0 ∷ s) ≡ b ++ (0 ∷ t)
    → (a ≡ b) × (s ≡ t)
split_at_zero [] [] s t ha hb e = (refl, ground arith)
split_at_zero [] (y ∷ b) s t ha hb e = absurd (hb.0 (ground arith))
split_at_zero (x ∷ a) [] s t ha hb e = absurd (ha.0 (ground arith))
split_at_zero (x ∷ a) (y ∷ b) s t ha hb e =
    let (same, rest) = split_at_zero a b s t ha.1 hb.1 (ground arith) in
    (ap₂ ◌∷◌ (ground arith) same, rest)

-- Where digests have 32 bytes, two stable ids that are equal, of seeds without a zero byte, have
-- one seed and one signature, or the bytes hashed for them, each seed, a zero byte and the signature, are
-- different and have the same SHA-256 digest.
pub assemble_injective_or :
    (p : Platform) (a b s t : Text)
    → IsSha256 p
    → All (λ c. c ≢ 0) a
    → All (λ c. c ≢ 0) b
    → assemble p a s ≡ assemble p b t
    → ((a ≡ b) × (s ≡ t)) ⊎ Collision p (a ++ (0 ∷ s)) (b ++ (0 ∷ t))
unfolding assemble
assemble_injective_or p a b s t sha ha hb e =
    elim (sum256_injective_or p sha (a ++ (0 ∷ s)) (b ++ (0 ∷ t)) e) [
      | inl same ↦ inl (split_at_zero a b s t ha hb same)
      | inr c ↦ inr c
    ]

-- The replay, from any index on, is accepted just when no event is empty.
first_empty_iff :
    (i : ℕ) (events : List Text)
    → (All (λ e. text_eq e [] ≡ false) events) ↔ (first_empty i events ≡ none)
unfolding first_empty
first_empty_iff i [] = (λ _. refl, λ _. tt)
first_empty_iff i (event ∷ events) = ground (arith, first_empty_iff (suc i) events)
