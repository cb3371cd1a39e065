-- ===== src/Examples/Lineage.antt =====
-- Seeds and stable ids.
use nexus_go_ccnf_ref.Base.{Text, codes, List, [], ◌∷◌, All, ◌≡◌, ◌≢◌, ◌⊎◌, refl, arith}
use nexus_go_ccnf_ref.Base.Map.{or_else, lookup}
use nexus_go_ccnf_ref.Base.{◌++◌}
use nexus_go_ccnf_ref.Runtime.Bytes.{Collision}
use nexus_go_ccnf_ref.Lineage.{
  new_memory_store, get_seed, insert_all, get_seed-insert_all, assemble_injective_or,
}
use nexus_go_ccnf_ref.Examples.{sample_platform, sample_platform-IsSha256}

abbrev calls : List (Text × Text)
calls = (codes "db|", codes "s1") ∷ (codes "db|", codes "s2") ∷ []

get_seed-insert_all_example :
    get_seed (insert_all new_memory_store calls) (codes "db|")
    ≡ or_else (get_seed new_memory_store (codes "db|")) (lookup (codes "db|") calls)
get_seed-insert_all_example = get_seed-insert_all new_memory_store calls (codes "db|")

s1-nonzero : All (λ c. c ≢ 0) (codes "s1")
s1-nonzero = (λ h. ground arith, (λ h. ground arith, tt))

assemble_injective_or_example :
    ((codes "s1" ≡ codes "s1") × (codes "db|" ≡ codes "db|"))
    ⊎ Collision sample_platform (codes "s1" ++ (0 ∷ codes "db|")) (codes "s1" ++ (0 ∷ codes "db|"))
assemble_injective_or_example =
    assemble_injective_or sample_platform (codes "s1") (codes "s1") (codes "db|") (codes "db|")
      sample_platform-IsSha256 s1-nonzero s1-nonzero refl
