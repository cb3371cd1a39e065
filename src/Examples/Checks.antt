-- ===== src/Examples/Checks.antt =====
-- Maps for the mutations and the checks, and a vector file.
use nexus_go_ccnf_ref.Base.{
  Text, codes, text_eq, pos, some, List, [], ◌∷◌, if◌then◌else◌, ◌≡◌, refl, ◌↔◌, All,
}
use nexus_go_ccnf_ref.Value.{Fields, null, obj, get}
use nexus_go_ccnf_ref.Value.Platform.{Platform}
use nexus_go_ccnf_ref.Value.Equal.{IsPlainMap}
use nexus_go_ccnf_ref.Ccnf.Result.{◌>>=◌, err, structural_parse}
use nexus_go_ccnf_ref.Ccnf.Serializer.{canonical_json}
use nexus_go_ccnf_ref.Ccnf.Pipeline.{run}
use nexus_go_ccnf_ref.Ccnf.Mutate.{reorder_keys}
use nexus_go_ccnf_ref.Ccnf.Mutate.Order.{canonical_json-reorder_keys}
use nexus_go_ccnf_ref.Ccnf.Checks.{check, check_lem, report}
use nexus_go_ccnf_ref.Ccnf.Checks.Collisions.{add_all, Reports, report-Reports}
use nexus_go_ccnf_ref.Base.{false}
use nexus_go_ccnf_ref.Conformance.{VectorFile, vector_files, Harness, run_vectors}
use nexus_go_ccnf_ref.Ccnf.Numerals.{hex_encode}
use nexus_go_ccnf_ref.Conformance.Commands.{
  hash_file, canonical_file, map_output, hash_file-canonical_file,
}
use nexus_go_ccnf_ref.Conformance.Vectors.{FilePasses, run_vectors_iff}
use nexus_go_ccnf_ref.Examples.{sample, sample_artifact, sample_intent, sample_platform}

sample_intent-IsPlainMap : IsPlainMap sample_intent
unfolding get text_eq
sample_intent-IsPlainMap = (refl, tt, (refl, tt, (refl, tt, tt)))

canonical_json-reorder_keys_example :
    canonical_json sample_platform (obj (reorder_keys sample_intent))
    ≡ canonical_json sample_platform (obj sample_intent)
canonical_json-reorder_keys_example =
    canonical_json-reorder_keys sample_platform sample_intent sample_intent-IsPlainMap

abbrev adds : List (Fields × Text)
adds = (sample, codes "h1") ∷ (sample_intent, codes "h2") ∷ (sample_artifact, codes "h1") ∷ []

report-Reports_example : Reports (λ m. codes "{}") adds (report (λ m. codes "{}") (add_all [] adds))
report-Reports_example = report-Reports (λ m. codes "{}") adds

-- parses the text null to null, and every other text to the sample event
abbrev parsing : Platform
parsing = record sample_platform {
  unmarshal = λ s. if text_eq s (codes "null") then some null else some (obj sample);
}

parsing-null : parsing.unmarshal (codes "null") ≡ some null
unfolding text_eq
parsing-null = refl

check_lem_example :
    check parsing (codes "{}") ≡ (run parsing (codes "{}") (pos 1) >>= λ cer1. err structural_parse)
check_lem_example = check_lem parsing (codes "{}") parsing-null

abbrev harness : Harness
harness = record {
  platform = sample_platform;
  marshal = λ m. some (codes "{}");
  detail = λ s v e. codes "no intent field";
}

abbrev entries : List VectorFile
entries = record { name = codes "v.json"; is_dir = false; contents = some (codes "{}") } ∷ []

run_vectors_iff_example : (run_vectors harness (some entries) ≡ 0) ↔ (
    (files : List VectorFile) × (some entries ≡ some files)
    × All (FilePasses harness) (vector_files files))
run_vectors_iff_example = run_vectors_iff harness (some entries)

hash_file-canonical_file_example :
    hash_file harness (some (codes "{}"))
    ≡ map_output harness
        (λ text. hex_encode (sample_platform.sum256 text))
        (canonical_file harness (some (codes "{}")))
hash_file-canonical_file_example = hash_file-canonical_file harness (some (codes "{}"))
