-- ===== src/Examples.antt =====
-- Concrete inputs: a platform, an event and small traces, on which the theorems are applied.
mod Pipeline
mod Serial
mod Replay
mod Runtime
mod Lineage
mod Rehydrate
mod Pgv
mod Checks
use nexus_go_ccnf_ref.Base.{
  ℕ, zero, suc, ◌%◌, ◌<◌, Text, codes, ℤ, pos, Option, none, some, List, [], ◌∷◌, length, refl,
  arith,
}
use nexus_go_ccnf_ref.Value.{Value, Fields, Items, str, obj, arr, int, bool, null, end, field, nil}
use nexus_go_ccnf_ref.Value.Platform.{Platform}
use nexus_go_ccnf_ref.Runtime.Bytes.{IsSha256}

abbrev pub zeros : ℕ → Text
zeros zero = []
zeros (suc n) = 0 ∷ zeros n

-- a digest that shows the length of its input
abbrev pub toy_digest : Text → Text
toy_digest s = (length s % 256) ∷ zeros 31

abbrev pub sample_intent : Fields
sample_intent = field (codes "action") (str (codes "update")) (
    field (codes "target_type") (str (codes "artifact"))
      (field (codes "target_id") (str (codes "acct:main")) end))

abbrev pub sample_artifact : Fields
sample_artifact = field (codes "status") (str (codes "open")) end

-- an event with one artifact
abbrev pub sample : Fields
sample = field (codes "event_id") (str (codes "e1")) (
    field (codes "domain") (str (codes "code")) (
      field (codes "actor") (obj (field (codes "id") (str (codes "u")) end)) (
        field (codes "intent") (obj sample_intent) (
          field (codes "payload")
            (obj (
              field (codes "data") (obj (field (codes "acct:main") (obj sample_artifact) end)) end))
            end))))

abbrev pub sample_platform : Platform
sample_platform = record {
  sum256 = toy_digest;
  nfc = λ s. s;
  unmarshal = λ s. some (obj sample);
  parse_rfc3339 = λ s. none;
  parse_zulu = λ s. none;
  format_float = λ n. codes "0";
  float_to_int64 = λ n. pos n;
  int64_to_float = λ n. 0;
  now = pos 7;
}

pub sample_platform-IsSha256 : IsSha256 sample_platform
sample_platform-IsSha256 = record { bytes = λ s. omega arith; size = λ s. refl }
