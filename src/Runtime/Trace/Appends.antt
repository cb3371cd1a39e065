-- ===== src/Runtime/Trace/Appends.antt =====
-- A trace made by appending digests.
use nexus_go_ccnf_ref.Base.{
  Text, ◌≡◌, sym, ap, ◌∙◌, List, [], ◌∷◌, ◌++◌, Option, none, some, map, append_assoc, append-nil,
}
use nexus_go_ccnf_ref.Value.Platform.{Platform}
use nexus_go_ccnf_ref.Ccnf.Numerals.{hex_encode}
use nexus_go_ccnf_ref.Runtime.Bytes.{IsSha256, decode_digest-sum256}
use nexus_go_ccnf_ref.Runtime.Trace.{TraceBuilder, new_trace_builder, push_raw, append}

-- The calls of `Append`, one after the other; `none` is the panic of one of them.
abbrev pub append_all : Option TraceBuilder → List Text → Option TraceBuilder
append_all none hs = none
append_all (some t) [] = some t
append_all (some t) (h ∷ hs) = append_all (append t h) hs

module _ (p : Platform) (sha : IsSha256 p) where
  append_all-from :
      (t : TraceBuilder) (ss : List Text)
      → append_all (some t) (map (λ s. hex_encode (p.sum256 s)) ss)
        ≡ some (record { hashes = t.hashes ++ map p.sum256 ss })
  unfolding append push_raw
  append_all-from t [] = ap (λ hs. some (record { hashes = hs })) (sym (append-nil t.hashes))
  append_all-from t (s ∷ ss) =
      ap (λ o. append_all (push_raw t o) (map (λ r. hex_encode (p.sum256 r)) ss))
        (decode_digest-sum256 p sha s)
      ∙ append_all-from (record { hashes = t.hashes ++ (p.sum256 s ∷ []) }) ss
      ∙ ap (λ hs. some (record { hashes = hs }))
          (append_assoc t.hashes (p.sum256 s ∷ []) (map p.sum256 ss))

  -- Where digests have 32 bytes, appending SHA-256 digests in hexadecimal to a new builder never
  -- panics, and the builder then holds the digests in the order of the calls.
  pub append_all_lem :
      (ss : List Text)
      → append_all (some new_trace_builder) (map (λ s. hex_encode (p.sum256 s)) ss)
        ≡ some (record { hashes = map p.sum256 ss })
  append_all_lem ss = append_all-from new_trace_builder ss
