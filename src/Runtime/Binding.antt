-- ===== src/Runtime/Binding.antt =====
-- `ComputeReplayBinding` of runtime/replay.go.
pub mod Commitment
use nexus_go_ccnf_ref.Base.{
  ℕ, ◌^◌, ◌<◌, ◌%◌, Text, codes, ℤ, pos, negsuc, Option, none, some, List, [], ◌∷◌, ◌++◌, length,
  ◌≡◌, refl, ap, arith, ◌⊎◌, inl, inr,
}
use nexus_go_ccnf_ref.Value.Platform.{Platform}
use nexus_go_ccnf_ref.Ccnf.Numerals.{hex_encode}
use nexus_go_ccnf_ref.Runtime.Bytes.{
  put_uint64, to_uint64, decode_digest, put_uint64_injective, IsSha256, Collision,
  sum256_injective_or,
}

module _ (p : Platform) where
  unfoldable pub replay_domain_hash : Text
  replay_domain_hash = p.sum256 (codes "ccnf-domain:replay-binding:v1")

  -- the writes to the hash
  unfoldable pub binding_bytes : Text → Text → ℤ → ℤ → Text
  binding_bytes cer_raw trace_raw semantics_version ccnf_version =
      replay_domain_hash
      ++ (put_uint64 (length cer_raw % 2 ^ 64)
          ++ (cer_raw
              ++ (put_uint64 (length trace_raw % 2 ^ 64)
                  ++ (trace_raw
                      ++ (put_uint64 (to_uint64 semantics_version)
                          ++ put_uint64 (to_uint64 ccnf_version))))))

  -- behind the two decodings; `none` is a panic
  unfoldable pub bind_raw : Option Text → Option Text → ℤ → ℤ → Option Text
  bind_raw (some cer_raw) (some trace_raw) semantics_version ccnf_version =
      some (hex_encode (p.sum256 (binding_bytes cer_raw trace_raw semantics_version ccnf_version)))
  bind_raw _ _ semantics_version ccnf_version = none

  unfoldable pub compute_replay_binding : Text → Text → ℤ → ℤ → Option Text
  compute_replay_binding cer_root_hash trace_root_hash semantics_version ccnf_version =
      bind_raw (decode_digest cer_root_hash) (decode_digest trace_root_hash) semantics_version
        ccnf_version
