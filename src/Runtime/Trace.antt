-- ===== src/Runtime/Trace.antt =====
-- The trace builder of runtime/trace.go.
pub mod Root
pub mod Appends
use nexus_go_ccnf_ref.Base.{
  ℕ, Text, codes, List, [], ◌∷◌, ◌++◌, Option, none, some, length, ◌%◌, ◌^◌,
}
use mathlib.Core.Option
use nexus_go_ccnf_ref.Value.Platform.{Platform}
use nexus_go_ccnf_ref.Ccnf.Numerals.{hex_encode}
use nexus_go_ccnf_ref.Runtime.Bytes.{put_uint64, decode_digest}

pub record TraceBuilder : Type 0 where
  pub hashes : List Text

abbrev pub new_trace_builder : TraceBuilder
new_trace_builder = record { hashes = [] }

-- the method behind the decoding; `none` is the panic
unfoldable pub push_raw : TraceBuilder → Option Text → Option TraceBuilder
push_raw t none = none
push_raw t (some raw) = some (record { hashes = t.hashes ++ (raw ∷ []) })

-- `Append`
unfoldable pub append : TraceBuilder → Text → Option TraceBuilder
unfolding push_raw
append t cer_hash_hex = push_raw t (decode_digest cer_hash_hex)

unfoldable pub concat : List Text → Text
concat [] = []
concat (s ∷ ss) = s ++ concat ss

-- `EventCount`
unfoldable pub event_count : TraceBuilder → ℕ
event_count t = length t.hashes % 2 ^ 64

module _ (p : Platform) where
  unfoldable pub trace_domain_hash : Text
  trace_domain_hash = p.sum256 (codes "ccnf-domain:trace:v1")

  -- the writes of `RootHash`
  unfoldable pub root_bytes : TraceBuilder → Text
  unfolding concat event_count
  root_bytes t = trace_domain_hash ++ (put_uint64 (event_count t) ++ concat t.hashes)

  unfoldable pub root_hash : TraceBuilder → Text
  root_hash t = hex_encode (p.sum256 (root_bytes t))
