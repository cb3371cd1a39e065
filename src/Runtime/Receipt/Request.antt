-- ===== src/Runtime/Receipt/Request.antt =====
-- What `ValidateRequest` accepts.
use nexus_go_ccnf_ref.Base.{◌<◌, text_eq, ℤ, pos, negsuc, ◌≡◌, ◌↔◌, false, [], arith}
use nexus_go_ccnf_ref.Runtime.Receipt.{ExecutionRequest, accepted, not_positive, validate_request}

abbrev pub IsPositive : ℤ → Type 0
IsPositive (pos n) = 0 < n
IsPositive (negsuc n) = ⊥

not_positive_iff : (n : ℤ) → (not_positive n ≡ false) ↔ IsPositive n
not_positive_iff (pos n) = ground arith
not_positive_iff (negsuc n) = ground arith

-- A request is accepted exactly if it has an id, and its timestamp and its three versions are
-- positive.
pub validate_request_iff :
    (r : ExecutionRequest)
    → (validate_request r ≡ accepted) ↔ (
        (text_eq r.request_id [] ≡ false)
        × IsPositive r.timestamp
        × IsPositive r.version.ccnf
        × IsPositive r.version.collapse_engine
        × IsPositive r.version.rehydration)
unfolding validate_request
validate_request_iff r = ground (
  arith,
  not_positive_iff r.timestamp,
  not_positive_iff r.version.ccnf,
  not_positive_iff r.version.collapse_engine,
  not_positive_iff r.version.rehydration,
)
