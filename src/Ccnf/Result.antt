-- ===== src/Ccnf/Result.antt =====
-- The errors of ccnf/types.go. The text that `fmt.Errorf` adds is no part of them. `no_action` is the
-- error of `DeriveIdentity`, which wraps none of them, and `panic` a failed type assertion.
use nexus_go_ccnf_ref.Base.{Text, codes, [], ◌++◌, ◌≡◌, refl}

pub data Error : Type 0 where
  intent_normalization artifact_resolution delta_scope_violation ccnf_version_mismatch : Error
  structural_parse no_action panic : Error

-- the constants
abbrev pub error_code : Error → Text
error_code intent_normalization = codes "INTENT_NORMALIZATION_FAILURE"
error_code artifact_resolution = codes "ARTIFACT_RESOLUTION_FAILURE"
error_code delta_scope_violation = codes "DELTA_SCOPE_VIOLATION"
error_code ccnf_version_mismatch = codes "CCNF_VERSION_MISMATCH"
error_code structural_parse = codes "STRUCTURAL_PARSE_FAILURE"
error_code no_action = codes "cannot derive identity: no action in intent"
error_code panic = []

-- The text of an error that `Run` returns: the constant, and behind it the detail that the call of
-- `fmt.Errorf` formats, which `DeriveIdentity` has none of.
abbrev pub error_message : Error → Text → Text
error_message no_action detail = error_code no_action
error_message e detail = error_code e ++ (codes ": " ++ detail)

-- What `(T, error)` returns stand for: an error, or a value.
pub data Result {κ} (T : Type κ) : Type κ where
  err : Error → Result T
  ok : T → Result T

-- `if err != nil { return nil, err }`, before the rest of a function
infixl 5 ◌>>=◌
abbrev pub ◌>>=◌ {κ ι} : {T : Type κ} {U : Type ι} → Result T → (T → Result U) → Result U
err failure >>= next = err failure
ok value >>= next = next value

infixl 5 ◌>>◌
abbrev pub ◌>>◌ {κ} : {U : Type κ} → Result (Unit {0}) → Result U → Result U
err failure >> next = err failure
ok done >> next = next

-- A block that succeeds has succeeded at each of its steps.
pub >>=-eq-ok {κ ι} :
    {T : Type κ} {U : Type ι} (step : Result T) (next : T → Result U) {u : U}
    → (step >>= next) ≡ ok u
    → (t : T) × (step ≡ ok t) × (next t ≡ ok u)
>>=-eq-ok (err failure) next e = cc
>>=-eq-ok (ok value) next e = (value, refl, e)

pub >>-eq-ok {κ} :
    {U : Type κ} (check : Result (Unit {0})) (next : Result U) {u : U}
    → (check >> next) ≡ ok u
    → (check ≡ ok tt) × (next ≡ ok u)
>>-eq-ok (err failure) next e = cc
>>-eq-ok (ok tt) next e = (refl, e)
