-- ===== src/Value/Platform.antt =====
-- What the sources call and do not implement: SHA-256, Unicode's NFC, JSON parsing, RFC 3339 times,
-- the conversions of floats, and the clock.
use nexus_go_ccnf_ref.Base.{ℕ, Text, ℤ, Option}
use nexus_go_ccnf_ref.Value.{Value}

pub record Platform : Type 0 where
  -- sha256.Sum256, and the digest of a `sha256.New()` after its writes
  pub sum256 : Text → Text
  -- norm.NFC.String
  pub nfc : Text → Text
  -- json.Unmarshal into an `any`; `none` is its error
  pub unmarshal : Text → Option Value
  -- `time.Parse(time.RFC3339, s)` and `t.Unix()`
  pub parse_rfc3339 : Text → Option ℤ
  -- `time.Parse("2006-01-02T15:04:05Z", s)` and `t.Unix()`
  pub parse_zulu : Text → Option ℤ
  -- `strconv.FormatFloat(f, 'f', -1, 64)`
  pub format_float : ℕ → Text
  -- `int64(f)`, `float64(n)`
  pub float_to_int64 : ℕ → ℤ
  pub int64_to_float : ℤ → ℕ
  -- `time.Now().Unix()`
  pub now : ℤ
