-- ===== src/Ccnf/Cer/Parse.antt =====
-- `ParseCER` of ccnf/cer.go, on the object that `json.Unmarshal` gives.
use nexus_go_ccnf_ref.Base.{Text, codes, ℤ, pos, Option, none, some, List, [], ◌∷◌}
use nexus_go_ccnf_ref.Value.{
  Value, Items, Fields, null, int, int64, float, str, arr, obj, nil, cons, get, get_string, get_map,
  end, as_string,
}
use nexus_go_ccnf_ref.Value.Platform.{Platform}
use nexus_go_ccnf_ref.Ccnf.Deltas.{StateDelta}
use nexus_go_ccnf_ref.Ccnf.Cer.{Cer, Identity}
use nexus_go_ccnf_ref.Ccnf.Result.{Result, ok, err, structural_parse, ◌>>=◌}

keep_string : Value → List Text → List Text
keep_string (str s) rest = s ∷ rest
keep_string _ rest = rest

strings_of : Items → List Text
strings_of nil = []
strings_of (cons v xs) = keep_string v (strings_of xs)

-- A value of another type gives a nil slice.
unfoldable pub to_string_slice : Option Value → List Text
unfolding strings_of keep_string
to_string_slice (some (arr xs)) = strings_of xs
to_string_slice _ = []

unfoldable pub to_int64 : Platform → Option Value → ℤ
to_int64 p (some (float f)) = p.float_to_int64 f
to_int64 p (some (int n)) = n
to_int64 p (some (int64 n)) = n
to_int64 p _ = pos 0

-- Go ignores the `ok` of a reading, which leaves the zero value: `get_string` and `get_map`.
unfoldable pub parse_identity : Option Value → Result Identity
unfolding to_string_slice
parse_identity (some (obj m)) = ok (record {
  entity_key = get_string (some m) (codes "entity_key");
  kind = get_string (some m) (codes "type");
  scope = get_string (some m) (codes "scope");
  collapse_key = as_string (get m (codes "collapse_key"));
  alias_keys = to_string_slice (get m (codes "alias_keys"));
})
parse_identity _ = err structural_parse

unfoldable pub parse_delta : Value → Result StateDelta
parse_delta (obj m) = ok (record {
  artifact_id = get_string (some m) (codes "artifact_id");
  before_hash = as_string (get m (codes "before_hash"));
  after_hash = get_string (some m) (codes "after_hash");
  patch = get_map (some m) (codes "patch");
})
parse_delta _ = err structural_parse

unfoldable pub parse_deltas : Items → Result (List StateDelta)
unfolding parse_delta
parse_deltas nil = ok []
parse_deltas (cons v xs) = do d ← parse_delta v; ds ← parse_deltas xs; ok (d ∷ ds)

-- Nil, a missing key or a `null`, is no delta.
unfoldable pub parse_state_delta : Option Value → Result (List StateDelta)
unfolding parse_deltas
parse_state_delta (some (arr xs)) = parse_deltas xs
parse_state_delta (some null) = ok []
parse_state_delta none = ok []
parse_state_delta _ = err structural_parse

-- `var m map[string]any` after `json.Unmarshal`: `null` leaves it nil, and any other value that is
-- no object is an error.
unfoldable pub parse_map : Option Value → Result Fields
parse_map (some (obj m)) = ok m
parse_map (some null) = ok end
parse_map _ = err structural_parse

module _ (p : Platform) where
  -- the literal at the end of `ParseCER`
  unfoldable pub parsed : Fields → Identity → List StateDelta → Cer
  unfolding to_int64 to_string_slice
  parsed m i ds = record {
    event_id = get_string (some m) (codes "event_id");
    event_version = to_int64 p (get m (codes "event_version"));
    ccnf_version = to_int64 p (get m (codes "ccnf_version"));
    system = get_string (some m) (codes "system");
    domain = get_string (some m) (codes "domain");
    timestamp = to_int64 p (get m (codes "timestamp"));
    actor = get_map (some m) (codes "actor");
    intent = get_map (some m) (codes "intent");
    identity = i;
    causality = get_map (some m) (codes "causality");
    artifact_refs = to_string_slice (get m (codes "artifact_refs"));
    state_delta = ds;
    payload = get_map (some m) (codes "payload");
    compression = get_map (some m) (codes "compression");
    signature = get_map (some m) (codes "signature");
  }

  unfoldable pub parse_cer : Text → Result Cer
  unfolding parse_identity parse_state_delta parsed parse_map
  parse_cer raw = do
    m ← parse_map (p.unmarshal raw)
    i ← parse_identity (get m (codes "identity"))
    ds ← parse_state_delta (get m (codes "state_delta"))
    ok (parsed m i ds)
