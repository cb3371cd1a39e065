-- ===== src/Ccnf/Fuzz.antt =====
-- `SemanticFuzzer` of ccnf/r2.go. The generator of random numbers is given: a state, and `Intn`.
pub mod Events
use nexus_go_ccnf_ref.Base.{
  ℕ, zero, suc, ◌+◌, ◌-◌, ◌*◌, ◌/◌, ◌%◌, Text, codes, ◌==◌, ℤ, pos, negsuc, Option, none, some,
  List, [], ◌∷◌, ◌++◌, if◌then◌else◌, get_elem?, length,
}
use nexus_go_ccnf_ref.Value.{
  text_or_empty, Value, Items, Fields, null, bool, int, float, str, arr, obj, nil, cons, end, field,
  get, put, remove, get_map, get_string, or_empty,
}
use nexus_go_ccnf_ref.Value.Platform.{Platform}
use nexus_go_ccnf_ref.Ccnf.Numerals.{decimal}
use nexus_go_ccnf_ref.Ccnf.Mutate.{or_null_value, permute_map_keys}

-- An index past the end, which would panic, reads as empty; where `Intn` keeps to its bound none is.
abbrev pub pick : List Text → ℕ → Text
pick texts i = text_or_empty (get_elem? texts i)

unfoldable pub zero_digits : ℕ → Text
zero_digits zero = []
zero_digits (suc n) = b'0' ∷ zero_digits n

-- `%0wd`
unfoldable pub padded : ℕ → ℕ → Text
unfolding zero_digits
padded width n = let digits = decimal n in zero_digits (width - length digits) ++ digits

abbrev pub fuzz_actions : List Text
fuzz_actions =
    codes "create"
    ∷ codes "update"
    ∷ codes "delete"
    ∷ codes "execute"
    ∷ codes "validate"
    ∷ codes "emit"
    ∷ []

abbrev pub fuzz_types : List Text
fuzz_types = codes "node" ∷ codes "task" ∷ codes "graph" ∷ codes "workflow" ∷ codes "artifact" ∷ []

abbrev pub fuzz_domains : List Text
fuzz_domains = codes "execution" ∷ codes "specification" ∷ codes "system" ∷ codes "test" ∷ []

-- The draws of `genStandardInput`, in their order.
pub record Draws : Type 0 where
  pub action : ℕ
  pub kind : ℕ
  pub domain : ℕ
  pub actor : ℕ
  pub second : ℕ
  pub chain : ℕ
  pub trace_depth : ℕ

abbrev pub intent_of : Text → Text → Text → Fields
intent_of action typ id = field (codes "action") (str action) (
    field (codes "target_type") (str typ)
      (field (codes "target_id") (str (typ ++ (b':' ∷ id))) end))

-- the state of the generator and `Intn`
module _ {S : Type 0} (p : Platform) (intn : ℕ → S → ℕ × S) where
  abbrev pub draw : S → Draws × S
  draw s0 =
      let (a, s1) = intn 6 s0 in
      let (t, s2) = intn 5 s1 in
      let (d, s3) = intn 4 s2 in
      let (c, s4) = intn 100 s3 in
      let (u, s5) = intn 7776000 s4 in
      let (n, s6) = intn 1000 s5 in
      let (e, s7) = intn 10 s6 in
      (
        record {
          action = a;
          kind = t;
          domain = d;
          actor = c;
          second = u;
          chain = n;
          trace_depth = e;
        },
        s7,
      )

  unfoldable pub standard_of : ℕ → Draws → Fields
  unfolding padded
  standard_of i d =
      let typ = pick fuzz_types d.kind in
      let domain = pick fuzz_domains d.domain in
      field (codes "actor")
        (obj (
          field (codes "type") (str (codes "system")) (
            field (codes "id") (str (codes "fuzzer-" ++ decimal d.actor))
              (field (codes "session_id") (str (codes "sess-" ++ decimal i)) end))))
        (field (codes "intent")
          (obj (intent_of (pick fuzz_actions d.action) typ (typ ++ (b'-' ∷ padded 8 i))))
          (field (codes "payload") (obj (field (codes "data") (obj end) end)) (
            field (codes "domain") (str domain) (
              field (codes "event_id") (str (codes "fuzz-" ++ padded 8 i)) (
                field (codes "timestamp") (float (p.int64_to_float (pos (1713225600 + d.second)))) (
                  field (codes "causality")
                    (obj (
                      field (codes "parent_event_ids") (arr nil) (
                        field (codes "causal_chain_id")
                          (str (codes "chain-" ++ (domain ++ (b'-' ∷ padded 4 d.chain))))
                          (field (codes "trace_depth") (int (pos d.trace_depth)) end))))
                    end))))))

  unfoldable pub gen_standard_input : ℕ → S → Fields × S
  unfolding standard_of
  gen_standard_input i s = let (d, t) = draw s in (standard_of i d, t)

  -- the events of the dimensions, on a standard input
  unfoldable pub null_vs_omission : ℕ → Fields → Fields
  null_vs_omission i base =
      let context =
        if i % 2 == 0 then put base (codes "context") null else remove base (codes "context") in
      if i % 3 == 0 then put context (codes "signature") null else context

  abbrev pub unicode_variants : List Text
  unicode_variants =
      (99 ∷ 97 ∷ 102 ∷ 195 ∷ 169 ∷ [])
      ∷ (99 ∷ 97 ∷ 102 ∷ 101 ∷ 204 ∷ 129 ∷ [])
      ∷ (65 ∷ 204 ∷ 128 ∷ [])
      ∷ (195 ∷ 128 ∷ [])
      ∷ (225 ∷ 184 ∷ 139 ∷ 204 ∷ 167 ∷ [])
      ∷ (225 ∷ 184 ∷ 141 ∷ 204 ∷ 135 ∷ [])
      ∷ []

  unfoldable pub unicode_variant : ℕ → Fields → Fields
  unicode_variant i base = put base (codes "actor") (
      obj (
        put (or_empty (get_map (some base) (codes "actor"))) (codes "id")
          (str (pick unicode_variants (i % 6)))))

  abbrev pub boundaries : List Value
  boundaries =
      float (p.int64_to_float (pos 0))
      ∷ float (p.int64_to_float (negsuc 0))
      ∷ float (p.int64_to_float (pos 86400))
      ∷ float (p.int64_to_float (pos 2147483647))
      ∷ float (p.int64_to_float (pos 1713225600))
      ∷ float (p.int64_to_float (pos 100000000000))
      ∷ float (p.int64_to_float (pos 253402300799))
      ∷ []

  abbrev pub iso_stamps : List Text
  iso_stamps =
      codes "1970-01-01T00:00:00Z"
      ∷ codes "1969-12-31T23:59:59Z"
      ∷ codes "2026-05-16T00:00:00Z"
      ∷ codes "2038-01-19T03:14:07Z"
      ∷ codes "2000-01-01T00:00:00Z"
      ∷ []

  unfoldable pub timestamp_boundary : ℕ → Fields → Fields
  timestamp_boundary i base = put base (codes "timestamp") (
      if i % 2 == 0
      then or_null_value (get_elem? boundaries (i % 7))
      else str (pick iso_stamps (i % 5)))

  -- 1e-10 and pi are given by their bits
  abbrev pub floats : List Value
  floats =
      float (p.int64_to_float (pos 0))
      ∷ float (p.int64_to_float (pos 0))
      ∷ float (p.int64_to_float (pos 10000000000))
      ∷ float 4457293557087583675
      ∷ float (p.int64_to_float (pos 3))
      ∷ float (p.int64_to_float (pos 42))
      ∷ float 4614256656552045848
      ∷ []

  unfoldable pub float_boundary : ℕ → Fields → Fields
  float_boundary i base = put base (codes "_float_test") (or_null_value (get_elem? floats (i % 7)))

  abbrev pub artifact_types : List Text
  artifact_types = codes "node" ∷ codes "edge" ∷ codes "graph" ∷ codes "task" ∷ []

  -- `n` is the number of artifacts left, and `j` the one that is written
  unfoldable pub artifacts_from : ℕ → ℕ → ℕ → Fields → Fields
  artifacts_from i zero j items = items
  artifacts_from i (suc n) j items =
      let typ = pick artifact_types (j % 4) in
      artifacts_from i n (suc j) (
        put items (typ ++ (b':' ∷ (typ ++ (b'-' ∷ (decimal i ++ (b'-' ∷ decimal j)))))) (
          obj (
            field (codes "state") (str (codes "s-" ++ decimal j))
              (field (codes "seq") (int (pos j)) end))))

  unfoldable pub multi_artifact : ℕ → Fields → Fields
  unfolding artifacts_from
  multi_artifact i base =
      put base (codes "payload")
        (obj (field (codes "data") (obj (artifacts_from i (i % 5 + 2) 0 end)) end))

  unfoldable pub aliases_from : Text → ℕ → ℕ → ℕ → Items
  aliases_from domain i zero j = nil
  aliases_from domain i (suc depth) j =
      cons (str (codes "alias:" ++ (domain ++ (b'-' ∷ (decimal i ++ (b'-' ∷ decimal j))))))
        (aliases_from domain i depth (suc j))

  unfoldable pub alias_chain : ℕ → Fields → Fields
  unfolding aliases_from
  alias_chain i base = put base (codes "identity") (
      obj (
        field (codes "collapse_key") (str (codes "ck:chain-" ++ decimal i)) (
          field (codes "alias_keys")
            (arr (aliases_from (get_string (some base) (codes "domain")) i (i % 8 + 1) 0)) end)))

  unfoldable pub build_nested : ℕ → S → Fields × S
  build_nested zero s = (end, s)
  build_nested (suc depth) s =
      let (n, t) = intn 100 s in
      let (inner, u) = build_nested depth t in
      (
        field (codes "lvl_" ++ (decimal (suc depth) ++ (codes "_key_" ++ decimal n))) (obj inner)
            end,
        u,
      )

  unfoldable pub nested_structure : ℕ → Fields × S → Fields × S
  unfolding build_nested
  nested_structure i (base, s) =
      let (nested, t) = build_nested (i % 10 + 1) s in
      (put base (codes "payload") (obj (field (codes "data") (obj nested) end)), t)

  abbrev pub changed : (Fields → Fields) → Fields × S → Fields × S
  changed f (base, s) = (f base, s)

  -- `Generate`, on a dimension
  unfoldable pub generate_in : ℕ → ℕ → Fields × S → Fields × S
  unfolding null_vs_omission unicode_variant timestamp_boundary float_boundary multi_artifact
      alias_chain nested_structure
  generate_in zero i standard = changed permute_map_keys standard
  generate_in (suc zero) i standard = changed (null_vs_omission i) standard
  generate_in (suc (suc zero)) i standard = changed (unicode_variant i) standard
  generate_in (suc (suc (suc zero))) i standard = changed (timestamp_boundary i) standard
  generate_in (suc (suc (suc (suc zero)))) i standard = changed (float_boundary i) standard
  generate_in (suc (suc (suc (suc (suc zero))))) i standard = changed (multi_artifact i) standard
  generate_in (suc (suc (suc (suc (suc (suc zero)))))) i standard = changed (alias_chain i) standard
  generate_in (suc (suc (suc (suc (suc (suc (suc zero))))))) i standard =
      nested_structure i standard
  generate_in (suc (suc (suc (suc (suc (suc (suc (suc n)))))))) i standard = standard

  unfoldable pub generate : ℕ → S → Fields × S
  unfolding generate_in gen_standard_input
  generate i s = generate_in (i % 8) i (gen_standard_input i s)
