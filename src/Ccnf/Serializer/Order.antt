-- ===== src/Ccnf/Serializer/Order.antt =====
-- The canonical text of a value does not depend on the order in which its maps are visited.
use mathlib.Core.Path.{fun_ext}
use nexus_go_ccnf_ref.Base.{
  Text, ◌≡◌, refl, ap, ap₂, ◌∙◌, [], ◌∷◌, ◌++◌, arith, ◌≢◌, text_eq_iff, if◌then◌else◌, some,
  text_eq,
}
use nexus_go_ccnf_ref.Base.Sort.{sort_strings, insert, insert_comm}
use nexus_go_ccnf_ref.Base.Map.{Map, lookup, keys}
use nexus_go_ccnf_ref.Value.{Value, Items, Fields}
use nexus_go_ccnf_ref.Value.Platform.{Platform}
use nexus_go_ccnf_ref.Value.Same.{
  Same, SameItems, SameFields, same, arrays, maps, no_items, item, no_fields, entry, exchange,
  chain,
}
use nexus_go_ccnf_ref.Ccnf.Serializer.{
  encode, encode_items, encode_fields, encode_table, render_map, canonical_json, join_commas,
}

-- What `encodeMap` reads of the encoded entries.
record SameTable (t u : Map Text) : Type 0 where
  sorted : sort_strings (keys t) ≡ sort_strings (keys u)
  reads : (k : Text) → lookup k t ≡ lookup k u

encode_table-SameTable : {t u : Map Text} → SameTable t u → encode_table t ≡ encode_table u
unfolding encode_table
encode_table-SameTable h = ap₂ render_map (fun_ext h.reads) h.sorted

SameTable-entry :
    {t u : Map Text} (k v : Text) → SameTable t u → SameTable ((k, v) ∷ t) ((k, v) ∷ u)
unfolding sort_strings lookup keys
SameTable-entry k v h = record {
  sorted = ap (insert k) h.sorted;
  reads = λ j. ap (λ o. if text_eq k j then some v else o) (h.reads j);
}

SameTable-exchange :
    (j k v w : Text) (t : Map Text) → j ≢ k → SameTable ((j, v) ∷ (k, w) ∷ t) ((k, w) ∷ (j, v) ∷ t)
unfolding sort_strings lookup keys
SameTable-exchange j k v w t d = record {
  sorted = insert_comm j k (sort_strings (keys t));
  reads = λ i. ground (arith, text_eq_iff j i, text_eq_iff k i);
}

module _ (p : Platform) where
  mutual
    unfolding encode

    encode-Same : {v w : Value} → Same v w → encode p v ≡ encode p w
    encode-Same (same v) = refl
    encode-Same (arrays h) =
        ap (λ ts. b'[' ∷ (join_commas ts ++ (b']' ∷ []))) (encode_items-SameItems h)
    encode-Same (maps h) = encode_table-SameTable (encode_fields-SameFields h)

    encode_items-SameItems :
        {xs ys : Items} → SameItems xs ys → encode_items p xs ≡ encode_items p ys
    encode_items-SameItems no_items = refl
    encode_items-SameItems (item h t) = ap₂ ◌∷◌ (encode-Same h) (encode_items-SameItems t)

    encode_fields-SameFields :
        {fs gs : Fields} → SameFields fs gs → SameTable (encode_fields p fs) (encode_fields p gs)
    encode_fields-SameFields no_fields = record { sorted = refl; reads = λ k. refl }
    encode_fields-SameFields (entry k h t) =
        rw (encode-Same h) (SameTable-entry k _ (encode_fields-SameFields t))
    encode_fields-SameFields (exchange j k v w fs d) =
        SameTable-exchange j k (encode p v) (encode p w) (encode_fields p fs) d
    encode_fields-SameFields (chain h t) =
        let a = encode_fields-SameFields h in
        let b = encode_fields-SameFields t in
        record { sorted = a.sorted ∙ b.sorted; reads = λ k. a.reads k ∙ b.reads k }

  -- Equal values have the same canonical text: the order in which maps are visited, at any depth,
  -- does not show.
  pub canonical_json-Same : (v w : Value) → Same v w → canonical_json p v ≡ canonical_json p w
  unfolding canonical_json
  canonical_json-Same v w h = encode-Same h
