-- ===== src/Value/Same.antt =====
-- Equality of Go values: maps with the same entries are one value, in whatever order they list
-- them.
use nexus_go_ccnf_ref.Base.{Text, ◌≢◌}
use nexus_go_ccnf_ref.Value.{Value, Items, Fields, arr, obj, nil, cons, end, field}

mutual
  pub data Same : Value → Value → Type 0 where
    same : (v : Value) → Same v v
    arrays : {xs ys : Items} → SameItems xs ys → Same (arr xs) (arr ys)
    maps : {fs gs : Fields} → SameFields fs gs → Same (obj fs) (obj gs)

  pub data SameItems : Items → Items → Type 0 where
    no_items : SameItems nil nil
    item :
        {v w : Value} {xs ys : Items}
        → Same v w
        → SameItems xs ys
        → SameItems (cons v xs) (cons w ys)

  -- Two entries of a map have different keys.
  pub data SameFields : Fields → Fields → Type 0 where
    no_fields : SameFields end end
    entry :
        {v w : Value} {fs gs : Fields} (k : Text)
        → Same v w
        → SameFields fs gs
        → SameFields (field k v fs) (field k w gs)
    exchange :
        (j k : Text) (v w : Value) (fs : Fields)
        → j ≢ k
        → SameFields (field j v (field k w fs)) (field k w (field j v fs))
    chain : {fs gs hs : Fields} → SameFields fs gs → SameFields gs hs → SameFields fs hs
