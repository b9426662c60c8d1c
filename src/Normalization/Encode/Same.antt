-- ===== src/Normalization/Encode/Same.antt =====
-- Values that are the same but for the order of the entries of their objects.
use normgate.Prelude.{◌≢◌}
use normgate.Text.{Text}
use normgate.Json.{Value, arr, obj, Items, nil, cons, Fields, end, field}

mutual
  pub data Same : Value → Value → Type 0 where
    same : (v : Value) → Same v v
    back : (v w : Value) → Same v w → Same w v
    onward : (u v w : Value) → Same u v → Same v w → Same u w
    array : (xs ys : Items) → SameItems xs ys → Same (arr xs) (arr ys)
    object : (fs gs : Fields) → SameFields fs gs → Same (obj fs) (obj gs)

  pub data SameItems : Items → Items → Type 0 where
    no_items : SameItems nil nil
    items :
        (x y : Value) (xs ys : Items)
        → Same x y
        → SameItems xs ys
        → SameItems (cons x xs) (cons y ys)

  pub data SameFields : Fields → Fields → Type 0 where
    no_fields : SameFields end end
    entry :
        (k : Text) (v w : Value) (fs gs : Fields)
        → Same v w
        → SameFields fs gs
        → SameFields (field k v fs) (field k w gs)
    swapped :
        (k l : Text) (v w : Value) (fs : Fields)
        → k ≢ l
        → SameFields (field k v (field l w fs)) (field l w (field k v fs))
    chain : (fs gs hs : Fields) → SameFields fs gs → SameFields gs hs → SameFields fs hs
