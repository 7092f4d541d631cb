-- ===== src/Json.antt =====
-- The dynamic values in which Kubernetes objects and request bodies reach the operator:
-- `dict[str, Any]` and what it holds.
pub mod Access
pub mod Update
pub mod Equal
use vmcp_operator.Base.{
  String, Bool, Option, none, some, List, [], ◌∷◌, ◌==◌, string_eq, if◌then◌else◌,
}
use vmcp_operator.Base.Integer.{ℤ}

mutual
  pub data Value : Type 0 where
    null : Value
    bool : Bool → Value
    num : ℤ → Value
    str : String → Value
    arr : Items → Value
    obj : Fields → Value

  -- A dict with string keys, in insertion order.
  pub data Fields : Type 0 where
    end : Fields
    field : String → Value → Fields → Fields

  -- The elements of a list.
  pub data Items : Type 0 where
    nil : Items
    cons : Value → Items → Items

-- `[…]` and `{…}` in the source's text
abbrev pub items : List Value → Items
items [] = nil
items (v ∷ vs) = cons v (items vs)

abbrev pub list : List Value → Value
list vs = arr (items vs)

abbrev pub fields : List (String × Value) → Fields
fields [] = end
fields ((k, v) ∷ rest) = field k v (fields rest)

abbrev pub dict : List (String × Value) → Value
dict kvs = obj (fields kvs)

abbrev pub to_list : Items → List Value
to_list nil = []
to_list (cons v vs) = v ∷ to_list vs

-- `d.get(k)`
abbrev pub get : Fields → String → Option Value
get end k = none
get (field j v d) k = if k == j then some v else get d k

-- `d[k] = v`: an old key keeps its place.
unfoldable pub set : Fields → String → Value → Fields
set end k v = field k v end
set (field j w d) k v = let rest = set d k v in if k == j then field j v d else field j w rest
