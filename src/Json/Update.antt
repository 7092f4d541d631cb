-- ===== src/Json/Update.antt =====
-- Reading a dict after an assignment.
use vmcp_operator.Base.{
  String, some, ◌==◌, string_eq, ◌≡◌, refl, ap, if◌then◌else◌, arith, List, [], ◌∷◌,
}
use vmcp_operator.Json.{Value, items, to_list, Fields, end, field, get, set}

pub get-set :
    (d : Fields) (k j : String) (v : Value)
    → get (set d k v) j ≡ (if j == k then some v else get d j)
unfolding set
get-set end k j v = refl
get-set (field i w d) k j v = ground (arith, get-set d k j v)

pub get-set_same : (d : Fields) (k : String) (v : Value) → get (set d k v) k ≡ some v
get-set_same d k v = ground (arith, get-set d k k v)

pub set-set : (d : Fields) (k : String) (v w : Value) → set (set d k v) k w ≡ set d k w
unfolding set
set-set end k v w = ground arith
set-set (field j u d) k v w = ground (arith, set-set d k v w)

pub to_list-items : (vs : List Value) → to_list (items vs) ≡ vs
to_list-items [] = refl
to_list-items (v ∷ vs) = ap (λ us. v ∷ us) (to_list-items vs)
