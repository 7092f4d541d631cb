-- ===== src/Json/Equal.antt =====
-- Python's `==` on dynamic values.
use Prim.Native.Nat.{ℕ, suc}
use vmcp_operator.Base.{Bool, true, false, ◌&&◌, none, some, ◌==◌, string_eq, eqb}
use vmcp_operator.Base.Integer.{ℤ, pos, negsuc}
use vmcp_operator.Json.{
  Value, null, bool, num, str, arr, obj, Fields, end, field, Items, nil, cons, get,
}

abbrev pub equal_int : ℤ → ℤ → Bool
equal_int (pos m) (pos n) = eqb m n
equal_int (negsuc m) (negsuc n) = eqb m n
equal_int _ _ = false

-- `int(b)`
abbrev pub int_of_bool : Bool → ℤ
int_of_bool true = pos 1
int_of_bool false = pos 0

abbrev pub size : Fields → ℕ
size end = 0
size (field k v d) = suc (size d)

unfoldable mutual
  pub equal : Value → Value → Bool
  equal null null = true
  equal (bool a) (bool b) = equal_int (int_of_bool a) (int_of_bool b)
  equal (bool a) (num n) = equal_int (int_of_bool a) n
  equal (num n) (bool b) = equal_int n (int_of_bool b)
  equal (num m) (num n) = equal_int m n
  equal (str s) (str t) = s == t
  equal (arr vs) (arr ws) = equal_items vs ws
  equal (obj d) (obj e) = eqb (size d) (size e) && equal_fields d e
  equal _ _ = false

  pub equal_items : Items → Items → Bool
  equal_items nil nil = true
  equal_items (cons v vs) (cons w ws) = equal v w && equal_items vs ws
  equal_items _ _ = false

  -- Each field of the first dict stands in the second.
  pub equal_fields : Fields → Fields → Bool
  equal_fields end e = true
  equal_fields (field k v d) e =
      elim (get e k) [ none ↦ false | some w ↦ equal v w ] && equal_fields d e
