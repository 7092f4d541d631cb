-- ===== src/Immutable.antt =====
-- python/vmcp_operator/domain/usecases/immutable.py: the fields of a spec that no update may
-- change. `int(float(text) * factor)` is a parameter: floating point numbers are Python's.
pub mod Kept
use vmcp_operator.Base.{
  ℕ, ◌-◌, ◌^◌, ◌*◌, String, ◌<>◌, Bool, true, false, not, ◌&&◌, Option, none, some, List, [], ◌∷◌,
  ◌++◌, map, ◌==◌, string_eq, if◌then◌else◌, ltb, strip, upper, ends_with, take_chars, text_length,
  Result, ok, err, ◌>>=◌,
}
use vmcp_operator.Base.Integer.{ℤ, pos, negsuc}
use vmcp_operator.Json.{Value, null, str, Fields, get}
use vmcp_operator.Json.Access.{to_str, int_of_str, repr_str}
use vmcp_operator.Json.Equal.{equal}
use vmcp_operator.Gateway.Filters.{dict_or_empty}

pub record ImmutableViolation : Type 0 where
  pub field_path : String
  pub old : String
  pub new : String

-- `ImmutableViolation.reason` and `.message`
abbrev pub reason : ImmutableViolation → String
reason v = "ImmutableField"

unfoldable pub message : ImmutableViolation → String
message v =
    v.field_path <> (" is immutable (" <> (repr_str v.old <> (" → " <> (repr_str v.new <> ")"))))

-- `v is not None`
abbrev pub present : Option Value → Option Value
present none = none
present (some null) = none
present (some v) = some v

-- The comparison of two values that are both there.
unfoldable pub changed_values : String → Option Value → Option Value → List ImmutableViolation
unfolding equal
changed_values path (some v) (some w) =
    if not (equal v w)
    then record { field_path = path; old = to_str v; new = to_str w } ∷ []
    else []
changed_values path _ _ = []

-- The body of the loop over the keys.
abbrev pub changed : Fields → Fields → String → String → List ImmutableViolation
changed old_d new_d key path =
    changed_values path (present (get old_d key)) (present (get new_d key))

abbrev pub less : ℤ → ℤ → Bool
less (pos m) (pos n) = ltb m n
less (pos m) (negsuc n) = false
less (negsuc m) (pos n) = true
less (negsuc m) (negsuc n) = ltb n m

-- `units`
abbrev pub units : List (String × ℕ)
units =
    ("KI", 1024)
    ∷ ("MI", 1048576)
    ∷ ("GI", 1073741824)
    ∷ ("TI", 1099511627776)
    ∷ ("K", 1000)
    ∷ ("M", 1000000)
    ∷ ("G", 1000000000)
    ∷ ("T", 1000000000000)
    ∷ []

module _ (scaled : String → ℕ → Result ℤ) where
  -- The loop over the units.
  unfoldable pub size_in : String → List (String × ℕ) → Result ℤ
  size_in text [] = int_of_str text
  size_in text ((suffix, mult) ∷ rest) =
      let others = size_in text rest in
      if ends_with text suffix
      then scaled (take_chars (text_length text - text_length suffix) text) mult
      else others

  -- `_size_bytes`
  unfoldable pub size_bytes : String → Result ℤ
  unfolding size_in
  size_bytes raw = size_in (upper (strip raw)) units

  -- A volume must not shrink.
  unfoldable pub shrunk : Option Value → Option Value → Result (List ImmutableViolation)
  unfolding size_bytes
  shrunk (some (str old_size)) (some (str new_size)) =
      if old_size == new_size
      then ok []
      else size_bytes new_size >>= (λ new_bytes. size_bytes old_size >>= λ old_bytes. ok (
          if less new_bytes old_bytes
          then record { field_path = "persistence.size"; old = old_size; new = new_size } ∷ []
          else []))
  shrunk _ _ = ok []

  -- `check_gateway_immutables`
  unfoldable pub check_gateway_immutables : Fields → Fields → Result (List ImmutableViolation)
  unfolding changed_values shrunk
  check_gateway_immutables old_spec new_spec =
      let old_p = dict_or_empty (get old_spec "persistence") in
      let new_p = dict_or_empty (get new_spec "persistence") in
      shrunk (get old_p "size") (get new_p "size") >>= λ sizes. ok (
        changed old_p new_p "storageClassName" "persistence.storageClassName"
        ++ (changed old_p new_p "reclaimPolicy" "persistence.reclaimPolicy" ++ sizes))

-- `check_mcp_immutables`
unfoldable pub check_mcp_immutables : Fields → Fields → List ImmutableViolation
unfolding changed_values
check_mcp_immutables old_spec new_spec =
    changed (dict_or_empty (get old_spec "gatewayRef")) (dict_or_empty (get new_spec "gatewayRef"))
      "name" "gatewayRef.name"
