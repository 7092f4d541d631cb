-- ===== src/Nl/Words.antt =====
-- python/vmcp_operator/domain/usecases/nl_crud.py: `_gateway`, `_as_bool` and `_parse_fields`.
use vmcp_operator.Base.{
  String, ◌<>◌, Bool, true, false, ◌&&◌, ◌||◌, ◌-◌, Option, none, some, List, [], ◌∷◌, ◌==◌, ◌≡◌,
  refl, string_eq, if◌then◌else◌, truthy, not, strip, lower, map_chars, translate, has_char,
  split_once, starts_with, ends_with, text_length, take_chars, contains, value_error, Result, ok,
  err, ◌>>=◌,
}
use vmcp_operator.Json.{Value, bool, str, Fields, end, set}
use vmcp_operator.Models.Gateway.{GatewayKey, as_str}
use vmcp_operator.Enqueue.Keys.{split_once-join}

-- The two parts of `raw.split("/", 1)`, as a key.
abbrev pub key_of_parts : Option (String × String) → Result GatewayKey
key_of_parts none = err (value_error "gateway must be namespace/name")
key_of_parts (some (ns, name)) =
    if not (truthy ns) || not (truthy name)
    then err (value_error "gateway must be namespace/name")
    else ok (record { namespace = ns; name = name })

-- `_gateway`
unfoldable pub parse_gateway : String → Result GatewayKey
parse_gateway raw = key_of_parts (split_once 47 raw)

-- `raw.strip().lower()`, on ASCII and on the Cyrillic letters of the words it is compared with.
unfoldable pub spoken : String → String
unfolding map_chars translate
spoken raw = map_chars (translate "ДАНЕТ" "данет") (lower (strip raw))

-- `_as_bool`
unfoldable pub as_bool : String → Result Bool
unfolding spoken
as_bool raw =
    let value = spoken raw in
    if contains ("true" ∷ "1" ∷ "yes" ∷ "да" ∷ "on" ∷ []) value
    then ok true
    else if contains ("false" ∷ "0" ∷ "no" ∷ "нет" ∷ "off" ∷ []) value
    then ok false
    else err (value_error ("invalid boolean `" <> (raw <> "`")))

-- The key as the server's fields spell it.
unfoldable pub field_key : String → String
field_key key =
    if lower key == "forwardidentity"
    then "forwardIdentity"
    else if contains ("enabled" ∷ "url" ∷ "image" ∷ "description" ∷ []) (lower key)
    then lower key
    else key

-- `val[1:-1]`
abbrev inner : String → String
inner String.[] = String.[]
inner (String.◌∷◌ ch s) = take_chars (text_length s - 1) s

-- The value without the quotes around it.
unfoldable pub unquoted : String → String
unquoted val =
    if (starts_with val "\"" && ends_with val "\"") || (starts_with val "'" && ends_with val "'")
    then inner val
    else val

unfoldable pub field_value : String → String → Result Value
unfolding as_bool
field_value key val =
    if contains ("forwardIdentity" ∷ "enabled" ∷ []) key
    then as_bool val >>= (λ b. ok (bool b))
    else ok (str val)

-- The loop over the matches, which writes each field in turn.
unfoldable pub fields_from : Fields → List (String × String) → Result Fields
unfolding field_key unquoted field_value
fields_from d [] = ok d
fields_from d ((key, val) ∷ found) =
    field_value (field_key key) (unquoted val) >>= λ v. fields_from (set d (field_key key) v) found

abbrev nonempty_fields : Fields → Result Fields
nonempty_fields end = err (value_error "update fields must look like key=value pairs")
nonempty_fields d = ok d

-- `_parse_fields`, on the keys and values that `_FIELD` finds.
unfoldable pub parse_fields : List (String × String) → Result Fields
unfolding fields_from
parse_fields found = fields_from end found >>= nonempty_fields

-- A key that has both parts, its namespace without a slash, is read from its text.
pub parse_gateway-as_str :
    (k : GatewayKey)
    → truthy k.namespace ≡ true
    → truthy k.name ≡ true
    → has_char 47 k.namespace ≡ false
    → parse_gateway (as_str k) ≡ ok k
unfolding parse_gateway
parse_gateway-as_str k a b h = rw (split_once-join k.namespace k.name h, a, b) refl
