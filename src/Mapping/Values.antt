-- ===== src/Mapping/Values.antt =====
-- What the mapping reads from a dict: texts, truth values and numbers with their defaults, and the
-- small references.
use vmcp_operator.Base.{
  String, Bool, false, Option, none, some, List, [], ◌∷◌, if◌then◌else◌, attribute_error, Result,
  ok, err, ◌>>=◌,
}
use vmcp_operator.Base.Integer.{ℤ}
use vmcp_operator.Json.{Value, bool, num, str, obj, end, Fields, field, get, list}
use vmcp_operator.Json.Access.{
  truth, to_str, to_int, to_iter, item_of, or_value, or_default, to_text?,
}
use vmcp_operator.Models.Gateway.{SecretRef, SkillRef}
use vmcp_operator.McpManifests.Objects.{sort_pairs, text_order}

-- A value whose `get` is called.
abbrev pub fields_of : Value → Result Fields
fields_of (obj d) = ok d
fields_of v = err (attribute_error "get")

-- A value whose `items` is called.
abbrev pub items_of : Value → Result Fields
items_of (obj d) = ok d
items_of v = err (attribute_error "items")

-- `d.get(key) or {}`, of which `get` is called.
abbrev pub section : Fields → String → Result Fields
section d key = fields_of (or_value (get d key) (obj end))

-- `str(d.get(key, default))`, `bool(d.get(key, default))` and `int(d.get(key, default))`
abbrev pub text_at : Fields → String → String → String
text_at d key default = to_str (or_default (get d key) (str default))

abbrev pub bool_at : Fields → String → Bool → Bool
bool_at d key default = truth (or_default (get d key) (bool default))

abbrev pub int_at : Fields → String → ℤ → Result ℤ
int_at d key default = to_int (or_default (get d key) (num default))

-- `str(v[key])`
abbrev pub text_of : Value → String → Result String
text_of v key = item_of v key >>= λ w. ok (to_str w)

-- `d.get(key) or ()`, of which the elements are taken.
abbrev pub elements : Fields → String → Result (List Value)
elements d key = to_iter (or_value (get d key) (list []))

abbrev pub text_entries : Fields → List (String × String)
text_entries end = []
text_entries (field k v d) = (k, to_str v) ∷ text_entries d

-- `tuple(sorted((str(k), str(v)) for k, v in (d.get(key) or {}).items()))`
unfoldable pub sorted_entries : Fields → String → Result (List (String × String))
unfolding sort_pairs
sorted_entries d key = items_of (or_value (get d key) (obj end)) >>= λ entries.
    ok (sort_pairs text_order (text_entries entries))

-- `_secret_ref`
unfoldable pub secret_ref : Value → String → Result SecretRef
secret_ref raw default_key = do
  name ← text_of raw "name"
  d ← fields_of raw
  ok (record {
    name = name;
    key = text_at d "key" default_key;
    writable = bool_at d "writable" false;
  })

-- `_secret_ref(v) if v else None`
unfoldable pub optional_secret_ref : Option Value → String → Result (Option SecretRef)
unfolding secret_ref
optional_secret_ref none default_key = ok none
optional_secret_ref (some v) default_key =
    if truth v then secret_ref v default_key >>= (λ ref. ok (some ref)) else ok none

-- `_skill_ref`
unfoldable pub skill_ref : Value → Result SkillRef
skill_ref raw = do
  name ← text_of raw "name"
  d ← fields_of raw
  key ← to_text? (get d "key")
  ok (record { name = name; key = key })
