-- ===== src/Json/Access.antt =====
-- Python's `str`, `bool`, `int`, `[]` and `for` on dynamic values, with the exceptions they raise.
use Prim.Native.Char.{Char, code}
use Prim.Native.Nat.{ℕ, zero, suc, ◌+◌, ◌-◌, ◌*◌, ◌/◌, ◌%◌}
use vmcp_operator.Base.{
  String, ◌<>◌, Bool, true, false, not, ◌&&◌, ◌||◌, Option, none, some, List, [], ◌∷◌, string_eq,
  if◌then◌else◌, ltb, leb, eqb, truthy, has_char, strip, ◌≡◌, refl,
}
use vmcp_operator.Base.{type_error, key_error, value_error, attribute_error, Result, ok, err}
use vmcp_operator.Base.Integer.{ℤ, pos, negsuc, show_ℤ}
use vmcp_operator.Json.{
  Value, null, bool, num, str, arr, obj, Items, nil, cons, Fields, end, field, get, to_list,
}

-- `bool(v)`
abbrev pub truth : Value → Bool
truth null = false
truth (bool b) = b
truth (num (pos zero)) = false
truth (num n) = true
truth (str s) = truthy s
truth (arr nil) = false
truth (arr (cons v vs)) = true
truth (obj end) = false
truth (obj (field k v d)) = true

-- `d.get(k) or v`
abbrev pub or_value : Option Value → Value → Value
or_value none d = d
or_value (some v) d = if truth v then v else d

-- `d.get(k, v)`
abbrev pub or_default : Option Value → Value → Value
or_default none d = d
or_default (some v) d = v

abbrev hex_digit : ℕ → String → String
hex_digit n String.[] = ""
hex_digit zero (String.◌∷◌ c s) = String.◌∷◌ c ""
hex_digit (suc n) (String.◌∷◌ c s) = hex_digit n s

-- One character of `repr(s)` between quotes of the given kind.
escape : ℕ → Char → String
escape quote c =
    let n = code c in
    if eqb n 92
    then "\\\\"
    else if eqb n quote
    then "\\" <> String.◌∷◌ c ""
    else if eqb n 10
    then "\\n"
    else if eqb n 13
    then "\\r"
    else if eqb n 9
    then "\\t"
    else if ltb n 32 || eqb n 127
    then "\\x" <> (hex_digit (n / 16) "0123456789abcdef" <> hex_digit (n % 16) "0123456789abcdef")
    else String.◌∷◌ c ""

escape_all : ℕ → String → String
escape_all quote String.[] = ""
escape_all quote (String.◌∷◌ c s) = escape quote c <> escape_all quote s

-- `repr(s)` of an ASCII text: double quotes where it holds a single quote and no double one.
unfoldable pub repr_str : String → String
unfolding escape escape_all has_char
repr_str s =
    if has_char 39 s && not (has_char 34 s)
    then "\"" <> (escape_all 34 s <> "\"")
    else "'" <> (escape_all 39 s <> "'")

abbrev show_bool : Bool → String
show_bool true = "True"
show_bool false = "False"

-- `repr(v)`
unfoldable mutual
  pub repr : Value → String
  repr null = "None"
  repr (bool b) = show_bool b
  repr (num n) = show_ℤ n
  repr (str s) = repr_str s
  repr (arr vs) = "[" <> (repr_items vs <> "]")
  repr (obj d) = "{" <> (repr_fields d <> "}")

  pub repr_items : Items → String
  repr_items nil = ""
  repr_items (cons v nil) = repr v
  repr_items (cons v (cons w vs)) = repr v <> (", " <> repr_items (cons w vs))

  pub repr_fields : Fields → String
  repr_fields end = ""
  repr_fields (field k v end) = repr_str k <> (": " <> repr v)
  repr_fields (field k v (field j w d)) =
      repr_str k <> (": " <> (repr v <> (", " <> repr_fields (field j w d))))

-- `str(v)`
abbrev pub to_str : Value → String
to_str (str s) = s
to_str v = repr v

-- `v.get(k)` where `v` need not be a dict.
abbrev pub get_of : Value → String → Result (Option Value)
get_of (obj d) k = ok (get d k)
get_of v k = err (attribute_error "get")

-- `d[k]` on a dict
abbrev pub item : Fields → String → Result Value
item d k = elim (get d k) [ none ↦ err (key_error k) | some v ↦ ok v ]

-- `v[k]` where `v` need not be a dict.
abbrev pub item_of : Value → String → Result Value
item_of (obj d) k = item d k
item_of v k = err (type_error "not subscriptable by a string")

-- A digit, an underscore between digits, or neither.
parse_digits : String → Bool → ℕ → Option ℕ
parse_digits String.[] after_digit n = if after_digit then some n else none
parse_digits (String.◌∷◌ c s) after_digit n = elim (leb 48 (code c) && leb (code c) 57) [
  | true ↦ parse_digits s true (n * 10 + (code c - 48))
  | false ↦ elim (eqb (code c) 95 && after_digit) [ true ↦ parse_digits s false n | false ↦ none ]
]

negate : ℕ → ℤ
negate zero = pos zero
negate (suc n) = negsuc n

signed : String → Option ℤ
signed String.[] = none
signed (String.◌∷◌ c s) =
    if eqb (code c) 45
    then elim (parse_digits s false 0) [ none ↦ none | some n ↦ some (negate n) ]
    else if eqb (code c) 43
    then elim (parse_digits s false 0) [ none ↦ none | some n ↦ some (pos n) ]
    else elim (parse_digits (String.◌∷◌ c s) false 0) [ none ↦ none | some n ↦ some (pos n) ]

-- `int(s)` on a text of ASCII digits
unfoldable pub int_of_str : String → Result ℤ
unfolding parse_digits signed negate strip
int_of_str s = elim (signed (strip s)) [
  | none ↦ err (value_error ("invalid literal for int() with base 10: " <> s))
  | some n ↦ ok n
]

-- `int(v)`
abbrev pub to_int : Value → Result ℤ
to_int (num n) = ok n
to_int (bool true) = ok (pos 1)
to_int (bool false) = ok (pos 0)
to_int (str s) = int_of_str s
to_int v = err (type_error "int() argument must be a string or a number")

characters : String → List Value
characters String.[] = []
characters (String.◌∷◌ c s) = str (String.◌∷◌ c "") ∷ characters s

abbrev pub keys : Fields → List Value
keys end = []
keys (field k v d) = str k ∷ keys d

-- `for x in v`
unfoldable pub to_iter : Value → Result (List Value)
unfolding characters
to_iter (arr vs) = ok (to_list vs)
to_iter (obj d) = ok (keys d)
to_iter (str s) = ok (characters s)
to_iter v = err (type_error "object is not iterable")

-- A field that the dataclass declares as `str | None`.
abbrev pub to_text? : Option Value → Result (Option String)
to_text? none = ok none
to_text? (some null) = ok none
to_text? (some (str s)) = ok (some s)
to_text? (some v) = err (type_error "expected a text or None")

repr_runs : repr_str "it's \"\\\n" ≡ "'it\\'s \"\\\\\\n'"
unfolding repr_str
repr_runs = refl

int_runs : int_of_str " -1_024" ≡ ok (negsuc 1023)
unfolding int_of_str
int_runs = refl
