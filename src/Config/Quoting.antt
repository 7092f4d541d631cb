-- ===== src/Config/Quoting.antt =====
-- A quoted text is read back as it was written, by the rules of TOML for basic strings.
use Prim.Native.Char.{Char, code}
use text.Mathlib.TextEquality.{Char-path}
use vmcp_operator.Base.{
  nil-append, cons-append, String, ◌<>◌, Bool, true, false, ◌||◌, Option, none, some, ◌≡◌, refl, ap,
  ◌∙◌, eqb, if◌then◌else◌, replace_char, arith, Bool-cases, inl, inr,
}
use vmcp_operator.Config.{toml_str}

abbrev push : Char → Option (String × String) → Option (String × String)
push c none = none
push c (some (s, rest)) = some (String.◌∷◌ c s, rest)

-- The body of a basic string, up to the quote that ends it: its value and what stands behind it. A
-- backslash must be followed by a quote or a backslash; the other escapes of TOML, and the control
-- characters that TOML forbids here, do not arise from `_toml_str` and count as errors where they
-- are escapes.
unfoldable pub read_basic : Bool → String → Option (String × String)
read_basic escaped String.[] = none
read_basic true (String.◌∷◌ c s) =
    let rest = read_basic false s in
    if eqb (code c) 34 || eqb (code c) 92 then push c rest else none
read_basic false (String.◌∷◌ c s) =
    let literal = read_basic false s in
    let escape = read_basic true s in
    if eqb (code c) 34
    then some (String.[], s)
    else if eqb (code c) 92
    then escape
    else push c literal

append-two :
    (c d : Char) (t : String)
    → (String.◌∷◌ c (String.◌∷◌ d "") <> t) ≡ String.◌∷◌ c (String.◌∷◌ d t)
append-two c d t =
    cons-append c (String.◌∷◌ d "") t
    ∙ ap (String.◌∷◌ c) (cons-append d "" t ∙ ap (String.◌∷◌ d) (nil-append t))

toml_str-backslash :
    (s : String) → toml_str (String.◌∷◌ "\\" s) ≡ String.◌∷◌ "\\" (String.◌∷◌ "\\" (toml_str s))
unfolding toml_str replace_char
toml_str-backslash s = ap (replace_char 34 "\\\"") (append-two "\\" "\\" (replace_char 92 "\\\\" s))

toml_str-quote :
    (s : String) → toml_str (String.◌∷◌ "\"" s) ≡ String.◌∷◌ "\\" (String.◌∷◌ "\"" (toml_str s))
unfolding toml_str replace_char
toml_str-quote s = append-two "\\" "\"" (toml_str s)

toml_str-plain :
    (c : Char) (s : String)
    → eqb (code c) 34 ≡ false
    → eqb (code c) 92 ≡ false
    → toml_str (String.◌∷◌ c s) ≡ String.◌∷◌ c (toml_str s)
unfolding toml_str replace_char
toml_str-plain c s q b = rw (b, q) refl

char_of_code : (c d : Char) → eqb (code c) (code d) ≡ true → c ≡ d
char_of_code c d e = Char-path c d (ground arith)

read_plain :
    (c : Char) (s t : String) (a : String)
    → eqb (code c) 34 ≡ false
    → eqb (code c) 92 ≡ false
    → read_basic false s ≡ some (a, t)
    → read_basic false (String.◌∷◌ c s) ≡ some (String.◌∷◌ c a, t)
unfolding read_basic
read_plain c s t a q b e = rw (q, b, e) refl

read_escape :
    (c : Char) (s t : String) (a : String)
    → (eqb (code c) 34 || eqb (code c) 92) ≡ true
    → read_basic false s ≡ some (a, t)
    → read_basic false (String.◌∷◌ "\\" (String.◌∷◌ c s)) ≡ some (String.◌∷◌ c a, t)
unfolding read_basic
read_escape c s t a q e = rw (q, e) refl

read_escape-append :
    (c : Char) (r u t : String) (a : String)
    → (eqb (code c) 34 || eqb (code c) 92) ≡ true
    → read_basic false (r <> u) ≡ some (a, t)
    → read_basic false (String.◌∷◌ "\\" (String.◌∷◌ c r) <> u) ≡ some (String.◌∷◌ c a, t)
read_escape-append c r u t a q e =
    ap (read_basic false)
      (cons-append "\\" (String.◌∷◌ c r) u ∙ ap (String.◌∷◌ "\\") (cons-append c r u))
    ∙ read_escape c (r <> u) t a q e

read_end : (t : String) → read_basic false ("" <> ("\"" <> t)) ≡ some ("", t)
unfolding read_basic
read_end t =
    ap (read_basic false)
      (nil-append _ ∙ cons-append "\"" "" t ∙ ap (String.◌∷◌ "\"") (nil-append t))

-- What `_toml_str` writes, closed by a quote, reads as the text it was given, and the reader stops
-- exactly at that quote: no text can end its string early.
pub read_basic-toml_str :
    (s t : String) → read_basic false (toml_str s <> ("\"" <> t)) ≡ some (s, t)
unfolding toml_str replace_char
read_basic-toml_str String.[] t = read_end t
read_basic-toml_str (String.◌∷◌ c s) t = elim (Bool-cases (eqb (code c) 34)) [
  | inl q ↦ rw (char_of_code c "\"" q) (
      ap (λ x. read_basic false (x <> ("\"" <> t))) (toml_str-quote s)
      ∙ read_escape-append "\"" (toml_str s) ("\"" <> t) t s refl (read_basic-toml_str s t))
  | inr n ↦ elim (Bool-cases (eqb (code c) 92)) [
    | inl b ↦ rw (char_of_code c "\\" b) (
        ap (λ x. read_basic false (x <> ("\"" <> t))) (toml_str-backslash s)
        ∙ read_escape-append "\\" (toml_str s) ("\"" <> t) t s refl (read_basic-toml_str s t))
    | inr m ↦
        ap (λ x. read_basic false (x <> ("\"" <> t))) (toml_str-plain c s n m)
        ∙ ap (read_basic false) (cons-append c (toml_str s) _)
        ∙ read_plain c (toml_str s <> ("\"" <> t)) t s n m (read_basic-toml_str s t)
  ]
]
