-- ===== src/Base/Text.antt =====
-- Python's `str` methods, on the ASCII letters and blanks that Kubernetes names and header names
-- are made of.
use Prim.Native.Nat.{ℕ, zero, suc, ◌/◌, ◌%◌}
use Prim.Native.Char.{Char, code}
use Prim.Native.String.{String, ◌++◌}
use Prim.Native.String.append
use mathlib.Core.Path.{◌≡◌, refl}
use mathlib.Core.Bool.{Bool, true, false, ◌&&◌, ◌||◌}
use mathlib.Core.Option.{Option, none, some}
use mathlib.Core.List.{List, [], ◌∷◌}
use vmcp_operator.Base.Equality.{◌==◌, string_eq, if◌then◌else◌, leb, eqb}

-- The test of a text for truth.
abbrev pub truthy : String → Bool
truthy String.[] = false
truthy (String.◌∷◌ c s) = true

abbrev pub same_char : Char → Char → Bool
same_char c d = eqb (code c) (code d)

-- Each character of the first text becomes the one at its place in the second.
unfoldable pub translate : String → String → Char → Char
translate (String.◌∷◌ d ds) (String.◌∷◌ e es) c = if same_char c d then e else translate ds es c
translate _ _ c = c

unfoldable pub map_chars : (Char → Char) → String → String
map_chars f String.[] = String.[]
map_chars f (String.◌∷◌ c s) = String.◌∷◌ (f c) (map_chars f s)

-- `s.lower()`
unfoldable pub lower : String → String
unfolding map_chars translate
lower = map_chars (translate "ABCDEFGHIJKLMNOPQRSTUVWXYZ" "abcdefghijklmnopqrstuvwxyz")

-- `s.upper()`
unfoldable pub upper : String → String
unfolding map_chars translate
upper = map_chars (translate "abcdefghijklmnopqrstuvwxyz" "ABCDEFGHIJKLMNOPQRSTUVWXYZ")

-- Blank, tab, line ends and the separators that `str.strip` removes.
unfoldable pub is_space : Char → Bool
is_space c = (leb 9 (code c) && leb (code c) 13) || (leb 28 (code c) && leb (code c) 32)

unfoldable pub drop_while : (Char → Bool) → String → String
drop_while p String.[] = String.[]
drop_while p (String.◌∷◌ c s) = let rest = drop_while p s in if p c then rest else String.◌∷◌ c s

unfoldable pub drop_while_end : (Char → Bool) → String → String
drop_while_end p String.[] = String.[]
drop_while_end p (String.◌∷◌ c s) =
    let rest = drop_while_end p s in
    if p c && (rest == String.[]) then String.[] else String.◌∷◌ c rest

-- `s.strip()`
unfoldable pub strip : String → String
unfolding drop_while drop_while_end is_space
strip s = drop_while_end is_space (drop_while is_space s)

-- `c in s` for one character, given by its number.
unfoldable pub has_char : ℕ → String → Bool
has_char n String.[] = false
has_char n (String.◌∷◌ c s) = eqb (code c) n || has_char n s

-- `s.replace(c, t)` for one character, given by its number.
unfoldable pub replace_char : ℕ → String → String → String
replace_char n t String.[] = String.[]
replace_char n t (String.◌∷◌ c s) =
    let rest = replace_char n t s in if eqb (code c) n then t ++ rest else String.◌∷◌ c rest

-- `s.split(c, 1)` where `c in s`: what stands before the first `c` and what stands behind it.
unfoldable pub split_once : ℕ → String → Option (String × String)
split_once n String.[] = none
split_once n (String.◌∷◌ c s) =
    let rest = split_once n s in
    if eqb (code c) n
    then some (String.[], s)
    else elim rest [ none ↦ none | some (a, b) ↦ some (String.◌∷◌ c a, b) ]

-- `s.startswith(t)`
unfoldable pub starts_with : String → String → Bool
starts_with s String.[] = true
starts_with String.[] (String.◌∷◌ d t) = false
starts_with (String.◌∷◌ c s) (String.◌∷◌ d t) = same_char c d && starts_with s t

-- `s.endswith(t)`
unfoldable pub ends_with : String → String → Bool
ends_with String.[] t = String.[] == t
ends_with (String.◌∷◌ c s) t = (String.◌∷◌ c s == t) || ends_with s t

-- `len(s)`
unfoldable pub text_length : String → ℕ
text_length String.[] = 0
text_length (String.◌∷◌ c s) = suc (text_length s)

-- `s[:n]`
unfoldable pub take_chars : ℕ → String → String
take_chars zero s = String.[]
take_chars (suc n) String.[] = String.[]
take_chars (suc n) (String.◌∷◌ c s) = String.◌∷◌ c (take_chars n s)

-- `sep.join(parts)`
unfoldable pub join : String → List String → String
join sep [] = String.[]
join sep (s ∷ []) = s
join sep (s ∷ t ∷ rest) = s ++ (sep ++ join sep (t ∷ rest))

abbrev pick : ℕ → String → String
pick n String.[] = String.[]
pick zero (String.◌∷◌ c s) = String.◌∷◌ c String.[]
pick (suc n) (String.◌∷◌ c s) = pick n s

decimal : ℕ → ℕ → String → String
decimal zero n acc = acc
decimal (suc f) n acc =
    let next = pick (n % 10) "0123456789" ++ acc in
    let rest = decimal f (n / 10) next in if eqb (n / 10) 0 then next else rest

-- `str(n)`: a number has fewer digits than its successor counts.
unfoldable pub show_ℕ : ℕ → String
unfolding decimal
show_ℕ n = decimal (suc n) n String.[]

show_ℕ_runs : show_ℕ 65535 ≡ "65535"
unfolding show_ℕ
show_ℕ_runs = refl

strip_runs : strip " \ta b\n" ≡ "a b"
unfolding strip string_eq
strip_runs = refl

lower_runs : lower "X-Vmcp-9" ≡ "x-vmcp-9"
unfolding lower
lower_runs = refl

-- The clauses of `++` on texts, as paths.
pub nil-append : (t : String) → String.[] ++ t ≡ t
nil-append t = λ i. append.nil t i

pub cons-append : (c : Char) (s t : String) → String.◌∷◌ c s ++ t ≡ String.◌∷◌ c (s ++ t)
cons-append c s t = λ i. append.cons c s t i
