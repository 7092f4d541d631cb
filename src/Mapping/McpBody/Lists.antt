-- ===== src/Mapping/McpBody/Lists.antt =====
-- Reading back lists and optional entries of a dict that was written.
use vmcp_operator.Base.{
  String, true, false, Option, none, some, List, [], ◌∷◌, ◌++◌, map, ◌==◌, string_eq, ◌≡◌, refl, ap,
  ◌∙◌, All, All-each, arith, Result, ok, ◌>>=◌, traverse, truthy, if◌then◌else◌,
}
use vmcp_operator.Json.{Value, str, list, fields, get}
use vmcp_operator.Json.Access.{to_iter, or_value, to_text?}
use vmcp_operator.Json.Update.{to_list-items}
use vmcp_operator.Gateway.EarlyStrip.{given_text}
use vmcp_operator.Mapping.McpBody.{list_entry, text_entry}

-- A comprehension reads back what another wrote, if it does so for each element.
pub traverse-map {ℓ κ μ} :
    {A : Type ℓ} {B : Type κ} (P : A → Type μ) (read : B → Result A) (write : A → B) (xs : List A)
    → ((a : A) → P a → read (write a) ≡ ok a)
    → All P xs
    → traverse read (map write xs) ≡ ok xs
unfolding traverse
traverse-map P read write [] h all = refl
traverse-map P read write (x ∷ xs) h all =
    ap (λ r. r >>= λ y. traverse read (map write xs) >>= λ ys. ok (y ∷ ys)) (h x all.0)
    ∙ ap (λ r. r >>= λ ys. ok (x ∷ ys)) (traverse-map P read write xs h all.1)

pub traverse-map_each {ℓ κ} :
    {A : Type ℓ} {B : Type κ} (read : B → Result A) (write : A → B) (xs : List A)
    → ((a : A) → read (write a) ≡ ok a)
    → traverse read (map write xs) ≡ ok xs
traverse-map_each read write xs h =
    traverse-map (λ a. read (write a) ≡ ok a) read write xs (λ a e. e) (All-each _ xs h)

pub get-skip :
    (xs ys : List (String × Value)) (k : String)
    → get (fields xs) k ≡ none
    → get (fields (xs ++ ys)) k ≡ get (fields ys) k
get-skip [] ys k h = refl
get-skip ((j, v) ∷ xs) ys k h = ground (arith, get-skip xs ys k)

pub to_iter-list : (vs : List Value) → to_iter (or_value (some (list vs)) (list [])) ≡ ok vs
unfolding to_iter
to_iter-list [] = refl
to_iter-list (v ∷ vs) = ap ok (to_list-items (v ∷ vs))

get-list_entry :
    (key : String) (v : Value) (rest : List (String × Value))
    → get (fields ((key, v) ∷ rest)) key ≡ some v
get-list_entry key v rest = ground arith

-- A list entry, left out where the list is empty, is read as the list.
pub to_iter-list_entry :
    (key : String) (vs : List Value) (rest : List (String × Value))
    → get (fields rest) key ≡ none
    → to_iter (or_value (get (fields (list_entry key vs ++ rest)) key) (list [])) ≡ ok vs
to_iter-list_entry key [] rest h = ap (λ o. to_iter (or_value o (list []))) h ∙ to_iter-list []
to_iter-list_entry key (v ∷ vs) rest h =
    ap (λ o. to_iter (or_value o (list []))) (get-list_entry key (list (v ∷ vs)) rest)
    ∙ to_iter-list (v ∷ vs)

pub to_iter-list_entry_last :
    (key : String) (vs : List Value)
    → to_iter (or_value (get (fields (list_entry key vs)) key) (list [])) ≡ ok vs
to_iter-list_entry_last key [] = to_iter-list []
to_iter-list_entry_last key (v ∷ vs) = to_iter-list_entry key (v ∷ vs) [] refl

pub get-list_entry_other :
    (key k : String) (vs : List Value)
    → (k == key) ≡ false
    → get (fields (list_entry key vs)) k ≡ none
get-list_entry_other key k [] h = refl
get-list_entry_other key k (v ∷ vs) h = rw h refl

-- An optional text that is not the empty one.
abbrev pub IsGiven : Option String → Type 0
IsGiven none = Unit
IsGiven (some s) = truthy s ≡ true

-- Such a text is written where there is one, and read back.
pub text_entry-given_text :
    (key : String) (o : Option String)
    → IsGiven o
    → to_text? (get (fields (text_entry key (given_text o))) key) ≡ ok o
text_entry-given_text key none h = refl
text_entry-given_text key (some s) h =
    ap (λ b. to_text? (get (fields (text_entry key (if b then s ∷ [] else []))) key)) h
    ∙ ap to_text? (get-list_entry key (str s) [])
