-- ===== src/CrdCompat/Missing.antt =====
-- A CRD that is reported to lack nothing has every field.
use vmcp_operator.Base.{
  String, Bool, true, false, List, [], ◌∷◌, ◌≡◌, refl, All, ok, >>=-eq-ok, ok-injective,
  if◌then◌else◌, ap, ◌∙◌,
}
use vmcp_operator.Json.{Value}
use vmcp_operator.CrdCompat.{has_path, missing_fields}

nothing_missing-step :
    (found : Bool) (name : String) (rest : List String)
    → (if found then rest else name ∷ rest) ≡ []
    → (found ≡ true) × (rest ≡ [])
nothing_missing-step true name rest h = (refl, h)
nothing_missing-step false name rest h = absurd cc

-- If a part of the schema is reported to lack no required field, then each required path leads
-- through its properties.
pub missing_fields-nil :
    (properties : Value) (prefix : String) (paths : List (List String))
    → missing_fields properties prefix paths ≡ ok []
    → All (λ path. has_path properties path ≡ ok true) paths
unfolding missing_fields
missing_fields-nil properties prefix [] h = tt
missing_fields-nil properties prefix (path ∷ paths) h =
    let (found, e, h2) = >>=-eq-ok (has_path properties path) _ h in
    let (rest, e2, h3) = >>=-eq-ok (missing_fields properties prefix paths) _ h2 in
    let (t, n) = nothing_missing-step found _ rest (ok-injective _ [] h3) in
    (e ∙ ap ok t, missing_fields-nil properties prefix paths (e2 ∙ ap ok n))
