-- ===== src/Gateway/Workload/Files.antt =====
-- What the ConfigMap of a gateway holds.
use vmcp_operator.Base.{
  String, Bool, true, false, not, ◌&&◌, ◌||◌, Option, none, some, List, [], ◌∷◌, ◌==◌, string_eq,
  ◌≡◌, refl, ap, ◌∙◌, any, All, arith, Result, ok, err, ◌>>=◌, ◌>>◌, raise_if, value_error,
  if◌then◌else◌, truthy, strip, replace_char, Bool-cases, inl, inr,
}
use vmcp_operator.Base.Dict.{Dict, lookup, insert, lookup-insert}
use vmcp_operator.Json.{Value, str, Fields, fields, get}
use vmcp_operator.Models.Gateway.{GatewayDesired}
use vmcp_operator.Models.Artifacts.{ArtifactBundle, ArtifactFile}
use vmcp_operator.Config.{render_gateway_config}
use vmcp_operator.Gateway.Filters.{dict_or_empty}
use vmcp_operator.Gateway.Workload.{flatten_files, flatten_configmap_key, configmap, config_map}

-- A path that can become a key.
unfoldable pub is_path : String → Bool
is_path p = p == strip p && truthy p

unfoldable pub key_of : String → String
key_of p = replace_char 47 "__" p

-- The content of the last file whose path becomes the key, or else the default.
unfoldable pub last_file : String → List (String × ArtifactFile) → Option Value → Option Value
last_file k [] default = default
last_file k ((p, file) ∷ files) default =
    last_file k files (if k == key_of p then some (str file.content) else default)

unfoldable pub Fills : Dict Value → List (String × ArtifactFile) → Result (Dict Value) → Type 0
Fills d files (ok cm) =
    All (λ f. is_path f.0 ≡ true) files
    × ((k : String) → lookup k cm ≡ last_file k files (lookup k d))
Fills d files (err e) = any (λ f. not (is_path f.0)) files ≡ true

flatten_configmap_key-eq :
    (p : String)
    → flatten_configmap_key p
      ≡ (if is_path p then ok (key_of p) else err (value_error "artifact path must be non-empty"))
unfolding flatten_configmap_key is_path key_of
flatten_configmap_key-eq p = go (p == strip p) (truthy p)
  where
    go :
        (a b : Bool)
        → (raise_if (not a || not b) (value_error "artifact path must be non-empty")
            >> ok (replace_char 47 "__" p))
          ≡ (if a && b
              then ok (replace_char 47 "__" p)
              else err (value_error "artifact path must be non-empty"))
    go true true = refl
    go true false = refl
    go false b = refl

flatten_files-Fills :
    (d : Dict Value) (files : List (String × ArtifactFile)) → Fills d files (flatten_files d files)
unfolding flatten_files Fills last_file
flatten_files-Fills d [] = (tt, λ k. refl)
flatten_files-Fills d ((p, file) ∷ files) = elim (Bool-cases (is_path p)) [
  | inl e ↦
      rw (flatten_configmap_key-eq p, e)
        (go (flatten_files (insert (key_of p) (str file.content) d) files)
          (flatten_files-Fills (insert (key_of p) (str file.content) d) files) e)
  | inr e ↦ rw (flatten_configmap_key-eq p, e) (rw e refl)
]
  where
    go :
        (r : Result (Dict Value))
        → Fills (insert (key_of p) (str file.content) d) files r
        → is_path p ≡ true
        → Fills d ((p, file) ∷ files) r
    go (ok cm) (all, h) e =
        ((e, all), λ k. h k ∙ ap (last_file k files) (lookup-insert k (key_of p) _ d))
    go (err x) h e = rw e h

get-fields : (d : Dict Value) (k : String) → get (fields d) k ≡ lookup k d
unfolding lookup
get-fields [] k = refl
get-fields ((j, v) ∷ d) k = ground (arith, get-fields d k)

-- The data of a ConfigMap object.
abbrev pub data_of : Fields → String → Option Value
data_of o k = get (dict_or_empty (get o "data")) k

unfoldable pub Holds : GatewayDesired → ArtifactBundle → Result Fields → Type 0
Holds g a (ok o) =
    All (λ f. is_path f.0 ≡ true) a.files
    × ((k : String)
        → data_of o k ≡ (
            if k == "vmcp.toml"
            then some (str (render_gateway_config g))
            else last_file k a.files none))
Holds g a (err e) = any (λ f. not (is_path f.0)) a.files ≡ true

-- Either every path of the bundle is trimmed and not empty, and a key of the ConfigMap holds the
-- gateway's configuration if it is "vmcp.toml" and else the last file whose path becomes the key;
-- or some path is not, and there is an error.
pub configmap-Holds : (g : GatewayDesired) (a : ArtifactBundle) → Holds g a (configmap g a)
unfolding configmap Holds Fills string_eq insert lookup
configmap-Holds g a = go (flatten_files [] a.files) (flatten_files-Fills [] a.files)
  where
    go :
        (r : Result (Dict Value))
        → Fills [] a.files r
        → Holds g a (
            r >>= λ cm. ok (config_map g a (insert "vmcp.toml" (str (render_gateway_config g)) cm)))
    go (ok cm) (all, h) = (
      all,
      λ k.
          get-fields (insert "vmcp.toml" (str (render_gateway_config g)) cm) k
          ∙ lookup-insert k "vmcp.toml" (str (render_gateway_config g)) cm
          ∙ ap
              (λ (v : Option Value).
                if k == "vmcp.toml" then some (str (render_gateway_config g)) else v)
              (h k),
    )
    go (err e) h = h
