-- ===== src/Mapping/McpBody/Exposures.antt =====
-- A web exposure, written to a spec and read back.
use mathlib.Core.List.{append-nil, append_assoc}
use text.Mathlib.TextEquality.{eq_iff}
use vmcp_operator.Base.{
  String, Bool, true, false, Option, none, some, List, [], ◌∷◌, ◌++◌, map, ◌==◌, string_eq, ◌≡◌,
  refl, sym, ap, ◌∙◌, Result, ok, ◌>>=◌, truthy, if◌then◌else◌, contains, NoDuplicates, arith,
}
use vmcp_operator.Json.{Value, str, obj, Fields, end, field, fields, get, set, dict}
use vmcp_operator.Json.Update.{get-set}
use vmcp_operator.Json.Access.{to_str, to_text?, or_value}
use vmcp_operator.Models.Gateway.{GatewayParentRef}
use vmcp_operator.Models.Mcp.{WebExposureDesired}
use vmcp_operator.Gateway.EarlyStrip.{given_text, section_entry}
use vmcp_operator.Gateway.Routes.{annotations_entry, namespace_entry, text_dict}
use vmcp_operator.McpManifests.Objects.{sort_pairs, text_order}
use vmcp_operator.Mapping.Values as Values
use vmcp_operator.Mapping.Values.{items_of, skill_ref, elements, sorted_entries, fields_of}
use vmcp_operator.Mapping.McpSpec.{web_exposure, optional_ref}
use vmcp_operator.Mapping.McpBody.{text_entry, exposure_value, ref_entry}
use vmcp_operator.Mapping.McpBody.Lists.{to_iter-list, IsGiven, text_entry-given_text}

abbrev RefIsGiven : Option GatewayParentRef → Type 0
RefIsGiven none = Unit
RefIsGiven (some ref) = IsGiven ref.namespace × IsGiven ref.section_name

abbrev pub keys : List (String × String) → List String
keys = map (λ p. p.0)

-- An exposure whose optional texts are not empty and whose annotations are sorted, with distinct
-- keys.
abbrev pub ExposureIsStorable : WebExposureDesired → Type 0
ExposureIsStorable e =
    RefIsGiven e.gateway_ref
    × (sort_pairs text_order e.annotations ≡ e.annotations)
    × NoDuplicates (keys e.annotations)
    × IsGiven e.public_base_url_env

optional_ref-ref_entry :
    (o : Option GatewayParentRef)
    → RefIsGiven o
    → optional_ref (get (fields (ref_entry o)) "gatewayRef") ≡ ok o
unfolding optional_ref string_eq
optional_ref-ref_entry none h = refl
optional_ref-ref_entry (some ref) h = go ref.namespace ref.section_name h
  where
    go :
        (ns sn : Option String)
        → IsGiven ns × IsGiven sn
        → optional_ref (
            some (
              dict
                ((("name", str ref.name) ∷ namespace_entry (given_text ns)) ++ section_entry sn)))
          ≡ ok (some (record { name = ref.name; namespace = ns; section_name = sn }))
    go none none h = refl
    go (some n) none h = rw h.0 refl
    go none (some s) h = rw h.1 refl
    go (some n) (some s) h = rw (h.0, h.1) refl

map-to_str : (ss : List String) → map to_str (map str ss) ≡ ss
map-to_str [] = refl
map-to_str (s ∷ ss) = ap (λ ts. s ∷ ts) (map-to_str ss)

text_entries-set :
    (d : Fields) (k v : String)
    → get d k ≡ none
    → Values.text_entries (set d k (str v)) ≡ Values.text_entries d ++ (k, v) ∷ []
unfolding set
text_entries-set end k v h = refl
text_entries-set (field j w d) k v h = ground (arith, text_entries-set d k v)

items_of-obj : (d : Fields) → items_of (or_value (some (obj d)) (obj end)) ≡ ok d
items_of-obj end = refl
items_of-obj (field k v d) = refl

-- A dict made of pairs whose keys are new and distinct holds them all, in order.
text_entries-text_dict :
    (d : Fields) (a : List (String × String))
    → ((j : String) → contains (keys a) j ≡ true → get d j ≡ none)
    → NoDuplicates (keys a)
    → Values.text_entries (text_dict d a) ≡ Values.text_entries d ++ a
unfolding text_dict
text_entries-text_dict d [] new distinct = sym (append-nil _)
text_entries-text_dict d ((k, v) ∷ a) new distinct =
    text_entries-text_dict (set d k (str v)) a still_new distinct.1
    ∙ ap (λ es. es ++ a) (text_entries-set d k v (new k (ground (arith, eq_iff k k))))
    ∙ append_assoc (Values.text_entries d) ((k, v) ∷ []) a
  where
    still_new : (j : String) → contains (keys a) j ≡ true → get (set d k (str v)) j ≡ none
    still_new j h = ground (arith, get-set d k j (str v), new j, distinct.0, h)

-- The entries that an exposure may lack.
abbrev exposure_tail : WebExposureDesired → List (String × Value)
exposure_tail e =
    ref_entry e.gateway_ref
    ++ (annotations_entry e.annotations
        ++ text_entry "publicBaseUrlEnv" (given_text e.public_base_url_env))

get-url_entry_other :
    (o : Option String) (k : String)
    → (k == "publicBaseUrlEnv") ≡ false
    → get (fields (text_entry "publicBaseUrlEnv" (given_text o))) k ≡ none
get-url_entry_other none k h = refl
get-url_entry_other (some s) k h = go (truthy s)
  where
    go :
        (b : Bool)
        → get (fields (text_entry "publicBaseUrlEnv" (if b then s ∷ [] else []))) k ≡ none
    go true = rw h refl
    go false = refl

get-annotations_other :
    (a : List (String × String)) (rest : List (String × Value)) (k : String)
    → (k == "annotations") ≡ false
    → get (fields (annotations_entry a ++ rest)) k ≡ get (fields rest) k
get-annotations_other [] rest k h = refl
get-annotations_other (x ∷ a) rest k h = rw h refl

get-ref_other :
    (o : Option GatewayParentRef) (rest : List (String × Value)) (k : String)
    → (k == "gatewayRef") ≡ false
    → get (fields (ref_entry o ++ rest)) k ≡ get (fields rest) k
get-ref_other none rest k h = refl
get-ref_other (some ref) rest k h = rw h refl

tail-gateway_ref :
    (e : WebExposureDesired)
    → RefIsGiven e.gateway_ref
    → optional_ref (get (fields (exposure_tail e)) "gatewayRef") ≡ ok e.gateway_ref
unfolding string_eq
tail-gateway_ref e h = ap optional_ref (go e.gateway_ref) ∙ optional_ref-ref_entry e.gateway_ref h
  where
    go :
        (o : Option GatewayParentRef)
        → get
            (fields (
              ref_entry o
              ++ (annotations_entry e.annotations
                  ++ text_entry "publicBaseUrlEnv" (given_text e.public_base_url_env))))
            "gatewayRef"
          ≡ get (fields (ref_entry o)) "gatewayRef"
    go (some ref) = refl
    go none =
        get-annotations_other e.annotations _ "gatewayRef" refl
        ∙ get-url_entry_other e.public_base_url_env "gatewayRef" refl

tail-annotations :
    (e : WebExposureDesired)
    → sort_pairs text_order e.annotations ≡ e.annotations
    → NoDuplicates (keys e.annotations)
    → sorted_entries (fields (exposure_tail e)) "annotations" ≡ ok e.annotations
unfolding string_eq sorted_entries
tail-annotations e h distinct =
    ap sorted (get-ref_other e.gateway_ref _ "annotations" refl)
    ∙ go e.annotations distinct
    ∙ ap ok h
  where
    sorted : Option Value → Result (List (String × String))
    sorted o =
        items_of (or_value o (obj end)) >>= λ d. ok (sort_pairs text_order (Values.text_entries d))

    go :
        (a : List (String × String))
        → NoDuplicates (keys a)
        → sorted (
            get
              (fields (
                annotations_entry a
                ++ text_entry "publicBaseUrlEnv" (given_text e.public_base_url_env)))
              "annotations")
          ≡ ok (sort_pairs text_order a)
    go [] _ = ap sorted (get-url_entry_other e.public_base_url_env "annotations" refl)
    go (x ∷ a) distinct =
        ap (λ r. r >>= λ d. ok (sort_pairs text_order (Values.text_entries d)))
          (items_of-obj (text_dict end (x ∷ a)))
        ∙ ap (λ b. ok (sort_pairs text_order b))
            (text_entries-text_dict end (x ∷ a) (λ j _. refl) distinct)

tail-public_base_url_env :
    (e : WebExposureDesired)
    → IsGiven e.public_base_url_env
    → to_text? (get (fields (exposure_tail e)) "publicBaseUrlEnv") ≡ ok e.public_base_url_env
unfolding string_eq
tail-public_base_url_env e h =
    ap to_text? (
      get-ref_other e.gateway_ref _ "publicBaseUrlEnv" refl
      ∙ get-annotations_other e.annotations _ "publicBaseUrlEnv" refl)
    ∙ text_entry-given_text "publicBaseUrlEnv" e.public_base_url_env h

pub web_exposure-exposure_value :
    (e : WebExposureDesired) → ExposureIsStorable e → web_exposure (exposure_value e) ≡ ok e
unfolding web_exposure exposure_value string_eq
web_exposure-exposure_value e (hr, ha, hd, hu) =
    rw
      (
        to_iter-list (map str e.paths),
        map-to_str e.paths,
        tail-gateway_ref e hr,
        tail-annotations e ha hd,
        tail-public_base_url_env e hu,
      )
      refl
