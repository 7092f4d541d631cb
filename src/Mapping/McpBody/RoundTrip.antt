-- ===== src/Mapping/McpBody/RoundTrip.antt =====
-- What `mcp_to_crd` writes, `map_mcp` reads.
use vmcp_operator.Base.{
  String, true, false, Option, none, some, List, [], ◌∷◌, ◌++◌, map, arith, ◌==◌, string_eq, ◌≡◌,
  refl, sym, ap, ◌∙◌, All, Result, ok, ◌>>=◌,
}
use vmcp_operator.Json.{Value, list, Fields, fields, get}
use vmcp_operator.Json.Access.{to_iter, to_str, to_text?, or_value, item_of, item}
use vmcp_operator.Models.Gateway.{SkillRef}
use vmcp_operator.Models.Mcp.{McpServerDesired, ToolOverrideDesired}
use vmcp_operator.Mapping.Values.{skill_ref, fields_of}
use vmcp_operator.Mapping.McpSpec.{map_mcp, tool_override, web_exposure}
use vmcp_operator.Mapping.McpBody.{
  mcp_to_crd, spec_fields, list_entry, override_value, skill_value, exposure_value,
  description_entry,
}
use vmcp_operator.Mapping.McpBody.Lists.{
  traverse-map, to_iter-list_entry, to_iter-list_entry_last, IsGiven, text_entry-given_text,
  get-list_entry_other,
}
use vmcp_operator.Mapping.McpBody.Source.{
  IsStorable, item_of-source_fields, source_of-source_fields,
}
use vmcp_operator.Mapping.McpBody.Exposures.{ExposureIsStorable, web_exposure-exposure_value}

-- A server that can be stored without loss: it has its gateway's namespace, a storable source and
-- no optional text that is the empty one.
unfoldable pub ServerIsStorable : McpServerDesired → Type 0
ServerIsStorable m =
    (m.gateway_key.namespace ≡ m.namespace)
    × IsStorable m.source
    × All (λ (o : ToolOverrideDesired). IsGiven o.task_support) m.tool_overrides
    × All (λ (s : SkillRef). IsGiven s.key) m.skill_refs
    × All ExposureIsStorable m.web_exposures

skill_ref-skill_value : (s : SkillRef) → IsGiven s.key → skill_ref (skill_value s) ≡ ok s
unfolding skill_ref skill_value string_eq
skill_ref-skill_value s h =
    ap (λ r. r >>= λ key. ok (record { name = s.name; key = key }))
      (text_entry-given_text "key" s.key h)

tool_override-override_value :
    (o : ToolOverrideDesired) → IsGiven o.task_support → tool_override (override_value o) ≡ ok o
unfolding tool_override override_value string_eq
tool_override-override_value o h =
    ap (λ r. r >>= λ task_support. ok (record o { task_support = task_support }))
      (text_entry-given_text "taskSupport" o.task_support h)

-- The entries that a spec may lack.
abbrev spec_tail : McpServerDesired → List (String × Value)
spec_tail m =
    description_entry m.description
    ++ (list_entry "toolOverrides" (map override_value m.tool_overrides)
        ++ (list_entry "skillRefs" (map skill_value m.skill_refs)
            ++ list_entry "webExposures" (map exposure_value m.web_exposures)))

get-description_other :
    (o : Option String) (rest : List (String × Value)) (k : String)
    → (k == "description") ≡ false
    → get (fields (description_entry o ++ rest)) k ≡ get (fields rest) k
get-description_other none rest k h = refl
get-description_other (some s) rest k h = rw h refl

get-list_other :
    (key : String) (vs : List Value) (rest : List (String × Value)) (k : String)
    → (k == key) ≡ false
    → get (fields (list_entry key vs ++ rest)) k ≡ get (fields rest) k
get-list_other key [] rest k h = refl
get-list_other key (v ∷ vs) rest k h = rw h refl

abbrev listed : Option Value → Result (List Value)
listed o = to_iter (or_value o (list []))

tail-description :
    (m : McpServerDesired) → to_text? (get (fields (spec_tail m)) "description") ≡ ok m.description
unfolding string_eq
tail-description m = go m.description
  where
    go :
        (o : Option String)
        → to_text? (
            get
              (fields (
                description_entry o
                ++ (list_entry "toolOverrides" (map override_value m.tool_overrides)
                    ++ (list_entry "skillRefs" (map skill_value m.skill_refs)
                        ++ list_entry "webExposures" (map exposure_value m.web_exposures)))))
              "description")
          ≡ ok o
    go (some s) = refl
    go none = ap to_text? (
        get-list_other "toolOverrides" (map override_value m.tool_overrides) _ "description" refl
        ∙ get-list_other "skillRefs" (map skill_value m.skill_refs) _ "description" refl
        ∙ get-list_entry_other "webExposures" "description" (map exposure_value m.web_exposures)
            refl)

tail-tool_overrides :
    (m : McpServerDesired)
    → listed (get (fields (spec_tail m)) "toolOverrides") ≡ ok (map override_value m.tool_overrides)
unfolding string_eq
tail-tool_overrides m =
    ap listed (get-description_other m.description _ "toolOverrides" refl)
    ∙ to_iter-list_entry "toolOverrides" (map override_value m.tool_overrides) _ (
        get-list_other "skillRefs" (map skill_value m.skill_refs) _ "toolOverrides" refl
        ∙ get-list_entry_other "webExposures" "toolOverrides" (map exposure_value m.web_exposures)
            refl)

tail-skill_refs :
    (m : McpServerDesired)
    → listed (get (fields (spec_tail m)) "skillRefs") ≡ ok (map skill_value m.skill_refs)
unfolding string_eq
tail-skill_refs m =
    ap listed (
      get-description_other m.description _ "skillRefs" refl
      ∙ get-list_other "toolOverrides" (map override_value m.tool_overrides) _ "skillRefs" refl)
    ∙ to_iter-list_entry "skillRefs" (map skill_value m.skill_refs) _
        (get-list_entry_other "webExposures" "skillRefs" (map exposure_value m.web_exposures) refl)

tail-web_exposures :
    (m : McpServerDesired)
    → listed (get (fields (spec_tail m)) "webExposures") ≡ ok (map exposure_value m.web_exposures)
unfolding string_eq
tail-web_exposures m =
    ap listed (
      get-description_other m.description _ "webExposures" refl
      ∙ get-list_other "toolOverrides" (map override_value m.tool_overrides) _ "webExposures" refl
      ∙ get-list_other "skillRefs" (map skill_value m.skill_refs) _ "webExposures" refl)
    ∙ to_iter-list_entry_last "webExposures" (map exposure_value m.web_exposures)

same-namespace : (a b : String) → a ≡ b → (a == b) ≡ true
same-namespace a b h = ground arith

map_mcp-spec_fields :
    (m : McpServerDesired) → ServerIsStorable m → map_mcp m.namespace m.name (spec_fields m) ≡ ok m
unfolding map_mcp spec_fields string_eq ServerIsStorable
map_mcp-spec_fields m (hg, hs, ho, hk, he) =
    rw
      (
        item_of-source_fields m.namespace m.source,
        source_of-source_fields m.namespace m.source hs,
        tail-description m,
        tail-tool_overrides m,
        traverse-map _ tool_override override_value m.tool_overrides tool_override-override_value
            ho,
        tail-skill_refs m,
        traverse-map _ skill_ref skill_value m.skill_refs skill_ref-skill_value hk,
        tail-web_exposures m,
        traverse-map _ web_exposure exposure_value m.web_exposures web_exposure-exposure_value he,
      )
      (ap
        (λ ns. ok (record m { gateway_key = record { namespace = ns; name = m.gateway_key.name } }))
        (sym hg))

-- How a stored object is read: `map_mcp` on its namespace, its name and its spec.
unfoldable pub read_crd : Fields → Result McpServerDesired
read_crd body = do
  meta ← item body "metadata"
  namespace ← item_of meta "namespace"
  name ← item_of meta "name"
  spec ← item body "spec"
  d ← fields_of spec
  map_mcp (to_str namespace) (to_str name) d

-- A server with its gateway's namespace, a bearer that is not writable, a proxy without empty
-- parts, sorted annotations with distinct keys and no optional text that is empty is written to an
-- object of the cluster, and what is read from that object is the server.
pub read_crd-mcp_to_crd :
    (m : McpServerDesired) → ServerIsStorable m → (mcp_to_crd m >>= read_crd) ≡ ok m
unfolding mcp_to_crd read_crd string_eq ServerIsStorable
read_crd-mcp_to_crd m h =
    rw (same-namespace m.gateway_key.namespace m.namespace h.0) (map_mcp-spec_fields m h)
