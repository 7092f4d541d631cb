-- ===== src/McpManifests/Objects.antt =====
-- The objects of a managed server: its Deployment with the checksum, its Service, and the
-- HTTPRoute of a web exposure.
use Prim.Native.Nat.{compare, Ordering}
use Prim.Native.String.{compare as compare_text}
use vmcp_operator.Base.{
  String, ◌<>◌, Bool, true, false, Option, none, some, List, [], ◌∷◌, ◌++◌, map, if◌then◌else◌,
  truthy, Result, ok, ◌>>=◌,
}
use vmcp_operator.Base.Integer.{ℤ, pos, negsuc}
use vmcp_operator.Json.{Value, num, str, obj, end, Fields, fields, dict, list, get, set}
use vmcp_operator.Json.Access.{or_value}
use vmcp_operator.Models.Gateway.{GatewayDesired, GatewayParentRef}
use vmcp_operator.Models.Mcp.{McpServerDesired, ContainerImageSource, NamedPort, WebExposureDesired}
use vmcp_operator.Reconcile.{as_dict}
use vmcp_operator.Gateway.Routes.{parent_ref}
use vmcp_operator.Gateway.Workload.{object}

-- `a <= b` on texts, on whole numbers, and on pairs, which Python compares from the left.
abbrev pub text_order : String → String → Ordering
text_order a b = compare_text a b

abbrev pub int_order : ℤ → ℤ → Ordering
int_order (pos m) (pos n) = compare m n
int_order (pos m) (negsuc n) = Ordering.gt
int_order (negsuc m) (pos n) = Ordering.lt
int_order (negsuc m) (negsuc n) = compare n m

abbrev at_most : Ordering → Bool
at_most Ordering.gt = false
at_most _ = true

module _ {A : Type 0} (order : A → A → Ordering) where
  unfoldable pub pair_le : String × A → String × A → Bool
  pair_le (s, a) (t, b) = elim (text_order s t) [
    | Ordering.lt ↦ true
    | Ordering.eq ↦ at_most (order a b)
    | Ordering.gt ↦ false
  ]

  unfoldable pub insert_pair : String × A → List (String × A) → List (String × A)
  unfolding pair_le
  insert_pair p [] = p ∷ []
  insert_pair p (q ∷ qs) =
      let rest = insert_pair p qs in if pair_le p q then p ∷ q ∷ qs else q ∷ rest

  -- `sorted` on a tuple of pairs
  unfoldable pub sort_pairs : List (String × A) → List (String × A)
  unfolding insert_pair
  sort_pairs [] = []
  sort_pairs (p ∷ ps) = insert_pair p (sort_pairs ps)

-- `managed_workload_checksum`
unfoldable pub managed_workload_checksum :
    (Value → String) → String → List (String × String) → List (String × ℤ) → String → String
unfolding sort_pairs
managed_workload_checksum sha256 image env ports mcp_path = sha256 (
    dict (
      ("image", str image)
      ∷ ("env", list (map (λ p. list (str p.0 ∷ str p.1 ∷ [])) (sort_pairs text_order env)))
      ∷ ("ports", list (map (λ p. list (str p.0 ∷ num p.1 ∷ [])) (sort_pairs int_order ports)))
      ∷ ("mcp_path", str mcp_path)
      ∷ []))

-- `annotate_checksum`
unfoldable pub annotate_checksum : Fields → String → Result Fields
unfolding set as_dict
annotate_checksum metadata checksum =
    as_dict (or_value (get metadata "annotations") (obj end)) >>= λ annotations.
    ok (
      set metadata "annotations" (obj (set annotations "vmcp.io/workload-checksum" (str checksum))))

-- `child`
abbrev pub child_name : GatewayDesired → McpServerDesired → String
child_name gateway mcp = gateway.key.name <> ("-" <> mcp.name)

-- `labels`
abbrev pub labels : GatewayDesired → McpServerDesired → Value
labels gateway mcp = dict (
    ("app.kubernetes.io/name", str "vmcp-mcp")
    ∷ ("app.kubernetes.io/instance", str (child_name gateway mcp))
    ∷ ("vmcp.io/gateway", str gateway.key.name)
    ∷ ("vmcp.io/mcp", str mcp.name)
    ∷ [])

abbrev base_url_var : WebExposureDesired → Option String → List (String × String)
base_url_var exposure none = []
base_url_var exposure (some name) =
    if truthy name then (name, "https://" <> exposure.hostname) ∷ [] else []

-- `env`, as names and values: the source's own, and the public URL of each exposure that wants it.
unfoldable pub env_with : List (String × String) → List WebExposureDesired → List (String × String)
env_with env [] = env
env_with env (exposure ∷ exposures) =
    env_with (env ++ base_url_var exposure exposure.public_base_url_env) exposures

abbrev pub child_metadata : GatewayDesired → McpServerDesired → List (String × Value)
child_metadata gateway mcp =
    ("name", str (child_name gateway mcp))
    ∷ ("namespace", str gateway.key.namespace)
    ∷ ("labels", labels gateway mcp)
    ∷ []

abbrev pub container_port : NamedPort → Value
container_port port = dict (
    ("name", str port.name)
    ∷ ("containerPort", num port.container_port)
    ∷ ("protocol", str port.protocol)
    ∷ [])

abbrev pub env_var : String × String → Value
env_var (name, value) = dict (("name", str name) ∷ ("value", str value) ∷ [])

abbrev pub container : ContainerImageSource → List (String × String) → Value
container source env = dict (
    ("name", str "mcp")
    ∷ ("image", str source.image)
    ∷ ("ports", list (map container_port source.ports))
    ∷ ("env", list (map env_var env))
    ∷ [])

-- `deployment`
unfoldable pub deployment :
    GatewayDesired
    → McpServerDesired
    → ContainerImageSource
    → List (String × String)
    → String
    → Result Fields
unfolding annotate_checksum
deployment gateway mcp source env checksum = do
  pod_meta ← annotate_checksum (fields (("labels", labels gateway mcp) ∷ [])) checksum
  meta ← annotate_checksum (fields (child_metadata gateway mcp)) checksum
  ok (
      fields (
        ("apiVersion", str "apps/v1")
        ∷ ("kind", str "Deployment")
        ∷ ("metadata", obj meta)
        ∷ (
          "spec",
          dict (
              ("replicas", num (pos 1))
              ∷ ("selector", dict (("matchLabels", labels gateway mcp) ∷ []))
              ∷ (
                "template",
                dict (
                    ("metadata", obj pod_meta)
                    ∷ ("spec", dict (("containers", list (container source env ∷ [])) ∷ []))
                    ∷ []),
              )
              ∷ []),
        )
        ∷ []))

abbrev pub service_port : NamedPort → Value
service_port port = dict (
    ("name", str port.name)
    ∷ ("port", num port.container_port)
    ∷ ("targetPort", str port.name)
    ∷ [])

-- `service`
unfoldable pub service : GatewayDesired → McpServerDesired → ContainerImageSource → Fields
service gateway mcp source = object "v1" "Service" (child_metadata gateway mcp) (
    (
      "spec",
      dict (
          ("type", str "ClusterIP")
          ∷ ("selector", labels gateway mcp)
          ∷ ("ports", list (map service_port source.ports))
          ∷ []),
    )
    ∷ [])

abbrev pub prefix_match : String → Value
prefix_match path =
    dict (("path", dict (("type", str "PathPrefix") ∷ ("value", str path) ∷ [])) ∷ [])

-- The HTTPRoute of an exposure, at its parent and the number of its port.
unfoldable pub web_route :
    GatewayDesired → McpServerDesired → WebExposureDesired → GatewayParentRef → ℤ → Fields
unfolding parent_ref
web_route gateway mcp exposure parent port =
    object "gateway.networking.k8s.io/v1" "HTTPRoute"
      (("name", str (child_name gateway mcp <> ("-" <> exposure.name)))
        ∷ ("namespace", str gateway.key.namespace)
        ∷ ("labels", labels gateway mcp)
        ∷ (
          "annotations",
          dict (
              ("vmcp.io/web-exposure", str exposure.name)
              ∷ ("vmcp.io/status-independent-of-mcp", str "true")
              ∷ []),
        )
        ∷ [])
      ((
        "spec",
        dict (
            ("parentRefs", list (parent_ref parent ∷ []))
            ∷ ("hostnames", list (str exposure.hostname ∷ []))
            ∷ (
              "rules",
              list (
                  dict (
                    ("matches", list (map prefix_match exposure.paths))
                    ∷ (
                      "backendRefs",
                      list (
                          dict (("name", str (child_name gateway mcp)) ∷ ("port", num port) ∷ [])
                          ∷ []),
                    )
                    ∷ [])
                  ∷ []),
            )
            ∷ []),
      )
        ∷ [])
