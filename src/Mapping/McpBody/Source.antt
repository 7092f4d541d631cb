-- ===== src/Mapping/McpBody/Source.antt =====
-- The source of a server, written to a spec and read back.
use vmcp_operator.Base.{
  String, Bool, true, false, not, Option, none, some, List, [], ◌∷◌, map, ◌==◌, string_eq, ◌≡◌,
  refl, sym, ap, ◌∙◌, Result, ok, ◌>>=◌, traverse, truthy, ==-sound, if◌then◌else◌,
}
use vmcp_operator.Json.{Value, num, str, list, obj, fields, get}
use vmcp_operator.Json.Access.{truth, to_iter, to_str, or_value, item_of}
use vmcp_operator.Models.Gateway.{SecretRef, GatewayKey}
use vmcp_operator.Models.Mcp.{
  McpSource, remote_http, container_image, vmcp_proxy, NamedPort, RemoteHttpSource, VmcpProxySource,
  ContainerImageSource,
}
use vmcp_operator.McpManifests.Objects.{container_port, env_var}
use vmcp_operator.ManageMcp.Body.{named_port}
use vmcp_operator.Mapping.Values.{optional_secret_ref, secret_ref}
use vmcp_operator.Mapping.McpSpec.{
  source_of, remote_source, container_source, proxy_source, env_entries, has_item,
}
use vmcp_operator.Mapping.McpBody.{source_fields, bearer_entry, list_entry, peer_entries}
use vmcp_operator.Mapping.McpBody.Lists.{traverse-map_each, to_iter-list, to_iter-list_entry_last}

-- A bearer that is not writable, as the ones of servers are.
abbrev pub IsReadOnly : Option SecretRef → Type 0
IsReadOnly none = Unit
IsReadOnly (some ref) = ref.writable ≡ false

-- What `map_mcp` can give back: a proxy with a path, a port and a peer that are not empty.
unfoldable pub IsStorable : McpSource → Type 0
IsStorable (remote_http s) = IsReadOnly s.bearer_secret_ref
IsStorable (container_image s) = Unit
IsStorable (vmcp_proxy s) =
    IsReadOnly s.bearer_secret_ref
    × (truthy s.peer.name ≡ true)
    × (truthy s.peer.namespace ≡ true)
    × (truthy s.path ≡ true)
    × (truth (num s.port) ≡ true)

secret_ref-bearer :
    (o : Option SecretRef)
    → IsReadOnly o
    → optional_secret_ref (get (fields (bearer_entry o)) "bearerSecretRef") "token" ≡ ok o
unfolding optional_secret_ref secret_ref string_eq
secret_ref-bearer none h = refl
secret_ref-bearer (some ref) h =
    ap (λ w. ok (some (record { name = ref.name; key = ref.key; writable = w }))) (sym h)

ports-elements :
    (ports : List NamedPort) → traverse named_port (map container_port ports) ≡ ok ports
unfolding named_port string_eq
ports-elements ports = traverse-map_each named_port container_port ports (λ p. refl)

env_entries-env_var : (env : List (String × String)) → env_entries (map env_var env) ≡ ok env
unfolding env_entries has_item string_eq
env_entries-env_var [] = refl
env_entries-env_var ((name, value) ∷ env) =
    ap (λ r. r >>= λ es. ok ((name, value) ∷ es)) (env_entries-env_var env)

remote_source-source_fields :
    (ns : String) (s : RemoteHttpSource)
    → IsReadOnly s.bearer_secret_ref
    → remote_source (obj (source_fields ns (remote_http s))) ≡ ok (remote_http s)
unfolding remote_source source_fields string_eq
remote_source-source_fields ns s h =
    ap (λ r. r >>= λ bearer. ok (remote_http (record { url = s.url; bearer_secret_ref = bearer })))
      (secret_ref-bearer s.bearer_secret_ref h)

abbrev env_value : ContainerImageSource → Result (List Value)
env_value s =
    to_iter (or_value (get (fields (list_entry "env" (map env_var s.env))) "env") (list []))

abbrev with_env : ContainerImageSource → List NamedPort → Result (List Value) → Result McpSource
with_env s ports r = r >>= λ raw. env_entries raw >>= λ env. ok (
    container_image
      (record { image = s.image; ports = ports; mcp_endpoint = s.mcp_endpoint; env = env }))

container_source-source_fields :
    (ns : String) (s : ContainerImageSource)
    → container_source (obj (source_fields ns (container_image s))) ≡ ok (container_image s)
unfolding container_source source_fields string_eq
container_source-source_fields ns s =
    ap (λ r. r >>= λ raw. traverse named_port raw >>= λ ports. with_env s ports (env_value s))
      (to_iter-list (map container_port s.ports))
    ∙ ap (λ r. r >>= λ ports. with_env s ports (env_value s)) (ports-elements s.ports)
    ∙ ap (with_env s s.ports) (to_iter-list_entry_last "env" (map env_var s.env))
    ∙ ap (λ r. r >>= λ env. ok (container_image (record s { env = env })))
        (env_entries-env_var s.env)

-- The peer's namespace is left out where it is the server's own, and then read as that.
namespace-peer_entries :
    (ns : String) (peer : GatewayKey)
    → truthy peer.namespace ≡ true
    → to_str (or_value (get (fields (peer_entries ns peer)) "namespace") (str ns)) ≡ peer.namespace
unfolding string_eq
namespace-peer_entries ns peer h = go (peer.namespace == ns) (==-sound peer.namespace ns)
  where
    go :
        (b : Bool)
        → (b ≡ true → peer.namespace ≡ ns)
        → to_str (
            or_value
              (get
                (fields (if not b then ("namespace", str peer.namespace) ∷ [] else []))
                "namespace")
              (str ns))
          ≡ peer.namespace
    go true f = sym (f refl)
    go false f = rw h refl

proxy_source-source_fields :
    (ns : String) (s : VmcpProxySource)
    → IsStorable (vmcp_proxy s)
    → proxy_source ns (obj (source_fields ns (vmcp_proxy s))) ≡ ok (vmcp_proxy s)
unfolding proxy_source source_fields string_eq IsStorable
proxy_source-source_fields ns s (hb, hn, hs, hp, ht) =
    rw (hn, ht, hp, namespace-peer_entries ns s.peer hs)
      (ap (λ r. r >>= λ bearer. ok (vmcp_proxy (record s { bearer_secret_ref = bearer })))
        (secret_ref-bearer s.bearer_secret_ref hb))

abbrev pub type_name : McpSource → String
type_name (remote_http s) = "RemoteHttp"
type_name (container_image s) = "ContainerImage"
type_name (vmcp_proxy s) = "VmcpProxy"

pub item_of-source_fields :
    (ns : String) (s : McpSource)
    → item_of (obj (source_fields ns s)) "type" ≡ ok (str (type_name s))
unfolding source_fields string_eq
item_of-source_fields ns (remote_http s) = refl
item_of-source_fields ns (container_image s) = refl
item_of-source_fields ns (vmcp_proxy s) = refl

-- A source that is storable is read back as it was written.
pub source_of-source_fields :
    (ns : String) (s : McpSource)
    → IsStorable s
    → source_of ns (obj (source_fields ns s)) (str (type_name s)) ≡ ok s
unfolding source_of string_eq IsStorable
source_of-source_fields ns (remote_http s) h = remote_source-source_fields ns s h
source_of-source_fields ns (container_image s) h = container_source-source_fields ns s
source_of-source_fields ns (vmcp_proxy s) h = proxy_source-source_fields ns s h
