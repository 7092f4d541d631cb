-- ===== src/Lib.antt =====
-- A model of vmcp-operator, the Kubernetes operator that runs vMCP gateways and the MCP servers
-- behind them, and of the rules that keep its catalog, its cluster objects and its rendered texts
-- right. Paths below are from the repository's root.
--
-- The parts of the program and the files that model them. "domain" stands for
-- python/vmcp_operator/domain and "adapters" for python/vmcp_operator/adapters.
--   Models, Models/*      domain/models: the dataclasses as records, the StrEnums as data types.
--   Json, Json/*          dict[str, Any] and what it holds, with Python's bool, str, int and for.
--   Ports, Ports/InMemory domain/ports, and InMemoryMcpCatalog of adapters/driven/k8s/mcp_catalog.py.
--   ManageMcp, ...        domain/usecases/manage_mcp.py: ListMcps, GetMcp, AddMcp, UpdateMcp and
--                         RemoveMcp as list_mcps ... remove_mcp; Checks has _validate_mcp,
--                         _require_gateway and _resolve_vmcp_proxy, Patch apply_mcp_fields, Body
--                         mcp_from_add_body.
--   Nl, Nl/*              domain/usecases/nl_crud.py: execute and _apply; Words has _gateway, _as_bool
--                         and _parse_fields, Parse parse, Structured intent_from_structured.
--   Finalizers, ...       domain/usecases/finalizers.py, and the transforms of
--                         adapters/driving/k8s/finalizer_patch.py that deliver its decisions.
--   Apply, ...            adapters/driven/k8s/ssa.py: server-side apply with retries.
--   Rollout, ...          domain/usecases/connection_strategy.py.
--   Skills, ...           domain/usecases/skills_sync.py.
--   Artifacts, ...        domain/usecases/reconcile_artifacts.py.
--   Config, ...           domain/usecases/render_gateway_config.py.
--   Gateway, Gateway/*    domain/usecases/render_gateway_manifests.py. Headers and Filters: the header
--                         removal and the filters of a route's rule; Routes: _httproute and
--                         _parent_ref; Env: _gateway_env; Workload and Deployment: the other
--                         objects and flatten_configmap_key; Manifests: execute; EarlyStrip:
--                         plan_early_identity_strip.
--   McpManifests, ...     domain/usecases/render_mcp_manifests.py and checksum_rollout.py.
--   Mapping, Mapping/*    adapters/driving/k8s/mapping.py. Values, Routes, Auth: the helpers;
--                         GatewaySpec: map_gateway; McpSpec: map_mcp; McpBody: mcp_to_crd and
--                         mcp_to_public_dict.
--   Immutable, ...        domain/usecases/immutable.py.
--   Handlers/*            adapters/driving/k8s/handlers.py: Gateways has reconcile_gateway, Servers
--                         reconcile_mcp, Children enqueue_from_child, Events what they share;
--                         Runtime is adapters/driving/k8s/runtime.py.
--   Status, ...           adapters/driving/k8s/status_patch.py.
--   RouteStatus, ...      domain/usecases/route_status.py.
--   Ownership, ...        adapters/driving/k8s/ownership.py.
--   Enqueue, ...          adapters/driving/k8s/enqueue.py.
--   Tokens, ...           domain/usecases/issue_use_token.py.
--   Environments          domain/usecases/list_environments.py.
--   CrdCompat, ...        domain/usecases/crd_compat.py.
--   Reconcile, ...        adapters/driving/k8s/reconcile.py: the hop secret, the attachments, and in
--                         Passes the passes over a gateway and over a server.
--   Base, Base/*          what they share: lists, texts, dicts, sorting, results, state passing.
--   Tests, Tests/*        runs on concrete inputs.
--
-- How the parts interact. The use cases of ManageMcp read gateways through GatewayRepository and
-- change servers through McpCatalog; Ports states the laws of a catalog that they rely on, and
-- Ports/InMemory fills them. A handler compares an event with the old spec (Immutable), maps the
-- spec (Mapping), and asks Finalizers whether the object may go. Unless it goes, a pass
-- (Reconcile/Passes) asks Artifacts for the bundle of a gateway, renders its objects (Gateway,
-- McpManifests), attaches owners (Ownership) and applies them (Apply). Status writes down how the
-- pass ended, and the queue of Handlers/Runtime holds the gateways that wait for a pass.
--
-- How code becomes definitions. An exception is an error of Base/Results with its message. A method
-- that changes a state and may raise is an action that returns its result beside the new state, so
-- what was written before a raise stays written. async functions are the sequence of their awaited
-- calls. Python dicts are lists of entries in insertion order with distinct keys; a set is a list
-- whose order is not observed. int is ℤ of Base/Integer. str methods (lower, upper, strip) act on
-- ASCII, which the names of Kubernetes objects and headers are made of. A value outside the type
-- that a dataclass declares, such as a description that is no text, which Python would store as it
-- is, is a type_error here. gateway_key_from_labels and gateway_key_from_owner take dicts and not
-- None, as their only caller passes them. A handler runs under the lock of its gateway and is one
-- step. Parameters stand for the registry renderer and the skill loader, the catalogs and the
-- toucher of the runtime, SHA-256 over JSON, the matches of regular expressions, and
-- int(float(text) * factor) in a size.
--
-- Recursion is on the lists and texts that the code goes through; the loop of ServerSideApply.apply
-- is recursion on the attempts that are left, which start at max_attempts.
--
-- Not modelled: the regular expressions of nl_crud.py, whose groups are parameters of Nl/Parse;
-- and what is input and output only: the kr8s and HTTP clients, the inspection of the CRD at the
-- start, the Kopf registration, the wiring of the runtimes, the dashboard's web routes, the entry
-- point, and the Rust extension.
pub mod Base
pub mod Json
pub mod Models
pub mod Ports
pub mod ManageMcp
pub mod Nl
pub mod McpManifests
pub mod Finalizers
pub mod Apply
pub mod Rollout
pub mod Skills
pub mod Artifacts
pub mod CrdCompat
pub mod Status
pub mod Config
pub mod Environments
pub mod Enqueue
pub mod Tokens
pub mod RouteStatus
pub mod Ownership
pub mod Gateway
pub mod Reconcile
pub mod Mapping
pub mod Immutable
pub mod Handlers
mod Tests
