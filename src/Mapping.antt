-- ===== src/Mapping.antt =====
-- python/vmcp_operator/adapters/driving/k8s/mapping.py: the specs of the cluster's objects as the
-- domain's models, and back.
pub mod Values
pub mod Routes
pub mod Auth
pub mod GatewaySpec
pub mod McpSpec
pub mod McpBody
