-- ===== src/Gateway.antt =====
-- python/vmcp_operator/domain/usecases/render_gateway_manifests.py
pub mod Headers
pub mod Filters
pub mod EarlyStrip
pub mod Env
pub mod Routes
pub mod Workload
pub mod Deployment
pub mod Manifests
