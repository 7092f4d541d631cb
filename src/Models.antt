-- ===== src/Models.antt =====
-- python/vmcp_operator/domain/models: the frozen dataclasses, as records.
pub mod Gateway
pub mod Mcp
pub mod Artifacts
