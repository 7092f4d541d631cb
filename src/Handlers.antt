-- ===== src/Handlers.antt =====
-- python/vmcp_operator/adapters/driving/k8s/handlers.py: what the operator does on an event of the
-- cluster. A handler holds the lock of its gateway, so that it runs as one step. The runtime is that
-- of python/vmcp_operator/adapters/driving/k8s/runtime.py.
pub mod Runtime
pub mod Events
pub mod Gateways
pub mod Servers
pub mod Children
pub mod Refused
pub mod Deleting
pub mod Spared
pub mod Protected
pub mod Established
pub mod Waking
pub mod Pending
