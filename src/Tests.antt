-- ===== src/Tests.antt =====
-- Runs of the operations on concrete inputs, and the theorems on them.
mod Fixtures
mod Control
mod Front
mod Cluster
mod Text
mod Objects
mod Specs
mod Handlers
