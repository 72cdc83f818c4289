-- ===== src/Retention.antt =====
-- src/homeops_ai/retention.py: the dry-run plan that says which deployments, builds and snapshots
-- may be removed. What is read from disk is the argument `Disk`.
pub mod Plan
pub mod Targets
pub mod Safety
pub mod Inputs
pub mod Journal
pub mod Identity
