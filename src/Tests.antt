-- ===== src/Tests.antt =====
-- Tests and concrete runs of the theorems, by part of the program.
mod Deployment
mod Context
mod Retention
mod Inputs
mod Loader
mod Broker
mod Pipeline
mod Commit
mod Snapshot
mod Build
mod Markdown
