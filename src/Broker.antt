-- ===== src/Broker.antt =====
-- src/homeops_ai/write_broker.py: the private broker that captures notes into the vault.
pub mod Note
pub mod NoteLaws
pub mod Filename
pub mod State
pub mod Process
pub mod Handle
pub mod Steps
pub mod Vault
pub mod Life
pub mod Once
pub mod Applied
