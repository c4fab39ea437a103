-- ===== src/Upserts.antt =====
-- subcommand/controller/command.go: what the controller sets up in Consul before its first pass.
pub mod Env
pub mod Rules
pub mod Policies
pub mod Unique
pub mod Methods
pub mod Bindings
pub mod Anonymous
pub mod Resources
pub mod Merged
pub mod Writes
pub mod Steps
pub mod Safety
pub mod Order
pub mod Run
pub mod Passes
