-- ===== src/MeshInit.antt =====
-- subcommand/mesh-init: a task's service and proxy are registered with Consul.
pub mod Merging
pub mod ServiceDefaults
pub mod Passive
pub mod WanPort
pub mod Synced
pub mod Indexed
pub mod Carries
pub mod Naming
pub mod Registration
pub mod Gateway
pub mod Defaults
pub mod Host
pub mod Files
pub mod Run
pub mod Holds
pub mod Ready
pub mod Written
pub mod Ends
pub mod Steps
pub mod Returns
pub mod Joined
pub mod Login
